-- ===== src/Agents/Registry.antt =====
-- The connected agents and their subscriptions: src/nttd/state/agent_registry.py and
-- src/nttd/schemas/agent.py. Objects are taken by value.
use nttd.Prelude.{
  ltb, Bool, true, false, not, Option, none, some, String, List, [], ◌∷◌, ◌++◌, map, filter, length,
  ◌==◌, string_eq,
}
use nttd.Prelude.Dict.{Dict, lookup, insert, erase, values}
use nttd.Prelude.Int.{ℤ}

pub data SubscriptionType : Type 0 where
  entity : SubscriptionType
  event : SubscriptionType
  derived : SubscriptionType

pub record Subscription : Type 0 where
  pub channel : String
  pub subscription_type : SubscriptionType
  pub cadence : ℤ

pub record AgentRegistration : Type 0 where
  pub agent_id : String
  pub name : String
  pub company_scope : List ℤ
  pub subscriptions : List Subscription

pub record AgentStatus : Type 0 where
  pub agent_id : String
  pub name : String
  pub connected : Bool
  pub company_scope : List ℤ
  pub subscriptions : List Subscription

abbrev pub AgentRegistry : Type 0
AgentRegistry = Dict String AgentRegistration

unfoldable pub to_status : AgentRegistration → AgentStatus
to_status reg = record {
  agent_id = reg.agent_id;
  name = reg.name;
  connected = true;
  company_scope = reg.company_scope;
  subscriptions = reg.subscriptions;
}

unfoldable pub connect : AgentRegistration → AgentRegistry → AgentRegistry × AgentStatus
connect registration agents =
    (insert registration.agent_id registration agents, to_status registration)

unfoldable pub disconnect : String → AgentRegistry → AgentRegistry × Bool
disconnect agent_id agents =
    (erase agent_id agents, elim (lookup agent_id agents) [ none ↦ false | some reg ↦ true ])

unfoldable pub get : String → AgentRegistry → Option AgentStatus
get agent_id agents = elim (lookup agent_id agents) [
  | none ↦ none
  | some reg ↦ some (to_status reg)
]

unfoldable pub list_agents : AgentRegistry → List AgentStatus
list_agents agents = map to_status (values agents)

unfoldable pub add_subscription : String → Subscription → AgentRegistry → AgentRegistry × Bool
add_subscription agent_id subscription agents = elim (lookup agent_id agents) [
  | none ↦ (agents, false)
  | some reg ↦
      let longer = reg.subscriptions ++ (subscription ∷ []) in
      (insert agent_id (record reg { subscriptions = longer }) agents, true)
]

abbrev pub without : String → List Subscription → List Subscription
without channel = filter (λ s. not (s.channel == channel))

unfoldable pub remove_subscription : String → String → AgentRegistry → AgentRegistry × Bool
remove_subscription agent_id channel agents = elim (lookup agent_id agents) [
  | none ↦ (agents, false)
  | some reg ↦
      let before = length reg.subscriptions in
      let left = without channel reg.subscriptions in
      (insert agent_id (record reg { subscriptions = left }) agents, ltb (length left) before)
]

unfoldable pub get_subscriptions : String → AgentRegistry → List Subscription
get_subscriptions agent_id agents = elim (lookup agent_id agents) [
  | none ↦ []
  | some reg ↦ reg.subscriptions
]
