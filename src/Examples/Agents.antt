-- ===== src/Examples/Agents.antt =====
-- What the agents of a session receive, at concrete inputs.
use nttd.Prelude.{ℕ, ◌≡◌, false, some, List, [], ◌∷◌, ◌==◌, string_eq, filter}
use nttd.Prelude.Dict.{lookup}
use nttd.Prelude.Int.{pos}
use nttd.Agents.Broker.{Call, push, wait, history_of, new_broker, answers}
use nttd.Agents.Apart
use nttd.Agents.Apart.{
  connecting, adding, removing, subscribed, getting, names, answers_to, alone, answers_to-alone,
}
use nttd.Agents.Registry.{AgentRegistration, Subscription, AgentRegistry, entity}
use nttd.Agents.Latest.{promise, answers-new_broker}

abbrev broker_calls : List (Call ℕ)
broker_calls = push 1 ∷ push 2 ∷ wait ∷ wait ∷ push 3 ∷ history_of (pos 2) ∷ history_of (pos 0) ∷ []

answers-new_broker_example :
    answers broker_calls (new_broker 2)
    ≡ some (promise 2 broker_calls (record { all = []; unread = false }))
answers-new_broker_example = answers-new_broker 2 broker_calls

abbrev towns_channel : Subscription
towns_channel = record { channel = "towns"; subscription_type = entity; cadence = pos 1 }

abbrev agent : AgentRegistration
agent = record { agent_id = "one"; name = ""; company_scope = pos 2 ∷ []; subscriptions = [] }

abbrev registry : AgentRegistry
registry = ("two", record agent { agent_id = "two" }) ∷ []

abbrev agent_calls : List Apart.Call
agent_calls =
    connecting agent
    ∷ adding "one" towns_channel
    ∷ adding "two" towns_channel
    ∷ removing "one" "towns"
    ∷ subscribed "two"
    ∷ getting "one"
    ∷ []

answers_to-alone_example :
    answers_to "one" agent_calls registry
    ≡ alone (filter (λ c. names c == "one") agent_calls) (lookup "one" registry)
answers_to-alone_example = answers_to-alone "one" agent_calls registry
