-- ===== src/Agents/Apart.antt =====
-- Agents do not disturb each other in src/nttd/state/agent_registry.py.
use nttd.Prelude.{
  ltb, ◌≤◌, ◌≡◌, sym, string_eq, refl, Bool, true, false, Option, none, some, String, List, [], ◌∷◌,
  ◌++◌, filter, any, length, ◌==◌, if◌then◌else◌, Bool-cases, Option-cases, inl, inr, arith,
  ==-self,
}
use nttd.Prelude.Dict.{lookup, insert, lookup-insert, lookup-erase, lookup-insert_self}
use nttd.Agents.Registry.{
  Subscription, AgentRegistration, AgentStatus, AgentRegistry, to_status, connect, disconnect, get,
  add_subscription, without, remove_subscription, get_subscriptions,
}

-- The calls about one agent.
pub data Call : Type 0 where
  connecting : AgentRegistration → Call
  disconnecting : String → Call
  getting : String → Call
  adding : String → Subscription → Call
  removing : String → String → Call
  subscribed : String → Call

pub data Answer : Type 0 where
  status : Option AgentStatus → Answer
  told : Bool → Answer
  subscribed_to : List Subscription → Answer

unfoldable pub names : Call → String
names (connecting reg) = reg.agent_id
names (disconnecting agent_id) = agent_id
names (getting agent_id) = agent_id
names (adding agent_id s) = agent_id
names (removing agent_id channel) = agent_id
names (subscribed agent_id) = agent_id

unfoldable pub answer : Call → AgentRegistry → AgentRegistry × Answer
answer (connecting reg) r = let (after, s) = connect reg r in (after, status (some s))
answer (disconnecting agent_id) r = let (after, b) = disconnect agent_id r in (after, told b)
answer (getting agent_id) r = (r, status (get agent_id r))
answer (adding agent_id s) r = let (after, b) = add_subscription agent_id s r in (after, told b)
answer (removing agent_id channel) r =
    let (after, b) = remove_subscription agent_id channel r in (after, told b)
answer (subscribed agent_id) r = (r, subscribed_to (get_subscriptions agent_id r))

-- The answers to the calls about one agent, among calls about any.
unfoldable pub answers_to : String → List Call → AgentRegistry → List Answer
answers_to a [] r = []
answers_to a (c ∷ calls) r =
    let (after, first) = answer c r in
    let rest = answers_to a calls after in if names c == a then first ∷ rest else rest

-- One agent alone: its registration while it is connected.
unfoldable pub alone_one : Call → Option AgentRegistration → Option AgentRegistration × Answer
alone_one (connecting reg) o = (some reg, status (some (to_status reg)))
alone_one (disconnecting agent_id) none = (none, told false)
alone_one (disconnecting agent_id) (some reg) = (none, told true)
alone_one (getting agent_id) none = (none, status none)
alone_one (getting agent_id) (some reg) = (some reg, status (some (to_status reg)))
alone_one (adding agent_id s) none = (none, told false)
alone_one (adding agent_id s) (some reg) =
    (some (record reg { subscriptions = reg.subscriptions ++ (s ∷ []) }), told true)
alone_one (removing agent_id channel) none = (none, told false)
alone_one (removing agent_id channel) (some reg) = (
  some (record reg { subscriptions = without channel reg.subscriptions }),
  told (any (λ s. s.channel == channel) reg.subscriptions),
)
alone_one (subscribed agent_id) none = (none, subscribed_to [])
alone_one (subscribed agent_id) (some reg) = (some reg, subscribed_to reg.subscriptions)

unfoldable pub alone : List Call → Option AgentRegistration → List Answer
alone [] o = []
alone (c ∷ calls) o = let (after, first) = alone_one c o in first ∷ alone calls after

length-without :
    (channel : String) (xs : List Subscription) → length (without channel xs) ≤ length xs
unfolding filter
length-without channel [] = omega arith
length-without channel (x ∷ xs) = ground (arith, length-without channel xs)

-- Fewer subscriptions are left exactly when one had the channel.
without_fewer :
    (channel : String) (xs : List Subscription)
    → ltb (length (without channel xs)) (length xs) ≡ any (λ s. s.channel == channel) xs
unfolding filter any
without_fewer channel [] = ground arith
without_fewer channel (x ∷ xs) = elim (Bool-cases (x.channel == channel)) [
  | inl same ↦ ground (arith, length-without channel xs)
  | inr other ↦ ground (arith, without_fewer channel xs)
]

add_unknown :
    (b : String) (s : Subscription) (r : AgentRegistry)
    → lookup b r ≡ none
    → add_subscription b s r ≡ (r, false)
unfolding add_subscription
add_unknown b s r gone = rw (gone, add_subscription) refl

add_known :
    (b : String) (s : Subscription) (reg : AgentRegistration) (r : AgentRegistry)
    → lookup b r ≡ some reg
    → add_subscription b s r
      ≡ (insert b (record reg { subscriptions = reg.subscriptions ++ (s ∷ []) }) r, true)
unfolding add_subscription
add_known b s reg r found = rw (found, add_subscription) refl

remove_unknown :
    (b channel : String) (r : AgentRegistry)
    → lookup b r ≡ none
    → remove_subscription b channel r ≡ (r, false)
unfolding remove_subscription
remove_unknown b channel r gone = rw (gone, remove_subscription) refl

remove_known :
    (b channel : String) (reg : AgentRegistration) (r : AgentRegistry)
    → lookup b r ≡ some reg
    → remove_subscription b channel r ≡ (
      insert b (record reg { subscriptions = without channel reg.subscriptions }) r,
      any (λ s. s.channel == channel) reg.subscriptions,
    )
unfolding remove_subscription
remove_known b channel reg r found =
    rw (found, remove_subscription, without_fewer channel reg.subscriptions) refl

disconnect_known :
    (b : String) (r : AgentRegistry)
    → (disconnect b r).1 ≡ elim (lookup b r) [ none ↦ false | some reg ↦ true ]
unfolding disconnect
disconnect_known b r = refl

answer_other :
    (a : String) (c : Call) (r : AgentRegistry)
    → (names c == a) ≡ false
    → lookup a (answer c r).0 ≡ lookup a r
unfolding answer names connect disconnect
answer_other a (connecting reg) r other = rw (lookup-insert, other) refl
answer_other a (disconnecting b) r other = rw (lookup-erase, other) refl
answer_other a (getting b) r other = refl
answer_other a (adding b s) r other = elim (Option-cases (lookup b r)) [
  | inl gone ↦ rw (add_unknown b s r gone) refl
  | inr (reg, found) ↦ rw (add_known b s reg r found, lookup-insert, other) refl
]
answer_other a (removing b channel) r other = elim (Option-cases (lookup b r)) [
  | inl gone ↦ rw (remove_unknown b channel r gone) refl
  | inr (reg, found) ↦ rw (remove_known b channel reg r found, lookup-insert, other) refl
]
answer_other a (subscribed b) r other = refl

answer_own :
    (c : Call) (r : AgentRegistry)
    → (lookup (names c) (answer c r).0, (answer c r).1) ≡ alone_one c (lookup (names c) r)
unfolding answer names connect disconnect get get_subscriptions alone_one
answer_own (connecting reg) r = rw (lookup-insert_self reg.agent_id reg r) refl
answer_own (disconnecting b) r = elim (Option-cases (lookup b r)) [
  | inl gone ↦ rw (lookup-erase, ==-self b, disconnect_known b r, gone, alone_one) refl
  | inr (reg, found) ↦ rw (lookup-erase, ==-self b, disconnect_known b r, found, alone_one) refl
]
answer_own (getting b) r = elim (Option-cases (lookup b r)) [
  | inl gone ↦ rw (gone, get, alone_one) refl
  | inr (reg, found) ↦ rw (found, get, alone_one) refl
]
answer_own (adding b s) r = elim (Option-cases (lookup b r)) [
  | inl gone ↦ rw (add_unknown b s r gone, gone, alone_one) refl
  | inr (reg, found) ↦ rw (add_known b s reg r found, lookup-insert_self, found, alone_one) refl
]
answer_own (removing b channel) r = elim (Option-cases (lookup b r)) [
  | inl gone ↦ rw (remove_unknown b channel r gone, gone, alone_one) refl
  | inr (reg, found) ↦
      rw (remove_known b channel reg r found, lookup-insert_self, found, alone_one) refl
]
answer_own (subscribed b) r = elim (Option-cases (lookup b r)) [
  | inl gone ↦ rw (gone, get_subscriptions, alone_one) refl
  | inr (reg, found) ↦ rw (found, get_subscriptions, alone_one) refl
]

-- Whatever other agents do in between, the calls about an agent are answered as if it were alone: from
-- its own registration, which its connections, disconnections and subscriptions make.
pub answers_to-alone :
    (a : String) (calls : List Call) (r : AgentRegistry)
    → answers_to a calls r ≡ alone (filter (λ c. names c == a) calls) (lookup a r)
unfolding answers_to alone filter
answers_to-alone a [] r = refl
answers_to-alone a (c ∷ calls) r =
    let rest = answers_to-alone a calls (answer c r).0 in
    elim (Bool-cases (names c == a)) [
      | inr other ↦ rw (other, rest, answer_other a c r other) refl
      | inl own ↦
          let same : names c ≡ a = ground (arith, string_eq.same_iff (names c) a) in
          let step : (lookup a (answer c r).0, (answer c r).1) ≡ alone_one c (lookup a r) =
            rw (sym same) (answer_own c r) in
          rw (own, rest, sym step) refl
    ]
