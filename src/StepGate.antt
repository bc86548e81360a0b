-- ===== src/StepGate.antt =====
-- src/nttd/runtime/step_gate.py with the errors of src/nttd/runtime/step_errors.py: one step at a
-- time, for the one company registered to step. The `await` of `arrive` cuts it into `begin` and
-- `finish`; `advance` is the caller's, a parameter.
pub mod Schedule
use nttd.Prelude.{
  ℕ, suc, Bool, true, false, not, ◌||◌, Option, none, some, List, [], ◌∷◌, ◌==◌, nat_eq,
  if◌then◌else◌,
}
use nttd.Prelude.Distinct.{contains}

pub data StepError : Type 0 where
  not_registered_for_stepping step_already_in_flight : (company_id : ℕ) → StepError

pub record StepGate : Type 0 where
  pub company : Option ℕ
  pub in_flight : Bool
  pub steps : ℕ

unfoldable pub new : StepGate
new = record { company = none; in_flight = false; steps = 0 }

-- A set of at most one company.
unfoldable pub registered : StepGate → List ℕ
registered g = elim g.company [ none ↦ [] | some c ↦ c ∷ [] ]

unfoldable pub register : ℕ → StepGate → StepGate
register company_id g = elim g.company [
  | none ↦ record g { company = some company_id }
  | some c ↦ if not (c == company_id) then g else record g { company = some company_id }
]

unfoldable pub unregister : ℕ → StepGate → StepGate
unregister company_id g = elim g.company [
  | none ↦ g
  | some c ↦ if c == company_id then record g { company = none } else g
]

-- `arrive` up to its `await`.
unfoldable pub begin : ℕ → StepGate → StepGate × Option StepError
unfolding registered contains
begin company_id g =
    if not (contains company_id (registered g))
    then (g, some (not_registered_for_stepping company_id))
    else if g.in_flight
    then (g, some (step_already_in_flight company_id))
    else (record g { in_flight = true }, none)

-- `arrive` from its `await`: the `finally` block, and the count if `advance` returned.
unfoldable pub finish : Bool → StepGate → StepGate
finish returned g =
    let cleared = record g { in_flight = false } in
    if returned then record cleared { steps = suc g.steps } else cleared

-- How the caller's `advance` ends.
pub data Advanced (R X : Type 0) : Type 0 where
  returned : R → Advanced R X
  raised : X → Advanced R X

pub data Arrival (R X : Type 0) : Type 0 where
  refused : StepError → Arrival R X
  ran : Advanced R X → Arrival R X

unfoldable pub did_return : {R X : Type 0} → Advanced R X → Bool
did_return (returned _) = true
did_return (raised _) = false

-- `arrive` with nothing else running while it awaits: `advance` moves a world of its own.
module _ {W B R X : Type 0} (advance : B → W → W × Advanced R X) where
  unfoldable pub arrive : ℕ → B → StepGate × W → (StepGate × W) × Arrival R X
  unfolding begin finish did_return
  arrive company_id batch (g, w) =
      let (entered, error) = begin company_id g in
      let (w', outcome) = advance batch w in
      elim error [
        | some e ↦ ((entered, w), refused e)
        | none ↦ ((finish (did_return outcome) entered, w'), ran outcome)
      ]
