-- ===== src/StepGate/Schedule.antt =====
-- Every interleaving of the calls on a gate: what src/nttd/runtime/step_gate.py promises of two
-- calls that overlap.
use nttd.Prelude.{ℕ, suc, ◌-◌, ◌≤◌, ◌<◌, ◌≡◌, ◌↔◌, ◌⊎◌, true, false, none, some, arith, nat_eq}
use nttd.Prelude.Distinct.{contains}
use nttd.StepGate.{
  StepError, StepGate, new, registered, register, unregister, begin, finish, Advanced, ran, arrive,
}

-- The gate, the calls that wait in their `await`, and how many of them returned so far.
pub record System : Type 0 where
  pub gate : StepGate
  pub running : ℕ
  pub returns : ℕ

pub data Step : System → System → Type 0 where
  registers :
      (s : System) (company_id : ℕ) → Step s (record s { gate = register company_id s.gate })
  unregisters :
      (s : System) (company_id : ℕ) → Step s (record s { gate = unregister company_id s.gate })
  is_refused :
      (s : System) (company_id : ℕ) (e : StepError)
      → (begin company_id s.gate).1 ≡ some e
      → Step s (record s { gate = (begin company_id s.gate).0 })
  enters :
      (s : System) (company_id : ℕ)
      → (begin company_id s.gate).1 ≡ none
      → Step s (record s { gate = (begin company_id s.gate).0; running = suc s.running })
  returns_from :
      (s : System)
      → 0 < s.running
      → Step s
          (record s { gate = finish true s.gate; running = s.running - 1; returns = suc s.returns })
  raises_from :
      (s : System)
      → 0 < s.running
      → Step s (record s { gate = finish false s.gate; running = s.running - 1 })

abbrev pub start : System
start = record { gate = new; running = 0; returns = 0 }

pub data Reach : System → Type 0 where
  here : Reach start
  next : {s t : System} → Reach s → Step s t → Reach t

pub record IsSerial (s : System) : Type 0 where
  pub one_at_most : s.running ≤ 1
  pub flag : (s.gate.in_flight ≡ true) ⊎ (s.running ≡ 0)
  pub busy : s.gate.in_flight ≡ true → s.running ≡ 1
  pub counted : s.gate.steps ≡ s.returns

Step-IsSerial : {s t : System} → Step s t → IsSerial s → IsSerial t
unfolding register unregister begin finish
Step-IsSerial (registers s c) h = ground arith
Step-IsSerial (unregisters s c) h = ground arith
Step-IsSerial (is_refused s c e why) h = ground arith
Step-IsSerial (enters s c admitted) h = ground arith
Step-IsSerial (returns_from s busy) h = ground arith
Step-IsSerial (raises_from s busy) h = ground arith

-- However the calls interleave, at most one advance is in flight, the flag of the gate says
-- whether one is, and the step count is the number of advances that returned.
pub Reach-IsSerial : {s : System} → Reach s → IsSerial s
unfolding new
Reach-IsSerial here = ground arith
Reach-IsSerial (next r st) = Step-IsSerial st (Reach-IsSerial r)

-- In every reachable state, a call is admitted exactly when its company is the registered one and no
-- advance is in flight.
begin_admits :
    {s : System} (company_id : ℕ)
    → Reach s
    → ((begin company_id s.gate).1 ≡ none) ↔ ((s.gate.company ≡ some company_id) × (s.running ≡ 0))
unfolding begin registered contains
begin_admits {s} company_id r = let serial = Reach-IsSerial r in ground arith

module _ {W B R X : Type 0} (advance : B → W → W × Advanced R X) where
  -- A failed advance does not refuse the next step: with a registered company and no step in
  -- flight, `arrive` runs `advance` once and leaves the gate open, whether it returned or raised.
  arrive_reopens :
      (company_id : ℕ) (batch : B) (g : StepGate) (w : W)
      → g.company ≡ some company_id
      → g.in_flight ≡ false
      → let ((g', w'), outcome) = arrive advance company_id batch (g, w) in
        (g'.in_flight ≡ false)
        × (g'.company ≡ some company_id)
        × (w' ≡ (advance batch w).0)
        × (outcome ≡ ran (advance batch w).1)
  unfolding arrive
  arrive_reopens company_id batch g w r f = ground arith
