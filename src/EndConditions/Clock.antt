-- ===== src/EndConditions/Clock.antt =====
-- The scored clock, the heartbeat budget and the cargo total of
-- src/nttd/runtime/end_conditions.py over several calls.
use nttd.Prelude.{
  ℕ, suc, nat_eq, ◌+◌, ◌-◌, ◌≡◌, refl, true, false, Option, List, [], ◌∷◌, arith, Bool-cases, inl,
  inr,
}
use nttd.Prelude.Dict.{Dict, lookup, insert}
use nttd.Prelude.Int.{ℤ, pos, ◌+ℤ◌, ◌-ℤ◌, ◌≤ℤ◌, max_ℤ, int_laws}
use nttd.EndConditions.{
  start_clock, start_clock_from, Company, StateSnapshot, EndConditionChecker, clock_started, reset,
  prev_or, accumulate_cargo, update_cargo, evaluate_all, check, game_days_remaining,
}

-- The clock starts once: a second start changes nothing and reports that it started no clock, the
-- clock counts as started in between, and after a reset a start reports that it started the clock.
start_clock_once :
    (first later : ℕ) (date date' : Option ℤ) (c : EndConditionChecker)
    → let started = (start_clock first date c).0 in
      (start_clock later date' started ≡ (started, false))
      × (clock_started started ≡ true)
      × ((start_clock first date (reset c)).1 ≡ true)
unfolding start_clock clock_started reset
start_clock_once first later date date' c = ground arith

pub start_clock-heartbeat_count :
    (now : ℕ) (game_date : Option ℤ) (c : EndConditionChecker)
    → (start_clock now game_date c).0.heartbeat_count ≡ c.heartbeat_count
unfolding start_clock start_clock_from
start_clock-heartbeat_count now game_date c = ground arith

-- A run of checks, one per clock reading and snapshot.
pub check_all_of : List (ℕ × StateSnapshot) → EndConditionChecker → EndConditionChecker
check_all_of [] c = c
check_all_of ((now, snapshot) ∷ rest) c = check_all_of rest (check now snapshot c).0

abbrev pub rounds : List (ℕ × StateSnapshot) → ℕ
rounds [] = 0
rounds (x ∷ xs) = suc (rounds xs)

pub check-fields :
    (now : ℕ) (snapshot : StateSnapshot) (c : EndConditionChecker)
    → ((check now snapshot c).0.config ≡ c.config)
      × ((check now snapshot c).0.heartbeat_count ≡ suc c.heartbeat_count)
      × ((check now snapshot c).0.start_time ≡ c.start_time)
unfolding check evaluate_all update_cargo
check-fields now snapshot c = elim (Bool-cases c.config.cargo_threshold.enabled) [
  | inl on ↦ rw on (refl, refl, refl)
  | inr off ↦ rw off (refl, refl, refl)
]

check_all_of-fields :
    (beats : List (ℕ × StateSnapshot)) (c : EndConditionChecker)
    → ((check_all_of beats c).config ≡ c.config)
      × ((check_all_of beats c).heartbeat_count ≡ c.heartbeat_count + rounds beats)
      × ((check_all_of beats c).start_time ≡ c.start_time)
unfolding check_all_of
check_all_of-fields [] c = (refl, omega arith, refl)
check_all_of-fields ((now, snapshot) ∷ rest) c =
    let next = (check now snapshot c).0 in
    let (config, count, start) = check-fields now snapshot c in
    let (configs, counts, starts) = check_all_of-fields rest next in (cc, omega arith, cc)

-- With the heartbeat limit enabled at `days`, a checker that has counted no heartbeat has `days - n`
-- days left after n checks, and none after `days` checks or more.
game_days_remaining-check :
    (beats : List (ℕ × StateSnapshot)) (c : EndConditionChecker) (days : ℕ)
    → c.config.max_heartbeats.enabled ≡ true
    → c.config.max_heartbeats.count ≡ pos days
    → c.heartbeat_count ≡ 0
    → game_days_remaining (check_all_of beats c) ≡ pos (days - rounds beats)
unfolding game_days_remaining
game_days_remaining-check beats c days on bound fresh =
    let (config, count, _) = check_all_of-fields beats c in ground arith

delta-nonneg : (income prev : ℤ) → pos 0 ≤ℤ max_ℤ (pos 0) (income -ℤ prev)
unfolding max_ℤ
delta-nonneg income prev = ground arith

accumulate_cargo-mono :
    (companies : List Company) (delivered : ℤ) (prev : Dict ℕ ℤ)
    → delivered ≤ℤ (accumulate_cargo companies delivered prev).0
unfolding accumulate_cargo
accumulate_cargo-mono [] delivered prev = omega arith
accumulate_cargo-mono (k ∷ companies) delivered prev =
    let last = prev_or (lookup k.id prev) k.income in
    let total = delivered +ℤ max_ℤ (pos 0) (k.income -ℤ last) in
    omega (
      int_laws,
      delta-nonneg k.income last,
      accumulate_cargo-mono companies total (insert k.id k.income prev),
    )

check-cargo_mono :
    (now : ℕ) (snapshot : StateSnapshot) (c : EndConditionChecker)
    → c.cargo_delivered ≤ℤ (check now snapshot c).0.cargo_delivered
unfolding check evaluate_all update_cargo
check-cargo_mono now snapshot c = elim (Bool-cases c.config.cargo_threshold.enabled) [
  | inl on ↦ rw on (accumulate_cargo-mono snapshot.companies c.cargo_delivered c.prev_income)
  | inr off ↦ rw off (omega arith)
]

-- The cargo total never falls over a run of checks, whatever the incomes do.
check_all_of-cargo_mono :
    (beats : List (ℕ × StateSnapshot)) (c : EndConditionChecker)
    → c.cargo_delivered ≤ℤ (check_all_of beats c).cargo_delivered
unfolding check_all_of
check_all_of-cargo_mono [] c = omega arith
check_all_of-cargo_mono ((now, snapshot) ∷ rest) c =
    let next = (check now snapshot c).0 in
    omega (arith, check-cargo_mono now snapshot c, check_all_of-cargo_mono rest next)
