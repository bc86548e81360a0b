-- ===== src/Session/Step/Whole.antt =====
-- A step of src/nttd/runtime/orchestrator.py from its start to its result.
use nttd.Prelude.{
  ℕ, suc, ◌+◌, ◌≤◌, ◌≡◌, refl, String, Bool, true, false, Option, none, some, All, List, [], ◌∷◌,
  ◌++◌, nat_eq, arith,
}
use nttd.Prelude.Dict.{Dict}
use nttd.Prelude.Int.{ℤ, pos, pos_part, ◌+ℤ◌, ◌-ℤ◌, +ℤ_parts, eq_of_parts}
use nttd.Session.Batch.{
  Game, Entry, Outcome, Session, company_named, collect, execute_action, execute_all,
  execute_actions,
}
use nttd.Session.Batch.Kept.{execute_actions_keeps}
use nttd.Session.Cycle.{Tables}
use nttd.Session.Step.{
  Clock, Stepper, StepResult, date_in, authoritative_game_date, can_flush_paused, pause, unpause,
  wait_until_game_date, observe, flush, flushed, wait_to, run_to, step, advance_of,
}
use nttd.Session.Step.Days.{
  IsStill, IsSteady, wait_bounds, pause_bounds, unpause_bounds, observe_days,
}
use nttd.Session.Step.Arrival.{IsTicking, wait_arrives}

days_between : (a b : ℕ) → b ≤ a → pos_part (pos a -ℤ pos b) + b ≡ a
unfolding ◌-ℤ◌
days_between a b le = ground arith

pos_sum : (a b : ℕ) → pos a +ℤ pos b ≡ pos (a + b)
pos_sum a b = eq_of_parts (pos a +ℤ pos b) (pos (a + b)) (omega (arith, +ℤ_parts (pos a) (pos b)))

bounded :
    (start n reached date days : ℕ)
    → start + n ≤ reached
    → reached ≤ start + n
    → reached ≤ date
    → date ≤ suc reached
    → days ≡ pos_part (pos date -ℤ pos start)
    → (n ≤ days) × (days ≤ suc n)
bounded start n reached date days lo hi forward steps same =
    let sum = days_between date start (omega arith) in (omega (arith, sum), omega (arith, sum))

-- The company of each entry of the batch is an int.
abbrev pub NamesCompanies : {W T : Type 0} → Game W T → List Entry → Type 0
NamesCompanies game = All (λ entry. (company_id : ℤ) × (company_named game entry ≡ some company_id))

module _ {W T : Type 0} (game : Game W T) (fresh : ℕ → String)
    (codes categories : Dict ℤ String) where
  collect-some :
      (outcome : Option Outcome) (outcomes : Option (List Outcome)) (told : List Outcome)
      → outcomes ≡ some told
      → (all : List Outcome) × (collect game fresh codes categories outcome outcomes ≡ some all)
  collect-some none outcomes told ended = (told, ended)
  collect-some (some outcome) outcomes told ended = (outcome ∷ told, rw (ended, collect) refl)

  -- Such a batch has its outcomes.
  execute_all-some :
      (entries : List Entry) (s : Session W T)
      → NamesCompanies game entries
      → (told : List Outcome) × ((execute_all game fresh codes categories entries s).1 ≡ some told)
  unfolding execute_all
  execute_all-some [] s named = ([], refl)
  execute_all-some (entry ∷ entries) s ((company_id, company), rest) =
      let first = execute_action game fresh codes categories company_id entry s in
      let (told, ended) = execute_all-some entries first.0 rest in
      rw (company, execute_all) (collect-some first.1 _ told ended)

module _ {W T A : Type 0} (game : Game W T) (tables : Tables W A) (clock : Clock W) where
  -- The connection does not fail.
  abbrev pub Answers : Type 0
  Answers = (b : Bool) (w : W) → (clock.send_rcon b w).1 ≡ true

  module _ (answers : Answers) where
    pause_answers : (w : W) → (pause game tables clock w).1 ≡ true
    unfolding pause
    pause_answers w = let told = answers true w in ground arith

    unpause_answers : (w : W) → (unpause game tables clock w).1 ≡ true
    unfolding unpause
    unpause_answers w = let told = answers false w in ground arith

  module _ (steady : IsSteady game tables clock) where
    unpause_runs :
        (w : W)
        → (unpause game tables clock w).1 ≡ true
        → clock.is_paused (unpause game tables clock w).0 ≡ false
    unfolding unpause
    unpause_runs w done =
        let plain = steady.is_paused-set_paused false w in
        let told = steady.is_paused-set_paused false (clock.send_rcon false w).0 in ground arith

    dated :
        (w : W)
        → clock.is_paused w ≡ true
        → let (w', date) = authoritative_game_date game tables clock w in
          IsStill game tables clock date w'
    unfolding authoritative_game_date
    dated w paused =
        let asked = steady.get_date_still (clock.date w) w (refl, paused) in
        let reply = clock.get_date w in
        let date = steady.date-set_date (date_in reply.1) reply.0 in
        let kept = steady.is_paused-set_date (date_in reply.1) reply.0 in ground arith

    module _ (fresh : ℕ → String) (codes categories : Dict ℤ String) where
      flush-IsStill :
          (n : ℕ) (entries : List Entry) (s : Session W T)
          → IsStill game tables clock n s.world
          → IsStill game tables clock n
              (flush game tables clock fresh codes categories entries s).0.world
      flush-IsStill n [] s still = still
      flush-IsStill n (entry ∷ entries) s still =
          execute_actions_keeps game (IsStill game tables clock n) (steady.send_still n)
            (steady.read_still n) codes categories fresh (entry ∷ entries) s still

      flush-some :
          (entries : List Entry) (s : Session W T)
          → NamesCompanies game entries
          → (told : List Outcome) × ((flush game tables clock fresh codes categories entries s).1
              ≡ some told)
      unfolding execute_actions
      flush-some [] s named = ([], refl)
      flush-some (entry ∷ entries) s named =
          execute_all-some game fresh codes categories (entry ∷ entries) _ named

      module _ (ticking : IsTicking game tables clock) (answers : Answers) where
        run_to_days :
            (start n : ℕ) (early : List Outcome) (s : Stepper W T)
            → IsStill game tables clock start s.session.world
            → 1 ≤ n
            → (r : StepResult) × ((run_to game tables clock fresh codes categories
                  (pos (start + n))
                  start
                  []
                  early
                  s).1
                ≡ some r)
              × (n ≤ r.days_advanced)
              × (r.days_advanced ≤ suc n)
        unfolding run_to wait_to
        run_to_days start n early s still some_days =
            let resumed = unpause_answers answers s.session.world in
            let w = (unpause game tables clock s.session.world).0 in
            let begins = unpause_bounds game tables clock steady s.session.world in
            let arrives =
              wait_arrives game tables clock steady ticking (start + n) w
                (unpause_runs s.session.world resumed) in
            let within =
              wait_bounds game tables clock steady (start + n) w (omega (arith, begins, still)) in
            let w₁ = wait_until_game_date game tables clock (pos (start + n)) w in
            let stops = pause_answers answers w₁ in
            let ends = pause_bounds game tables clock steady w₁ stops in
            let w₂ = (pause game tables clock w₁).0 in
            let next = record s { session = record s.session { world = w₂ } } in
            let days =
              observe_days game tables clock steady (clock.date w₂) start (early ++ []) next
                (refl, ends.0) in
            let all =
              bounded start n (clock.date w₁) (clock.date w₂) _ arrives within.1 ends.1 ends.2
                days in
            (
              (observe game tables clock start (early ++ []) next).1,
              rw (resumed, stops) refl,
              all.0,
              all.1,
            )

        pub step-days :
            (entries : List Entry) (days : Option ℤ) (s : Stepper W T) (n : ℕ)
            → NamesCompanies game entries
            → clock.is_paused s.session.world ≡ true
            → s.paused_flush_ok ≡ some true
            → advance_of days s.heartbeat_interval_days ≡ pos n
            → 1 ≤ n
            → (r : StepResult) × ((step game tables clock fresh codes categories entries days s).1
                ≡ some r)
              × (n ≤ r.days_advanced)
              × (r.days_advanced ≤ suc n)
        unfolding step can_flush_paused
        step-days entries days s n named paused served asked some_days =
            let (w, start) = authoritative_game_date game tables clock s.session.world in
            let still = dated s.session.world paused in
            let at = record s.session { world = w } in
            let flush_of = flush game tables clock fresh codes categories entries at in
            let (told, ended) = flush-some entries at named in
            rw (served, asked, pos_sum start n)
              (rw (ended, flushed)
                (run_to_days start n told (record s { session = flush_of.0 })
                  (flush-IsStill start entries at still) some_days))
