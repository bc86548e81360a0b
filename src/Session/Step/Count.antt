-- ===== src/Session/Step/Count.antt =====
-- The numbers of the steps in src/nttd/runtime/orchestrator.py, and what it remembers of the game.
use nttd.Prelude.{
  ℕ, suc, ◌≡◌, refl, sym, ◌∙◌, ap, String, Bool, true, false, Option, none, some, List, [], ◌∷◌,
  ◌++◌, nat_eq, string_eq, Bool-cases, Option-cases, inl, inr, arith,
}
use nttd.Prelude.Dict.{Dict}
use nttd.Prelude.Int.{ℤ}
use nttd.EndConditions.Clock.{check-fields, start_clock-heartbeat_count}
use nttd.Actions.Reply.{Reply}
use nttd.Actions.Tracker.{ActionEnvelope, submit}
use nttd.Session.Batch.{
  Game, Entry, Outcome, Session, note, fail, conclude, run_action, execute_action, execute_all,
  execute_actions, envelope_of, when, company_named,
}
use nttd.Session.Cycle.{Tables}
use nttd.Session.Step.{
  Clock, Stepper, StepResult, authoritative_game_date, can_flush_paused, pause, unpause,
  wait_until_game_date, observe, flush, wait_to, run_to, step, enter_stepped, observe_if, flushed,
  answered_level,
}

module _ {W T : Type 0} (game : Game W T) (fresh : ℕ → String)
    (codes categories : Dict ℤ String) where
  conclude-checker :
      (envelope : ActionEnvelope) (reply : Reply) (s : Session W T)
      → (conclude game fresh codes categories envelope reply s).0.checker ≡ s.checker
  unfolding conclude fail note
  conclude-checker envelope reply s = ground arith

  run_action-checker :
      (envelope : ActionEnvelope) (s : Session W T)
      → (run_action game fresh codes categories envelope s).0.checker ≡ s.checker
  unfolding run_action fail note
  run_action-checker envelope s =
      elim (Option-cases
        (game.send_gamescript envelope.action_type envelope.parameters s.world).1) [
          | inl raised ↦ rw (raised, run_action) refl
          | inr (answer, found) ↦ rw (found, run_action) (conclude-checker envelope answer _)
        ]

  execute_action-checker :
      (company_id : ℤ) (entry : Entry) (s : Session W T)
      → (execute_action game fresh codes categories company_id entry s).0.checker ≡ s.checker
  unfolding execute_action fail note
  execute_action-checker company_id entry s =
      let submitted = record s {
        minted = suc s.minted;
        tracker =
            when (λ t. (submit (envelope_of game fresh codes categories company_id entry s) t).0)
              s.tracker;
      } in
      let ran =
        run_action-checker (envelope_of game fresh codes categories company_id entry s) submitted in
      ground (arith, ran)

  execute_all-checker :
      (entries : List Entry) (s : Session W T)
      → (execute_all game fresh codes categories entries s).0.checker ≡ s.checker
  unfolding execute_all
  execute_all-checker [] s = refl
  execute_all-checker (entry ∷ entries) s = elim (Option-cases (company_named game entry)) [
    | inl bad ↦ rw (bad, execute_all) refl
    | inr (company_id, named) ↦
        rw (named, execute_all)
          (execute_all-checker entries _ ∙ execute_action-checker company_id entry s)
  ]

abbrev beats_of : {W T : Type 0} → Session W T → ℕ
beats_of s = s.checker.heartbeat_count

-- The step that was counted next, if it returned, and one more beat of the end conditions.
abbrev IsCounted : {W T : Type 0} → (steps beats : ℕ) → Stepper W T × Option StepResult → Type 0
IsCounted steps beats (s, none) = Unit
IsCounted steps beats (s, some r) = (r.step ≡ suc steps) × (beats_of s.session ≡ suc beats)

returned_counted :
    {W T : Type 0} (steps beats : ℕ) (run : Stepper W T × Option StepResult) (r : StepResult)
    → IsCounted steps beats run
    → run.1 ≡ some r
    → (r.step ≡ suc steps) × (beats_of (run.0.session) ≡ suc beats)
returned_counted steps beats (s, none) r counted returned = absurd (cc)
returned_counted steps beats (s, some q) r counted returned =
    let same : q ≡ r = cc in (ap (λ x. x.step) (sym same) ∙ counted.0, counted.1)

module _ {W T A : Type 0} (game : Game W T) (tables : Tables W A) (clock : Clock W) where
  observe-count :
      (start : ℕ) (outcomes : List Outcome) (s : Stepper W T)
      → let (s', r) = observe game tables clock start outcomes s in
        (r.step ≡ suc s.step_count) × (beats_of s'.session ≡ suc (beats_of s.session))
  unfolding observe
  observe-count start outcomes s = (refl, (check-fields _ _ s.session.checker).1)

  -- If the game does not answer when it is first asked whether it serves commands while it is paused,
  -- that it does not is what every later call answers, whatever the game would say then.
  can_flush_paused_unanswered :
      (s : Stepper W T) (later : Session W T)
      → s.paused_flush_ok ≡ none
      → (clock.get_pause_level s.session.world).1 ≡ none
      → let (next, ok) = can_flush_paused game tables clock s in
        (ok ≡ false)
        × (can_flush_paused game tables clock (record next { session = later })
            ≡ (record next { session = later }, false))
  unfolding can_flush_paused
  can_flush_paused_unanswered s later unknown raised = rw (unknown, raised) (refl, refl)

  enter_stepped-reset :
      (s : Stepper W T)
      → let next = (enter_stepped game tables clock s).0 in
        (next.step_count ≡ 0) × (beats_of next.session ≡ beats_of s.session)
  unfolding enter_stepped
  enter_stepped-reset s =
      elim (Bool-cases
        (pause game tables clock (clock.set_stepped (clock.set_running true s.session.world))).1) [
          | inl paused ↦ rw paused (refl, refl)
          | inr failed ↦ rw failed (refl, refl)
        ]

  module _ (fresh : ℕ → String) (codes categories : Dict ℤ String) where
    flush-count :
        (entries : List Entry) (s : Session W T)
        → beats_of (flush game tables clock fresh codes categories entries s).0 ≡ beats_of s
    unfolding execute_actions
    flush-count [] s = refl
    flush-count (entry ∷ entries) s =
        ap (λ c. c.heartbeat_count)
          (execute_all-checker game fresh codes categories (entry ∷ entries) _)
        ∙ start_clock-heartbeat_count (game.now s.world) (game.game_date s.world) s.checker

    observe_if-count :
        (still : Bool) (start : ℕ) (outcomes : List Outcome) (s : Stepper W T) (beats : ℕ)
        → beats_of s.session ≡ beats
        → IsCounted s.step_count beats
            (observe_if game tables clock fresh codes categories still start outcomes s)
    observe_if-count false start outcomes s beats same = tt
    observe_if-count true start outcomes s beats same =
        let counted = observe-count start outcomes s in (counted.0, counted.1 ∙ ap suc same)

    wait_to-count :
        (target : ℤ) (start : ℕ) (outcomes : List Outcome) (s : Stepper W T) (beats : ℕ)
        → beats_of s.session ≡ beats
        → IsCounted s.step_count beats
            (wait_to game tables clock fresh codes categories target start outcomes s)
    unfolding wait_to
    wait_to-count target start outcomes s beats same =
        let (w, still) =
          pause game tables clock (wait_until_game_date game tables clock target s.session.world) in
        observe_if-count still start outcomes
          (record s { session = record s.session { world = w } }) beats same

    run_to-count :
        (target : ℤ) (start : ℕ) (late : List Entry) (early : List Outcome) (s : Stepper W T)
        (beats : ℕ)
        → beats_of s.session ≡ beats
        → IsCounted s.step_count beats
            (run_to game tables clock fresh codes categories target start late early s)
    unfolding run_to
    run_to-count target start late early s beats same =
        let (w, resumed) = unpause game tables clock s.session.world in
        let moved =
          flush game tables clock fresh codes categories late (record s.session { world = w }) in
        elim (Bool-cases resumed) [
          | inr failed ↦ rw failed tt
          | inl runs ↦ elim (Option-cases moved.1) [
            | inl bad ↦ rw (runs, bad, run_to) tt
            | inr (told, ended) ↦
                rw (runs, ended, run_to)
                  (wait_to-count target start (early ++ told) (record s { session = moved.0 }) beats
                    (flush-count late (record s.session { world = w }) ∙ same))
          ]
        ]

    flushed-count :
        (ok : Bool) (target : ℤ) (start : ℕ) (entries : List Entry) (s : Stepper W T) (beats : ℕ)
        → beats_of s.session ≡ beats
        → IsCounted s.step_count beats
            (flushed game tables clock fresh codes categories target start entries (s, ok))
    flushed-count false target start entries s beats same =
        run_to-count target start entries [] s beats same
    flushed-count true target start entries s beats same =
        let moved = flush game tables clock fresh codes categories entries s.session in
        elim (Option-cases moved.1) [
          | inl bad ↦ rw (bad, flushed) tt
          | inr (told, ended) ↦
              rw (ended, flushed)
                (run_to-count target start [] told (record s { session = moved.0 }) beats
                  (flush-count entries s.session ∙ same))
        ]

    step-count :
        (entries : List Entry) (days : Option ℤ) (s : Stepper W T)
        → IsCounted s.step_count
            (beats_of s.session)
            (step game tables clock fresh codes categories entries days s)
    unfolding step can_flush_paused
    step-count entries days s =
        let (w, start) = authoritative_game_date game tables clock s.session.world in
        let dated = record s { session = record s.session { world = w } } in
        elim (Option-cases s.paused_flush_ok) [
          | inr (ok, known) ↦ rw known (flushed-count ok _ start entries dated _ refl)
          | inl unknown ↦ rw unknown (
              flushed-count _ _ start entries
                (answered_level game tables clock dated (clock.get_pause_level w)).0 _ refl)
        ]

    -- Entering stepped mode again starts the numbers of the steps from 1, but not the count of beats that
    -- the end conditions go by.
    pub enter_stepped-step :
        (entries : List Entry) (days : Option ℤ) (s : Stepper W T) (r : StepResult)
        → (step game tables clock fresh codes categories entries days
            (enter_stepped game tables clock s).0).1
          ≡ some r
        → let next =
            step game tables clock fresh codes categories entries days
              (enter_stepped game tables clock s).0 in
          (r.step ≡ 1)
          × (next.0.session.checker.heartbeat_count ≡ suc (s.session.checker.heartbeat_count))
    enter_stepped-step entries days s r returned =
        let entered = (enter_stepped game tables clock s).0 in
        let counted =
          returned_counted entered.step_count (beats_of entered.session)
            (step game tables clock fresh codes categories entries days entered) r
            (step-count entries days entered) returned in
        let reset = enter_stepped-reset s in
        (counted.0 ∙ ap suc reset.0, counted.1 ∙ ap suc reset.1)
