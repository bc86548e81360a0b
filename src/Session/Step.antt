-- ===== src/Session/Step.antt =====
-- `step` and `enter_stepped` of src/nttd/runtime/orchestrator.py and what they call: the
-- pauses, the date of the game, and the wait for a date. W is the game and the world model, which other
-- tasks of the session change at each `await`; they are an interface. A date is a natural number, as
-- the packet that brings it has it. What a batch raises ends the step.
pub mod Days
pub mod Arrival
pub mod Whole
pub mod Count
use nttd.Prelude.{
  ℕ, zero, suc, ◌+◌, ◌*◌, ◌/◌, ◌≡◌, String, Bool, true, false, not, ◌&&◌, ◌||◌, Option, none, some,
  List, [], ◌∷◌, ◌++◌, ◌==◌, nat_eq, if◌then◌else◌, leb,
}
use nttd.Prelude.Dict.{Dict}
use nttd.Prelude.Int.{ℤ, pos, pos_part, ◌+ℤ◌, ◌-ℤ◌, leb_ℤ}
use nttd.Json.{Value, flag, number}
use nttd.EndConditions.{StateSnapshot, Reason, check, game_days_total, game_days_remaining}
use nttd.Session.Batch.{Game, Entry, Outcome, Session, execute_actions, when}
use nttd.Session.Cycle.{Tables, refresh_world_from_gs}

pub record Clock (W : Type 0) : Type 0 where
  -- `world.game.game_date`
  pub date : W → ℕ
  pub set_date : ℕ → W → W
  -- `world.paused`
  pub is_paused : W → Bool
  pub set_paused : Bool → W → W
  -- `_running`, which `stop` clears.
  pub is_running : W → Bool
  pub set_running : Bool → W → W
  -- `world.game.mode`, set to STEPPED.
  pub set_stepped : W → W
  -- The date, or the setting, in the reply to get_date and get_game_settings; none where the call raised.
  pub get_date : W → W × Option Value
  pub get_pause_level : W → W × Option Value
  -- `send_rcon("pause")`, or "unpause"; false where it raised.
  pub send_rcon : (pausing : Bool) → W → W × Bool
  -- The two sleeps of a step are of one length.
  pub sleep : W → W
  pub snapshot : W → StateSnapshot
  -- The horizon of the run: its days in all, and those that remain.
  pub publish_horizon : ℤ → ℤ → W → W
  -- The callbacks, whose exceptions are logged.
  pub on_end : List Reason → W → W

-- The parts of the orchestrator that a step changes; none where it has no recorder, or has not asked.
pub record Stepper (W T : Type 0) : Type 0 where
  pub session : Session W T
  pub heartbeat_interval_days : ℤ
  pub refresh_cycle : ℕ
  pub step_count : ℕ
  pub paused_flush_ok : Option Bool
  pub snapshots : Option (List StateSnapshot)
  -- The dates of the events "session_start" that the recorder has.
  pub starts : Option (List ℕ)

pub record StepResult : Type 0 where
  pub snapshot : StateSnapshot
  pub step : ℕ
  pub days_advanced : ℕ
  pub terminated : Bool
  pub end_reason : List Reason
  pub action_results : List Outcome

abbrev pause_level_all_commands : ℤ
pause_level_all_commands = pos 3

-- `isinstance(date, int) and date > 0`: `True` is an int. 0 is no date.
abbrev pub date_in : Option Value → ℕ
date_in (some (number (pos n))) = n
date_in (some (flag true)) = 1
date_in _ = 0

abbrev pub is_level : ℤ → Option Value → Bool
is_level level (some (number n)) = nttd.Prelude.Int.eqb_ℤ n level
is_level level _ = false

-- `remaining * 1.97 * 3` seconds, 30 at least, in polls of 0.2 seconds.
abbrev pub polls_for : ℕ → ℕ
polls_for remaining = let polls = remaining * 2955 / 100 in if leb polls 150 then 150 else polls

-- The days that were asked for, or the interval of the scenario.
abbrev pub advance_of : Option ℤ → ℤ → ℤ
advance_of none interval = interval
advance_of (some days) interval = days

module _ {W T A : Type 0} (game : Game W T) (tables : Tables W A) (clock : Clock W) where
  unfoldable pub authoritative_game_date : W → W × ℕ
  authoritative_game_date w =
      let (w₁, reply) = clock.get_date w in
      if not (game.connected w)
      then (w, clock.date w)
      else if date_in reply == 0
      then (w₁, clock.date w₁)
      else (clock.set_date (date_in reply) w₁, date_in reply)

  abbrev pub answered_level : Stepper W T → W × Option Value → Stepper W T × Bool
  answered_level s (w, level) =
      let ok = is_level pause_level_all_commands level in
      (record s { paused_flush_ok = some ok; session = record s.session { world = w } }, ok)

  unfoldable pub can_flush_paused : Stepper W T → Stepper W T × Bool
  can_flush_paused s = elim s.paused_flush_ok [
    | some ok ↦ (s, ok)
    | none ↦ answered_level s (clock.get_pause_level s.session.world)
  ]

  abbrev settle : W × Bool → W × Bool
  settle (w, true) = (clock.sleep (clock.set_paused true w), true)
  settle (w, false) = (w, false)

  abbrev resume : W × Bool → W × Bool
  resume (w, true) = (clock.set_paused false w, true)
  resume (w, false) = (w, false)

  abbrev tell : Bool → W → W × Bool
  tell pausing w = if game.connected w then clock.send_rcon pausing w else (w, true)

  -- `_pause` and `_unpause`; false where the call raised.
  unfoldable pub pause : W → W × Bool
  pause w = settle (tell true w)

  unfoldable pub unpause : W → W × Bool
  unpause w = resume (tell false w)

  -- The rounds of the loop: after each sleep it ends at the date, or when the session stops.
  unfoldable pub poll : (rounds : ℕ) → (target : ℤ) → W → W
  poll zero target w = w
  poll (suc rounds) target w =
      let w₁ = clock.sleep w in
      let rest = poll rounds target w₁ in
      if leb_ℤ target (pos (clock.date w₁)) || not (clock.is_running w₁) then w₁ else rest

  unfoldable pub wait_until_game_date : (target : ℤ) → W → W
  wait_until_game_date target w =
      let remaining = pos_part (target -ℤ pos (clock.date w)) in
      if remaining == 0 then w else poll (polls_for remaining) target w

  -- What a step does once the world stands still again.
  unfoldable pub observe : (start_date : ℕ) → List Outcome → Stepper W T → Stepper W T × StepResult
  observe start_date outcomes s =
      let world = s.session.world in
      let (cycle, w) = refresh_world_from_gs tables (game.connected world) s.refresh_cycle world in
      let snapshot = clock.snapshot w in
      let (checker, end_result) = check (game.now w) snapshot s.session.checker in
      let published =
        clock.publish_horizon (game_days_total checker) (game_days_remaining checker) w in
      let ended =
        if end_result.triggered
        then clock.on_end end_result.reason (clock.set_running false published)
        else published in
      (
        record s {
          session = record s.session { world = ended; checker = checker };
          refresh_cycle = cycle;
          step_count = suc s.step_count;
          snapshots = when (λ taken. taken ++ (snapshot ∷ [])) s.snapshots;
        },
        record {
          snapshot = snapshot;
          step = suc s.step_count;
          days_advanced = pos_part (snapshot.game_date -ℤ pos start_date);
          terminated = end_result.triggered;
          end_reason = if end_result.triggered then end_result.reason else [];
          action_results = outcomes;
        },
      )

  -- `pause_at_start`; false is an exception, which leaves the mode as it is.
  unfoldable pub pause_at_start : W → W × Bool
  pause_at_start w =
      let (w₁, paused) = pause w in if paused then (clock.set_stepped w₁, true) else (w₁, false)

  -- none is an exception of the connection.
  unfoldable pub enter_stepped : Stepper W T → Stepper W T × Option StateSnapshot
  enter_stepped s =
      let (w, paused) = pause (clock.set_stepped (clock.set_running true s.session.world)) in
      let (cycle, w₁) = refresh_world_from_gs tables (game.connected w) s.refresh_cycle w in
      let snapshot = clock.snapshot w₁ in
      if not paused
      then (record s { session = record s.session { world = w }; step_count = 0 }, none)
      else (
        record s {
          session = record s.session { world = w₁ };
          refresh_cycle = cycle;
          step_count = 0;
          snapshots = when (λ taken. taken ++ (snapshot ∷ [])) s.snapshots;
          starts = when (λ dates. dates ++ (clock.date w₁ ∷ [])) s.starts;
        },
        some snapshot,
      )

  module _ (fresh : ℕ → String) (codes categories : Dict ℤ String) where
    -- An empty batch does not start the scored clock; none is the exception that ends a batch.
    abbrev pub flush : List Entry → Session W T → Session W T × Option (List Outcome)
    flush [] s = (s, some [])
    flush (entry ∷ entries) s = execute_actions game fresh codes categories (entry ∷ entries) s

    abbrev pub observe_if : Bool → ℕ → List Outcome → Stepper W T → Stepper W T × Option StepResult
    observe_if true start_date outcomes s =
        let (next, result) = observe start_date outcomes s in (next, some result)
    observe_if false start_date outcomes s = (s, none)

    -- The wait, the pause and the observation, once every batch has its outcomes.
    unfoldable pub wait_to :
        (target : ℤ) → ℕ → List Outcome → Stepper W T → Stepper W T × Option StepResult
    wait_to target start_date outcomes s =
        let (w, still) = pause (wait_until_game_date target s.session.world) in
        observe_if still start_date outcomes (record s { session = record s.session { world = w } })

    -- What a step does after its batch, if it ran one while paused. An exception of the late batch
    -- leaves the game running.
    unfoldable pub run_to :
        (target : ℤ)
        → ℕ
        → (late : List Entry) → List Outcome
        → Stepper W T
        → Stepper W T × Option StepResult
    run_to target start_date late early s =
        let (w, resumed) = unpause s.session.world in
        let (moved, outcomes) = flush late (record s.session { world = w }) in
        if not resumed
        then (record s { session = record s.session { world = w } }, none)
        else elim outcomes [
          | none ↦ (record s { session = moved }, none)
          | some told ↦ wait_to target start_date (early ++ told) (record s { session = moved })
        ]

    abbrev pub flushed :
        (target : ℤ) → ℕ → List Entry → Stepper W T × Bool → Stepper W T × Option StepResult
    flushed target start_date entries (s, true) =
        let (session, outcomes) = flush entries s.session in
        let next = record s { session = session } in
        elim outcomes [ none ↦ (next, none) | some told ↦ run_to target start_date [] told next ]
    flushed target start_date entries (s, false) = run_to target start_date entries [] s

    -- none is an exception, of the connection or of a batch, which ends the step where it is.
    unfoldable pub step : List Entry → Option ℤ → Stepper W T → Stepper W T × Option StepResult
    step entries days s =
        let (w, start_date) = authoritative_game_date s.session.world in
        let dated = record s { session = record s.session { world = w } } in
        flushed (pos start_date +ℤ advance_of days s.heartbeat_interval_days) start_date entries
          (can_flush_paused dated)
