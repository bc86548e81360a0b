-- ===== src/Examples/Steps.antt =====
-- A step of a session, at a concrete input: a game whose clock runs a day with each sleep.
use nttd.Prelude.{
  ℕ, suc, ◌≤◌, ◌≡◌, refl, String, Bool, true, false, none, some, List, [], ◌∷◌, arith,
}
use nttd.Prelude.Int.{pos}
use nttd.Json.{number}
use nttd.EndConditions.{new}
use nttd.Session.Batch.{Game, Entry}
use nttd.Session.Refresh.{raised}
use nttd.Session.Cycle.{Tables}
use nttd.Session.Cycle
use nttd.Session.Cycle.{refresh_world_from_gs, rounds, queries, query, for_active}
use nttd.Prelude.{Option}
use nttd.Session.Step.{Clock, Stepper, StepResult, step, enter_stepped, pause}
use nttd.Session.Step.Count.{enter_stepped-step}
use nttd.Session.Step.Days.{IsSteady}
use nttd.Session.Step.Arrival.{IsTicking}
use nttd.Session.Step.Whole.{step-days}
use nttd.Examples.Sessions.{limits}

-- The date, and whether the clock stands.
abbrev Toy : Type 0
Toy = ℕ × Bool

abbrev slept : Toy → Toy
slept (date, true) = (date, true)
slept (date, false) = (suc date, false)

abbrev game : Game Toy ℕ
game = record {
  connected = λ w. true;
  int_of_text = λ s. none;
  send_gamescript = λ action params w. (w, none);
  get_tile_area = λ a w. (w, raised);
  map_width = λ w. 64;
  map_height = λ w. 64;
  game_date = λ w. some (pos (w.0));
  now = λ w. 0;
}

abbrev tables : Tables Toy ℕ
tables = record {
  ask = λ q w. (w, Cycle.unusable);
  apply = λ q a w. (w, true);
  companies = λ w. [];
  is_active = λ c w. true;
}

abbrev clock : Clock Toy
clock = record {
  date = λ w. w.0;
  set_date = λ n w. (n, w.1);
  is_paused = λ w. w.1;
  set_paused = λ b w. (w.0, b);
  is_running = λ w. true;
  set_running = λ b w. w;
  set_stepped = λ w. w;
  get_date = λ w. (w, some (number (pos (w.0))));
  get_pause_level = λ w. (w, some (number (pos 3)));
  send_rcon = λ b w. (w, true);
  sleep = slept;
  snapshot = λ w. record { game_date = pos (w.0); companies = [] };
  publish_horizon = λ total remaining w. w;
  on_end = λ reasons w. w;
}

slept_still :
    (n : ℕ) (w : Toy) → (w.0 ≡ n) × (w.1 ≡ true) → ((slept w).0 ≡ n) × ((slept w).1 ≡ true)
slept_still n (date, true) h = h
slept_still n (date, false) h = absurd (cc)

slept_forward : (w : Toy) → w.0 ≤ (slept w).0
slept_forward (date, true) = omega arith
slept_forward (date, false) = omega arith

slept_steps : (w : Toy) → (slept w).0 ≤ suc (w.0)
slept_steps (date, true) = omega arith
slept_steps (date, false) = omega arith

steady : IsSteady game tables clock
steady = record {
  date-set_date = λ n w. refl;
  is_paused-set_date = λ n w. refl;
  date-set_paused = λ b w. refl;
  is_paused-set_paused = λ b w. refl;
  date-snapshot = λ w. refl;
  send_still = λ n action params w h. h;
  read_still = λ n a w h. h;
  ask_still = λ n q w h. h;
  apply_still = λ n q a w h. h;
  get_date_still = λ n w h. h;
  sleep_still = slept_still;
  sleep_forward = slept_forward;
  sleep_steps = slept_steps;
  send_rcon_forward = λ b w. omega arith;
  send_rcon_steps = λ b w. omega arith;
}

slept_runs : (w : Toy) → (slept w).1 ≡ w.1
slept_runs (date, true) = refl
slept_runs (date, false) = refl

day_passes :
    (w : Toy)
    → w.1 ≡ false
    → suc (w.0) ≤ (nttd.Session.Step.Arrival.sleeps game tables clock 29 w).0
day_passes (date, true) h = absurd (cc)
day_passes (date, false) h = omega arith

ticking : IsTicking game tables clock
ticking = record { unstopped = λ w. refl; is_paused-sleep = slept_runs; day_passes = day_passes }

abbrev stepper : Stepper Toy ℕ
stepper = record {
  session = record {
    world = (712223, true);
    checker = new (limits "any") none;
    tracker = none;
    rows = none;
    deltas = none;
    minted = 0;
  };
  heartbeat_interval_days = pos 30;
  refresh_cycle = 0;
  step_count = 0;
  paused_flush_ok = some true;
  snapshots = none;
  starts = some [];
}

abbrev batch : List Entry
batch = record { action = "build_road"; params = [] } ∷ []

abbrev id_of : ℕ → String
id_of n = "a"

abbrev kept_step : StepResult
kept_step = record {
  snapshot = record { game_date = pos 0; companies = [] };
  step = 0;
  days_advanced = 0;
  terminated = false;
  end_reason = [];
  action_results = [];
}

abbrev result_of : Option StepResult → StepResult
result_of none = kept_step
result_of (some r) = r

-- A session that has taken seven steps, and no further action.
abbrev seven : Stepper Toy ℕ
seven = record stepper { step_count = 7; heartbeat_interval_days = pos 2 }

abbrev eighth : Stepper Toy ℕ × Option StepResult
eighth = step game tables clock id_of [] [] [] none (enter_stepped game tables clock seven).0

some_result : (o : Option StepResult) (r : StepResult) → o ≡ some r → o ≡ some (result_of o)
some_result none r h = absurd (cc)
some_result (some q) r h = refl

eighth_returns : eighth.1 ≡ some (result_of (eighth.1))
unfolding enter_stepped pause refresh_world_from_gs rounds queries query for_active
eighth_returns =
    let (r, same, least, most) =
      step-days game tables clock steady id_of [] [] ticking (λ b w. refl) [] none
        (enter_stepped game tables clock seven).0 2 tt refl refl refl (omega arith) in
    some_result (eighth.1) r same

enter_stepped-step_example :
    ((result_of (eighth.1)).step ≡ 1)
    × (eighth.0.session.checker.heartbeat_count ≡ suc (seven.session.checker.heartbeat_count))
enter_stepped-step_example =
    enter_stepped-step game tables clock id_of [] [] [] none seven (result_of (eighth.1))
      eighth_returns
