-- ===== src/Examples/Sessions.antt =====
-- A session at work: dates, end conditions, the step gate and the tokens.
use nttd.Prelude.{
  ℕ, suc, ◌+◌, ◌-◌, ◌*◌, ◌≤◌, ◌<◌, ◌≡◌, ◌≢◌, ◌↔◌, refl, String, Bool, true, false, Option, none,
  some, List, [], ◌∷◌, map, arith, string_eq, ◌==◌,
}
use text.Mathlib.TextEquality.{eq_iff}
use nttd.Prelude.Int.{pos}
use nttd.Calendar.{game_date_to_year, year_to_game_date}
use nttd.Calendar.Years.{game_date_to_year_bounds}
use nttd.EndConditions.{
  EndConditionsConfig, Company, StateSnapshot, EndConditionChecker, new, check, start_clock,
  clock_started, reset, game_days_remaining,
}
use nttd.EndConditions.Conditions.{Condition, is_enabled, Holds}
use nttd.EndConditions.Verdict.{check_any, check_all}
use nttd.StepGate.{StepGate, begin, Advanced, returned, raised, ran, arrive}
use nttd.StepGate.Schedule.{
  System, registers, enters, start, Reach, here, next, IsSerial, Reach-IsSerial,
}
use nttd.StepGate
use nttd.Participants.{Participant, ParticipantRegistry, issue, is_ascii, resolve}
use nttd.Participants.Issue.{HasAscii, resolve-issue}

game_date_to_year_bounds_example :
    (year_to_game_date (pos (game_date_to_year (pos 712223))) ≤ 712223)
    × (712223 < year_to_game_date (pos (suc (game_date_to_year (pos 712223)))))
game_date_to_year_bounds_example = game_date_to_year_bounds 712223

apart : (s t : String) → (s == t) ≡ false → s ≢ t
apart s t h = ground (arith, eq_iff s t)

abbrev pub limits : String → EndConditionsConfig
limits logic = record {
  logic = logic;
  time_limit = record { enabled = true; wall_minutes = 1_000_000 };
  game_date_limit = record { enabled = false; end_year = pos 1960 };
  revenue_threshold = record { enabled = false; total_revenue = pos 0 };
  cargo_threshold = record { enabled = true; total_cargo_delivered = pos 500 };
  max_heartbeats = record { enabled = true; count = pos 3 };
  bankruptcy = record { enabled = true };
}

abbrev snapshot : StateSnapshot
snapshot = record {
  game_date = pos 712223;
  companies = record { id = 0; name = "Rail"; income = pos 70; is_active = true } ∷ [];
}

abbrev fresh : String → EndConditionChecker
fresh logic = new (limits logic) (some 0)

check_any_example : ((check 60_000_000 snapshot (fresh "any")).1.triggered ≡ true) ↔ (
    (k : Condition) × (is_enabled (limits "any") k ≡ true)
    × Holds 60_000_000 snapshot (check 60_000_000 snapshot (fresh "any")).0 k)
unfolding new
check_any_example = check_any 60_000_000 snapshot (fresh "any") (apart "any" "all" refl)

check_all_example : ((check 60_000_000 snapshot (fresh "all")).1.triggered ≡ true) ↔ (
    ((k : Condition) × (is_enabled (limits "all") k ≡ true))
    × ((k : Condition)
        → is_enabled (limits "all") k ≡ true
        → Holds 60_000_000 snapshot (check 60_000_000 snapshot (fresh "all")).0 k))
unfolding new
check_all_example = check_all 60_000_000 snapshot (fresh "all") refl

-- A minute is over: the time limit ends the run.
check_ends : (check 60_000_000 snapshot (fresh "any")).1.triggered ≡ true
unfolding check new nttd.EndConditions.decide_end nttd.Prelude.filter
    nttd.EndConditions.time_limit_results
check_ends = refl

abbrev beats : List (ℕ × StateSnapshot)
beats = (1, snapshot) ∷ (2, snapshot) ∷ []

-- Company 2 registers, its call enters, and the advance raises.
abbrev registered_gate : System
registered_gate = record start { gate = nttd.StepGate.register 2 start.gate }

abbrev entered : System
entered = record { gate = (begin 2 registered_gate.gate).0; running = 1; returns = 0 }

Reach-entered : Reach entered
unfolding begin nttd.StepGate.register nttd.StepGate.new
Reach-entered = next (next here (registers start 2)) (enters registered_gate 2 refl)

Reach-IsSerial_example : IsSerial entered
Reach-IsSerial_example = Reach-IsSerial Reach-entered

abbrev holders : ParticipantRegistry
holders =
    ("pt_a", record { company_id = 0; token = "pt_a" })
    ∷ ("pt_b", record { company_id = 1; token = "pt_b" })
    ∷ []

ascii_tokens : (is_ascii "pt_c" ≡ true) × HasAscii holders
unfolding is_ascii
ascii_tokens = (refl, (refl, (refl, tt)))

resolve-issue_example : resolve (some "pt_a") (issue 0 "pt_c" holders).0 ≡ some none
unfolding nttd.Participants.for_company nttd.Participants.find_company is_ascii
resolve-issue_example =
    resolve-issue 0 "pt_c" "pt_a" holders (apart "pt_c" "" refl) ascii_tokens.0 ascii_tokens.1
