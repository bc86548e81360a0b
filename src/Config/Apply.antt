-- ===== src/Config/Apply.antt =====
-- `_apply_end_conditions` of src/nttd/runtime/session_manager.py. A negative number of minutes is taken as
-- none, which ends a run at once as it does.
use nttd.Prelude.{
  String, Bool, true, false, not, Option, none, some, ◌==◌, string_eq, if◌then◌else◌,
}
use nttd.Prelude.Dict.{lookup}
use nttd.Prelude.Int.{ℤ, pos, pos_part}
use nttd.EndConditions.{
  TimeLimitConfig, GameDateLimitConfig, RevenueThresholdConfig, CargoThresholdConfig,
  MaxHeartbeatsConfig, EndConditionsConfig,
}
use nttd.Config.Settings.{Setting, word, number, millionths, Settings}

-- The settings are read in the order of the source; none is an `int` or `float` that raised. A word in
-- place of a number is text that was never written there.
abbrev pub number_of : Option Setting → Option ℤ
number_of (some (number n)) = some n
number_of _ = none

abbrev pub minutes_of : Option Setting → Option ℤ
minutes_of (some (millionths n)) = some n
minutes_of _ = none

abbrev pub is_set : Option Setting → Bool
is_set none = false
is_set (some (word w)) = not (w == "")
is_set (some (number n)) = true
is_set (some (millionths n)) = true

abbrev pub logic_of : Option Setting → String
logic_of (some (word w)) = w
logic_of _ = ""

abbrev pub time_limit_of : Option ℤ → TimeLimitConfig
time_limit_of none = record { enabled = false; wall_minutes = 60000000 }
time_limit_of (some m) = record { enabled = true; wall_minutes = pos_part m }

abbrev pub end_year_of : Option ℤ → GameDateLimitConfig
end_year_of none = record { enabled = false; end_year = pos 2000 }
end_year_of (some n) = record { enabled = true; end_year = n }

abbrev pub revenue_of : Option ℤ → RevenueThresholdConfig
revenue_of none = record { enabled = false; total_revenue = pos 1000000 }
revenue_of (some n) = record { enabled = true; total_revenue = n }

abbrev pub cargo_of : Option ℤ → CargoThresholdConfig
cargo_of none = record { enabled = false; total_cargo_delivered = pos 50000 }
cargo_of (some n) = record { enabled = true; total_cargo_delivered = n }

abbrev pub heartbeats_of : Option ℤ → MaxHeartbeatsConfig
heartbeats_of none = record { enabled = false; count = pos 1000 }
heartbeats_of (some n) = record { enabled = true; count = n }

-- The configuration that the settings enable.
abbrev pub applied : String → Settings → EndConditionsConfig
applied logic settings = record {
  logic = logic;
  time_limit = time_limit_of (minutes_of (lookup "_ec_wall_minutes" settings));
  game_date_limit = end_year_of (number_of (lookup "_ec_end_year" settings));
  revenue_threshold = revenue_of (number_of (lookup "_ec_revenue" settings));
  cargo_threshold = cargo_of (number_of (lookup "_ec_cargo" settings));
  max_heartbeats = heartbeats_of (number_of (lookup "_ec_max_heartbeats" settings));
  bankruptcy = record { enabled = is_set (lookup "_ec_bankruptcy" settings) };
}

-- `_apply_end_conditions`: none where the settings name no logic, and the checker is left as it is.
unfoldable pub apply_end_conditions : Settings → Option EndConditionsConfig
apply_end_conditions settings =
    let logic = logic_of (lookup "_ec_logic" settings) in
    if logic == "" then none else some (applied logic settings)
