-- ===== src/Config/Load.antt =====
-- The scenario as the session keeps it: `load` of src/nttd/config/scenario_config.py. A switch is kept by
-- its truth; name, description, mode and logic by their text. A negative number of minutes is taken as
-- none, which ends a run at once as it does.
use nttd.Prelude.{
  String, Bool, true, false, Option, none, some, List, [], ◌∷◌, string_eq, if◌then◌else◌,
}
use nttd.Prelude.Int.{ℤ, pos, pos_part}
use nttd.EndConditions.{TimeLimitConfig, EndConditionsConfig}
use nttd.Config.Tree.{
  Node, flag, integer, decimal, text, nothing, truth, get_or, Texts, int_of, float_of, str_of,
}
use nttd.Config.Profile.{BenchmarkProfile}
use nttd.Config.Scored.{resolve_scored}
use nttd.Config.Export.{scenario_id_of}

infixl 5 ◌>>=◌
abbrev pub ◌>>=◌ : {A B : Type 0} → Option A → (A → Option B) → Option B
none >>= f = none
some a >>= f = f a

abbrev pub default_time_limit : TimeLimitConfig
default_time_limit = record { enabled = true; wall_minutes = 60000000 }

-- `EndConditionsConfig()` with a logic and a time limit.
abbrev pub end_conditions_default : String → TimeLimitConfig → EndConditionsConfig
end_conditions_default logic time_limit = record {
  logic = logic;
  time_limit = time_limit;
  game_date_limit = record { enabled = false; end_year = pos 2000 };
  revenue_threshold = record { enabled = false; total_revenue = pos 1000000 };
  cargo_threshold = record { enabled = false; total_cargo_delivered = pos 50000 };
  max_heartbeats = record { enabled = false; count = pos 1000 };
  bankruptcy = record { enabled = false };
}

pub record HeartbeatConfig : Type 0 where
  pub interval_days : ℤ
  pub action_window_seconds : ℤ
  pub game_speed : ℤ

pub record RuntimeConfig : Type 0 where
  pub mode : String
  pub game_speed : ℤ
  pub snapshot_interval_days : ℤ
  pub timekeeping_units : String
  pub minutes_per_calendar_year : ℤ

pub record ScenarioConfig : Type 0 where
  pub name : String
  pub description : String
  pub id : String
  pub scored : Bool
  pub heartbeat : HeartbeatConfig
  pub end_conditions : EndConditionsConfig
  pub runtime : RuntimeConfig
  pub raw : Option Node

abbrev pub default_scenario : ScenarioConfig
default_scenario = record {
  name = "default";
  description = "";
  id = "";
  scored = false;
  heartbeat = record {
    interval_days = pos 30;
    action_window_seconds = pos 5000000;
    game_speed = pos 1;
  };
  end_conditions = end_conditions_default "any" default_time_limit;
  runtime = record {
    mode = "async_realtime";
    game_speed = pos 1;
    snapshot_interval_days = pos 1;
    timekeeping_units = "calendar";
    minutes_per_calendar_year = pos 12;
  };
  raw = none;
}

-- What came of opening and parsing the file: neither is modelled.
pub data Source : Type 0 where
  missing : Source
  no_pyhocon : Source
  unparseable : Source
  parsed : Node → Source

pub data Loaded : Type 0 where
  scenario : ScenarioConfig → Loaded
  not_found : Loaded
  could_not_parse : Loaded
  conversion_failed : Loaded

abbrev pub under : String → String → List String
under section key = section ∷ key ∷ []

module _ (texts : Texts) (profile : BenchmarkProfile) where
  abbrev pub int_under : ℤ → List String → Node → Option ℤ
  int_under default path cfg = int_of texts (get_or (integer default) path cfg)

  abbrev pub switch : Bool → String → Node → Bool
  switch default section ec = truth (get_or (flag default) (under section "enabled") ec)

  unfoldable pub loaded_end_conditions : Node → Option EndConditionsConfig
  loaded_end_conditions ec = do
    wall ← float_of texts (get_or (decimal (pos 60000000)) (under "time_limit" "wall_minutes") ec)
    end_year ← int_under (pos 2000) (under "game_date_limit" "end_year") ec
    revenue ← int_under (pos 1000000) (under "revenue_threshold" "total_revenue") ec
    cargo ← int_under (pos 50000) (under "cargo_threshold" "total_cargo_delivered") ec
    beats ← int_under (pos 1000) (under "max_heartbeats" "count") ec
    some (record {
      logic = str_of texts (get_or (text "any") ("logic" ∷ []) ec);
      time_limit = record { enabled = switch true "time_limit" ec; wall_minutes = pos_part wall };
      game_date_limit = record { enabled = switch false "game_date_limit" ec; end_year = end_year };
      revenue_threshold = record {
        enabled = switch false "revenue_threshold" ec;
        total_revenue = revenue;
      };
      cargo_threshold = record {
        enabled = switch false "cargo_threshold" ec;
        total_cargo_delivered = cargo;
      };
      max_heartbeats = record { enabled = switch false "max_heartbeats" ec; count = beats };
      bankruptcy = record { enabled = switch false "bankruptcy" ec };
    })

  unfoldable pub loaded_runtime : Node → Node → Option RuntimeConfig
  loaded_runtime rt hb = do
    speed ←
        int_of texts
          (get_or (get_or (integer (pos 1)) ("game_speed" ∷ []) hb) ("game_speed" ∷ []) rt)
    interval ← int_under (pos 1) ("snapshot_interval_days" ∷ []) rt
    minutes ← int_under (pos 12) ("minutes_per_calendar_year" ∷ []) rt
    some (record {
      mode = str_of texts (get_or (text "async_realtime") ("mode" ∷ []) rt);
      game_speed = speed;
      snapshot_interval_days = interval;
      timekeeping_units = str_of texts (get_or (text "calendar") ("timekeeping_units" ∷ []) rt);
      minutes_per_calendar_year = minutes;
    })

  unfoldable pub loaded_heartbeat : Node → Option HeartbeatConfig
  loaded_heartbeat hb = do
    days ← int_under (pos 30) ("interval_days" ∷ []) hb
    window ← float_of texts (get_or (decimal (pos 5000000)) ("action_window_seconds" ∷ []) hb)
    speed ← int_under (pos 1) ("game_speed" ∷ []) hb
    some (record { interval_days = days; action_window_seconds = window; game_speed = speed })

  unfoldable pub loaded_scenario : Node → Option ScenarioConfig
  loaded_scenario s = do
    end_conditions ← loaded_end_conditions (get_or nothing ("end_conditions" ∷ []) s)
    runtime ←
        loaded_runtime (get_or nothing ("runtime" ∷ []) s) (get_or nothing ("heartbeat" ∷ []) s)
    heartbeat ← loaded_heartbeat (get_or nothing ("heartbeat" ∷ []) s)
    some (record {
      name = str_of texts (get_or (text "default") ("name" ∷ []) s);
      description = str_of texts (get_or (text "") ("description" ∷ []) s);
      id = scenario_id_of texts profile s;
      scored =
          (resolve_scored texts profile s (get_or nothing ("map" ∷ []) s)
            (scenario_id_of texts profile s)).0;
      heartbeat = heartbeat;
      end_conditions = end_conditions;
      runtime = runtime;
      raw = some s;
    })

  -- `named`: a path was given. Without one, the defaults stand in for a file that cannot be read.
  unfoldable pub load : Bool → Source → Loaded
  load named missing = if named then not_found else scenario default_scenario
  load named no_pyhocon = scenario default_scenario
  load named unparseable = if named then could_not_parse else scenario default_scenario
  load named (parsed raw) = elim (loaded_scenario (get_or raw ("scenario" ∷ []) raw)) [
    | none ↦ conversion_failed
    | some config ↦ scenario config
  ]
