-- ===== src/Config/Export.antt =====
-- `scenario_to_settings` of src/nttd/config/scenario_config.py.
use nttd.Prelude.{
  String, Bool, false, not, ◌||◌, Option, none, some, List, [], ◌∷◌, ◌==◌, string_eq, if◌then◌else◌,
}
use nttd.Prelude.Int.{pos}
use Prim.Native.String.{◌++◌ as append}
use nttd.Config.Tree.{
  int_at, Node, null, flag, integer, text, nothing, truth, is_null, get_or, Texts, int_of, float_of,
  str_of,
}
use nttd.Config.Tables.{default_size, default_landscape, default_terrain_type}
use nttd.Config.Profile.{BenchmarkProfile, reported_settings}
use nttd.Config.Validate.{Parts, Problem, Validation, accepted, refused, raised, validate_config}
use nttd.Config.Scored.{resolve_scored}
use nttd.Config.Settings.{
  Setting, word, Settings, Piece, join_all, assign, say, count, minutes, only_if, unless, setting,
  map_piece,
}

pub data Exported : Type 0 where
  settings : Settings → Exported
  no_tree : Exported
  invalid : List Problem → Exported
  conversion_failed : Exported

-- `_MAP_DEFAULTS.get(key)`, null where it has none.
unfoldable pub default_of : String → Node
default_of key =
    if key == "size_x" || key == "size_y"
    then default_size
    else if key == "landscape"
    then default_landscape
    else if key == "terrain_type"
    then default_terrain_type
    else null

-- A condition of the end that is written only where it is enabled.
abbrev pub condition : String → Node → (Node → Piece) → Piece
condition key ec piece =
    let cfg = get_or nothing (key ∷ []) ec in
    only_if (truth (get_or (flag false) ("enabled" ∷ []) cfg)) (piece cfg)

abbrev pub parts_of : Node → Parts
parts_of raw = record {
  map_cfg = get_or nothing ("map" ∷ []) raw;
  companies = get_or nothing ("companies" ∷ []) raw;
  runtime = get_or nothing ("runtime" ∷ []) raw;
  fairness = get_or null ("fairness" ∷ []) raw;
  end_conditions = get_or null ("end_conditions" ∷ []) raw;
}

abbrev pub write : Piece → Exported
write none = conversion_failed
write (some entries) = settings (assign entries [])

abbrev pub validated : Validation → Piece → Exported
validated accepted pieces = write pieces
validated (refused problems) pieces = invalid problems
validated raised pieces = conversion_failed

module _ (texts : Texts) (profile : BenchmarkProfile) where
  unfoldable pub end_piece : Node → Piece
  end_piece ec = only_if (truth ec) (
      join_all (
        say "_ec_logic" (str_of texts (get_or (text "any") ("logic" ∷ []) ec))
        ∷ condition "time_limit" ec (λ cfg.
          minutes "_ec_wall_minutes"
            (float_of texts (get_or (integer (pos 15)) ("wall_minutes" ∷ []) cfg)))
        ∷ condition "game_date_limit" ec
            (λ cfg. count "_ec_end_year" (int_at texts (pos 2000) "end_year" cfg))
        ∷ condition "revenue_threshold" ec
            (λ cfg. count "_ec_revenue" (int_at texts (pos 1000000) "total_revenue" cfg))
        ∷ condition "cargo_threshold" ec
            (λ cfg. count "_ec_cargo" (int_at texts (pos 50000) "total_cargo_delivered" cfg))
        ∷ condition "max_heartbeats" ec
            (λ cfg. count "_ec_max_heartbeats" (int_at texts (pos 1000) "count" cfg))
        ∷ condition "bankruptcy" ec (λ cfg. say "_ec_bankruptcy" "1")
        ∷ []))

  unfoldable pub seed_piece : Node → Piece
  seed_piece m =
      let seed = get_or null ("seed" ∷ []) m in
      only_if (not (is_null seed)) (
        join_all (
          count "game_creation.generation_seed" (int_of texts seed)
          ∷ count "_map_seed" (int_of texts seed)
          ∷ []))

  unfoldable pub company_piece : Node → Piece
  company_piece co = join_all (
      count "difficulty.max_no_competitors" (int_at texts (pos 2) "num_ai_companies" co)
      ∷ count "difficulty.competitors_interval" (int_at texts (pos 0) "competitors_interval" co)
      ∷ unless (pos 300000) "difficulty.max_loan" (int_at texts (pos 300000) "max_loan" co)
      ∷ [])

  unfoldable pub clock_piece : Node → Piece
  clock_piece rt =
      let units = str_of texts (get_or (text "calendar") ("timekeeping_units" ∷ []) rt) in
      join_all (
        say "economy.timekeeping_units" (if units == "wallclock" then "1" else "0")
        ∷ count "economy.minutes_per_calendar_year"
            (int_at texts (pos 12) "minutes_per_calendar_year" rt)
        ∷ [])

  -- The readable copies of the dimensions.
  unfoldable pub dimensions : Node → Bool → List String → List (String × Setting)
  dimensions m scored [] = []
  dimensions m scored (key ∷ keys) =
      let value = setting texts profile m scored key (default_of key) in
      let rest = dimensions m scored keys in
      if is_null value then rest else ((append "_dim_" key, word (str_of texts value)) ∷ rest)

  unfoldable pub identity_piece : Node → String → Bool → String → Piece
  identity_piece m scenario_id scored version = join_all (
      say "_scenario_id" scenario_id
      ∷ only_if scored (join_all (say "_scored" "1" ∷ say "_profile_version" version ∷ []))
      ∷ some (dimensions m scored (reported_settings profile))
      ∷ [])

  unfoldable pub session_piece : Node → Node → Piece
  session_piece rt hb = join_all (
      say "_runtime_mode" (str_of texts (get_or (text "async_realtime") ("mode" ∷ []) rt))
      ∷ unless (pos 1) "_snapshot_interval_days" (int_at texts (pos 1) "snapshot_interval_days" rt)
      ∷ count "_heartbeat_interval_days" (int_at texts (pos 30) "interval_days" hb)
      ∷ count "_screenshot_interval_seconds" (int_at texts (pos 0) "screenshot_interval_seconds" rt)
      ∷ say "_screenshot_type" (str_of texts (get_or (text "minimap") ("screenshot_type" ∷ []) rt))
      ∷ count "_save_interval_seconds" (int_at texts (pos 0) "save_interval_seconds" rt)
      ∷ [])

  -- The scenario's id, which is its name where it has none.
  unfoldable pub scenario_id_of : Node → String
  scenario_id_of raw =
      let name = str_of texts (get_or (text "default") ("name" ∷ []) raw) in
      str_of texts (get_or (text name) ("id" ∷ []) raw)

  -- `version` is the digest of the rules.
  unfoldable pub all_pieces : String → Node → Bool → Piece
  all_pieces version raw scored =
      let p = parts_of raw in
      join_all (
        map_piece texts profile p.map_cfg scored
        ∷ seed_piece p.map_cfg
        ∷ company_piece p.companies
        ∷ clock_piece p.runtime
        ∷ identity_piece p.map_cfg (scenario_id_of raw) scored version
        ∷ session_piece p.runtime (get_or nothing ("heartbeat" ∷ []) raw)
        ∷ end_piece (get_or nothing ("end_conditions" ∷ []) raw)
        ∷ [])

  unfoldable pub export_tree : String → Bool → Node → Exported
  export_tree version strict raw =
      let p = parts_of raw in
      let (scored, conformance) = resolve_scored texts profile raw p.map_cfg (scenario_id_of raw) in
      validated (validate_config texts strict conformance p) (all_pieces version raw scored)

  -- None is a scenario that was not read from a file.
  unfoldable pub scenario_to_settings : String → Bool → Option Node → Exported
  scenario_to_settings version strict none = if strict then no_tree else settings []
  scenario_to_settings version strict (some raw) = export_tree version strict raw
