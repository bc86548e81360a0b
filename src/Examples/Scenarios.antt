-- ===== src/Examples/Scenarios.antt =====
-- A scenario from its file to the session, at a concrete input.
use nttd.Prelude.{ℕ, ◌≤◌, ◌≡◌, refl, ◌↔◌, ◌⊎◌, true, false, Option, none, some, [], ◌∷◌, string_eq}
use Prim.Native.Nat.{◌^◌}
use nttd.Prelude.Dict.{lookup}
use nttd.Prelude.Int.{pos}
use nttd.EndConditions.{EndConditionsConfig}
use nttd.Config.Tree.{
  Node, null, truth, end, field, tree, flag, integer, text, find, get_or, Texts, int_at,
}
use nttd.Config.Profile.{BenchmarkProfile, deviations, matches}
use nttd.Config.Validate.{accepted, validate_config}
use nttd.Config.Conditions.{Every, conditions}
use nttd.Config.Admission.{validate_config_iff}
use nttd.Config.Scored.{locked_aware_get, resolve_scored}
use nttd.Config.Settings.{Settings, number, word}
use nttd.Config.Export.{Exported, settings, export_tree, parts_of}
use nttd.Config.Load.{end_conditions_default, default_time_limit, loaded_end_conditions}
use nttd.Config.Apply.{apply_end_conditions}
use nttd.Config.RoundTrip.{effective}
use nttd.Config.Limits.{apply_end_conditions-export_tree, time_limit_omitted}
use nttd.Config.EndKeys.{end_of}
use nttd.Config.MapSize.{map_of, export_tree_sizes}
use nttd.Config.Locked.{locked_aware_get-resolve_scored, landscape_omitted}
use nttd.Config.Validate.{
  problems_of, gather, check_known, check_size, check_custom, check_borders, check_range,
  check_mode, check_timekeeping, check_fairness, has_individual, limits_time, size_found,
}
use nttd.Config.Tree.{is_key, child, int_of, str_of, code_of, float_of}
use nttd.Prelude.Distinct.{contains}
use nttd.Config.Export.{
  all_pieces, clock_piece, company_piece, default_of, dimensions, end_piece, identity_piece,
  scenario_id_of, seed_piece, session_piece,
}
use nttd.Config.Profile.{
  allowed_problem, allowlist_problems, as_int, deviations, given, is_permitted, locked_problems,
  place, range_problems, reported_settings, size_problems, sorted, square_problem,
}
use nttd.Config.Settings.{assign, compute_water_borders, halvings, join_all, log2, map_piece}
use nttd.Prelude.Dict.{insert}
use nttd.Prelude.{any}

-- Texts that are never read as numbers.
abbrev texts : Texts
texts = record { int_of_text = λ s. none; float_of_text = λ s. none; shown = λ node. "?" }

abbrev rules : BenchmarkProfile
rules = record {
  locked =
      ("variety", text "none")
      ∷ ("landscape", text "arctic")
      ∷ ("starting_year", integer (pos 2020))
      ∷ [];
  allowed = ("size", integer (pos 256) ∷ integer (pos 512) ∷ []) ∷ [];
  scenario_allowlist = [];
}

abbrev small_map : Node
small_map = tree (field "size_x" (integer (pos 512)) (field "size_y" (integer (pos 512)) end))

abbrev off : Node
off = tree (field "enabled" (flag false) end)

abbrev hundred_beats : Node
hundred_beats = tree (field "enabled" (flag true) (field "count" (integer (pos 100)) end))

abbrev stepped_run : Node
stepped_run = tree (
    field "map" small_map (
      field "runtime" (tree (field "mode" (text "stepped") end)) (
        field "end_conditions"
          (tree (field "time_limit" off (field "max_heartbeats" hundred_beats end))) end)))

-- A run in real time that does not speak of wall time.
abbrev open_run : Node
open_run = tree (field "end_conditions" (tree (field "max_heartbeats" hundred_beats end)) end)

abbrev written_by : Exported → Settings
written_by (settings d) = d
written_by _ = []

abbrev exported : Node → Settings
exported raw = written_by (export_tree texts rules "v1" true raw)

abbrev no_conditions : EndConditionsConfig
no_conditions = end_conditions_default "any" default_time_limit

abbrev kept_by : Option EndConditionsConfig → EndConditionsConfig
kept_by none = no_conditions
kept_by (some c) = c

abbrev kept : Node → EndConditionsConfig
kept raw = kept_by (loaded_end_conditions texts rules (end_of raw))

validate_config_iff_example :
    let p = parts_of stepped_run in
    let conformance = (resolve_scored texts rules stepped_run p.map_cfg "first").1 in
    (validate_config texts true conformance p ≡ accepted) ↔ (
      ((truth (get_or null ("scored" ∷ []) stepped_run) ≡ false)
        ⊎ (deviations texts rules p.map_cfg "first" ≡ []))
      × Every (conditions texts p))
validate_config_iff_example =
    validate_config_iff texts rules stepped_run "first" (parts_of stepped_run)

-- Both are exported by the strict check.
runs_export :
    (export_tree texts rules "v1" true stepped_run ≡ settings (exported stepped_run))
    × (export_tree texts rules "v1" true open_run ≡ settings (exported open_run))
unfolding export_tree resolve_scored validate_config problems_of gather check_known is_key get_or
    find child check_size int_of check_custom check_borders check_range check_mode contains str_of
    check_timekeeping all_pieces clock_piece company_piece default_of dimensions end_piece
    identity_piece scenario_id_of seed_piece session_piece allowed_problem allowlist_problems as_int
    deviations given is_permitted locked_problems matches place range_problems reported_settings
    size_problems sorted square_problem locked_aware_get assign compute_water_borders halvings
    join_all log2 map_piece code_of float_of check_fairness has_individual limits_time size_found
    insert lookup any
runs_export = (refl, refl)

runs_load :
    (loaded_end_conditions texts rules (end_of stepped_run) ≡ some (kept stepped_run))
    × (loaded_end_conditions texts rules (end_of open_run) ≡ some (kept open_run))
unfolding loaded_end_conditions float_of get_or find child int_of str_of
runs_load = (refl, refl)

apply_end_conditions-export_tree_example :
    apply_end_conditions (exported stepped_run) ≡ some (effective (kept stepped_run))
unfolding loaded_end_conditions find get_or child str_of float_of int_of
apply_end_conditions-export_tree_example =
    apply_end_conditions-export_tree texts rules "v1" true stepped_run (exported stepped_run)
      (kept stepped_run) (flag false) (runs_export.0) (runs_load.0) refl (λ h. absurd (cc)) refl
      (λ h. absurd (cc))

time_limit_omitted_example :
    ((kept open_run).time_limit.enabled ≡ true)
    × ((a : EndConditionsConfig) × (apply_end_conditions (exported open_run) ≡ some a)
        × (a.time_limit.enabled ≡ false))
unfolding loaded_end_conditions find get_or child str_of float_of int_of
time_limit_omitted_example =
    time_limit_omitted texts rules "v1" true open_run (exported open_run) (kept open_run)
      (runs_export.1) (runs_load.1) refl (λ h. absurd (cc)) refl

export_tree_sizes_example :
    ((k : ℕ) × (6 ≤ k)
      × (k ≤ 12)
      × (int_at texts (pos 256) "size_x" (map_of stepped_run) ≡ some (pos (2 ^ k)))
      × (lookup "game_creation.map_x" (exported stepped_run) ≡ some (number (pos k))))
    × ((k : ℕ) × (6 ≤ k)
        × (k ≤ 12)
        × (int_at texts (pos 256) "size_y" (map_of stepped_run) ≡ some (pos (2 ^ k)))
        × (lookup "game_creation.map_y" (exported stepped_run) ≡ some (number (pos k))))
export_tree_sizes_example =
    export_tree_sizes texts rules "v1" stepped_run (exported stepped_run) (runs_export.0)

stepped_scored : (resolve_scored texts rules stepped_run (map_of stepped_run) "default").0 ≡ true
unfolding resolve_scored get_or find child deviations locked_problems matches str_of int_of
    size_problems lookup allowed_problem given is_permitted any square_problem as_int range_problems
    allowlist_problems contains
stepped_scored = refl

locked_aware_get-resolve_scored_example :
    matches texts
      (locked_aware_get rules.locked (map_of stepped_run) true "starting_year" (integer (pos 1960)))
      (integer (pos 2020))
    ≡ true
unfolding lookup
locked_aware_get-resolve_scored_example =
    locked_aware_get-resolve_scored texts rules stepped_run (map_of stepped_run) "default"
      "starting_year" (integer (pos 2020)) (integer (pos 1960)) stepped_scored refl

landscape_omitted_example :
    (lookup "game_creation.landscape" (exported stepped_run) ≡ some (word "0"))
    × (locked_aware_get rules.locked (map_of stepped_run) true "landscape" (text "temperate")
        ≡ text "arctic")
unfolding lookup find get_or child
landscape_omitted_example =
    landscape_omitted texts rules "v1" true stepped_run (text "arctic") (exported stepped_run)
      (runs_export.0) refl refl
