-- ===== src/Config/Validate.antt =====
-- `_validate_config` of src/nttd/config/scenario_config.py. A problem stands for its message; the
-- lenient mode, which logs the problems, has nothing to report. An `int(…)` that raises ends it.
use nttd.Prelude.{
  ◌-◌, String, Bool, true, false, not, ◌&&◌, ◌||◌, Option, none, some, List, [], ◌∷◌, ◌++◌, map,
  any, ◌==◌, string_eq, nat_eq, if◌then◌else◌,
}
use nttd.Prelude.Dict.{Dict}
use nttd.Prelude.Distinct.{contains}
use nttd.Prelude.Int.{ℤ, pos, pos_part, ltb_ℤ, eqb_ℤ}
use Prim.Native.Nat.{bit_and}
use nttd.Config.Tree.{
  Node, flag, integer, text, truth, is_null, is_text, get_or, Texts, int_of, str_of, is_key,
}
use nttd.Config.Tables.{
  landscape_map, terrain_map, variety_map, smoothness_map, rivers_map, sea_level_map, towns_map,
  industry_map, town_names_map, default_landscape, default_terrain_type, known_runtime_modes,
}
use nttd.Config.Profile.{Deviation}

pub data Problem : Type 0 where
  deviates : Deviation → Problem
  unknown_value : String → Node → Problem
  size_out_of_range : String → ℤ → Problem
  not_power_of_two : String → ℤ → Problem
  out_of_range : String → ℤ → Problem
  borders_ignored : Node → Problem
  unknown_mode : String → Problem
  time_limit_in_stepped : Problem
  unknown_units : String → Problem
  minutes_out_of_range : ℤ → Problem
  minutes_need_wallclock : ℤ → Problem
  fairness_not_read : Problem

-- What a check found; none where it raised.
abbrev pub Found : Type 0
Found = Option (List Problem)

abbrev pub both : Found → Found → Found
both none later = none
both (some found) none = none
both (some found) (some later) = some (found ++ later)

-- The checks in turn, on one list of problems.
unfoldable pub gather : List Found → Found
gather [] = some []
gather (check ∷ checks) = both check (gather checks)

-- What is found on a value that a conversion gave, unless it raised.
abbrev pub found_by : {A : Type 0} → (A → List Problem) → Option A → Found
found_by f none = none
found_by f (some a) = some (f a)

abbrev pub report : Bool → Problem → List Problem
report true problem = problem ∷ []
report false problem = []

pub data Validation : Type 0 where
  accepted : Validation
  refused : List Problem → Validation
  raised : Validation

-- A lenient check only logs, so its list of problems stays empty.
abbrev pub judge : Bool → Found → Validation
judge strict none = raised
judge strict (some []) = accepted
judge strict (some (problem ∷ problems)) = if strict then refused (problem ∷ problems) else accepted

-- The trees that are checked; none of the last three is read where it is null.
pub record Parts : Type 0 where
  pub map_cfg : Node
  pub companies : Node
  pub runtime : Node
  pub fairness : Node
  pub end_conditions : Node

unfoldable pub check_known : String → Dict String String → Node → Node → Found
check_known name valid default m =
    let value = get_or default (name ∷ []) m in
    found_by (λ known. report (not known) (unknown_value name value)) (is_key valid value)

unfoldable pub size_found : String → ℤ → List Problem
size_found dim val =
    if ltb_ℤ val (pos 64) || ltb_ℤ (pos 4096) val
    then size_out_of_range dim val ∷ []
    else report (not (bit_and (pos_part val) (pos_part val - 1) == 0)) (not_power_of_two dim val)

-- A bound that the source does not test is none.
abbrev pub below : ℤ → Option ℤ → Bool
below n none = false
below n (some lo) = ltb_ℤ n lo

abbrev pub above : ℤ → Option ℤ → Bool
above n none = false
above n (some hi) = ltb_ℤ hi n

abbrev edges_of : Node → Node
edges_of = get_or (text "random") ("map_edges" ∷ [])

abbrev border_names : List String
border_names =
    "water_borders_ne" ∷ "water_borders_se" ∷ "water_borders_sw" ∷ "water_borders_nw" ∷ []

unfoldable pub has_individual : Node → Bool
has_individual m = any (λ name. truth (get_or (integer (pos 0)) (name ∷ []) m)) border_names

unfoldable pub check_borders : Node → Found
check_borders m = some (
    report (not (is_text "manual" (edges_of m)) && has_individual m) (borders_ignored (edges_of m)))

unfoldable pub check_fairness : Node → Found
check_fairness fair = some (report (not (is_null fair)) fairness_not_read)

-- `_get(ec, "time_limit.enabled", True)`
unfoldable pub limits_time : Node → Bool
limits_time ec = not (is_null ec) && truth (get_or (flag true) ("time_limit" ∷ "enabled" ∷ []) ec)

abbrev pub minutes_found : String → ℤ → List Problem
minutes_found units minutes =
    if units == "wallclock"
    then report (ltb_ℤ minutes (pos 0) || ltb_ℤ (pos 10080) minutes) (minutes_out_of_range minutes)
    else report (not (eqb_ℤ minutes (pos 12))) (minutes_need_wallclock minutes)

module _ (texts : Texts) where
  unfoldable pub check_size : String → Node → Found
  check_size dim m =
      found_by (size_found dim) (int_of texts (get_or (integer (pos 256)) (dim ∷ []) m))

  unfoldable pub check_range : String → ℤ → Option ℤ → Option ℤ → Node → Found
  check_range name default lo hi cfg =
      found_by (λ n. report (below n lo || above n hi) (out_of_range name n))
        (int_of texts (get_or (integer default) (name ∷ []) cfg))

  -- A number that counts only where its setting is "custom".
  unfoldable pub check_custom : Node → String → ℤ → ℤ → Option ℤ → Node → Found
  check_custom setting name default lo hi m =
      if is_text "custom" setting then check_range name default (some lo) hi m else some []

  unfoldable pub check_mode : Node → Node → Found
  check_mode rt ec =
      let mode = str_of texts (get_or (text "async_realtime") ("mode" ∷ []) rt) in
      if is_null rt
      then some []
      else if not (contains mode known_runtime_modes)
      then some (unknown_mode mode ∷ [])
      else some (report (mode == "stepped" && limits_time ec) time_limit_in_stepped)

  unfoldable pub check_timekeeping : Node → Found
  check_timekeeping rt =
      let units = str_of texts (get_or (text "calendar") ("timekeeping_units" ∷ []) rt) in
      let known = units == "calendar" || units == "wallclock" in
      let minutes =
        int_of texts (get_or (integer (pos 12)) ("minutes_per_calendar_year" ∷ []) rt) in
      let found =
        found_by (λ n. report (not known) (unknown_units units) ++ minutes_found units n) minutes in
      if is_null rt then some [] else found

  unfoldable pub problems_of : List Deviation → Parts → Found
  problems_of conformance p =
      let m = p.map_cfg in
      let terrain = get_or default_terrain_type ("terrain_type" ∷ []) m in
      let sea = get_or (text "medium") ("sea_level" ∷ []) m in
      let towns = get_or (text "normal") ("number_towns" ∷ []) m in
      let industry = get_or (text "normal") ("industry_density" ∷ []) m in
      gather (
        some (map deviates conformance)
        ∷ check_known "landscape" landscape_map default_landscape m
        ∷ check_known "terrain_type" terrain_map default_terrain_type m
        ∷ check_known "variety" variety_map (text "none") m
        ∷ check_known "smoothness" smoothness_map (text "smooth") m
        ∷ check_known "rivers" rivers_map (text "medium") m
        ∷ check_known "sea_level" sea_level_map (text "medium") m
        ∷ check_known "number_towns" towns_map (text "normal") m
        ∷ check_known "industry_density" industry_map (text "normal") m
        ∷ check_known "town_names" town_names_map (text "english") m
        ∷ check_size "size_x" m
        ∷ check_size "size_y" m
        ∷ check_custom terrain "custom_terrain_height" (pos 30) (pos 1) (some (pos 255)) m
        ∷ check_custom sea "custom_sea_level" (pos 1) (pos 1) (some (pos 90)) m
        ∷ check_custom towns "custom_town_number" (pos 1) (pos 1) none m
        ∷ check_custom industry "custom_industry_number" (pos 1) (pos 1) none m
        ∷ check_borders m
        ∷ check_range "starting_year" (pos 1960) (some (pos 0)) (some (pos 5000000)) m
        ∷ check_range "num_ai_companies" (pos 2) (some (pos 0)) (some (pos 14)) p.companies
        ∷ check_range "max_loan" (pos 300000) (some (pos 0)) none p.companies
        ∷ check_mode p.runtime p.end_conditions
        ∷ check_timekeeping p.runtime
        ∷ check_fairness p.fairness
        ∷ [])

  unfoldable pub validate_config : Bool → List Deviation → Parts → Validation
  validate_config strict conformance p = judge strict (problems_of conformance p)
