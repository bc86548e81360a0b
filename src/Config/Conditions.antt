-- ===== src/Config/Conditions.antt =====
-- What `_validate_config` of src/nttd/config/scenario_config.py asks of a scenario, in words.
use nttd.Prelude.{
  ℕ, ◌≤◌, ◌≡◌, ◌⊎◌, String, true, false, Option, none, some, List, [], ◌∷◌, string_eq,
}
use Prim.Native.Nat.{◌^◌}
use nttd.Prelude.Dict.{Dict, keys}
use nttd.Prelude.Distinct.{contains}
use nttd.Prelude.Int.{ℤ, pos, ◌≤ℤ◌}
use nttd.Config.Tree.{Node, null, integer, text, get_or, Texts, int_of, str_of}
use nttd.Config.Tables.{
  landscape_map, terrain_map, variety_map, smoothness_map, rivers_map, sea_level_map, towns_map,
  industry_map, town_names_map, default_landscape, default_terrain_type, known_runtime_modes,
}
use nttd.Config.Validate.{Parts, has_individual, limits_time}

-- The setting is one of the names of the table.
abbrev pub Names : Dict String String → Node → Type 0
Names valid node = (s : String) × (node ≡ text s) × (contains s (keys valid) ≡ true)

abbrev pub AtLeast : ℤ → Option ℤ → Type 0
AtLeast n none = Unit
AtLeast n (some lo) = lo ≤ℤ n

abbrev pub AtMost : ℤ → Option ℤ → Type 0
AtMost n none = Unit
AtMost n (some hi) = n ≤ℤ hi

-- A map of 64 to 4096 tiles along the edge, by a power of two.
abbrev pub IsSize : ℤ → Type 0
IsSize n = (k : ℕ) × (6 ≤ k) × (k ≤ 12) × (n ≡ pos (2 ^ k))

abbrev pub Every : List (Type 0) → Type 0
Every [] = Unit
Every (condition ∷ conditions) = condition × Every conditions

module _ (texts : Texts) where
  abbrev pub IsSized : String → Node → Type 0
  IsSized dim m =
      (n : ℤ) × (int_of texts (get_or (integer (pos 256)) (dim ∷ []) m) ≡ some n) × IsSize n

  abbrev pub IsBetween : String → ℤ → Option ℤ → Option ℤ → Node → Type 0
  IsBetween name default lo hi cfg =
      (n : ℤ) × (int_of texts (get_or (integer default) (name ∷ []) cfg) ≡ some n)
      × (AtLeast n lo × AtMost n hi)

  -- A stepped run is not bounded by wall time.
  abbrev pub IsKnownMode : Node → Node → Type 0
  IsKnownMode rt ec =
      let mode = str_of texts (get_or (text "async_realtime") ("mode" ∷ []) rt) in
      (rt ≡ null)
      ⊎ ((contains mode known_runtime_modes ≡ true) × (mode ≡ "stepped" → limits_time ec ≡ false))

  -- Twelve minutes to the year on the calendar, at most 10080 on the wall clock.
  abbrev pub IsTimed : Node → Type 0
  IsTimed rt =
      let units = str_of texts (get_or (text "calendar") ("timekeeping_units" ∷ []) rt) in
      (rt ≡ null)
      ⊎ ((n : ℤ) × (int_of texts (get_or (integer (pos 12)) ("minutes_per_calendar_year" ∷ []) rt)
            ≡ some n)
          × (((units ≡ "calendar") × (n ≡ pos 12))
              ⊎ ((units ≡ "wallclock") × (pos 0 ≤ℤ n) × (n ≤ℤ pos 10080))))

  abbrev pub conditions : Parts → List (Type 0)
  conditions p =
      let m = p.map_cfg in
      let terrain = get_or default_terrain_type ("terrain_type" ∷ []) m in
      let sea = get_or (text "medium") ("sea_level" ∷ []) m in
      let towns = get_or (text "normal") ("number_towns" ∷ []) m in
      let industry = get_or (text "normal") ("industry_density" ∷ []) m in
      Names landscape_map (get_or default_landscape ("landscape" ∷ []) m)
      ∷ Names terrain_map terrain
      ∷ Names variety_map (get_or (text "none") ("variety" ∷ []) m)
      ∷ Names smoothness_map (get_or (text "smooth") ("smoothness" ∷ []) m)
      ∷ Names rivers_map (get_or (text "medium") ("rivers" ∷ []) m)
      ∷ Names sea_level_map sea
      ∷ Names towns_map towns
      ∷ Names industry_map industry
      ∷ Names town_names_map (get_or (text "english") ("town_names" ∷ []) m)
      ∷ IsSized "size_x" m
      ∷ IsSized "size_y" m
      ∷ (terrain ≡ text "custom"
          → IsBetween "custom_terrain_height" (pos 30) (some (pos 1)) (some (pos 255)) m)
      ∷ (sea ≡ text "custom"
          → IsBetween "custom_sea_level" (pos 1) (some (pos 1)) (some (pos 90)) m)
      ∷ (towns ≡ text "custom" → IsBetween "custom_town_number" (pos 1) (some (pos 1)) none m)
      ∷ (industry ≡ text "custom"
          → IsBetween "custom_industry_number" (pos 1) (some (pos 1)) none m)
      ∷ (has_individual m ≡ true → get_or (text "random") ("map_edges" ∷ []) m ≡ text "manual")
      ∷ IsBetween "starting_year" (pos 1960) (some (pos 0)) (some (pos 5000000)) m
      ∷ IsBetween "num_ai_companies" (pos 2) (some (pos 0)) (some (pos 14)) p.companies
      ∷ IsBetween "max_loan" (pos 300000) (some (pos 0)) none p.companies
      ∷ IsKnownMode p.runtime p.end_conditions
      ∷ IsTimed p.runtime
      ∷ (p.fairness ≡ null)
      ∷ []
