-- ===== src/Config/Settings.antt =====
-- The settings of the game that `scenario_to_settings` writes, and what it calls, in src/nttd/config/scenario_config.py.
-- A setting stands for its text: a number for the text that `int` or `float` reads back.
use nttd.Prelude.{
  zero, suc, ◌/◌, String, Bool, true, false, Option, none, some, List, [], ◌∷◌, ◌++◌, string_eq,
  nat_eq, leb, if◌then◌else◌,
}
use nttd.Prelude.Dict.{Dict, insert}
use nttd.Prelude.Int.{ℤ, pos, pos_part, eqb_ℤ}
use Prim.Native.Nat.{ℕ, bit_or}
use nttd.Config.Tree.{int_at, Node, integer, text, truth, is_text, get_or, Texts, int_of, code_of}
use nttd.Config.Tables.{
  landscape_map, terrain_map, variety_map, smoothness_map, rivers_map, sea_level_map, towns_map,
  industry_map, town_names_map, default_size, default_landscape, default_terrain_type,
}
use nttd.Config.Profile.{BenchmarkProfile}
use nttd.Config.Scored.{locked_aware_get}

pub data Setting : Type 0 where
  word : String → Setting
  number : ℤ → Setting
  millionths : ℤ → Setting

abbrev pub Settings : Type 0
Settings = Dict String Setting

-- The rounds of `_log2`, which halves n to 1 at most: n rounds are enough.
unfoldable pub halvings : (fuel n : ℕ) → ℕ
halvings zero n = 0
halvings (suc fuel) n = let more = suc (halvings fuel (n / 2)) in if leb n 1 then 0 else more

unfoldable pub log2 : ℤ → ℕ
unfolding halvings
log2 n = halvings (pos_part n) (pos_part n)

-- `bitmask |= border`, where the map sets that border.
abbrev with_border : Node → String → ℕ → ℕ → ℕ
with_border m name border bitmask =
    if truth (get_or (integer (pos 0)) (name ∷ []) m) then bit_or bitmask border else bitmask

unfoldable pub compute_water_borders : Node → Node → ℕ
compute_water_borders m given =
    let edges = if truth given then given else get_or (text "random") ("map_edges" ∷ []) m in
    if is_text "random" edges
    then 16
    else if is_text "all_water" edges
    then bit_or (bit_or (bit_or 1 2) 4) 8
    else with_border m "water_borders_nw" 8 (
        with_border m "water_borders_sw" 4
          (with_border m "water_borders_se" 2 (with_border m "water_borders_ne" 1 0)))

-- A piece of the settings, in the order of their assignment; none where a conversion raised.
abbrev pub Piece : Type 0
Piece = Option (List (String × Setting))

abbrev pub join : Piece → Piece → Piece
join none later = none
join (some entries) none = none
join (some entries) (some later) = some (entries ++ later)

unfoldable pub join_all : List Piece → Piece
join_all [] = some []
join_all (piece ∷ pieces) = join piece (join_all pieces)

unfoldable pub assign : List (String × Setting) → Settings → Settings
assign [] settings = settings
assign ((key, value) ∷ entries) settings = assign entries (insert key value settings)

abbrev pub say : String → String → Piece
say key value = some ((key, word value) ∷ [])

abbrev pub code : String → Option String → Piece
code key none = none
code key (some value) = say key value

abbrev pub count : String → Option ℤ → Piece
count key none = none
count key (some n) = some ((key, number n) ∷ [])

abbrev pub minutes : String → Option ℤ → Piece
minutes key none = none
minutes key (some n) = some ((key, millionths n) ∷ [])

abbrev pub only_if : Bool → Piece → Piece
only_if true piece = piece
only_if false piece = some []

-- A number that is written only where it is not the usual one.
abbrev pub unless : ℤ → String → Option ℤ → Piece
unless usual key none = none
unless usual key (some n) = if eqb_ℤ n usual then some [] else some ((key, number n) ∷ [])

abbrev pub log2_of : Option ℤ → Option ℤ
log2_of none = none
log2_of (some n) = some (pos (log2 n))

module _ (texts : Texts) (profile : BenchmarkProfile) where
  module _ (m : Node) (scored : Bool) where
    abbrev pub setting : String → Node → Node
    setting = locked_aware_get profile.locked m scored

    -- The map's own settings.
    unfoldable pub map_piece : Piece
    map_piece =
        let terrain = get_or default_terrain_type ("terrain_type" ∷ []) m in
        let sea = setting "sea_level" (text "medium") in
        let towns = setting "number_towns" (text "normal") in
        let industry = setting "industry_density" (text "normal") in
        join_all (
          count "game_creation.map_x"
            (log2_of (int_of texts (get_or default_size ("size_x" ∷ []) m)))
          ∷ count "game_creation.map_y"
              (log2_of (int_of texts (get_or default_size ("size_y" ∷ []) m)))
          ∷ code "game_creation.landscape"
              (code_of landscape_map "0" (get_or default_landscape ("landscape" ∷ []) m))
          ∷ code "difficulty.terrain_type" (code_of terrain_map "1" terrain)
          ∷ only_if (is_text "custom" terrain) (
              count "game_creation.custom_terrain_type"
                (int_at texts (pos 30) "custom_terrain_height" m))
          ∷ code "game_creation.variety" (code_of variety_map "0" (setting "variety" (text "none")))
          ∷ code "game_creation.tgen_smoothness"
              (code_of smoothness_map "1" (setting "smoothness" (text "smooth")))
          ∷ code "game_creation.amount_of_rivers"
              (code_of rivers_map "2" (setting "rivers" (text "medium")))
          ∷ code "difficulty.quantity_sea_lakes" (code_of sea_level_map "2" sea)
          ∷ only_if (is_text "custom" sea)
              (count "game_creation.custom_sea_level" (int_at texts (pos 1) "custom_sea_level" m))
          ∷ count "game_creation.water_borders"
              (some (pos (compute_water_borders m (setting "map_edges" (text "random")))))
          ∷ code "game_creation.town_name"
              (code_of town_names_map "0" (setting "town_names" (text "english")))
          ∷ code "difficulty.number_towns" (code_of towns_map "2" towns)
          ∷ only_if (is_text "custom" towns) (
              count "game_creation.custom_town_number"
                (int_at texts (pos 1) "custom_town_number" m))
          ∷ code "difficulty.industry_density" (code_of industry_map "4" industry)
          ∷ only_if (is_text "custom" industry) (
              count "game_creation.custom_industry_number"
                (int_at texts (pos 1) "custom_industry_number" m))
          ∷ count "game_creation.starting_year"
              (int_of texts (setting "starting_year" (integer (pos 1960))))
          ∷ [])
