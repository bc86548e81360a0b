-- ===== src/Config/Tables.antt =====
-- The names that src/nttd/config/scenario_config.py gives to the settings of the game.
use nttd.Prelude.{String, List, [], ◌∷◌}
use nttd.Prelude.Dict.{Dict}
use nttd.Prelude.Int.{pos}
use nttd.Config.Tree.{Node, integer, text}

abbrev pub landscape_map : Dict String String
landscape_map =
    ("temperate", "0")
    ∷ ("sub-arctic", "1")
    ∷ ("sub-tropical", "2")
    ∷ ("toyland", "3")
    ∷ ("arctic", "1")
    ∷ ("tropic", "2")
    ∷ []

abbrev pub terrain_map : Dict String String
terrain_map =
    ("very_flat", "0")
    ∷ ("flat", "1")
    ∷ ("hilly", "2")
    ∷ ("mountainous", "3")
    ∷ ("alpinist", "4")
    ∷ ("custom", "5")
    ∷ []

abbrev pub variety_map : Dict String String
variety_map =
    ("none", "0")
    ∷ ("very_low", "1")
    ∷ ("low", "2")
    ∷ ("medium", "3")
    ∷ ("high", "4")
    ∷ ("very_high", "5")
    ∷ []

abbrev pub smoothness_map : Dict String String
smoothness_map = ("very_smooth", "0") ∷ ("smooth", "1") ∷ ("rough", "2") ∷ ("very_rough", "3") ∷ []

abbrev pub rivers_map : Dict String String
rivers_map = ("none", "0") ∷ ("few", "1") ∷ ("medium", "2") ∷ ("many", "3") ∷ []

abbrev pub sea_level_map : Dict String String
sea_level_map =
    ("very_low", "0") ∷ ("low", "1") ∷ ("medium", "2") ∷ ("high", "3") ∷ ("custom", "4") ∷ []

abbrev pub towns_map : Dict String String
towns_map =
    ("very_low", "0") ∷ ("low", "1") ∷ ("normal", "2") ∷ ("high", "3") ∷ ("custom", "4") ∷ []

abbrev pub industry_map : Dict String String
industry_map =
    ("funding_only", "0")
    ∷ ("minimal", "1")
    ∷ ("very_low", "2")
    ∷ ("low", "3")
    ∷ ("normal", "4")
    ∷ ("high", "5")
    ∷ ("custom", "6")
    ∷ []

abbrev pub town_names_map : Dict String String
town_names_map =
    ("english", "0")
    ∷ ("french", "1")
    ∷ ("german", "2")
    ∷ ("american", "3")
    ∷ ("latin_american", "4")
    ∷ ("silly", "5")
    ∷ ("swedish", "6")
    ∷ ("dutch", "7")
    ∷ ("finnish", "8")
    ∷ ("polish", "9")
    ∷ ("slovak", "10")
    ∷ ("norwegian", "11")
    ∷ ("hungarian", "12")
    ∷ ("austrian", "13")
    ∷ ("romanian", "14")
    ∷ ("czech", "15")
    ∷ ("swiss", "16")
    ∷ ("danish", "17")
    ∷ ("turkish", "18")
    ∷ ("italian", "19")
    ∷ ("catalan", "20")
    ∷ ("english_additional", "21")
    ∷ []

-- The defaults of a map.
abbrev pub default_size : Node
default_size = integer (pos 256)

abbrev pub default_landscape : Node
default_landscape = text "temperate"

abbrev pub default_terrain_type : Node
default_terrain_type = text "flat"

abbrev pub known_runtime_modes : List String
known_runtime_modes = "async_realtime" ∷ "heartbeat" ∷ "stepped" ∷ []
