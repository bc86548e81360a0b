-- ===== src/Config/Profile.antt =====
-- src/nttd/config/benchmark_profile.py: the rules that a scored scenario has to keep. The rules are
-- read from a file when the program starts, so they are a parameter here.
use nttd.Prelude.{
  String, Bool, false, Option, none, some, List, [], ◌∷◌, ◌++◌, any, ◌==◌, string_eq, if◌then◌else◌,
}
use nttd.Prelude.Dict.{Dict, lookup, keys}
use nttd.Prelude.Distinct.{contains}
use nttd.Prelude.Int.{ℤ, eqb_ℤ}
use Prim.Native.String
use package.text.Mathlib.Text.{is_le}
use nttd.Config.Tree.{Node, null, integer, text, is_null, get_or, Texts, int_of, str_of}

pub record BenchmarkProfile : Type 0 where
  pub locked : Dict String Node
  pub allowed : Dict String (List Node)
  pub scenario_allowlist : List String

abbrev pub size_key : String
size_key = "size"

abbrev pub size_fields : List String
size_fields = "size_x" ∷ "size_y" ∷ []

abbrev pub reported_locked : List String
reported_locked = "landscape" ∷ []

-- A violation of the rules, with the values that its message names.
pub data Deviation : Type 0 where
  locked_differs : String → Node → Deviation
  not_allowed : String → Node → Deviation
  not_square : Node → Node → Deviation
  not_admitted : String → Deviation

-- `sorted(…)` on texts.
unfoldable pub place : String → List String → List String
place key [] = key ∷ []
place key (k ∷ ks) =
    let later = k ∷ place key ks in if is_le (String.compare key k) then key ∷ k ∷ ks else later

unfoldable pub sorted : List String → List String
unfolding place
sorted [] = []
sorted (k ∷ ks) = place k (sorted ks)

abbrev expand : List String → List String
expand [] = []
expand (k ∷ ks) = (if k == size_key then size_fields else k ∷ []) ++ expand ks

abbrev add_missing : List String → List String → List String
add_missing [] keys = keys
add_missing (k ∷ ks) keys = add_missing ks (if contains k keys then keys else keys ++ (k ∷ []))

unfoldable pub reported_settings : BenchmarkProfile → List String
reported_settings profile = add_missing reported_locked (expand (sorted (keys profile.allowed)))

module _ (texts : Texts) where
  abbrev is_number : ℤ → Node → Bool
  is_number n actual = elim (int_of texts actual) [ none ↦ false | some m ↦ eqb_ℤ m n ]

  -- `_matches`: by number where a number is expected, else by text.
  unfoldable pub matches : Node → Node → Bool
  matches actual (integer n) = is_number n actual
  matches actual expected = str_of texts actual == str_of texts expected

  unfoldable pub as_int : Node → Node
  as_int node = elim (int_of texts node) [ none ↦ node | some n ↦ integer n ]

  -- `get(map_cfg, key, None)`, and none where that is None.
  unfoldable pub given : String → Node → Option Node
  given key map_cfg =
      let node = get_or null (key ∷ []) map_cfg in if is_null node then none else some node

  unfoldable pub locked_problems : Dict String Node → Node → List Deviation
  locked_problems [] map_cfg = []
  locked_problems ((key, required) ∷ locked) map_cfg =
      let actual = get_or required (key ∷ []) map_cfg in
      let rest = locked_problems locked map_cfg in
      if matches actual required then rest else locked_differs key actual ∷ rest

  unfoldable pub is_permitted : List Node → Node → Bool
  is_permitted permitted actual = any (matches actual) permitted

  -- One key against its list; an omitted one conforms.
  unfoldable pub allowed_problem : String → List Node → Node → List Deviation
  allowed_problem key permitted map_cfg = elim (given key map_cfg) [
    | none ↦ []
    | some actual ↦ if is_permitted permitted actual then [] else not_allowed key actual ∷ []
  ]

  unfoldable pub square_problem : Option Node → Option Node → List Deviation
  square_problem (some x) (some y) = if matches x (as_int y) then [] else not_square x y ∷ []
  square_problem none y = []
  square_problem (some x) none = []

  unfoldable pub size_problems : Option (List Node) → Node → List Deviation
  size_problems none map_cfg = []
  size_problems (some []) map_cfg = []
  size_problems (some (size ∷ sizes)) map_cfg =
      allowed_problem "size_x" (size ∷ sizes) map_cfg
      ++ (allowed_problem "size_y" (size ∷ sizes) map_cfg
          ++ square_problem (given "size_x" map_cfg) (given "size_y" map_cfg))

  unfoldable pub range_problems : Dict String (List Node) → Node → List Deviation
  range_problems [] map_cfg = []
  range_problems ((key, permitted) ∷ allowed) map_cfg =
      (if key == size_key then [] else allowed_problem key permitted map_cfg)
      ++ range_problems allowed map_cfg

  unfoldable pub allowlist_problems : List String → String → List Deviation
  allowlist_problems [] scenario_id = []
  allowlist_problems (a ∷ admitted) scenario_id =
      if contains scenario_id (a ∷ admitted) then [] else not_admitted scenario_id ∷ []

  unfoldable pub deviations : BenchmarkProfile → Node → String → List Deviation
  deviations profile map_cfg scenario_id =
      locked_problems profile.locked map_cfg
      ++ (size_problems (lookup size_key profile.allowed) map_cfg
          ++ (range_problems profile.allowed map_cfg
              ++ allowlist_problems profile.scenario_allowlist scenario_id))
