-- ===== src/Config/Tree.antt =====
-- What pyhocon hands over for a scenario file, and how src/nttd/config/scenario_config.py reads it.
-- A dot path is the list of its parts. A float is kept by its millionths, a list by whether it has
-- entries.
use nttd.Prelude.{
  zero, suc, ◌*◌, ◌/◌, String, Bool, true, false, not, Option, none, some, List, [], ◌∷◌, ◌==◌,
  string_eq, if◌then◌else◌,
}
use nttd.Prelude.Dict.{Dict, keys, lookup}
use nttd.Prelude.Distinct.{contains}
use nttd.Prelude.Int.{ℤ, pos, negsuc, sub_ℕ}

mutual
  pub data Node : Type 0 where
    null : Node
    flag : Bool → Node
    integer : ℤ → Node
    decimal : ℤ → Node
    text : String → Node
    sequence : Bool → Node
    tree : Fields → Node

  pub data Fields : Type 0 where
    end : Fields
    field : String → Node → Fields → Fields

unfoldable pub child : String → Fields → Option Node
child key end = none
child key (field k value fields) = if k == key then some value else child key fields

-- `_get` without its default: none where a part is missing or stands under no tree.
unfoldable pub find : List String → Node → Option Node
find [] node = some node
find (part ∷ parts) (tree fields) = elim (child part fields) [
  | none ↦ none
  | some node ↦ find parts node
]
find (part ∷ parts) _ = none

-- `_get(node, path, default)`
unfoldable pub get_or : Node → List String → Node → Node
get_or default path node = elim (find path node) [ none ↦ default | some found ↦ found ]

-- The default of most callers: `_get(node, path, {})`.
abbrev pub nothing : Node
nothing = tree end

-- Whether `if value` takes its branch.
abbrev pub truth : Node → Bool
truth null = false
truth (flag b) = b
truth (integer (pos zero)) = false
truth (integer (pos (suc n))) = true
truth (integer (negsuc n)) = true
truth (decimal (pos zero)) = false
truth (decimal (pos (suc n))) = true
truth (decimal (negsuc n)) = true
truth (text s) = not (s == "")
truth (sequence b) = b
truth (tree end) = false
truth (tree (field k value fields)) = true

abbrev pub is_null : Node → Bool
is_null null = true
is_null _ = false

-- `value == "…"`
abbrev pub is_text : String → Node → Bool
is_text s (text t) = t == s
is_text s _ = false

-- What Python's `int` and `float` read of a text, in units and in millionths, and its `str` of a value
-- that is no text.
pub record Texts : Type 0 where
  pub int_of_text : String → Option ℤ
  pub float_of_text : String → Option ℤ
  pub shown : Node → String

abbrev truncated : ℤ → ℤ
truncated (pos m) = pos (m / 1000000)
truncated (negsuc m) = sub_ℕ 0 (suc m / 1000000)

abbrev of_flag : Bool → ℤ
of_flag true = pos 1
of_flag false = pos 0

abbrev scaled : ℤ → ℤ
scaled (pos n) = pos (1000000 * n)
scaled (negsuc n) = sub_ℕ 0 (1000000 * suc n)

module _ (texts : Texts) where
  -- `int(value)`; none is a ValueError or a TypeError.
  unfoldable pub int_of : Node → Option ℤ
  int_of (flag b) = some (of_flag b)
  int_of (integer n) = some n
  int_of (decimal m) = some (truncated m)
  int_of (text s) = texts.int_of_text s
  int_of null = none
  int_of (sequence b) = none
  int_of (tree fields) = none

  -- `int(_get(cfg, key, default))`
  abbrev pub int_at : ℤ → String → Node → Option ℤ
  int_at default key cfg = int_of (get_or (integer default) (key ∷ []) cfg)

  -- `float(value)`, in millionths.
  unfoldable pub float_of : Node → Option ℤ
  float_of (flag b) = some (scaled (of_flag b))
  float_of (integer n) = some (scaled n)
  float_of (decimal m) = some m
  float_of (text s) = texts.float_of_text s
  float_of null = none
  float_of (sequence b) = none
  float_of (tree fields) = none

  -- `str(value)`
  unfoldable pub str_of : Node → String
  str_of (text s) = s
  str_of node = texts.shown node

-- `value in table`: a list or a tree cannot be a key, and raises.
unfoldable pub is_key : Dict String String → Node → Option Bool
is_key entries (text s) = some (contains s (keys entries))
is_key entries (sequence b) = none
is_key entries (tree fields) = none
is_key entries _ = some false

-- `table.get(value, default)`
unfoldable pub code_of : Dict String String → String → Node → Option String
code_of entries default (text s) = elim (lookup s entries) [ none ↦ some default | some c ↦ some c ]
code_of entries default (sequence b) = none
code_of entries default (tree fields) = none
code_of entries default _ = some default
