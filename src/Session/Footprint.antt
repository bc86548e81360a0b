-- ===== src/Session/Footprint.antt =====
-- src/nttd/state/tile_footprint.py: the rectangle to read again after an action. `points` and
-- `affected_area` take the parameters of an action and what its reply reports.
pub mod Coverage
pub mod Named
use nttd.Prelude.{
  ℕ, zero, suc, ◌/◌, ◌%◌, String, Bool, true, false, Option, none, some, List, [], ◌∷◌, ◌++◌, ◌==◌,
  string_eq, if◌then◌else◌,
}
use nttd.Prelude.Dict.{Dict, lookup}
use nttd.Prelude.Distinct.{contains}
use nttd.Prelude.Int.{ℤ, pos, negsuc, ◌+ℤ◌, ◌-ℤ◌, max_ℤ, min_ℤ}
use nttd.Json.{
  Item, mapping, no_mapping, Value, null, flag, number, fraction, str, items, table, Payload,
}
use nttd.Actions.Vocabulary.{known_actions}

abbrev pub Point : Type 0
Point = ℤ × ℤ

-- The number that a value is, if it is one: a flag is none.
abbrev as_number : Option Value → Option ℤ
as_number (some (number n)) = some n
as_number (some (fraction n)) = some n
as_number _ = none

abbrev pair : Option ℤ → Option ℤ → List Point
pair (some x) (some y) = (x, y) ∷ []
pair _ _ = []

abbrev from_index : ℤ → ℕ → List Point
from_index (pos index) (suc w) = (pos (index % suc w), pos (index / suc w)) ∷ []
from_index _ _ = []

unfoldable pub from_tile : Option ℤ → ℕ → List Point
from_tile none map_width = []
from_tile (some tile) map_width = from_index tile map_width

abbrev named_pairs : List (String × String)
named_pairs =
    ("x", "y")
    ∷ ("from_x", "from_y")
    ∷ ("to_x", "to_y")
    ∷ ("depot_x", "depot_y")
    ∷ ("start_x", "start_y")
    ∷ ("end_x", "end_y")
    ∷ ("x1", "y1")
    ∷ ("x2", "y2")
    ∷ []

abbrev tile_keys : List String
tile_keys = "tile" ∷ "tile_from" ∷ "tile_to" ∷ "depot_tile" ∷ "front_tile" ∷ []

abbrev reported_keys : List String
reported_keys = "failed" ∷ "gaps" ∷ "path" ∷ []

unfoldable pub named_points : List (String × String) → Payload → List Point
named_points [] params = []
named_points ((x_key, y_key) ∷ keys) params =
    pair (as_number (lookup x_key params)) (as_number (lookup y_key params))
    ++ named_points keys params

unfoldable pub tile_points : List String → Payload → ℕ → List Point
unfolding from_tile
tile_points [] params map_width = []
tile_points (key ∷ keys) params map_width =
    from_tile (as_number (lookup key params)) map_width ++ tile_points keys params map_width

abbrev joined : Option (Option ℤ) → Option ℤ
joined none = none
joined (some value) = value

abbrev item_points : List Item → List Point
item_points [] = []
item_points (no_mapping ∷ rest) = item_points rest
item_points (mapping entry ∷ rest) =
    pair (joined (lookup "x" entry)) (joined (lookup "y" entry)) ++ item_points rest

abbrev listed : Option Value → List Item
listed (some (items entries)) = entries
listed _ = []

-- `_iter_reported`
unfoldable pub iter_reported : List String → Payload → List Item
iter_reported [] changed = []
iter_reported (key ∷ keys) changed = listed (lookup key changed) ++ iter_reported keys changed

-- `params.get("steps") or []`, as what the loop walks over: none is the TypeError of a value that is
-- neither empty nor iterable. A text and a mapping are walked over, and hold no mapping.
abbrev pub steps_of : Option Value → Option (List Item)
steps_of none = some []
steps_of (some null) = some []
steps_of (some (flag true)) = none
steps_of (some (flag false)) = some []
steps_of (some (number (pos zero))) = some []
steps_of (some (number (pos (suc n)))) = none
steps_of (some (number (negsuc n))) = none
steps_of (some (fraction n)) = none
steps_of (some (str s)) = some []
steps_of (some (items entries)) = some entries
steps_of (some table) = some []

-- `_points`; `changed` is empty where the source has none.
unfoldable pub points : Payload → (changed : Payload) → (map_width : ℕ) → Option (List Point)
unfolding named_points tile_points iter_reported
points params changed map_width = elim (steps_of (lookup "steps" params)) [
  | none ↦ none
  | some steps ↦ some (
      named_points named_pairs params
      ++ tile_points tile_keys params map_width
      ++ item_points (iter_reported reported_keys changed)
      ++ item_points steps)
]

abbrev terraforming : List String
terraforming = "level_tiles" ∷ "raise_tile" ∷ "lower_tile" ∷ "demolish_tile" ∷ []

unfoldable pub pad_of : String → ℕ
unfolding contains
pad_of action_type = if contains action_type terraforming then 6 else 4

-- `min` and `max` of the first entry and the rest.
unfoldable pub least : ℤ → List ℤ → ℤ
least a [] = a
least a (b ∷ rest) = min_ℤ a (least b rest)

unfoldable pub greatest : ℤ → List ℤ → ℤ
greatest a [] = a
greatest a (b ∷ rest) = max_ℤ a (greatest b rest)

abbrev pub xs_of : List Point → List ℤ
xs_of [] = []
xs_of ((x, y) ∷ points) = x ∷ xs_of points

abbrev pub ys_of : List Point → List ℤ
ys_of [] = []
ys_of ((x, y) ∷ points) = y ∷ ys_of points

pub record Area : Type 0 where
  pub x1 : ℤ
  pub y1 : ℤ
  pub x2 : ℤ
  pub y2 : ℤ

unfoldable pub padded : ℕ → (map_width map_height : ℕ) → Point → List Point → Area
unfolding least greatest max_ℤ min_ℤ
padded pad map_width map_height (x, y) rest = record {
  x1 = max_ℤ (pos 1) (least x (xs_of rest) -ℤ pos pad);
  y1 = max_ℤ (pos 1) (least y (ys_of rest) -ℤ pos pad);
  x2 = min_ℤ (pos map_width -ℤ pos 2) (greatest x (xs_of rest) +ℤ pos pad);
  y2 = min_ℤ (pos map_height -ℤ pos 2) (greatest y (ys_of rest) +ℤ pos pad);
}

abbrev pub area_of : String → (map_width map_height : ℕ) → List Point → Option Area
area_of action_type map_width map_height [] = none
area_of action_type map_width map_height (first ∷ rest) =
    some (padded (pad_of action_type) map_width map_height first rest)

-- What `affected_area` does: a TypeError, nothing to read, or an area.
pub data Affected : Type 0 where
  type_error : Affected
  nothing : Affected
  area : Area → Affected

abbrev pub affected_by : Option Area → Affected
affected_by none = nothing
affected_by (some a) = area a

unfoldable pub affected_area :
    String → Payload → (changed : Payload) → (map_width map_height : ℕ) → Affected
affected_area action_type params changed map_width map_height =
    if contains action_type known_actions
    then (elim (points params changed map_width) [
      | none ↦ type_error
      | some found ↦ affected_by (area_of action_type map_width map_height found)
    ])
    else nothing
