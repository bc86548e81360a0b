-- ===== src/Session/Footprint/Named.antt =====
-- The points that src/nttd/state/tile_footprint.py finds, and that an action or a reply gives.
use mathlib.Core.List.{Memᴰ}
use mathlib.Core.List.Memᴰ
use mathlib.Core.Path.{subst}
use nttd.Prelude.{
  ℕ, zero, suc, ◌/◌, ◌%◌, ◌<◌, ◌≡◌, ◌⊎◌, inl, inr, refl, sym, ◌∙◌, ap, String, Option, none, some,
  List, [], ◌∷◌, ◌++◌, All, arith, string_eq,
}
use nttd.Prelude.Dict.{Dict, lookup}
use nttd.Prelude.Distinct.{contains}
use nttd.Prelude.Int.{ℤ, pos}
use nttd.Json.{Item, mapping, no_mapping, Value, number, fraction, items, Payload}
use nttd.Actions.Vocabulary.{known_actions}
use nttd.Session.Footprint.{
  Point, as_number, from_index, named_pairs, tile_keys, reported_keys, named_points, tile_points,
  item_points, iter_reported, steps_of, points, Area, area, affected_area,
}
use nttd.Session.Footprint.Coverage.{Covers, IsInside, affected-found, area_of-Covers}

-- The value is a number, and this is its whole part.
abbrev pub HasNumber : Option Value → ℤ → Type 0
HasNumber value n = (value ≡ some (number n)) ⊎ (value ≡ some (fraction n))

-- One of the entries is a mapping with the coordinates of the point.
pub record Lists (entries : List Item) (p : Point) : Type 0 where
  pub entry : Dict String (Option ℤ)
  pub listed : Memᴰ (mapping entry) entries
  pub x : lookup "x" entry ≡ some (some p.0)
  pub y : lookup "y" entry ≡ some (some p.1)

-- The point is named by the parameters of an action, or reported in the answer.
pub data IsNamed (params changed : Payload) (map_width : ℕ) (p : Point) : Type 0 where
  by_coordinates :
      (x_key y_key : String)
      → Memᴰ {A = String × String}
          (x_key, y_key)
          (("x", "y")
            ∷ ("from_x", "from_y")
            ∷ ("to_x", "to_y")
            ∷ ("depot_x", "depot_y")
            ∷ ("start_x", "start_y")
            ∷ ("end_x", "end_y")
            ∷ ("x1", "y1")
            ∷ ("x2", "y2")
            ∷ [])
      → HasNumber (lookup x_key params) p.0
      → HasNumber (lookup y_key params) p.1
      → IsNamed params changed map_width p
  by_tile :
      (key : String) (index : ℕ)
      → Memᴰ key ("tile" ∷ "tile_from" ∷ "tile_to" ∷ "depot_tile" ∷ "front_tile" ∷ [])
      → HasNumber (lookup key params) (pos index)
      → 0 < map_width
      → p ≡ (pos (index % map_width), pos (index / map_width))
      → IsNamed params changed map_width p
  by_report :
      (key : String) (entries : List Item)
      → Memᴰ key ("failed" ∷ "gaps" ∷ "path" ∷ [])
      → lookup key changed ≡ some (items entries)
      → Lists entries p
      → IsNamed params changed map_width p
  by_step :
      (entries : List Item)
      → lookup "steps" params ≡ some (items entries)
      → Lists entries p
      → IsNamed params changed map_width p

as_number_of : (value : Option Value) (n : ℤ) → HasNumber value n → as_number value ≡ some n
as_number_of value n (inl whole) = rw whole refl
as_number_of value n (inr part) = rw part refl

named_points-Memᴰ :
    (params : Payload) (p : Point) (x_key y_key : String) (keys : List (String × String))
    → Memᴰ {A = String × String} (x_key, y_key) keys
    → as_number (lookup x_key params) ≡ some p.0
    → as_number (lookup y_key params) ≡ some p.1
    → Memᴰ p (named_points keys params)
unfolding named_points
named_points-Memᴰ params p x_key y_key [] none_there hx hy = elim none_there [ ]
named_points-Memᴰ params p x_key y_key (k ∷ keys) (Memᴰ.head e) hx hy =
    let x = ap (λ (j : String × String). as_number (lookup j.0 params)) (sym e) ∙ hx in
    let y = ap (λ (j : String × String). as_number (lookup j.1 params)) (sym e) ∙ hy in
    rw (x, y) (Memᴰ.head refl)
named_points-Memᴰ params p x_key y_key (k ∷ keys) (Memᴰ.tail m) hx hy =
    Memᴰ.append_right _ (named_points-Memᴰ params p x_key y_key keys m hx hy)

from_index-positive :
    (index w : ℕ) → 0 < w → from_index (pos index) w ≡ (pos (index % w), pos (index / w)) ∷ []
from_index-positive index zero h = absurd (omega (arith, h))
from_index-positive index (suc w) h = refl

tile_points-Memᴰ :
    (params : Payload) (w : ℕ) (p : Point) (key : String) (index : ℕ) (keys : List String)
    → Memᴰ key keys
    → as_number (lookup key params) ≡ some (pos index)
    → 0 < w
    → p ≡ (pos (index % w), pos (index / w))
    → Memᴰ p (tile_points keys params w)
unfolding tile_points
tile_points-Memᴰ params w p key index [] none_there h positive at = elim none_there [ ]
tile_points-Memᴰ params w p key index (k ∷ keys) (Memᴰ.head e) h positive at =
    let same = ap (λ (j : String). as_number (lookup j params)) (sym e) ∙ h in
    rw (same, from_index-positive index w positive) (Memᴰ.head at)
tile_points-Memᴰ params w p key index (k ∷ keys) (Memᴰ.tail m) h positive at =
    Memᴰ.append_right _ (tile_points-Memᴰ params w p key index keys m h positive at)

iter_reported-Memᴰ :
    (changed : Payload) (item : Item) (key : String) (entries : List Item) (keys : List String)
    → Memᴰ key keys
    → lookup key changed ≡ some (items entries)
    → Memᴰ item entries
    → Memᴰ item (iter_reported keys changed)
unfolding iter_reported
iter_reported-Memᴰ changed item key entries [] none_there h m = elim none_there [ ]
iter_reported-Memᴰ changed item key entries (k ∷ keys) (Memᴰ.head e) h m =
    let same = ap (λ (j : String). lookup j changed) (sym e) ∙ h in rw same (Memᴰ.append_left _ m)
iter_reported-Memᴰ changed item key entries (k ∷ keys) (Memᴰ.tail later) h m =
    Memᴰ.append_right _ (iter_reported-Memᴰ changed item key entries keys later h m)

item_points-Memᴰ :
    (p : Point) (entry : Dict String (Option ℤ)) (entries : List Item)
    → Memᴰ (mapping entry) entries
    → lookup "x" entry ≡ some (some p.0)
    → lookup "y" entry ≡ some (some p.1)
    → Memᴰ p (item_points entries)
item_points-Memᴰ p entry [] none_there hx hy = elim none_there [ ]
item_points-Memᴰ p entry (item ∷ entries) (Memᴰ.head e) hx hy =
    rw (sym e) (rw (hx, hy) (Memᴰ.head refl))
item_points-Memᴰ p entry (no_mapping ∷ entries) (Memᴰ.tail m) hx hy =
    item_points-Memᴰ p entry entries m hx hy
item_points-Memᴰ p entry (mapping other ∷ entries) (Memᴰ.tail m) hx hy =
    Memᴰ.append_right _ (item_points-Memᴰ p entry entries m hx hy)

split_points :
    (o : Option (List Item)) (f : List Item → List Point) (found : List Point)
    → (elim o [ none ↦ none | some steps ↦ some (f steps) ]) ≡ some found
    → (steps : List Item) × (o ≡ some steps) × (found ≡ f steps)
split_points none f found h = absurd (cc)
split_points (some steps) f found h = (steps, refl, cc)

-- The four parts of the points that are found.
points_parts :
    (params changed : Payload) (w : ℕ) (found : List Point)
    → points params changed w ≡ some found
    → (steps : List Item) × (steps_of (lookup "steps" params) ≡ some steps)
      × (found
          ≡ named_points named_pairs params
            ++ tile_points tile_keys params w
            ++ item_points (iter_reported reported_keys changed)
            ++ item_points steps)
unfolding points
points_parts params changed w found h =
    split_points (steps_of (lookup "steps" params))
      (λ steps.
        named_points named_pairs params
        ++ tile_points tile_keys params w
        ++ item_points (iter_reported reported_keys changed)
        ++ item_points steps)
      found h

All-Memᴰ : {A : Type 0} (P : A → Type 0) (a : A) (xs : List A) → All P xs → Memᴰ a xs → P a
All-Memᴰ P a [] h m = elim m [ ]
All-Memᴰ P a (x ∷ xs) (h, hs) (Memᴰ.head e) = subst P (sym e) h
All-Memᴰ P a (x ∷ xs) (h, hs) (Memᴰ.tail m) = All-Memᴰ P a xs hs m

same_entries : {xs ys : List Item} → some xs ≡ some ys → xs ≡ ys
same_entries h = cc

-- Every point that is named or reported is found.
points-IsNamed :
    (params changed : Payload) (w : ℕ) (found : List Point) (p : Point)
    → points params changed w ≡ some found
    → IsNamed params changed w p
    → Memᴰ p found
points-IsNamed params changed w found p h (by_coordinates x_key y_key known x y) =
    let (steps, walked, parts) = points_parts params changed w found h in
    let reported = item_points (iter_reported reported_keys changed) in
    let tiles = tile_points tile_keys params w in
    let here =
      named_points-Memᴰ params p x_key y_key named_pairs known (as_number_of _ p.0 x)
        (as_number_of _ p.1 y) in
    rw parts (
      Memᴰ.append_left (item_points steps)
        (Memᴰ.append_left reported (Memᴰ.append_left tiles here)))
points-IsNamed params changed w found p h (by_tile key index known tile positive at) =
    let (steps, walked, parts) = points_parts params changed w found h in
    let reported = item_points (iter_reported reported_keys changed) in
    let here =
      tile_points-Memᴰ params w p key index tile_keys known (as_number_of _ (pos index) tile)
        positive at in
    rw parts (
      Memᴰ.append_left (item_points steps)
        (Memᴰ.append_left reported (Memᴰ.append_right (named_points named_pairs params) here)))
points-IsNamed params changed w found p h (by_report key entries known told within) =
    let (steps, walked, parts) = points_parts params changed w found h in
    let item =
      iter_reported-Memᴰ changed (mapping within.entry) key entries reported_keys known told
        within.listed in
    let here =
      item_points-Memᴰ p within.entry (iter_reported reported_keys changed) item within.x
        within.y in
    let before = named_points named_pairs params ++ tile_points tile_keys params w in
    rw parts (Memᴰ.append_left (item_points steps) (Memᴰ.append_right before here))
points-IsNamed params changed w found p h (by_step entries steps_given within) =
    let (steps, walked, parts) = points_parts params changed w found h in
    let reported = item_points (iter_reported reported_keys changed) in
    let same : entries ≡ steps = same_entries (sym (ap steps_of steps_given) ∙ walked) in
    let listed = subst (λ (es : List Item). Memᴰ (mapping within.entry) es) same within.listed in
    let here = item_points-Memᴰ p within.entry steps listed within.x within.y in
    let before = named_points named_pairs params ++ tile_points tile_keys params w ++ reported in
    rw parts (Memᴰ.append_right before here)

-- The area read again after an action lies inside the border of the map and contains every tile there
-- that is at most four tiles, on either axis, from a point that the parameters name by a pair of
-- coordinates, by the index of a tile or among the steps, or that the answer reports as failed, as a gap
-- or as part of a path.
pub affected_area-Covers :
    (action_type : String) (params changed : Payload) (map_width map_height : ℕ) (a : Area)
    (p : Point)
    → affected_area action_type params changed map_width map_height ≡ area a
    → IsNamed params changed map_width p
    → Covers a map_width map_height p × IsInside a map_width map_height
unfolding affected_area
affected_area-Covers action_type params changed map_width map_height a p h named =
    let (found, same, whole) =
      affected-found action_type map_width map_height (contains action_type known_actions)
        (points params changed map_width) a h in
    let (covered, inside) = area_of-Covers action_type map_width map_height found a whole in
    (
      All-Memᴰ (Covers a map_width map_height) p found covered
          (points-IsNamed params changed map_width found p same named),
      inside,
    )
