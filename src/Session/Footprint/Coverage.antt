-- ===== src/Session/Footprint/Coverage.antt =====
-- The rectangle of src/nttd/state/tile_footprint.py around the points that it is made of.
use nttd.Prelude.{
  ℕ, ◌≤◌, ◌≡◌, ◌⊎◌, inl, inr, refl, String, true, false, Option, none, some, List, [], ◌∷◌, All,
  arith, string_eq, if◌then◌else◌, All-map, Bool,
}
use mathlib.Core.Path.{subst}
use nttd.Prelude.Int.{ℤ, pos, ◌+ℤ◌, ◌-ℤ◌, ◌≤ℤ◌, max_ℤ, min_ℤ, +ℤ_parts, -ℤ_parts}
use nttd.Session.Footprint.{
  Point, pad_of, least, greatest, xs_of, ys_of, Area, padded, area_of, type_error, nothing, area,
  affected_by,
}

max_ℤ_parts : (a b : ℤ) → (a ≤ℤ max_ℤ a b) × (b ≤ℤ max_ℤ a b) × ((max_ℤ a b ≡ a) ⊎ (max_ℤ a b ≡ b))
unfolding max_ℤ
max_ℤ_parts a b = ground arith

pub min_ℤ_parts :
    (a b : ℤ) → (min_ℤ a b ≤ℤ a) × (min_ℤ a b ≤ℤ b) × ((min_ℤ a b ≡ a) ⊎ (min_ℤ a b ≡ b))
unfolding min_ℤ
min_ℤ_parts a b = ground arith

least-below : (x : ℤ) (rest : List ℤ) → All (λ b. least x rest ≤ℤ b) (x ∷ rest)
unfolding least
least-below x [] = (omega arith, tt)
least-below x (y ∷ rest) =
    let m = least y rest in
    let bounds = min_ℤ_parts x m in
    (
      bounds.0,
      All-map (λ b. m ≤ℤ b) (y ∷ rest) (λ b h. omega (arith, bounds.1, h)) (least-below y rest),
    )

greatest-above : (x : ℤ) (rest : List ℤ) → All (λ b. b ≤ℤ greatest x rest) (x ∷ rest)
unfolding greatest
greatest-above x [] = (omega arith, tt)
greatest-above x (y ∷ rest) =
    let m = greatest y rest in
    let bounds = max_ℤ_parts x m in
    (
      bounds.0,
      All-map (λ b. b ≤ℤ m) (y ∷ rest) (λ b h. omega (arith, bounds.1, h)) (greatest-above y rest),
    )

-- The numbers of one axis that are at most four from a, inside the border of the map.
abbrev pub IsNear : (limit : ℕ) → ℤ → ℤ → Type 0
IsNear limit a n = (a -ℤ pos 4 ≤ℤ n) × (n ≤ℤ a +ℤ pos 4) × (pos 1 ≤ℤ n) × (n ≤ℤ pos limit -ℤ pos 2)

abbrev low : ℕ → ℤ → List ℤ → ℤ
low pad x rest = max_ℤ (pos 1) (least x rest -ℤ pos pad)

abbrev high : (limit pad : ℕ) → ℤ → List ℤ → ℤ
high limit pad x rest = min_ℤ (pos limit -ℤ pos 2) (greatest x rest +ℤ pos pad)

low-below :
    (limit pad : ℕ) (x : ℤ) (rest : List ℤ) (a n : ℤ)
    → 4 ≤ pad
    → least x rest ≤ℤ a
    → IsNear limit a n
    → low pad x rest ≤ℤ n
low-below limit pad x rest a n wide below near =
    let m = least x rest in
    let (one, edge, choice) = max_ℤ_parts (pos 1) (m -ℤ pos pad) in
    elim choice [
      | inl e ↦ rw e near.2
      | inr e ↦ rw e (omega (arith, below, wide, near.0, -ℤ_parts m (pos pad), -ℤ_parts a (pos 4)))
    ]

high-above :
    (limit pad : ℕ) (x : ℤ) (rest : List ℤ) (a n : ℤ)
    → 4 ≤ pad
    → a ≤ℤ greatest x rest
    → IsNear limit a n
    → n ≤ℤ high limit pad x rest
high-above limit pad x rest a n wide above near =
    let m = greatest x rest in
    let (edge, one, choice) = min_ℤ_parts (pos limit -ℤ pos 2) (m +ℤ pos pad) in
    elim choice [
      | inl e ↦ rw e near.3
      | inr e ↦ rw e (omega (arith, above, wide, near.1, +ℤ_parts m (pos pad), +ℤ_parts a (pos 4)))
    ]

pad_of-wide : (action_type : String) → 4 ≤ pad_of action_type
unfolding pad_of
pad_of-wide action_type = ground arith

-- Whatever is at most four tiles from a point, inside the border of the map, is in the area.
abbrev pub Covers : Area → (map_width map_height : ℕ) → Point → Type 0
Covers a map_width map_height point =
    (n m : ℤ)
    → IsNear map_width point.0 n
    → IsNear map_height point.1 m
    → (a.x1 ≤ℤ n) × (n ≤ℤ a.x2) × (a.y1 ≤ℤ m) × (m ≤ℤ a.y2)

module _ (pad map_width map_height : ℕ) (first : Point) (rest : List Point) (wide : 4 ≤ pad) where
  abbrev whole : Area
  whole = padded pad map_width map_height first rest

  All-Covers :
      (some_points : List Point)
      → All (λ b. least first.0 (xs_of rest) ≤ℤ b) (xs_of some_points)
      → All (λ b. b ≤ℤ greatest first.0 (xs_of rest)) (xs_of some_points)
      → All (λ b. least first.1 (ys_of rest) ≤ℤ b) (ys_of some_points)
      → All (λ b. b ≤ℤ greatest first.1 (ys_of rest)) (ys_of some_points)
      → All (Covers whole map_width map_height) some_points
  unfolding padded
  All-Covers [] h₁ h₂ h₃ h₄ = tt
  All-Covers ((x, y) ∷ others) h₁ h₂ h₃ h₄ = (
    λ n m near_x near_y. (
      low-below map_width pad first.0 (xs_of rest) x n wide h₁.0 near_x,
      high-above map_width pad first.0 (xs_of rest) x n wide h₂.0 near_x,
      low-below map_height pad first.1 (ys_of rest) y m wide h₃.0 near_y,
      high-above map_height pad first.1 (ys_of rest) y m wide h₄.0 near_y,
    ),
    All-Covers others h₁.1 h₂.1 h₃.1 h₄.1,
  )

  -- The area lies inside the border of the map.
  padded-IsInside :
      (pos 1 ≤ℤ whole.x1)
      × (pos 1 ≤ℤ whole.y1)
      × (whole.x2 ≤ℤ pos map_width -ℤ pos 2)
      × (whole.y2 ≤ℤ pos map_height -ℤ pos 2)
  unfolding padded
  padded-IsInside = (
    (max_ℤ_parts (pos 1) (least first.0 (xs_of rest) -ℤ pos pad)).0,
    (max_ℤ_parts (pos 1) (least first.1 (ys_of rest) -ℤ pos pad)).0,
    (min_ℤ_parts (pos map_width -ℤ pos 2) (greatest first.0 (xs_of rest) +ℤ pos pad)).0,
    (min_ℤ_parts (pos map_height -ℤ pos 2) (greatest first.1 (ys_of rest) +ℤ pos pad)).0,
  )

abbrev pub IsInside : Area → (map_width map_height : ℕ) → Type 0
IsInside a map_width map_height =
    (pos 1 ≤ℤ a.x1)
    × (pos 1 ≤ℤ a.y1)
    × (a.x2 ≤ℤ pos map_width -ℤ pos 2)
    × (a.y2 ≤ℤ pos map_height -ℤ pos 2)

pub area_of-Covers :
    (action_type : String) (map_width map_height : ℕ) (found : List Point) (a : Area)
    → area_of action_type map_width map_height found ≡ some a
    → All (Covers a map_width map_height) found × IsInside a map_width map_height
area_of-Covers action_type map_width map_height [] a h = absurd (cc)
area_of-Covers action_type map_width map_height ((x, y) ∷ rest) a h =
    let pad = pad_of action_type in
    let wide = pad_of-wide action_type in
    let same : padded pad map_width map_height (x, y) rest ≡ a = cc in
    subst
      (λ b. All (Covers b map_width map_height) ((x, y) ∷ rest) × IsInside b map_width map_height)
      same
      (
        All-Covers pad map_width map_height (x, y) rest wide ((x, y) ∷ rest)
            (least-below x (xs_of rest)) (greatest-above x (xs_of rest))
            (least-below y (ys_of rest)) (greatest-above y (ys_of rest)),
        padded-IsInside pad map_width map_height (x, y) rest wide,
      )

affected_by_iff : (o : Option Area) (a : Area) → affected_by o ≡ area a → o ≡ some a
affected_by_iff none a h = absurd (cc)
affected_by_iff (some b) a h = cc

pub affected-found :
    (action_type : String) (map_width map_height : ℕ) (known : Bool) (o : Option (List Point))
    (a : Area)
    → (if known
        then (elim o [
          | none ↦ type_error
          | some found ↦ affected_by (area_of action_type map_width map_height found)
        ])
        else nothing)
      ≡ area a
    → (found : List Point) × (o ≡ some found)
      × (area_of action_type map_width map_height found ≡ some a)
affected-found action_type map_width map_height false o a h = absurd (cc)
affected-found action_type map_width map_height true none a h = absurd (cc)
affected-found action_type map_width map_height true (some found) a h =
    (found, refl, affected_by_iff (area_of action_type map_width map_height found) a h)
