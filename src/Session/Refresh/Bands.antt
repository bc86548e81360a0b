-- ===== src/Session/Refresh/Bands.antt =====
-- The bands of `_read_tile_area` in src/nttd/runtime/orchestrator.py take each row once.
use nttd.Prelude.{
  ℕ, zero, suc, ◌+◌, ◌≤◌, ◌≡◌, refl, sym, ◌∙◌, ap, true, false, List, [], ◌∷◌, ◌++◌, arith, leb→le,
  ◌⊎◌, if◌then◌else◌, Bool-cases, inl, inr,
}
use nttd.Prelude.Int.{
  ℤ, pos, ◌+ℤ◌, ◌-ℤ◌, ◌≤ℤ◌, pos_part, neg_part, leb_ℤ, min_ℤ, +ℤ_parts, -ℤ_parts, eq_of_parts,
}
use nttd.Session.Footprint.{Area}
use nttd.Session.Footprint.Coverage.{min_ℤ_parts}
use nttd.Session.Refresh.{height_of, rows_per_band, band}

-- start, start + 1, …
abbrev pub range_ℤ : ℤ → ℕ → List ℤ
range_ℤ start zero = []
range_ℤ start (suc n) = start ∷ range_ℤ (start +ℤ pos 1) n

step_right : (start : ℤ) (n : ℕ) → start +ℤ pos 1 +ℤ pos n ≡ start +ℤ pos (suc n)
step_right start n = eq_of_parts (start +ℤ pos 1 +ℤ pos n) (start +ℤ pos (suc n)) (
    omega (
      arith,
      +ℤ_parts start (pos 1),
      +ℤ_parts (start +ℤ pos 1) (pos n),
      +ℤ_parts start (pos (suc n)),
    ))

range-append :
    (start : ℤ) (m n : ℕ) → range_ℤ start (m + n) ≡ range_ℤ start m ++ range_ℤ (start +ℤ pos m) n
range-append start zero n =
    let none_more : start +ℤ pos 0 ≡ start =
      eq_of_parts (start +ℤ pos 0) start (omega (arith, +ℤ_parts start (pos 0))) in
    let all : 0 + n ≡ n = omega arith in rw (none_more, all) refl
range-append start (suc m) n =
    let one_more : suc m + n ≡ suc (m + n) = omega arith in
    rw (one_more, sym (step_right start m)) (ap (◌∷◌ start) (range-append (start +ℤ pos 1) m n))

-- The bands that the loop asks for while it is answered.
unfoldable pub bands : (fuel : ℕ) → Area → (start : ℤ) → List Area
bands zero a start = []
bands (suc fuel) a start =
    let rest = bands fuel a ((band a start).y2 +ℤ pos 1) in
    if leb_ℤ start a.y2 then band a start ∷ rest else []

abbrev pub rows_of : List Area → List ℤ
rows_of [] = []
rows_of (b ∷ rest) = range_ℤ b.y1 (height_of b) ++ rows_of rest

-- A band holds the next rows, as many as fit, and the loop goes on below it.
rows_per_band-positive : (a : Area) → 1 ≤ rows_per_band a
unfolding rows_per_band
rows_per_band-positive a = ground arith

-- The number of rows from `start` on.
abbrev pub left : Area → ℤ → ℕ
left a start = pos_part (a.y2 -ℤ start +ℤ pos 1)

-- The rows from `start` to `end`, as a number that `omega` reads.
one_sided : (a : ℤ) → (pos_part a ≡ 0) ⊎ (neg_part a ≡ 0)
one_sided a = ground arith

rows_between : (start end : ℤ) → ℕ
rows_between start end = pos_part (end -ℤ start +ℤ pos 1)

rows_between_parts :
    (start end : ℤ)
    → start ≤ℤ end +ℤ pos 1
    → rows_between start end + pos_part start + neg_part end ≡ pos_part end + neg_part start + 1
unfolding rows_between
rows_between_parts start end h = omega (
  arith,
  h,
  one_sided (end -ℤ start +ℤ pos 1),
  +ℤ_parts (end -ℤ start) (pos 1),
  -ℤ_parts end start,
  +ℤ_parts end (pos 1),
)

pub band_end :
    (a : Area) (start : ℤ)
    → leb_ℤ start a.y2 ≡ true
    → let n = height_of (band a start) in
      let next = (band a start).y2 +ℤ pos 1 in
      (1 ≤ n) × (n ≤ rows_per_band a) × (next ≡ start +ℤ pos n) × (left a start ≡ n + left a next)
unfolding band rows_between
band_end a start inside =
    let r = rows_per_band a in
    let some_rows = rows_per_band-positive a in
    let last = start +ℤ pos r -ℤ pos 1 in
    let e = min_ℤ last a.y2 in
    let (below, within, choice) = min_ℤ_parts last a.y2 in
    let begun : start ≤ℤ a.y2 = leb→le _ _ inside in
    let lasts = +ℤ_parts start (pos r) in
    let last_parts = -ℤ_parts (start +ℤ pos r) (pos 1) in
    let reaches : start ≤ℤ e = elim choice [
      | inl same ↦ rw same (omega (arith, some_rows, lasts, last_parts))
      | inr same ↦ rw same begun
    ] in
    let next = +ℤ_parts e (pos 1) in
    let n = rows_between_parts start e (omega (arith, reaches, next)) in
    let all = rows_between_parts start a.y2 (omega (arith, begun, +ℤ_parts a.y2 (pos 1))) in
    let rest =
      rows_between_parts (e +ℤ pos 1) a.y2 (omega (arith, within, next, +ℤ_parts a.y2 (pos 1))) in
    let sum = +ℤ_parts start (pos (rows_between start e)) in
    (
      omega (arith, n, reaches),
      omega (arith, n, below, lasts, last_parts),
      eq_of_parts (e +ℤ pos 1) (start +ℤ pos (rows_between start e)) (omega (arith, n, next, sum)),
      omega (arith, n, all, rest, next),
    )

left_none : (a : Area) (start : ℤ) → leb_ℤ start a.y2 ≡ false → left a start ≡ 0
left_none a start outside =
    let past : a.y2 +ℤ pos 1 ≤ℤ start = ground (arith, +ℤ_parts a.y2 (pos 1)) in
    omega (
      arith,
      past,
      one_sided (a.y2 -ℤ start +ℤ pos 1),
      +ℤ_parts (a.y2 -ℤ start) (pos 1),
      -ℤ_parts a.y2 start,
      +ℤ_parts a.y2 (pos 1),
    )

pub bands-rows :
    (fuel : ℕ) (a : Area) (start : ℤ)
    → left a start ≤ fuel
    → rows_of (bands fuel a start) ≡ range_ℤ start (left a start)
unfolding bands band
bands-rows zero a start enough =
    let none_left : left a start ≡ 0 = omega (arith, enough) in rw none_left refl
bands-rows (suc fuel) a start enough = elim (Bool-cases (leb_ℤ start a.y2)) [
  | inr outside ↦ rw (outside, left_none a start outside) refl
  | inl inside ↦
      let (some_rows, few, next, sum) = band_end a start inside in
      let n = height_of (band a start) in
      let rest =
        bands-rows fuel a ((band a start).y2 +ℤ pos 1) (omega (arith, enough, some_rows, sum)) in
      rw inside (
        ap (λ more. range_ℤ (band a start).y1 n ++ more) rest
        ∙ ap (λ below. range_ℤ start n ++ range_ℤ below (left a ((band a start).y2 +ℤ pos 1))) next
        ∙ sym (range-append start n (left a ((band a start).y2 +ℤ pos 1)))
        ∙ ap (range_ℤ start) (sym sum))
]
