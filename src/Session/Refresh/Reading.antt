-- ===== src/Session/Refresh/Reading.antt =====
-- Which bands of `_read_tile_area` (src/nttd/runtime/orchestrator.py) the game answers, and what is read.
use nttd.Prelude.{
  ℕ, zero, suc, ◌*◌, ◌/◌, ◌≤◌, ◌≡◌, ◌↔◌, refl, ◌∙◌, ap, true, false, none, some, List, [], ◌∷◌,
  ◌++◌, All, arith, ltb, leb, lt→ltb, le→leb, leb→le, if◌then◌else◌, Bool-cases, inl, inr,
}
use native.Mathlib.Nat.{mul-le-mul_left, le-mul_of_pos_right, div-add-mod, mod-lt}
use nttd.Prelude.Int.{ℤ, pos, ◌+ℤ◌, leb_ℤ}
use nttd.Session.Footprint.{Area}
use nttd.Session.Refresh.{
  TileReply, answered, prepend, after_reply, width_of, height_of, rows_per_band, band, read_bands,
  read_tile_area,
}
use nttd.Session.Refresh.Bands.{bands, range_ℤ, rows_of, band_end, bands-rows}

-- `max(1, 400 // width)` rows of the width hold at most 400 tiles exactly where one row does.
rows_per_band_fits :
    (a : Area) (n : ℕ)
    → 1 ≤ width_of a
    → 1 ≤ n
    → n ≤ rows_per_band a
    → (width_of a ≤ 400) ↔ (width_of a * n ≤ 400)
unfolding rows_per_band
rows_per_band_fits a n wide some_rows few =
    let w = width_of a in
    let q = 400 / w in
    let whole = div-add-mod 400 w in
    let rest = mod-lt 400 wide in
    (
      λ fits.
          let some_q : 1 ≤ q = elim (Bool-cases (ltb 0 q)) [
            | inl h ↦ ground arith
            | inr h ↦
                let none : q ≡ 0 = ground arith in
                absurd (
                  let nothing : w * q ≡ 0 = rw none (omega arith) in
                  omega (arith, rest, fits, whole, nothing))
          ] in
          let few_rows : n ≤ q = ground (arith, some_q) in
          omega (arith, mul-le-mul_left w few_rows, whole),
      λ fits. omega (arith, le-mul_of_pos_right w some_rows, fits),
    )

-- A band spans the columns of the area, and is small enough for one reply exactly where a row is.
abbrev pub IsBandOf : Area → Area → Type 0
IsBandOf a b =
    (b.x1 ≡ a.x1) × (b.x2 ≡ a.x2) × ((width_of a ≤ 400) ↔ (width_of b * height_of b ≤ 400))

bands-IsBandOf :
    (fuel : ℕ) (a : Area) (start : ℤ) → 1 ≤ width_of a → All (IsBandOf a) (bands fuel a start)
unfolding bands band
bands-IsBandOf zero a start wide = tt
bands-IsBandOf (suc fuel) a start wide = elim (Bool-cases (leb_ℤ start a.y2)) [
  | inr outside ↦ rw outside tt
  | inl inside ↦
      let (some_rows, few, next, sum) = band_end a start inside in
      rw inside (
        (refl, refl, rows_per_band_fits a (height_of (band a start)) wide some_rows few),
        bands-IsBandOf fuel a ((band a start).y2 +ℤ pos 1) wide,
      )
]

-- The rows of the bands, and their size.
bands_lem :
    (a : Area)
    → 1 ≤ width_of a
    → let found = bands (height_of a) a a.y1 in
      (rows_of found ≡ range_ℤ a.y1 (height_of a)) × All (IsBandOf a) found
bands_lem a wide =
    (bands-rows (height_of a) a a.y1 (omega arith), bands-IsBandOf (height_of a) a a.y1 wide)

module _ {T W : Type 0} (ask : Area → W → W × TileReply T) (tiles : Area → List T)
    (change : Area → W → W) where
  -- What get_tile_area does: it refuses an area of more than 400 tiles, and answers any other.
  abbrev pub Answers : Type 0
  Answers =
      (b : Area) (w : W)
      → ask b w ≡ (
        change b w,
        (if leb (width_of b * height_of b) 400
            then answered true (some (tiles b))
            else answered false none),
      )

  abbrev pub gathered : List Area → List T
  gathered [] = []
  gathered (b ∷ rest) = tiles b ++ gathered rest

  module _ (answers : Answers) where
    read_bands_end : (a : Area) (start : ℤ) (w : W) → read_bands ask 0 a start w ≡ (w, some [])
    unfolding read_bands
    read_bands_end a start w = refl

    read_bands_past :
        (fuel : ℕ) (a : Area) (start : ℤ) (w : W)
        → leb_ℤ start a.y2 ≡ false
        → read_bands ask (suc fuel) a start w ≡ (w, some [])
    unfolding read_bands
    read_bands_past fuel a start w outside = rw outside refl

    read_bands-suc :
        (fuel : ℕ) (a : Area) (start : ℤ) (w : W) (reply : TileReply T)
        → leb_ℤ start a.y2 ≡ true
        → ask (band a start) w ≡ (change (band a start) w, reply)
        → read_bands ask (suc fuel) a start w
          ≡ after_reply
              (change (band a start) w)
              reply
              (read_bands ask fuel a ((band a start).y2 +ℤ pos 1) (change (band a start) w))
    unfolding read_bands
    read_bands-suc fuel a start w reply inside answer = rw (inside, answer) refl

    -- A band is answered, or refused, as the width of the area says.
    ask-band :
        (a : Area) (start : ℤ) (w : W)
        → 1 ≤ width_of a
        → leb_ℤ start a.y2 ≡ true
        → ask (band a start) w ≡ (
          change (band a start) w,
          (if leb (width_of a) 400
              then answered true (some (tiles (band a start)))
              else answered false none),
        )
    unfolding band
    ask-band a start w wide inside =
        let (some_rows, few, next, sum) = band_end a start inside in
        let b = band a start in
        let fits = rows_per_band_fits a (height_of b) wide some_rows few in
        let alike : leb (width_of a * height_of b) 400 ≡ leb (width_of a) 400 =
          ground (arith, fits) in
        answers b w
        ∙ ap
            (λ t. (change b w, (if t then answered true (some (tiles b)) else answered false none)))
            alike

    read_bands-answered :
        (fuel : ℕ) (a : Area) (start : ℤ) (w : W)
        → 1 ≤ width_of a
        → width_of a ≤ 400
        → (read_bands ask fuel a start w).1 ≡ some (gathered (bands fuel a start))
    unfolding bands
    read_bands-answered zero a start w wide fits = ap (λ r. r.1) (read_bands_end a start w)
    read_bands-answered (suc fuel) a start w wide fits = elim (Bool-cases (leb_ℤ start a.y2)) [
      | inr outside ↦ rw outside (ap (λ r. r.1) (read_bands_past fuel a start w outside))
      | inl inside ↦
          let b = band a start in
          let small : leb (width_of a) 400 ≡ true = le→leb (width_of a) 400 fits in
          let answer : ask b w ≡ (change b w, answered true (some (tiles b))) =
            ask-band a start w wide inside ∙ rw small refl in
          let rest = read_bands-answered fuel a (b.y2 +ℤ pos 1) (change b w) wide fits in
          rw inside (
            ap (λ r. r.1)
              (read_bands-suc fuel a start w (answered true (some (tiles b))) inside answer)
            ∙ ap (prepend (tiles b)) rest)
    ]

    read_bands-refused :
        (fuel : ℕ) (a : Area) (start : ℤ) (w : W)
        → 1 ≤ width_of a
        → leb (width_of a) 400 ≡ false
        → (read_bands ask fuel a start w).1 ≡ some []
    read_bands-refused zero a start w wide large = ap (λ r. r.1) (read_bands_end a start w)
    read_bands-refused (suc fuel) a start w wide large = elim (Bool-cases (leb_ℤ start a.y2)) [
      | inr outside ↦ ap (λ r. r.1) (read_bands_past fuel a start w outside)
      | inl inside ↦
          let answer : ask (band a start) w ≡ (change (band a start) w, answered false none) =
            ask-band a start w wide inside ∙ rw large refl in
          ap (λ r. r.1) (read_bands-suc fuel a start w (answered false none) inside answer)
    ]

    read_tile_area-read :
        (a : Area) (w : W)
        → 1 ≤ width_of a
        → (read_tile_area ask a w).1
          ≡ some (if leb (width_of a) 400 then gathered (bands (height_of a) a a.y1) else [])
    unfolding read_tile_area
    read_tile_area-read a w wide =
        let shown : ltb 0 (width_of a) ≡ true = lt→ltb 0 (width_of a) (omega (arith, wide)) in
        rw shown (elim (Bool-cases (leb (width_of a) 400)) [
          | inl small ↦
              rw small
                (read_bands-answered (height_of a) a a.y1 w wide (leb→le (width_of a) 400 small))
          | inr large ↦ rw large (read_bands-refused (height_of a) a a.y1 w wide large)
        ])

    -- Where get_tile_area answers any area of at most 400 tiles and refuses every other, an area that has
    -- columns is read in bands that take each of its rows once, in order and in all its columns, if it is
    -- at most 400 tiles wide, and if it is wider nothing of it is read.
    pub read_tile_area_lem :
        (a : Area) (w : W)
        → 1 ≤ width_of a
        → let found = bands (height_of a) a a.y1 in
          ((read_tile_area ask a w).1 ≡ some (if leb (width_of a) 400 then gathered found else []))
          × (rows_of found ≡ range_ℤ a.y1 (height_of a))
          × All (IsBandOf a) found
    read_tile_area_lem a w wide =
        let (rows, fit) = bands_lem a wide in (read_tile_area-read a w wide, rows, fit)
