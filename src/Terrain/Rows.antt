-- ===== src/Terrain/Rows.antt =====
-- The scan of src/nttd/store/terrain_scan.py ends, and reads each row once.
use nttd.Prelude.{
  ℕ, zero, suc, ◌+◌, ◌-◌, ◌≤◌, ◌<◌, ◌≡◌, ◌⊎◌, refl, sym, ◌∙◌, ap, true, false, Option, none, some,
  List, [], ◌∷◌, ◌++◌, if◌then◌else◌, ltb, arith, Option-cases, Bool-cases, inl, inr,
}
use mathlib.Core.List.{append_assoc}
use nttd.Prelude.Int.{ℤ, pos, ◌≤ℤ◌}
use nttd.Terrain.{
  Band, BandReply, refused, answered, finished, rows_in, resume, scan_from, scan_terrain,
}

module _ {R W : Type 0} (query : (from_y : ℕ) → W → W × BandReply R) where
  -- The game names no row past the limit to go on from.
  abbrev pub EndsBy : ℕ → Type 0
  EndsBy limit =
      (from_y : ℕ) (next : ℤ) (w : W) (band : Band R)
      → (query from_y w).1 ≡ answered band
      → band.next_from_y ≡ some next
      → next ≤ℤ pos limit

  reply_cases :
      (reply : BandReply R) → (reply ≡ refused) ⊎ ((band : Band R) × (reply ≡ answered band))
  reply_cases refused = inl refl
  reply_cases (answered band) = inr (band, refl)

  scan_from-refused :
      (fuel from_y : ℕ) (rows : List R) (w : W)
      → (query from_y w).1 ≡ refused
      → scan_from query (suc fuel) from_y rows w ≡ finished none
  unfolding scan_from
  scan_from-refused fuel from_y rows w said = rw (said, scan_from) refl

  resume-grows : (from_y next : ℕ) (band : Band R) → resume from_y band ≡ some next → from_y < next
  unfolding resume
  resume-grows from_y next band h = ground arith

  scan_from-suc :
      (fuel from_y : ℕ) (rows : List R) (w : W) (band : Band R)
      → (query from_y w).1 ≡ answered band
      → scan_from query (suc fuel) from_y rows w ≡ (elim (resume from_y band) [
        | none ↦ finished (some (rows ++ rows_in band))
        | some next ↦ scan_from query fuel next (rows ++ rows_in band) (query from_y w).0
      ])
  unfolding scan_from
  scan_from-suc fuel from_y rows w band said = rw (said, scan_from) refl

  resume-within :
      (limit from_y next : ℕ) (band : Band R)
      → ((n : ℤ) → band.next_from_y ≡ some n → n ≤ℤ pos limit)
      → resume from_y band ≡ some next
      → next ≤ limit
  unfolding resume
  resume-within limit from_y next band h found = elim (Option-cases band.next_from_y) [
    | inl e ↦ absurd (ground arith)
    | inr (n, e) ↦ let below = h n e in ground arith
  ]

  scan_from-finished :
      (limit fuel from_y : ℕ) (rows : List R) (w : W)
      → EndsBy limit
      → limit ≤ from_y + fuel
      → (r : Option (List R)) × (scan_from query (suc fuel) from_y rows w ≡ finished r)
  scan_from-finished limit zero from_y rows w ends enough = elim (reply_cases (query from_y w).1) [
    | inl e ↦ (none, scan_from-refused zero from_y rows w e)
    | inr (band, e) ↦
        let step = scan_from-suc zero from_y rows w band e in
        elim (Option-cases (resume from_y band)) [
          | inl last ↦ (some (rows ++ rows_in band), step ∙ rw last refl)
          | inr (next, more) ↦
              let further = resume-grows from_y next band more in
              let within =
                resume-within limit from_y next band (λ n h. ends from_y n w band e h) more in
              absurd (omega (arith, further, within, enough))
        ]
  ]
  scan_from-finished limit (suc fuel) from_y rows w ends enough =
      elim (reply_cases (query from_y w).1) [
        | inl e ↦ (none, scan_from-refused (suc fuel) from_y rows w e)
        | inr (band, e) ↦
            let step = scan_from-suc (suc fuel) from_y rows w band e in
            elim (Option-cases (resume from_y band)) [
              | inl last ↦ (some (rows ++ rows_in band), step ∙ rw last refl)
              | inr (next, more) ↦
                  let further = resume-grows from_y next band more in
                  let (r, rest) =
                    scan_from-finished limit fuel next (rows ++ rows_in band) (query from_y w).0
                      ends (omega (arith, further, enough)) in
                  (r, step ∙ rw more rest)
            ]
      ]

  -- A scan ends, with all rows or with None, in at most one round more than the last row that the game
  -- ever names to go on from.
  scan_terrain-finished :
      (limit : ℕ) (w : W)
      → EndsBy limit
      → (r : Option (List R)) × (scan_terrain query (suc limit) w ≡ finished r)
  unfolding scan_terrain
  scan_terrain-finished limit w ends = scan_from-finished limit limit 1 [] w ends (omega arith)

module _ {R : Type 0} (row : ℕ → R) (height per_call : ℕ) where
  abbrev pub rows_from : (from_y count : ℕ) → List R
  rows_from from_y zero = []
  rows_from from_y (suc count) = row from_y ∷ rows_from (suc from_y) count

  rows_from-append :
      (from_y m n : ℕ) → rows_from from_y (m + n) ≡ rows_from from_y m ++ rows_from (from_y + m) n
  rows_from-append from_y zero n =
      let none_more : from_y + 0 ≡ from_y = omega arith in
      let all : 0 + n ≡ n = omega arith in rw (none_more, all) refl
  rows_from-append from_y (suc m) n =
      let one_more : suc m + n ≡ suc (m + n) = omega arith in
      let shifted : from_y + suc m ≡ suc from_y + m = omega arith in
      rw (one_more, shifted) (ap (◌∷◌ (row from_y)) (rows_from-append (suc from_y) m n))

  -- What get_map_terrain hands out: whole rows, as many as fit, and where to go on.
  abbrev pub hand_out : ℕ → Band R
  hand_out from_y =
      if ltb per_call (height + 1 - from_y)
      then record {
        rows = some (rows_from from_y per_call);
        truncated = true;
        next_from_y = some (pos (from_y + per_call));
      }
      else record {
        rows = some (rows_from from_y (height + 1 - from_y));
        truncated = false;
        next_from_y = none;
      }

  resume-hand_out :
      (from_y : ℕ)
      → 1 ≤ per_call
      → resume from_y (hand_out from_y)
        ≡ (if ltb per_call (height + 1 - from_y) then some (from_y + per_call) else none)
  unfolding resume
  resume-hand_out from_y some_rows = ground arith

  rows_in-hand_out :
      (from_y : ℕ)
      → rows_in (hand_out from_y) ≡ (
          if ltb per_call (height + 1 - from_y)
          then rows_from from_y per_call
          else rows_from from_y (height + 1 - from_y))
  rows_in-hand_out from_y = ground arith

  module _ {W : Type 0} (query : (from_y : ℕ) → W → W × BandReply R)
      (answers : (from_y : ℕ) (w : W) → (query from_y w).1 ≡ answered (hand_out from_y)) where
    scan_from-last :
        (fuel from_y : ℕ) (rows : List R) (w : W)
        → 1 ≤ per_call
        → ltb per_call (height + 1 - from_y) ≡ false
        → scan_from query (suc fuel) from_y rows w
          ≡ finished (some (rows ++ rows_from from_y (height + 1 - from_y)))
    scan_from-last fuel from_y rows w some_rows last =
        let stops : resume from_y (hand_out from_y) ≡ none =
          resume-hand_out from_y some_rows ∙ rw last refl in
        let read : rows_in (hand_out from_y) ≡ rows_from from_y (height + 1 - from_y) =
          rows_in-hand_out from_y ∙ rw last refl in
        scan_from-suc query fuel from_y rows w (hand_out from_y) (answers from_y w)
        ∙ rw (stops, read) refl

    scan_from_complete :
        (fuel from_y : ℕ) (rows : List R) (w : W)
        → 1 ≤ per_call
        → height + 1 - from_y ≤ fuel
        → scan_from query (suc fuel) from_y rows w
          ≡ finished (some (rows ++ rows_from from_y (height + 1 - from_y)))
    scan_from_complete zero from_y rows w some_rows enough =
        scan_from-last zero from_y rows w some_rows (ground arith)
    scan_from_complete (suc fuel) from_y rows w some_rows enough =
        elim (Bool-cases (ltb per_call (height + 1 - from_y))) [
          | inr last ↦ scan_from-last (suc fuel) from_y rows w some_rows last
          | inl more ↦
              let next = from_y + per_call in
              let left = height + 1 - next in
              let goes_on : resume from_y (hand_out from_y) ≡ some next =
                resume-hand_out from_y some_rows ∙ rw more refl in
              let read : rows_in (hand_out from_y) ≡ rows_from from_y per_call =
                rows_in-hand_out from_y ∙ rw more refl in
              let rest =
                scan_from_complete fuel next (rows ++ rows_from from_y per_call) (query from_y w).0
                  some_rows (omega (arith, some_rows, enough)) in
              let sum : height + 1 - from_y ≡ per_call + left = ground arith in
              scan_from-suc query (suc fuel) from_y rows w (hand_out from_y) (answers from_y w)
              ∙ rw (goes_on, read) rest
              ∙ ap (λ l. finished (some l))
                  (append_assoc rows (rows_from from_y per_call) (rows_from next left)
                    ∙ ap (λ l. rows ++ l)
                        (sym (rows_from-append from_y per_call left)
                          ∙ ap (rows_from from_y) (sym sum)))
        ]

    -- Where get_map_terrain hands out whole rows from where it is asked, at least one, and says where to
    -- go on when it stops short, the scan returns every row of the map once, in order, however many rows
    -- one reply holds.
    pub scan_terrain_complete :
        (w : W)
        → 1 ≤ per_call
        → scan_terrain query (suc height) w ≡ finished (some (rows_from 1 height))
    unfolding scan_terrain
    scan_terrain_complete w some_rows =
        let all : height + 1 - 1 ≡ height = omega arith in
        rw⁻¹ (ap (λ n. finished (some (rows_from 1 n))) all)
          (scan_from_complete height 1 [] w some_rows (omega arith))
