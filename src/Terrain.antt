-- ===== src/Terrain.antt =====
-- src/nttd/store/terrain_scan.py: the whole map, read in bands of rows. The loop asks for a row further
-- down in each round, but how far the game goes is its own affair, so the fuel may run out: `unfinished`.
-- R is the type of a row, W the state of the game, `query` the call of get_map_terrain.
pub mod Rows
use nttd.Prelude.{
  ℕ, zero, suc, Bool, true, false, Option, none, some, List, [], ◌∷◌, ◌++◌, not, if◌then◌else◌,
}
use nttd.Prelude.Int.{ℤ, pos, pos_part, leb_ℤ}

-- The `result` of a reply, a table: its rows, none where they are missing, whether it stopped short, and
-- where it says to go on, if that is a number.
pub record Band (R : Type 0) : Type 0 where
  pub rows : Option (List R)
  pub truncated : Bool
  pub next_from_y : Option ℤ

-- A failure, or a reply without a table, and a success.
pub data BandReply (R : Type 0) : Type 0 where
  refused : BandReply R
  answered : Band R → BandReply R

-- What `scan_terrain` returns: None, or the rows.
pub data Scan (R : Type 0) : Type 0 where
  unfinished : Scan R
  finished : Option (List R) → Scan R

abbrev pub rows_in : {R : Type 0} → Band R → List R
rows_in band = elim band.rows [ none ↦ [] | some rows ↦ rows ]

-- Where the next round starts, if there is one.
unfoldable pub resume : {R : Type 0} → (from_y : ℕ) → Band R → Option ℕ
resume from_y band = if not band.truncated then none else (elim band.next_from_y [
  | none ↦ none
  | some next ↦ if leb_ℤ next (pos from_y) then none else some (pos_part next)
])

module _ {R W : Type 0} (query : (from_y : ℕ) → W → W × BandReply R) where
  -- The rounds of the loop, with the rows that are read.
  unfoldable pub scan_from : (fuel : ℕ) → (from_y : ℕ) → List R → W → Scan R
  unfolding resume
  scan_from zero from_y rows w = unfinished
  scan_from (suc fuel) from_y rows w =
      let (w₁, reply) = query from_y w in
      elim reply [
        | refused ↦ finished none
        | answered band ↦ elim (resume from_y band) [
          | none ↦ finished (some (rows ++ rows_in band))
          | some next ↦ scan_from fuel next (rows ++ rows_in band) w₁
        ]
      ]

  unfoldable pub scan_terrain : (fuel : ℕ) → W → Scan R
  scan_terrain fuel w = scan_from fuel 1 [] w
