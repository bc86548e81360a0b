-- ===== src/Session/Refresh.antt =====
-- `_read_tile_area` of src/nttd/runtime/orchestrator.py: an area is read in bands of rows. Each round
-- ends at least one row further down, so the number of rows is fuel enough. T is the type of tiles, W
-- the state of the game and the stream, `ask` the call of get_tile_area.
pub mod Bands
pub mod Reading
use nttd.Prelude.{
  ℕ, zero, suc, ◌+◌, ◌-◌, ◌/◌, Bool, true, false, Option, none, some, List, [], ◌∷◌, ◌++◌, ltb,
  if◌then◌else◌,
}
use nttd.Prelude.Int.{ℤ, pos, pos_part, ◌+ℤ◌, ◌-ℤ◌, min_ℤ, leb_ℤ}
use nttd.Session.Footprint.{Area}

-- A reply to get_tile_area: its `success`, and its `result` where that is a list. Or the call raised.
pub data TileReply (T : Type 0) : Type 0 where
  answered : Bool → Option (List T) → TileReply T
  raised : TileReply T

abbrev pub refresh_band : ℕ
refresh_band = 400

-- `x2 - x1 + 1`, where that is positive.
abbrev pub width_of : Area → ℕ
width_of a = pos_part (a.x2 -ℤ a.x1 +ℤ pos 1)

abbrev pub height_of : Area → ℕ
height_of a = pos_part (a.y2 -ℤ a.y1 +ℤ pos 1)

abbrev at_least_one : ℕ → ℕ
at_least_one zero = 1
at_least_one (suc n) = suc n

unfoldable pub rows_per_band : Area → ℕ
rows_per_band a = at_least_one (refresh_band / width_of a)

unfoldable pub band : Area → (start : ℤ) → Area
unfolding rows_per_band
band a start = record a { y1 = start; y2 = min_ℤ (start +ℤ pos (rows_per_band a) -ℤ pos 1) a.y2 }

abbrev pub prepend : {T : Type 0} → List T → Option (List T) → Option (List T)
prepend tiles none = none
prepend tiles (some more) = some (tiles ++ more)

-- What a reply makes of the rounds after it: a refusal ends the reading with what is there.
abbrev pub after_reply :
    {T W : Type 0} → W → TileReply T → (rest : W × Option (List T)) → W × Option (List T)
after_reply w raised rest = (w, none)
after_reply w (answered false result) rest = (w, some [])
after_reply w (answered true none) rest = (w, some [])
after_reply w (answered true (some tiles)) rest = (rest.0, prepend tiles rest.1)

module _ {T W : Type 0} (ask : Area → W → W × TileReply T) where
  -- The rounds of the `while` loop; none where a call raises.
  unfoldable pub read_bands : (fuel : ℕ) → Area → (start : ℤ) → W → W × Option (List T)
  read_bands zero a start w = (w, some [])
  read_bands (suc fuel) a start w =
      let (w₁, reply) = ask (band a start) w in
      let rest = read_bands fuel a ((band a start).y2 +ℤ pos 1) w₁ in
      if leb_ℤ start a.y2 then after_reply w₁ reply rest else (w, some [])

  unfoldable pub read_tile_area : Area → W → W × Option (List T)
  read_tile_area a w =
      if ltb 0 (width_of a) then read_bands (height_of a) a a.y1 w else (w, some [])
