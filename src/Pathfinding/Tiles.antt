-- ===== src/Pathfinding/Tiles.antt =====
-- src/nttd/pathfinding/tile_cache.py: the tiles that the game has told of. The grid of lists is a
-- function of the two indices. The GameScript client is a parameter: its answer to one
-- `get_tile_area`, `none` where the reply is no success or holds no list.
pub mod Loading
use nttd.Prelude.{
  ℕ, zero, suc, ◌+◌, ◌-◌, ◌*◌, Bool, true, false, ◌&&◌, Option, none, some, List, [], ◌∷◌, ◌++◌,
  ◌==◌, nat_eq, leb, ltb, length, if◌then◌else◌,
}
use Prim.Native.Nat.{min, max}
use nttd.Prelude.Int.{ℤ, pos, negsuc}

abbrev pub batch_size : ℕ
batch_size = 20

pub record TileData : Type 0 where
  pub height : ℤ
  pub slope : ℤ
  pub buildable : Bool
  pub water : Bool
  pub coast : Bool
  pub has_road : Bool
  pub has_rail : Bool
  pub owner : ℤ
  pub is_station : Bool
  pub has_tree : Bool

pub record TileCache : Type 0 where
  pub map_width : ℕ
  pub map_height : ℕ
  pub tiles : ℕ → ℕ → Option TileData
  pub loaded : Bool
  pub version : ℕ

unfoldable pub new : ℕ → ℕ → TileCache
new map_width map_height = record {
  map_width = map_width;
  map_height = map_height;
  tiles = λ x y. none;
  loaded = false;
  version = 0;
}

-- `0 <= x < self.map_width and 0 <= y < self.map_height`
unfoldable pub in_map : TileCache → ℤ → ℤ → Bool
in_map c (pos x) (pos y) = ltb x c.map_width && ltb y c.map_height
in_map c (pos x) (negsuc y) = false
in_map c (negsuc x) y = false

unfoldable pub get : TileCache → ℤ → ℤ → Option TileData
get c (pos x) (pos y) = if ltb x c.map_width && ltb y c.map_height then c.tiles x y else none
get c (pos x) (negsuc y) = none
get c (negsuc x) y = none

-- `self._tiles[x][y] = data`
unfoldable pub put : ℕ → ℕ → Option TileData → TileCache → TileCache
put x y tile c = record c { tiles = λ i j. if i == x && j == y then tile else c.tiles i j }

unfoldable pub set_tile : ℤ → ℤ → TileData → TileCache → TileCache
unfolding put
set_tile (pos x) (pos y) tile c =
    if ltb x c.map_width && ltb y c.map_height then put x y (some tile) c else c
set_tile (pos x) (negsuc y) tile c = c
set_tile (negsuc x) y tile c = c

unfoldable pub invalidate_tile : ℤ → ℤ → TileCache → TileCache
unfolding put
invalidate_tile (pos x) (pos y) c =
    if ltb x c.map_width && ltb y c.map_height
    then record (put x y none c) { version = suc c.version }
    else c
invalidate_tile (pos x) (negsuc y) c = c
invalidate_tile (negsuc x) y c = c

abbrev floor : ℤ → ℕ
floor (pos n) = n
floor (negsuc n) = 0

-- `range(max(0, x1), min(self.map_width, x2))`, for the part of the bounds that is not negative.
unfoldable pub invalidate_area : ℤ → ℤ → ℤ → ℤ → TileCache → TileCache
invalidate_area x1 y1 x2 y2 c = record c {
  tiles = λ i j.
      if leb (floor x1) i
        && ltb i (min c.map_width (floor x2))
        && (leb (floor y1) j && ltb j (min c.map_height (floor y2)))
      then none
      else c.tiles i j;
  version = suc c.version;
}

-- A tile of a reply. A coordinate that is missing is -1, as `data.get` gives it.
pub record TileReply : Type 0 where
  pub x : ℤ
  pub y : ℤ
  pub tile : TileData

unfoldable pub apply_tile : TileReply → TileCache → TileCache
unfolding set_tile
apply_tile td c = set_tile td.x td.y td.tile c

unfoldable pub apply_tiles : List TileReply → TileCache → TileCache
unfolding apply_tile
apply_tiles [] c = c
apply_tiles (td ∷ tds) c = apply_tiles tds (apply_tile td c)

-- `range(start, stop + 1, BATCH_SIZE)`; `rounds` bounds the steps.
unfoldable pub range_by : (rounds start last : ℕ) → List ℕ
range_by zero start last = []
range_by (suc rounds) start last =
    let more = start ∷ range_by rounds (start + batch_size) last in
    if leb start last then more else []

-- The rectangle of one batch.
pub record Batch : Type 0 where
  pub x1 : ℕ
  pub y1 : ℕ
  pub x2 : ℕ
  pub y2 : ℕ

unfoldable pub batches_of : ℕ → ℕ → ℕ → List ℕ → List Batch
batches_of bx x2 y2 [] = []
batches_of bx x2 y2 (by ∷ bys) =
    record {
      x1 = bx;
      y1 = by;
      x2 = min (bx + batch_size - 1) x2;
      y2 = min (by + batch_size - 1) y2;
    }
    ∷ batches_of bx x2 y2 bys

unfoldable pub batches_in : ℕ → ℕ → ℕ → List ℕ → List Batch
unfolding batches_of range_by
batches_in y1 x2 y2 [] = []
batches_in y1 x2 y2 (bx ∷ bxs) =
    batches_of bx x2 y2 (range_by (suc y2) y1 y2) ++ batches_in y1 x2 y2 bxs

-- The two loops of `load_area`, as the batches that they ask for, in order.
unfoldable pub batches : (x1 y1 x2 y2 : ℕ) → List Batch
unfolding batches_in range_by
batches x1 y1 x2 y2 = batches_in y1 x2 y2 (range_by (suc x2) x1 x2)

abbrev pub GsClient : Type 0
GsClient = Batch → Option (List TileReply)

module _ (send_gamescript : GsClient) where
  unfoldable pub load_batches : List Batch → TileCache → ℕ → TileCache × ℕ
  unfolding apply_tiles
  load_batches [] c count = (c, count)
  load_batches (b ∷ bs) c count = elim (send_gamescript b) [
    | none ↦ load_batches bs c count
    | some tds ↦ load_batches bs (apply_tiles tds c) (count + length tds)
  ]

  unfoldable pub load_area : (x1 y1 x2 y2 : ℕ) → TileCache → TileCache × ℕ
  unfolding load_batches batches
  load_area x1 y1 x2 y2 c =
      let (after, count) = load_batches (batches x1 y1 x2 y2) c 0 in
      (record after { version = suc after.version }, count)

  unfoldable pub load_full : TileCache → TileCache × ℕ
  unfolding load_area
  load_full c =
      let (after, count) = load_area 1 1 (c.map_width - 1) (c.map_height - 1) c in
      (record after { loaded = true }, count)

  -- A corner is at least 1, so what a margin takes off stops there.
  unfoldable pub load_corridor : (x1 y1 x2 y2 margin : ℕ) → TileCache → TileCache × ℕ
  unfolding load_area
  load_corridor x1 y1 x2 y2 margin c =
      load_area (max 1 (min x1 x2 - margin)) (max 1 (min y1 y2 - margin))
        (min (c.map_width - 1) (max x1 x2 + margin)) (min (c.map_height - 1) (max y1 y2 + margin)) c
