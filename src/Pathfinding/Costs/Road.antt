-- ===== src/Pathfinding/Costs/Road.antt =====
-- src/nttd/pathfinding/road.py
use nttd.Prelude.{
  ℕ, zero, suc, ◌+◌, ◌*◌, ◌/◌, String, Bool, not, ◌&&◌, ◌||◌, Option, none, some, List, [], ◌∷◌,
  ◌++◌, if◌then◌else◌,
}
use nttd.Prelude.Int.{ℤ, pos, leb_ℤ, eqb_ℤ, pos_part}
use nttd.Pathfinding.Node.{PathNode, CostFunction}
use nttd.Pathfinding.Tiles.{TileData, TileCache, get}
use nttd.Pathfinding.Grid.{Direction, directions, along, distance}

abbrev cost_flat : ℕ
cost_flat = 100

abbrev cost_slope : ℕ
cost_slope = 200

abbrev cost_bridge_per_tile : ℕ
cost_bridge_per_tile = 150

abbrev cost_tunnel_per_tile : ℕ
cost_tunnel_per_tile = 120

abbrev cost_demolish : ℕ
cost_demolish = 500

abbrev cost_crossing : ℕ
cost_crossing = 300

abbrev max_bridge_length : ℕ
max_bridge_length = 10

abbrev max_tunnel_length : ℕ
max_tunnel_length = 20

-- A node that a cost function makes: its coordinates are those of a tile of the map.
abbrev pub made : ℕ → ℤ → ℤ → Option ℕ → String → List (String × ℕ) → PathNode
made cost x y direction action meta = record {
  f_cost = 0;
  g_cost = cost;
  x = pos_part x;
  y = pos_part y;
  direction = direction;
  parent_key = none;
  action = action;
  meta = meta;
}

-- `if node is not None: result.append(node)`
abbrev pub optional : Option PathNode → List PathNode
optional none = []
optional (some n) = n ∷ []

-- The loop over `length` of `_try_bridge`. `rounds` counts the lengths that are left.
unfoldable pub bridge_from :
    TileCache → ℕ → ℕ → Direction → ℤ → (rounds length : ℕ) → Option PathNode
bridge_from cache sx sy d start_height zero length = none
bridge_from cache sx sy d start_height (suc rounds) length =
    let bx = along sx d.dx length in
    let by = along sy d.dy length in
    let onward = bridge_from cache sx sy d start_height rounds (suc length) in
    elim (get cache bx by) [
      | none ↦ none
      | some end_tile ↦
          if end_tile.water || end_tile.is_station
          then onward
          else if not end_tile.buildable && not end_tile.has_road
          then onward
          else if eqb_ℤ end_tile.height start_height
          then some (
              made (length * cost_bridge_per_tile) bx by none "build_bridge"
                (("bridge_from_x", sx) ∷ ("bridge_from_y", sy) ∷ ("length", length) ∷ []))
          else onward
    ]

unfoldable pub try_bridge : TileCache → ℕ → ℕ → Direction → Option PathNode
try_bridge cache sx sy d = elim (get cache (pos sx) (pos sy)) [
  | none ↦ none
  | some start ↦ bridge_from cache sx sy d start.height 9 2
]

unfoldable pub tunnel_from :
    TileCache → ℕ → ℕ → Direction → ℤ → (rounds length : ℕ) → Option PathNode
tunnel_from cache sx sy d start_height zero length = none
tunnel_from cache sx sy d start_height (suc rounds) length =
    let tx = along sx d.dx length in
    let ty = along sy d.dy length in
    let onward = tunnel_from cache sx sy d start_height rounds (suc length) in
    elim (get cache tx ty) [
      | none ↦ none
      | some end_tile ↦
          if not (leb_ℤ start_height end_tile.height)
          then none
          else if eqb_ℤ end_tile.height start_height && not (eqb_ℤ end_tile.slope (pos 0))
          then some (
              made (length * cost_tunnel_per_tile) tx ty none "build_tunnel"
                (("tunnel_from_x", sx) ∷ ("tunnel_from_y", sy) ∷ ("length", length) ∷ []))
          else onward
    ]

unfoldable pub try_tunnel : TileCache → ℕ → ℕ → Direction → Option PathNode
try_tunnel cache sx sy d = elim (get cache (pos sx) (pos sy)) [
  | none ↦ none
  | some start ↦
      if eqb_ℤ start.slope (pos 0) then none else tunnel_from cache sx sy d start.height 19 2
]

-- The ranges of the two loops hold 9 and 19 lengths, from 2 on.
module _ (avoid_demolish : Bool) (company_id : ℤ) where
  unfoldable pub tile_cost : TileData → Option ℕ
  tile_cost tile =
      let sloped = if not (eqb_ℤ tile.slope (pos 0)) then cost_flat + cost_slope else cost_flat in
      let crossed = if tile.has_rail then sloped + cost_crossing else sloped in
      if tile.is_station
      then none
      else if tile.water && not tile.coast
      then none
      else if tile.has_road
      then if leb_ℤ (pos 0) tile.owner && not (eqb_ℤ tile.owner company_id)
        then none
        else some (sloped / 2)
      else if not tile.buildable && not tile.has_road
      then if avoid_demolish then none else some (crossed + cost_demolish)
      else some crossed

  -- What one direction adds to the result.
  unfoldable pub step : TileCache → PathNode → Direction → List PathNode
  step cache node d =
      let nx = along node.x d.dx 1 in
      let ny = along node.y d.dy 1 in
      elim (get cache nx ny) [
        | none ↦ []
        | some tile ↦ elim (tile_cost tile) [
          | some cost ↦
              made cost nx ny none (if not tile.has_road then "build_road" else "move") [] ∷ []
          | none ↦
              optional (try_bridge cache node.x node.y d)
              ++ optional (try_tunnel cache node.x node.y d)
        ]
      ]

  unfoldable pub neighbors_along : TileCache → PathNode → List Direction → List PathNode
  neighbors_along cache node [] = []
  neighbors_along cache node (d ∷ ds) = step cache node d ++ neighbors_along cache node ds

  unfoldable pub road_cost_function : TileCache → CostFunction
  road_cost_function cache = record {
    heuristic = λ x1 y1 x2 y2. (distance x1 x2 + distance y1 y2) * cost_flat;
    neighbors = λ node. neighbors_along cache node directions;
  }
