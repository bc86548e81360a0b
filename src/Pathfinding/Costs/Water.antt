-- ===== src/Pathfinding/Costs/Water.antt =====
-- src/nttd/pathfinding/water.py
use nttd.Prelude.{ℕ, ◌+◌, ◌*◌, not, ◌&&◌, Option, none, some, List, [], ◌∷◌, ◌++◌, if◌then◌else◌}
use nttd.Prelude.Int.{pos, eqb_ℤ}
use nttd.Pathfinding.Node.{PathNode, CostFunction}
use nttd.Pathfinding.Tiles.{TileData, TileCache, get}
use nttd.Pathfinding.Grid.{Direction, directions, along, distance}
use nttd.Pathfinding.Costs.Road.{made}

abbrev cost_water : ℕ
cost_water = 50

abbrev cost_canal : ℕ
cost_canal = 500

abbrev cost_coast : ℕ
cost_coast = 100

abbrev cost_lock : ℕ
cost_lock = 800

unfoldable pub tile_cost : TileCache → TileData → PathNode → Option ℕ
tile_cost cache tile from_node =
    if tile.water
    then elim (get cache (pos from_node.x) (pos from_node.y)) [
      | none ↦ some cost_water
      | some from_tile ↦
          some (if not (eqb_ℤ from_tile.height tile.height) then cost_lock else cost_water)
    ]
    else if tile.coast
    then some cost_coast
    else if tile.buildable
    then some cost_canal
    else none

unfoldable pub step : TileCache → PathNode → Direction → List PathNode
step cache node d =
    let nx = along node.x d.dx 1 in
    let ny = along node.y d.dy 1 in
    elim (get cache nx ny) [
      | none ↦ []
      | some tile ↦ elim (tile_cost cache tile node) [
        | none ↦ []
        | some cost ↦
            made cost nx ny none
              (if not tile.water && tile.buildable then "build_canal" else "move") []
            ∷ []
      ]
    ]

unfoldable pub neighbors_along : TileCache → PathNode → List Direction → List PathNode
neighbors_along cache node [] = []
neighbors_along cache node (d ∷ ds) = step cache node d ++ neighbors_along cache node ds

unfoldable pub water_cost_function : TileCache → CostFunction
water_cost_function cache = record {
  heuristic = λ x1 y1 x2 y2. (distance x1 x2 + distance y1 y2) * cost_water;
  neighbors = λ node. neighbors_along cache node directions;
}
