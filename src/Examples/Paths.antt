-- ===== src/Examples/Paths.antt =====
-- The path search on small maps.
use nttd.Prelude.{ℕ, ◌≡◌, refl, true, Option, none, some, [], ◌∷◌, arith, nat_eq}
use nttd.Prelude.Int.{pos}
use nttd.Pathfinding.Node.{PathNode, state_key, CostFunction, state_key_collides}
use nttd.Pathfinding.Heap.{sorted_queue}
use nttd.Pathfinding.Search.{PathResult, find_path}
use nttd.Pathfinding.Search.Invariant.{IsPositive, root_key}
use nttd.Pathfinding.Search.Path.{IsAnswer, find_path-IsAnswer}
use nttd.Pathfinding.Tiles.{new}
use nttd.Pathfinding.Costs.Road
use nttd.Pathfinding.Costs.Rail
use nttd.Pathfinding.Costs.Water
use nttd.Pathfinding.Costs.Positive.{cost_functions-IsPositive}

abbrev node_at : ℕ → ℕ → Option ℕ → PathNode
node_at x y direction = record {
  f_cost = 1;
  g_cost = 1;
  x = x;
  y = y;
  direction = direction;
  parent_key = none;
  action = "move";
  meta = [];
}

state_key_collides_example : state_key (node_at 3 10 (some 1)) ≡ state_key (node_at 3 41 none)
state_key_collides_example =
    state_key_collides (node_at 3 41 none) (node_at 3 10 (some 1)) (omega arith) refl refl refl refl

-- A lane to the east, one tile at a time.
abbrev lane : CostFunction
lane = record {
  heuristic = λ x y end_x end_y. 0;
  neighbors = λ n. record n { x = Prim.Native.Nat.suc n.x; g_cost = 1 } ∷ [];
}

lane-IsPositive : IsPositive lane
lane-IsPositive n = (omega arith, tt)

find_path-IsAnswer_example :
    (r : PathResult) × (find_path sorted_queue lane 2 0 0 0 10 ≡ some r)
    × IsAnswer sorted_queue lane 2 0 (root_key sorted_queue lane 2 0 0 0) 10 r
find_path-IsAnswer_example = find_path-IsAnswer sorted_queue lane 2 0 0 0 10 lane-IsPositive

cost_functions-IsPositive_example :
    IsPositive (Road.road_cost_function true (pos 0) (new 8 8))
    × IsPositive (Rail.rail_cost_function true (pos 0) (new 8 8))
    × IsPositive (Water.water_cost_function (new 8 8))
cost_functions-IsPositive_example = cost_functions-IsPositive true (pos 0) (new 8 8)
