-- ===== src/Pathfinding/Node.antt =====
-- src/nttd/pathfinding/astar.py: the nodes of the search and what a cost function offers.
-- A tile that the cache knows has coordinates from 0 on, so those of a node are natural numbers.
use Prim.Native.Nat.{bit_or}
use nttd.Prelude.{ℕ, ◌+◌, ◌*◌, ◌/◌, ◌%◌, ◌<◌, ◌≡◌, String, Option, none, some, List, arith}
use nttd.Prelude.Bits.{◌<<<◌, bit_or-shift}
use nttd.Prelude.Dict.{Dict}

pub record PathNode : Type 0 where
  pub f_cost : ℕ
  pub g_cost : ℕ
  pub x : ℕ
  pub y : ℕ
  pub direction : Option ℕ
  pub parent_key : Option ℕ
  pub action : String
  pub meta : Dict String ℕ

unfoldable pub state_key : PathNode → ℕ
state_key n = elim n.direction [
  | some d ↦ bit_or (bit_or (n.x <<< 16) (n.y <<< 2)) d
  | none ↦ bit_or (n.x <<< 16) n.y
]

-- The `Protocol` of a cost function. The g_cost of a neighbour is the cost of the edge.
pub record CostFunction : Type 0 where
  pub heuristic : ℕ → ℕ → ℕ → ℕ → ℕ
  pub neighbors : PathNode → List PathNode

-- Two nodes that differ have one key: a node without direction at (x, y), with y below 2 ^ 14, such
-- as the start of a search, and the node at (x, y / 4) that enters in the direction y % 4.
pub state_key_collides :
    (n m : PathNode)
    → n.y < 16384
    → n.direction ≡ none
    → m.x ≡ n.x
    → m.y ≡ n.y / 4
    → m.direction ≡ some (n.y % 4)
    → state_key m ≡ state_key n
unfolding state_key
state_key_collides n m fits none_n x y some_m = ground (
  arith,
  bit_or-shift 16 n.x n.y (omega arith),
  bit_or-shift 16 n.x (n.y / 4 * 4) (omega arith),
  bit_or-shift 2 (n.x * 16384 + n.y / 4) (n.y % 4) (omega arith),
)
