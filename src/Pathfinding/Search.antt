-- ===== src/Pathfinding/Search.antt =====
-- src/nttd/pathfinding/astar.py: the search and the walk back along the parents.
-- `max_iterations` is the fuel of the search, as in the source. The walk back has no bound there:
-- here it takes fuel, one more than the cost of its first node, and `none` means that the fuel ran
-- out. With edges that cost something the fuel is enough.
pub mod Invariant
pub mod Path
use nttd.Prelude.{
  ℕ, zero, suc, ◌+◌, ◌-◌, String, Bool, true, false, not, ◌&&◌, Option, none, some, List, [], ◌∷◌,
  ◌++◌, ◌==◌, nat_eq, leb, length, if◌then◌else◌,
}
use nttd.Prelude.Dict.{Dict, lookup, insert}
use nttd.Pathfinding.Node.{PathNode, state_key, CostFunction}
use nttd.Pathfinding.Heap.{HeapQueue}

abbrev pub max_iterations : ℕ
max_iterations = 50_000

pub record Entry : Type 0 where
  pub x : ℕ
  pub y : ℕ
  pub action : String
  pub meta : Dict String ℕ

pub record PathResult : Type 0 where
  pub found : Bool
  pub path : List Entry
  pub total_cost : ℕ
  pub tiles_explored : ℕ
  pub iterations : ℕ

unfoldable pub entry_of : PathNode → Entry
entry_of n = record { x = n.x; y = n.y; action = n.action; meta = n.meta }

-- `_reconstruct`, up to its `path.reverse()`: `path` is built by `append`.
unfoldable pub walk_back : ℕ → PathNode → Dict ℕ PathNode → Option (List Entry)
unfolding entry_of
walk_back zero current came_from = none
walk_back (suc fuel) current came_from = elim (lookup (state_key current) came_from) [
  | none ↦ some (entry_of current ∷ [])
  | some parent ↦ elim (walk_back fuel parent came_from) [
    | none ↦ none
    | some before ↦ some (before ++ entry_of current ∷ [])
  ]
]

-- `path[-1]["action"] = "end"`
unfoldable pub mark_end : List Entry → List Entry
mark_end [] = []
mark_end (e ∷ []) = record e { action = "end" } ∷ []
mark_end (e ∷ f ∷ rest) = e ∷ mark_end (f ∷ rest)

-- `key in g_scores and tentative_g >= g_scores[key]`
unfoldable pub is_no_better : ℕ → Option ℕ → Bool
is_no_better tentative_g none = false
is_no_better tentative_g (some g) = leb g tentative_g

module _ (queue : HeapQueue) where
  open queue use {Heap, single, push, pop}

  pub record Search : Type 0 where
    pub open_set : Heap
    pub came_from : Dict ℕ PathNode
    pub g_scores : Dict ℕ ℕ

  module _ (cost_fn : CostFunction) (end_x end_y : ℕ) where
    -- The body of `for neighbor in cost_fn.neighbors(current)`.
    unfoldable pub relax : PathNode → PathNode → Search → Search
    unfolding is_no_better
    relax current neighbor s =
        let tentative_g = current.g_cost + neighbor.g_cost in
        let key = state_key neighbor in
        let h = cost_fn.heuristic neighbor.x neighbor.y end_x end_y in
        let entered = record neighbor {
          f_cost = tentative_g + h;
          g_cost = tentative_g;
          parent_key = some (state_key current);
        } in
        if is_no_better tentative_g (lookup key s.g_scores) then s else record {
          open_set = push entered s.open_set;
          came_from = insert key current s.came_from;
          g_scores = insert key tentative_g s.g_scores;
        }

    unfoldable pub relax_all : PathNode → List PathNode → Search → Search
    relax_all current [] s = s
    relax_all current (n ∷ ns) s = relax_all current ns (relax current n s)

    not_found : ℕ → Search → PathResult
    not_found iterations s = record {
      found = false;
      path = [];
      total_cost = 0;
      tiles_explored = length s.g_scores;
      iterations = iterations;
    }

    abbrev arrived : ℕ → PathNode → Search → Option (List Entry) → Option PathResult
    arrived iterations current s none = none
    arrived iterations current s (some path) = some (record {
      found = true;
      path = mark_end path;
      total_cost = current.g_cost;
      tiles_explored = length s.g_scores;
      iterations = iterations;
    })

    -- The `while` loop. `left` is the iterations that the budget still has.
    unfoldable pub search : (left iterations : ℕ) → Search → Option PathResult
    unfolding not_found mark_end
    search zero iterations s = some (not_found iterations s)
    search (suc left) iterations s = elim (pop s.open_set) [
      | none ↦ some (not_found iterations s)
      | some (current, rest) ↦
          let popped = record s { open_set = rest } in
          let onward =
            search left (suc iterations) (relax_all current (cost_fn.neighbors current) popped) in
          if current.x == end_x && current.y == end_y
          then arrived (suc iterations) current popped
              (walk_back (suc current.g_cost) current s.came_from)
          else onward
    ]

    unfoldable pub start_node : ℕ → ℕ → PathNode
    start_node start_x start_y = record {
      f_cost = cost_fn.heuristic start_x start_y end_x end_y;
      g_cost = 0;
      x = start_x;
      y = start_y;
      direction = none;
      parent_key = none;
      action = "start";
      meta = [];
    }

    unfoldable pub start_search : ℕ → ℕ → Search
    unfolding start_node
    start_search start_x start_y =
        let start = start_node start_x start_y in
        record { open_set = single start; came_from = []; g_scores = (state_key start, 0) ∷ [] }

    unfoldable pub find_path : ℕ → ℕ → ℕ → Option PathResult
    unfolding search start_search
    find_path start_x start_y budget = search budget 0 (start_search start_x start_y)
