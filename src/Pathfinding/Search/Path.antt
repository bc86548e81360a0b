-- ===== src/Pathfinding/Search/Path.antt =====
-- What `find_path` of src/nttd/pathfinding/astar.py answers, for cost functions whose edges all
-- cost something.
use nttd.Prelude.{
  ℕ, zero, suc, ◌+◌, ◌≤◌, ◌<◌, ◌≡◌, refl, inl, inr, true, false, ◌&&◌, Option, none, some, List, [],
  ◌∷◌, ◌++◌, arith, Any, Bool-cases, Option-cases, ◌==◌, nat_eq,
}
use nttd.Prelude.Dict.{lookup}
use nttd.Pathfinding.Node.{PathNode, state_key, CostFunction}
use nttd.Pathfinding.Heap.{HeapQueue}
use nttd.Pathfinding.Search.{
  Entry, PathResult, entry_of, walk_back, mark_end, Search, relax_all, search, find_path,
  start_search,
}
use nttd.Pathfinding.Search.Invariant.{IsScored, IsPositive, Inv, root_key, start-Inv, round-Inv}

some_unique : (o : Option ℕ) (v w : ℕ) → o ≡ some v → o ≡ some w → v ≡ w
some_unique o v w h k = cc

module _ (queue : HeapQueue) (cost_fn : CostFunction) (end_x end_y : ℕ) where
  -- A chain of nodes up to a node, by their keys: the first has the key of the root, and each later one
  -- that of a neighbour of the one before it. Two nodes may share a key.
  pub data IsTrail (root : ℕ) : PathNode → List Entry → Type 0 where
    begin : (n : PathNode) → state_key n ≡ root → IsTrail root n (entry_of n ∷ [])
    step :
        (p n : PathNode) (path whole : List Entry)
        → Any (λ m. state_key m ≡ state_key n) (cost_fn.neighbors p)
        → IsTrail root p path
        → whole ≡ path ++ entry_of n ∷ []
        → IsTrail root n whole

  walk_back-IsTrail :
      {root : ℕ} {s : Search queue}
      → Inv queue cost_fn end_x end_y root s
      → (fuel : ℕ) (n : PathNode) → n.g_cost < fuel
      → IsScored s.g_scores n
      → (path : List Entry) × (walk_back fuel n s.came_from ≡ some path) × IsTrail root n path
  unfolding walk_back
  walk_back-IsTrail {root} {s} inv zero n h (v, known, low) = elim h [ ]
  walk_back-IsTrail {root} {s} inv (suc fuel) n h (v, known, low) =
      elim (Option-cases (lookup (state_key n) s.came_from)) [
        | inl none_left ↦
            rw (none_left, walk_back) (entry_of n ∷ [], refl, begin n (is_root none_left))
        | inr (p, parent) ↦
            let ((w, scored, less), sc, any) = inv.parents (state_key n) p parent in
            let (path, walked, trail) =
              walk_back-IsTrail inv fuel p
                (omega (arith, some_unique (lookup (state_key n) s.g_scores) v w known scored))
                sc in
            rw (parent, walk_back)
              (rw walked (path ++ entry_of n ∷ [], refl, step p n path _ any trail refl))
      ]
    where
      is_root : lookup (state_key n) s.came_from ≡ none → state_key n ≡ root
      is_root free = elim (inv.reached (state_key n) v known) [
        | inl same ↦ same
        | inr (p, parent) ↦ absurd (cc)
      ]

  -- What an answer says.
  pub record IsAnswer (root budget : ℕ) (r : PathResult) : Type 0 where
    pub within : r.iterations ≤ budget
    pub route :
        r.found ≡ true
        → (n : PathNode) × (path : List Entry) × (n.x ≡ end_x)
          × (n.y ≡ end_y)
          × IsTrail root n path
          × (r.path ≡ mark_end path)
          × (r.total_cost ≡ n.g_cost)
    pub nothing : r.found ≡ false → (r.path ≡ []) × (r.total_cost ≡ 0)

  search-IsAnswer :
      {root : ℕ} (left iterations budget : ℕ) (s : Search queue)
      → IsPositive cost_fn
      → Inv queue cost_fn end_x end_y root s
      → iterations + left ≡ budget
      → (r : PathResult) × (search queue cost_fn end_x end_y left iterations s ≡ some r)
        × IsAnswer root budget r
  unfolding search
  search-IsAnswer zero iterations budget s positive inv e = (
    _,
    refl,
    record { within = omega arith; route = λ h. absurd (cc); nothing = λ _. (refl, refl) },
  )
  search-IsAnswer (suc left) iterations budget s positive inv e =
      elim (Option-cases (queue.pop s.open_set)) [
        | inl empty ↦
            rw (empty, search)
              (
                _,
                refl,
                record {
                  within = omega arith;
                  route = λ h. absurd (cc);
                  nothing = λ _. (refl, refl);
                },
              )
        | inr ((current, rest), popped) ↦
            rw (popped, search)
              (let (own, next) =
                  round-Inv queue cost_fn end_x end_y current rest positive inv popped in
                elim (Bool-cases (current.x == end_x && current.y == end_y)) [
                  | inl there ↦
                      let (path, walked, trail) =
                        walk_back-IsTrail inv (suc current.g_cost) current (omega arith) own in
                      rw there (
                        rw walked (
                          _,
                          refl,
                          record {
                            within = omega arith;
                            route =
                                λ _. (current, path, ground arith, ground arith, trail, refl, refl);
                            nothing = λ h. absurd (cc);
                          },
                        ))
                  | inr onward ↦ rw onward (
                      search-IsAnswer left (suc iterations) budget
                        (relax_all queue cost_fn end_x end_y current (cost_fn.neighbors current)
                          (record s { open_set = rest }))
                        positive next (omega arith))
                ])
      ]

  -- Where each edge costs something, the search always answers, within its budget. A path that is
  -- found is a chain by the keys of its nodes: its first node has the key of the start, each later one
  -- has the key of a neighbour of the node before it, and the last one is at the end and has the total
  -- cost. Nodes may share a key, so a step need not lead to that neighbour itself. Where none is found,
  -- the path is empty and costs nothing.
  pub find_path-IsAnswer :
      (start_x start_y budget : ℕ)
      → IsPositive cost_fn
      → (r : PathResult) × (find_path queue cost_fn end_x end_y start_x start_y budget ≡ some r)
        × IsAnswer (root_key queue cost_fn end_x end_y start_x start_y) budget r
  unfolding find_path
  find_path-IsAnswer start_x start_y budget positive =
      search-IsAnswer budget 0 budget (start_search queue cost_fn end_x end_y start_x start_y)
        positive (start-Inv queue cost_fn end_x end_y start_x start_y) (omega arith)
