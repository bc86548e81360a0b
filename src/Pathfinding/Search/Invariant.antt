-- ===== src/Pathfinding/Search/Invariant.antt =====
-- What holds between two rounds of the search of src/nttd/pathfinding/astar.py, for cost functions
-- whose edges all cost something.
use nttd.Prelude.{
  ℕ, ◌+◌, ◌≤◌, ◌<◌, ◌≡◌, refl, ◌≢◌, ◌⊎◌, inl, inr, false, none, some, List, [], ◌∷◌, arith, All,
  Any, All-map, Bool-cases, nat_eq, sym, ◌∙◌,
}
use mathlib.Core.Path.{subst, subst₂}
use native.Mathlib.Nat.{le_refl}
use nttd.Prelude.Dict.{Dict, lookup, insert, lookup-insert}
use nttd.Pathfinding.Node.{PathNode, state_key, CostFunction}
use nttd.Pathfinding.Heap.{HeapQueue}
use nttd.Pathfinding.Search.{Search, is_no_better, relax, relax_all, start_node, start_search}

-- The best known cost of the node's key is at most its own.
abbrev pub IsScored : Dict ℕ ℕ → PathNode → Type 0
IsScored g_scores n = (v : ℕ) × (lookup (state_key n) g_scores ≡ some v) × (v ≤ n.g_cost)

abbrev pub IsPositive : CostFunction → Type 0
IsPositive cost_fn = (n : PathNode) → All (λ m. 0 < m.g_cost) (cost_fn.neighbors n)

lookup_here : {V : Type 0} (k : ℕ) (v : V) (d : Dict ℕ V) → lookup k (insert k v d) ≡ some v
lookup_here k v d = ground (arith, lookup-insert k k v d)

lookup_there :
    {V : Type 0} (k j : ℕ) (v : V) (d : Dict ℕ V) → k ≢ j → lookup j (insert k v d) ≡ lookup j d
lookup_there k j v d h = ground (arith, lookup-insert k j v d)

Eq-cases : (k j : ℕ) → (k ≡ j) ⊎ (k ≢ j)
Eq-cases k j = ground arith

inserted : {V : Type 0} (k : ℕ) (w v : V) (d : Dict ℕ V) → lookup k (insert k v d) ≡ some w → v ≡ w
inserted k w v d e = cc (lookup_here k v d)

lookup_single : (k v : ℕ) → lookup k ((k, v) ∷ []) ≡ some v
unfolding lookup
lookup_single k v = ground arith

single_key : (j k v w : ℕ) → lookup j ((k, v) ∷ []) ≡ some w → j ≡ k
unfolding lookup
single_key j k v w e = ground arith

lookup_nil : (k : ℕ) → lookup {V = PathNode} k [] ≡ none
unfolding lookup
lookup_nil k = refl

insert-IsScored :
    (k v : ℕ) (g : Dict ℕ ℕ) (n : PathNode)
    → is_no_better v (lookup k g) ≡ false
    → IsScored g n
    → IsScored (insert k v g) n
unfolding is_no_better
insert-IsScored k v g n better (w, known, low) = elim (Eq-cases k (state_key n)) [
  | inl same ↦
      (v, subst (λ j. lookup j (insert k v g) ≡ some v) same (lookup_here k v g), ground arith)
  | inr other ↦ (w, lookup_there k (state_key n) v g other ∙ known, low)
]

insert-All-IsScored :
    (k v : ℕ) (g : Dict ℕ ℕ) (ns : List PathNode)
    → is_no_better v (lookup k g) ≡ false
    → All (IsScored g) ns
    → All (IsScored (insert k v g)) ns
insert-All-IsScored k v g [] better h = tt
insert-All-IsScored k v g (n ∷ ns) better h =
    (insert-IsScored k v g n better h.0, insert-All-IsScored k v g ns better h.1)

module _ (queue : HeapQueue) (cost_fn : CostFunction) (end_x end_y : ℕ) where
  open queue use {contents, push, push-All, pop, pop-All, single-contents}

  -- `p` is a parent of the key `k`: it was cheaper than the key is now, and some neighbour of it
  -- has that key.
  abbrev pub IsParent : Dict ℕ ℕ → ℕ → PathNode → Type 0
  IsParent g_scores k p =
      ((v : ℕ) × (lookup k g_scores ≡ some v) × (p.g_cost < v))
      × IsScored g_scores p
      × Any (λ m. state_key m ≡ k) (cost_fn.neighbors p)

  pub record Inv (root : ℕ) (s : Search queue) : Type 0 where
    pub scored : All (IsScored s.g_scores) (contents s.open_set)
    pub parents : (k : ℕ) (p : PathNode) → lookup k s.came_from ≡ some p → IsParent s.g_scores k p
    pub reached :
        (k v : ℕ)
        → lookup k s.g_scores ≡ some v
        → (k ≡ root) ⊎ ((p : PathNode) × (lookup k s.came_from ≡ some p))
    pub root_free : lookup root s.came_from ≡ none
    pub root_zero : lookup root s.g_scores ≡ some 0

  -- An entered neighbour: a better cost for its key.
  module _ {root : ℕ} {s : Search queue} (inv : Inv root s) (current m : PathNode)
      (own : IsScored s.g_scores current)
      (linked : Any (λ k. state_key k ≡ state_key m) (cost_fn.neighbors current))
      (positive : 0 < m.g_cost)
      (better : is_no_better (current.g_cost + m.g_cost) (lookup (state_key m) s.g_scores)
        ≡ false) where
    abbrev key : ℕ
    key = state_key m

    abbrev cost : ℕ
    cost = current.g_cost + m.g_cost

    IsParent-now :
        (k : ℕ) (p : PathNode)
        → lookup k (insert key current s.came_from) ≡ some p
        → IsParent (insert key cost s.g_scores) k p
    IsParent-now k p e = elim (Eq-cases key k) [
      | inl same ↦
          subst₂ (IsParent (insert key cost s.g_scores)) same
            (inserted key p current s.came_from
              (subst (λ j. lookup j (insert key current s.came_from) ≡ some p) (sym same) e))
            (
              (cost, lookup_here key cost s.g_scores, omega arith),
              insert-IsScored key cost s.g_scores current better own,
              linked,
            )
      | inr other ↦
          let ((v, known, less), sc, any) =
            inv.parents k p (sym (lookup_there key k current s.came_from other) ∙ e) in
          (
            (v, lookup_there key k cost s.g_scores other ∙ known, less),
            insert-IsScored key cost s.g_scores p better sc,
            any,
          )
    ]

    reached_now :
        (k v : ℕ)
        → lookup k (insert key cost s.g_scores) ≡ some v
        → (k ≡ root) ⊎ ((p : PathNode) × (lookup k (insert key current s.came_from) ≡ some p))
    reached_now k v e = elim (Eq-cases key k) [
      | inl same ↦ inr (
        current,
        subst (λ j. lookup j (insert key current s.came_from) ≡ some current) same
            (lookup_here key current s.came_from),
      )
      | inr other ↦ elim (inv.reached k v (sym (lookup_there key k cost s.g_scores other) ∙ e)) [
        | inl root_key ↦ inl root_key
        | inr (p, known) ↦ inr (p, lookup_there key k current s.came_from other ∙ known)
      ]
    ]

    key-ne-root : key ≢ root
    unfolding is_no_better
    key-ne-root same = ground (arith, inv.root_zero)

    abbrev entered : PathNode
    entered = record m {
      f_cost = cost + cost_fn.heuristic m.x m.y end_x end_y;
      g_cost = cost;
      parent_key = some (state_key current);
    }

    entered-Inv : Inv root (record {
      open_set = push entered s.open_set;
      came_from = insert key current s.came_from;
      g_scores = insert key cost s.g_scores;
    })
    unfolding state_key
    entered-Inv = record {
      scored =
          push-All (IsScored (insert key cost s.g_scores)) entered s.open_set
            (cost, lookup_here key cost s.g_scores, le_refl cost)
            (insert-All-IsScored key cost s.g_scores (contents s.open_set) better inv.scored);
      parents = IsParent-now;
      reached = reached_now;
      root_free = lookup_there key root current s.came_from key-ne-root ∙ inv.root_free;
      root_zero = lookup_there key root cost s.g_scores key-ne-root ∙ inv.root_zero;
    }

  -- The node in hand stays scored while its neighbours are entered.
  relax-Inv :
      {root : ℕ} {s : Search queue}
      → Inv root s
      → (current m : PathNode) → IsScored s.g_scores current
      → Any (λ k. state_key k ≡ state_key m) (cost_fn.neighbors current)
      → 0 < m.g_cost
      → let t = relax queue cost_fn end_x end_y current m s in
        Inv root t × IsScored t.g_scores current
  unfolding relax
  relax-Inv {root} {s} inv current m own linked positive =
      elim (Bool-cases
        (is_no_better (current.g_cost + m.g_cost) (lookup (state_key m) s.g_scores))) [
          | inl worse ↦ rw worse (inv, own)
          | inr better ↦ rw better (
            entered-Inv inv current m own linked positive better,
            insert-IsScored (state_key m) (current.g_cost + m.g_cost) s.g_scores current better own,
          )
        ]

  relax_all-Inv :
      {root : ℕ} (current : PathNode) (ns : List PathNode) (s : Search queue)
      → Inv root s
      → IsScored s.g_scores current
      → All (λ n. Any (λ k. state_key k ≡ state_key n) (cost_fn.neighbors current)) ns
      → All (λ n. 0 < n.g_cost) ns
      → Inv root (relax_all queue cost_fn end_x end_y current ns s)
  unfolding relax_all
  relax_all-Inv current [] s inv own linked positive = inv
  relax_all-Inv current (n ∷ ns) s inv own linked positive =
      let (inv', own') = relax-Inv inv current n own linked.0 positive.0 in
      relax_all-Inv current ns (relax queue cost_fn end_x end_y current n s) inv' own' linked.1
        positive.1

  -- Every neighbour is one of the neighbours.
  All-linked : (ns : List PathNode) → All (λ n. Any (λ k. state_key k ≡ state_key n) ns) ns
  All-linked [] = tt
  All-linked (n ∷ ns) = (inl refl, All-map _ ns (λ x any. inr any) (All-linked ns))

  abbrev pub root_key : ℕ → ℕ → ℕ
  root_key start_x start_y = state_key (start_node queue cost_fn end_x end_y start_x start_y)

  pub start-Inv :
      (start_x start_y : ℕ)
      → Inv (root_key start_x start_y) (start_search queue cost_fn end_x end_y start_x start_y)
  unfolding start_search start_node
  start-Inv start_x start_y =
      let start = start_node queue cost_fn end_x end_y start_x start_y in
      let key = state_key start in
      record {
        scored = rw (single-contents start) ((0, lookup_single key 0, le_refl 0), tt);
        parents = λ k p e. absurd (cc (lookup_nil k));
        reached = λ k v e. inl (single_key k key 0 v e);
        root_free = lookup_nil key;
        root_zero = lookup_single key 0;
      }

  -- One round keeps the invariant: the node that is popped, and all of its neighbours entered.
  pub round-Inv :
      {root : ℕ} {s : Search queue} (current : PathNode) (rest : queue.Heap)
      → IsPositive cost_fn
      → Inv root s
      → pop s.open_set ≡ some (current, rest)
      → IsScored s.g_scores current
        × Inv root (
            relax_all queue cost_fn end_x end_y current
              (cost_fn.neighbors current)
              (record s { open_set = rest }))
  round-Inv {root} {s} current rest positive inv e =
      let (own, others) = pop-All (IsScored s.g_scores) s.open_set rest current e inv.scored in
      let popped : Inv root (record s { open_set = rest }) = record {
        scored = others;
        parents = inv.parents;
        reached = inv.reached;
        root_free = inv.root_free;
        root_zero = inv.root_zero;
      } in
      (
        own,
        relax_all-Inv current (cost_fn.neighbors current) (record s { open_set = rest }) popped own
            (All-linked (cost_fn.neighbors current)) (positive current),
      )
