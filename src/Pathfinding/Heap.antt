-- ===== src/Pathfinding/Heap.antt =====
-- What the search uses of Python's `heapq` on nodes, which compare by f_cost: the heap holds the
-- nodes that were pushed, and `heappop` takes one of the least. Which of several least ones is
-- left open.
use nttd.Prelude.{
  ℕ, ◌≤◌, ◌≡◌, refl, sym, ap, ◌∙◌, Option, none, some, List, [], ◌∷◌, arith, All, leb, leb→le,
  Bool-cases, inl, inr, if◌then◌else◌,
}
use mathlib.Core.Path.{subst}
use nttd.Pathfinding.Node.{PathNode}

pub record HeapQueue : Type 1 where
  pub Heap : Type 0
  pub single : PathNode → Heap
  pub push : PathNode → Heap → Heap
  pub pop : Heap → Option (PathNode × Heap)
  pub contents : Heap → List PathNode
  pub single-contents : (n : PathNode) → contents (single n) ≡ n ∷ []
  pub push-All :
      (P : PathNode → Type 0) (n : PathNode) (h : Heap)
      → P n
      → All P (contents h)
      → All P (contents (push n h))
  pub pop-All :
      (P : PathNode → Type 0) (h h' : Heap) (n : PathNode)
      → pop h ≡ some (n, h')
      → All P (contents h)
      → P n × All P (contents h')
  pub pop-least :
      (h h' : Heap) (n : PathNode)
      → pop h ≡ some (n, h')
      → All (λ m. n.f_cost ≤ m.f_cost) (contents h')
  pub pop-none : (h : Heap) → pop h ≡ none → contents h ≡ []

-- A sorted list is one.
insert_sorted : PathNode → List PathNode → List PathNode
insert_sorted n [] = n ∷ []
insert_sorted n (m ∷ ms) = if leb n.f_cost m.f_cost then n ∷ m ∷ ms else m ∷ insert_sorted n ms

abbrev IsSorted : List PathNode → Type 0
IsSorted [] = Unit
IsSorted (n ∷ ns) = All (λ m. n.f_cost ≤ m.f_cost) ns × IsSorted ns

insert_sorted-All :
    (P : PathNode → Type 0) (n : PathNode) (ns : List PathNode)
    → P n
    → All P ns
    → All P (insert_sorted n ns)
unfolding insert_sorted
insert_sorted-All P n [] p ps = (p, tt)
insert_sorted-All P n (m ∷ ms) p ps = elim (Bool-cases (leb n.f_cost m.f_cost)) [
  | inl low ↦ rw low (p, ps)
  | inr high ↦ rw high (ps.0, insert_sorted-All P n ms p ps.1)
]

All-le_trans :
    (a b : ℕ) (ns : List PathNode) → a ≤ b → All (λ m. b ≤ m.f_cost) ns → All (λ m. a ≤ m.f_cost) ns
All-le_trans a b [] h all = tt
All-le_trans a b (n ∷ ns) h all = (omega arith, All-le_trans a b ns h all.1)

insert_sorted-IsSorted :
    (n : PathNode) (ns : List PathNode) → IsSorted ns → IsSorted (insert_sorted n ns)
unfolding insert_sorted
insert_sorted-IsSorted n [] h = (tt, tt)
insert_sorted-IsSorted n (m ∷ ms) h = elim (Bool-cases (leb n.f_cost m.f_cost)) [
  | inl low ↦ rw low ((leb→le _ _ low, All-le_trans n.f_cost m.f_cost ms (leb→le _ _ low) h.0), h)
  | inr high ↦ rw high (
    unfold insert_sorted in insert_sorted-All (λ k. m.f_cost ≤ k.f_cost) n ms (ground arith) h.0,
    insert_sorted-IsSorted n ms h.1,
  )
]

pop_sorted :
    (ns : List PathNode) → IsSorted ns → Option (PathNode × ((ms : List PathNode) × IsSorted ms))
pop_sorted [] h = none
pop_sorted (n ∷ ns) h = some (n, (ns, h.1))

abbrev SortedList : Type 0
SortedList = (ms : List PathNode) × IsSorted ms

abbrev popped : Option (PathNode × SortedList) → List PathNode
popped none = []
popped (some p) = p.0 ∷ p.1.0

pop_sorted-eq : (ns : List PathNode) (h : IsSorted ns) → popped (pop_sorted ns h) ≡ ns
unfolding pop_sorted
pop_sorted-eq [] h = refl
pop_sorted-eq (n ∷ ns) h = refl

pop_sorted-cons :
    (h h' : SortedList) (n : PathNode) → pop_sorted h.0 h.1 ≡ some (n, h') → h.0 ≡ n ∷ h'.0
pop_sorted-cons h h' n e = sym (pop_sorted-eq h.0 h.1) ∙ ap popped e

pub sorted_queue : HeapQueue
unfolding insert_sorted pop_sorted
sorted_queue = record {
  Heap = SortedList;
  single = λ n. (n ∷ [], (tt, tt));
  push = λ n h. (insert_sorted n h.0, insert_sorted-IsSorted n h.0 h.1);
  pop = λ h. pop_sorted h.0 h.1;
  contents = λ h. h.0;
  single-contents = λ n. refl;
  push-All = λ P n h. insert_sorted-All P n h.0;
  pop-All = λ P h h' n e all. subst (All P) (pop_sorted-cons h h' n e) all;
  pop-least = λ h h' n e. (subst IsSorted (pop_sorted-cons h h' n e) h.1).0;
  pop-none = λ h e. sym (pop_sorted-eq h.0 h.1) ∙ ap popped e;
}
