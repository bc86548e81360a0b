-- ===== src/Pathfinding/Tiles/Loading.antt =====
-- The batches of `load_area` in src/nttd/pathfinding/tile_cache.py.
use nttd.Prelude.{
  ℕ, zero, suc, ◌+◌, ◌*◌, ◌≤◌, ◌<◌, inl, inr, List, [], ◌∷◌, ◌++◌, arith, Any, Bool-cases,
}
use nttd.Prelude.Tests.{le→leb, ltb, ltb→lt}
use nttd.Pathfinding.Tiles.{batch_size, range_by, Batch, batches_of, batches_in, batches}

-- The tile (x, y) lies in the rectangle of a batch.
abbrev Holds : ℕ → ℕ → Batch → Type 0
Holds x y b = (b.x1 ≤ x) × (x ≤ b.x2) × (b.y1 ≤ y) × (y ≤ b.y2)

Any-append_left : (P : Batch → Type 0) (ps qs : List Batch) → Any P ps → Any P (ps ++ qs)
Any-append_left P [] qs h = absurd h
Any-append_left P (p ∷ ps) qs (inl h) = inl h
Any-append_left P (p ∷ ps) qs (inr h) = inr (Any-append_left P ps qs h)

Any-append_right : (P : Batch → Type 0) (ps qs : List Batch) → Any P qs → Any P (ps ++ qs)
Any-append_right P [] qs h = h
Any-append_right P (p ∷ ps) qs h = inr (Any-append_right P ps qs h)

-- One of the starts is at most a batch below any number of the range.
range_by-covers :
    (rounds start last v : ℕ)
    → start ≤ v
    → v ≤ last
    → last < start + rounds * batch_size
    → Any (λ s. (s ≤ v) × (v < s + batch_size)) (range_by rounds start last)
unfolding range_by
range_by-covers zero start last v low high enough = absurd (omega arith)
range_by-covers (suc rounds) start last v low high enough =
    let open_range = le→leb start last (omega arith) in
    rw open_range (elim (Bool-cases (ltb v (start + batch_size))) [
      | inl here ↦ inl (low, ltb→lt _ _ here)
      | inr later ↦
          inr (range_by-covers rounds (start + batch_size) last v (ground arith) high (omega arith))
    ])

batches_of-covers :
    (bx x2 y2 x y : ℕ) (bys : List ℕ)
    → bx ≤ x
    → x < bx + batch_size
    → x ≤ x2
    → y ≤ y2
    → Any (λ s. (s ≤ y) × (y < s + batch_size)) bys
    → Any (Holds x y) (batches_of bx x2 y2 bys)
unfolding batches_of
batches_of-covers bx x2 y2 x y [] a b c d h = absurd h
batches_of-covers bx x2 y2 x y (by ∷ bys) a b c d (inl h) =
    inl (omega arith, omega arith, omega arith, omega arith)
batches_of-covers bx x2 y2 x y (by ∷ bys) a b c d (inr h) =
    inr (batches_of-covers bx x2 y2 x y bys a b c d h)

batches_in-covers :
    (y1 x2 y2 x y : ℕ) (bxs : List ℕ)
    → x ≤ x2
    → y1 ≤ y
    → y ≤ y2
    → Any (λ s. (s ≤ x) × (x < s + batch_size)) bxs
    → Any (Holds x y) (batches_in y1 x2 y2 bxs)
unfolding batches_in
batches_in-covers y1 x2 y2 x y [] c d e h = absurd h
batches_in-covers y1 x2 y2 x y (bx ∷ bxs) c d e (inl h) = Any-append_left (Holds x y) _ _ (
    batches_of-covers bx x2 y2 x y _ h.0 h.1 c e
      (range_by-covers (suc y2) y1 y2 y d e (omega arith)))
batches_in-covers y1 x2 y2 x y (bx ∷ bxs) c d e (inr h) =
    Any-append_right (Holds x y) _ _ (batches_in-covers y1 x2 y2 x y bxs c d e h)

-- Every tile of an area, its last row and column included, lies in a batch that is asked for.
batches_cover :
    (x1 y1 x2 y2 x y : ℕ)
    → x1 ≤ x
    → x ≤ x2
    → y1 ≤ y
    → y ≤ y2
    → Any (Holds x y) (batches x1 y1 x2 y2)
unfolding batches
batches_cover x1 y1 x2 y2 x y a b c d =
    batches_in-covers y1 x2 y2 x y _ b c d (range_by-covers (suc x2) x1 x2 x a b (omega arith))
