-- ===== src/Prelude/Distinct.antt =====
-- Membership as a test, lists with no repetition, and the keys of a dictionary.
use mathlib.Core.Path.{◌≡◌, refl}
use mathlib.Core.Logic.{inl, inr}
use mathlib.Core.Bool.{Bool, true, false, not, ◌||◌}
use mathlib.Core.Option.{none, some}
use mathlib.Core.List.{List, [], ◌∷◌}
use native.Mathlib.Omega.{arith}
use nttd.Prelude.Tests.{Bool-cases, if◌then◌else◌}
use nttd.Prelude.Lists.{all}
use nttd.Prelude.Keys.{HasEq, ◌==◌}
use nttd.Prelude.Dict.{Dict, keys, lookup, insert, erase}

module _ {ℓ} {A : Type ℓ} ⦃e : HasEq A⦄ where
  -- `a in xs`
  unfoldable pub contains : A → List A → Bool
  contains a [] = false
  contains a (x ∷ xs) = x == a || contains a xs

  abbrev pub Distinct : List A → Type 0
  Distinct [] = Unit
  Distinct (x ∷ xs) = (contains x xs ≡ false) × Distinct xs

  -- `not (xs & ys)`
  unfoldable pub disjoint : List A → List A → Bool
  unfolding contains all
  disjoint xs ys = all (λ x. not (contains x ys)) xs

  pub disjoint_lem :
      (xs ys : List A) (a : A)
      → disjoint xs ys ≡ true
      → contains a xs ≡ true
      → contains a ys ≡ false
  unfolding disjoint
  disjoint_lem [] ys a apart h = absurd (cc)
  disjoint_lem (x ∷ xs) ys a apart h = ground (arith, e.same_iff x a, disjoint_lem xs ys a)

module _ {ℓ κ} {K : Type ℓ} {V : Type κ} ⦃e : HasEq K⦄ where
  pub contains-insert :
      (k j : K) (v : V) (d : Dict K V)
      → contains j (keys (insert k v d)) ≡ (k == j || contains j (keys d))
  unfolding insert contains
  contains-insert k j v [] = refl
  contains-insert k j v ((i, w) ∷ d) =
      ground (arith, e.same_iff i k, e.same_iff k j, e.same_iff i j, contains-insert k j v d)

  pub insert-Distinct :
      (k : K) (v : V) (d : Dict K V) → Distinct (keys d) → Distinct (keys (insert k v d))
  unfolding insert contains
  insert-Distinct k v [] h = (refl, tt)
  insert-Distinct k v ((i, w) ∷ d) h =
      ground
        (arith, e.same_iff i k, e.same_iff k i, contains-insert k i v d, insert-Distinct k v d h.1)

  -- The keys of a written dictionary do not depend on its values.
  pub keys-insert_eq {μ} :
      {W : Type μ} (k : K) (v : V) (w : W) (d : Dict K V) (f : Dict K W)
      → keys d ≡ keys f
      → keys (insert k v d) ≡ keys (insert k w f)
  unfolding insert
  keys-insert_eq k v w [] [] h = refl
  keys-insert_eq k v w [] ((j, x) ∷ f) h = absurd (cc)
  keys-insert_eq k v w ((i, y) ∷ d) [] h = absurd (cc)
  keys-insert_eq k v w ((i, y) ∷ d) ((j, x) ∷ f) h =
      let same : i ≡ j = cc in ground (arith, keys-insert_eq k v w d f)

  pub erase_absent : (k : K) (d : Dict K V) → contains k (keys d) ≡ false → erase k d ≡ d
  unfolding erase contains
  erase_absent k [] h = refl
  erase_absent k ((i, w) ∷ d) h = ground (arith, erase_absent k d)

  pub lookup_absent : (k : K) (d : Dict K V) → contains k (keys d) ≡ false → lookup k d ≡ none
  unfolding lookup contains
  lookup_absent k [] h = refl
  lookup_absent k ((i, w) ∷ d) h = ground (arith, lookup_absent k d)

  pub lookup_present :
      (k : K) (d : Dict K V) → contains k (keys d) ≡ true → (v : V) × (lookup k d ≡ some v)
  unfolding lookup contains
  lookup_present k [] h = absurd (cc)
  lookup_present k ((i, w) ∷ d) h = elim (Bool-cases (i == k)) [
    | inl here ↦ (w, rw here)
    | inr later ↦ let (v, found) = lookup_present k d (ground arith) in (v, ground arith)
  ]

  pub contains-erase :
      (k j : K) (d : Dict K V)
      → contains j (keys (erase k d)) ≡ (if k == j then false else contains j (keys d))
  unfolding erase contains
  contains-erase k j [] = ground arith
  contains-erase k j ((i, w) ∷ d) =
      ground (arith, e.same_iff k j, e.same_iff i k, e.same_iff i j, contains-erase k j d)
