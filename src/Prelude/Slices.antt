-- ===== src/Prelude/Slices.antt =====
-- The first entries of a list and of its reverse, as Python's slices from the end take them.
use Prim.Native.Nat.{ℕ, zero, suc, ◌-◌, ◌≤◌}
use mathlib.Core.Path.{◌≡◌, refl, sym, ap, ◌∙◌}
use mathlib.Core.Logic.{inl, inr}
use mathlib.Core.List.{List, [], ◌∷◌, ◌++◌, reverse, reverse-cons, reverse-reverse}
use native.Mathlib.Omega.{arith}
use nttd.Prelude.Tests.{leb, Bool-cases}
use nttd.Prelude.Lists.{length, drop, take, length-append}

module _ {A : Type 0} where
  pub length-reverse : (xs : List A) → length (reverse xs) ≡ length xs
  length-reverse [] = refl
  length-reverse (x ∷ xs) =
      rw (reverse-cons x xs, length-append (reverse xs) (x ∷ []), length-reverse xs) (omega arith)

  pub take_whole : (n : ℕ) (xs : List A) → length xs ≤ n → take n xs ≡ xs
  take_whole zero [] h = refl
  take_whole zero (x ∷ xs) h = absurd (omega arith)
  take_whole (suc n) [] h = refl
  take_whole (suc n) (x ∷ xs) h = ap (λ r. x ∷ r) (take_whole n xs (omega arith))

  take-take : (n : ℕ) (xs : List A) → take n (take (suc n) xs) ≡ take n xs
  take-take zero xs = refl
  take-take (suc n) [] = refl
  take-take (suc n) (x ∷ xs) = ap (λ r. x ∷ r) (take-take n xs)

  -- The newest n of what was kept and one more are the newest n of all.
  pub take_push : (n : ℕ) (x : A) (xs : List A) → take n (x ∷ take n xs) ≡ take n (x ∷ xs)
  take_push zero x xs = refl
  take_push (suc n) x xs = ap (λ r. x ∷ r) (take-take n xs)

  pub length-take : (n : ℕ) (xs : List A) → length (take n xs) ≤ n
  length-take zero xs = omega arith
  length-take (suc n) [] = omega arith
  length-take (suc n) (x ∷ xs) = omega (arith, length-take n xs)

  take_first : (n : ℕ) (xs ys : List A) → n ≤ length xs → take n (xs ++ ys) ≡ take n xs
  take_first zero xs ys h = refl
  take_first (suc n) [] ys h = absurd (omega arith)
  take_first (suc n) (x ∷ xs) ys h = ap (λ r. x ∷ r) (take_first n xs ys (omega arith))

  pub take_rest : (m n : ℕ) (xs : List A) → m ≡ length xs - (length xs - n) → take m xs ≡ take n xs
  take_rest m n xs h = elim (Bool-cases (leb n (length xs))) [
    | inl few ↦ ap (λ k. take k xs) (ground arith)
    | inr many ↦ take_whole m xs (ground arith) ∙ sym (take_whole n xs (ground arith))
  ]

  pub reverse-drop :
      (n k : ℕ) (xs : List A) → n ≡ length xs - k → reverse (drop k xs) ≡ take n (reverse xs)
  reverse-drop n zero xs h = sym (take_whole n (reverse xs) (omega (arith, length-reverse xs)))
  reverse-drop n (suc k) [] h = sym (take_whole n [] (omega arith))
  reverse-drop n (suc k) (x ∷ xs) h = rw (reverse-cons x xs) (
      reverse-drop n k xs (omega arith)
      ∙ sym (take_first n (reverse xs) (x ∷ []) (omega (arith, length-reverse xs))))

  pub drop-reverse :
      (n k : ℕ) (xs : List A) → n ≡ length xs - k → drop k (reverse xs) ≡ reverse (take n xs)
  drop-reverse n k xs h =
      let turned : reverse (drop k (reverse xs)) ≡ take n (reverse (reverse xs)) =
        reverse-drop n k (reverse xs) (omega (arith, length-reverse xs)) in
      sym (reverse-reverse (drop k (reverse xs)))
      ∙ ap reverse turned
      ∙ ap (λ ys. reverse (take n ys)) (reverse-reverse xs)
