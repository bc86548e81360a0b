-- ===== src/Config/Clears.antt =====
-- When a check of `_validate_config` in src/nttd/config/scenario_config.py finds nothing: conversions,
-- names, bounds and the sizes of a map.
use nttd.Prelude.{
  ℕ, zero, suc, ◌-◌, ◌≡◌, ◌↔◌, inl, inr, refl, ap, String, Bool, true, false, not, ◌&&◌, ◌||◌,
  Option, none, some, Bool-cases, List, [], ◌∷◌, ◌==◌, string_eq, nat_eq, leb, arith, if◌then◌else◌,
  nat_eqb_iff, ◌≤◌,
}
use Prim.Native.Nat.{◌^◌, bit_and}
use nttd.Prelude.Dict.{Dict, keys}
use nttd.Prelude.Distinct.{contains}
use nttd.Prelude.Int.{ℤ, pos, negsuc}
use nttd.Config.Tree
use nttd.Config.Tree.{Node, null, Texts, int_of, is_key, is_text, is_null}
use nttd.Config.Validate.{
  Problem, Found, both, found_by, report, check_known, size_found, below, above,
}
use nttd.Config.Conditions.{Names, AtLeast, AtMost, IsSize}

abbrev pub Clears : Found → Type 0 → Type 0
Clears found condition = (found ≡ some []) ↔ condition

pub both_iff : (a b : Found) → (both a b ≡ some []) ↔ ((a ≡ some []) × (b ≡ some []))
both_iff none b = ground arith
both_iff (some []) none = ground arith
both_iff (some []) (some ys) = ground arith
both_iff (some (x ∷ xs)) none = ground arith
both_iff (some (x ∷ xs)) (some ys) = ground arith

pub found_by_iff :
    {A : Type 0} (f : A → List Problem) (o : Option A)
    → Clears (found_by f o) ((a : A) × (o ≡ some a) × (f a ≡ []))
found_by_iff f none = ((λ h. absurd (cc)), (λ h. absurd (cc)))
found_by_iff f (some a) = ((λ h. (a, refl, cc)), (λ (b, e, h). cc))

pub report_iff : (b : Bool) (problem : Problem) → (report b problem ≡ []) ↔ (b ≡ false)
report_iff true problem = ground arith
report_iff false problem = ground arith

pub known_iff :
    (name : String) (valid : Dict String String) (node : Node)
    → Clears
        (found_by
          (λ known. report (not known) (Problem.unknown_value name node))
          (is_key valid node))
        (Names valid node)
unfolding is_key
known_iff name valid Tree.null = ((λ h. absurd (cc)), (λ (s, e, h). absurd (cc)))
known_iff name valid (Tree.flag b) = ((λ h. absurd (cc)), (λ (s, e, h). absurd (cc)))
known_iff name valid (Tree.integer n) = ((λ h. absurd (cc)), (λ (s, e, h). absurd (cc)))
known_iff name valid (Tree.decimal n) = ((λ h. absurd (cc)), (λ (s, e, h). absurd (cc)))
known_iff name valid (Tree.text s) =
    let known = contains s (keys valid) in
    elim (Bool-cases known) [
      | inl found ↦ ((λ h. (s, refl, found)), (λ h. rw found refl))
      | inr missing ↦ rw missing ((λ h. absurd (cc)), (λ (t, e, h). absurd (cc)))
    ]
known_iff name valid (Tree.sequence b) = ((λ h. absurd (cc)), (λ (s, e, h). absurd (cc)))
known_iff name valid (Tree.tree fields) = ((λ h. absurd (cc)), (λ (s, e, h). absurd (cc)))

pub check_known_iff :
    (name : String) (valid : Dict String String) (default m : Node)
    → Clears (check_known name valid default m) (Names valid (Tree.get_or default (name ∷ []) m))
unfolding check_known
check_known_iff name valid default m = known_iff name valid (Tree.get_or default (name ∷ []) m)

pub bounds_iff :
    (n : ℤ) (lo hi : Option ℤ) → ((below n lo || above n hi) ≡ false) ↔ (AtLeast n lo × AtMost n hi)
bounds_iff n none none = ground arith
bounds_iff n (some lo) none = ground arith
bounds_iff n none (some hi) = ground arith
bounds_iff n (some lo) (some hi) = ground arith

-- A test of every number up to a bound.
unfoldable pub passes_up_to : (ℕ → Bool) → ℕ → Bool
passes_up_to test zero = test 0
passes_up_to test (suc bound) =
    let smaller = passes_up_to test bound in if test (suc bound) then smaller else false

pub passes_at :
    (test : ℕ → Bool) (bound k : ℕ) → passes_up_to test bound ≡ true → k ≤ bound → test k ≡ true
unfolding passes_up_to
passes_at test zero zero passed low = passed
passes_at test zero (suc k) passed low = absurd (omega (arith, low))
passes_at test (suc bound) k passed low = elim (Bool-cases (k == suc bound)) [
  | inl last ↦ rw ((nat_eqb_iff k (suc bound)).0 last) (ground arith)
  | inr other ↦ passes_at test bound k (ground arith) (ground arith)
]

-- The numbers that share no digit with their predecessor, up to the largest map.
abbrev is_listed : ℕ → Bool
is_listed n =
    n == 64 || (n == 128 || (n == 256 || (n == 512 || (n == 1024 || (n == 2048 || n == 4096)))))

pub powers_listed :
    passes_up_to (λ n. leb n 63 || (not (bit_and n (n - 1) == 0) || is_listed n)) 4096 ≡ true
unfolding passes_up_to
powers_listed = refl

pub powers_fit :
    passes_up_to
      (λ k. leb k 5 || (bit_and (2 ^ k) (2 ^ k - 1) == 0 && (leb 64 (2 ^ k) && leb (2 ^ k) 4096)))
      12
    ≡ true
unfolding passes_up_to
powers_fit = refl

pub IsSize-of_listed : (n : ℕ) → is_listed n ≡ true → IsSize (pos n)
IsSize-of_listed n h = elim (Bool-cases (n == 64)) [
  | inl at ↦ (6, omega arith, omega arith, ap pos (ground arith))
  | inr other6 ↦ elim (Bool-cases (n == 128)) [
    | inl at ↦ (7, omega arith, omega arith, ap pos (ground arith))
    | inr other7 ↦ elim (Bool-cases (n == 256)) [
      | inl at ↦ (8, omega arith, omega arith, ap pos (ground arith))
      | inr other8 ↦ elim (Bool-cases (n == 512)) [
        | inl at ↦ (9, omega arith, omega arith, ap pos (ground arith))
        | inr other9 ↦ elim (Bool-cases (n == 1024)) [
          | inl at ↦ (10, omega arith, omega arith, ap pos (ground arith))
          | inr other10 ↦ elim (Bool-cases (n == 2048)) [
            | inl at ↦ (11, omega arith, omega arith, ap pos (ground arith))
            | inr other11 ↦ (12, omega arith, omega arith, ap pos (ground arith))
          ]
        ]
      ]
    ]
  ]
]

pub size_found_iff : (dim : String) (n : ℤ) → (size_found dim n ≡ []) ↔ IsSize n
unfolding size_found
size_found_iff dim (negsuc n) = ((λ h. absurd (ground arith)), (λ (k, lo, hi, e). absurd (cc)))
size_found_iff dim (pos n) = (
  (λ h. IsSize-of_listed n (ground (arith, passes_at _ 4096 n powers_listed))),
  (λ (k, lo, hi, e). ground (arith, passes_at _ 12 k powers_fit)),
)

pub found_clears :
    {A : Type 0} (f : A → List Problem) (o : Option A) (Q : A → Type 0)
    → ((a : A) → (f a ≡ []) ↔ Q a)
    → Clears (found_by f o) ((a : A) × (o ≡ some a) × Q a)
found_clears f o Q agree = (
  (λ h. let (a, e, none_found) = (found_by_iff f o).0 h in (a, e, (agree a).0 none_found)),
  (λ (a, e, q). (found_by_iff f o).1 (a, e, (agree a).1 q)),
)

pub report_clears :
    (b : Bool) (problem : Problem) (Q : Type 0) → ((b ≡ false) ↔ Q) → (report b problem ≡ []) ↔ Q
report_clears b problem Q agree =
    ((λ h. agree.0 ((report_iff b problem).0 h)), (λ q. (report_iff b problem).1 (agree.1 q)))

pub some_clears :
    (problems : List Problem) (Q : Type 0) → ((problems ≡ []) ↔ Q) → Clears (some problems) Q
some_clears problems Q agree = ((λ h. agree.0 (cc)), (λ q. ap some (agree.1 q)))
