-- ===== src/Verify/Capability.antt =====
-- What the check of forbidden powers in src/nttd/verify/checks.py accepts.
use nttd.Prelude.{
  ℕ, ◌≡◌, ◌↔◌, ◌⊎◌, inl, inr, refl, Bool, true, false, ◌&&◌, ◌||◌, some, List, [], ◌∷◌, ◌++◌, ◌==◌,
  string_eq, nat_eq, All, arith, filter,
}
use text.Mathlib.TextEquality.{eq_iff}
use nttd.Prelude.Distinct.{contains}
use nttd.Actions.Vocabulary.{operator_actions}
use nttd.Verify.{
  Problem, none_of, outcome, LogRow, ResultRow, counted, operator_succeeded, claims_clean,
  operator_successes, operator_refusals, no_forbidden_capability,
}

filter-none :
    {A : Type 0} (p : A → Bool) (xs : List A) → (filter p xs ≡ []) ↔ All (λ x. p x ≡ false) xs
unfolding filter
filter-none p [] = (λ h. tt, λ h. refl)
filter-none p (x ∷ xs) = ground (arith, filter-none p xs)

All-iff :
    {A : Type 0} {P Q : A → Type 0} (xs : List A) → ((x : A) → P x ↔ Q x) → All P xs ↔ All Q xs
All-iff [] f = (λ h. tt, λ h. tt)
All-iff (x ∷ xs) f =
    let rest = All-iff xs f in (λ h. ((f x).0 h.0, rest.0 h.1), λ h. ((f x).1 h.0, rest.1 h.1))

counted-none :
    (problem : ℕ → Problem) (counts : Bool) (xs : List LogRow)
    → (counted problem counts xs ≡ []) ↔ ((counts ≡ false) ⊎ (xs ≡ []))
counted-none problem true [] = (λ h. inr refl, λ h. refl)
counted-none problem false [] = (λ h. inl refl, λ h. refl)
counted-none problem true (x ∷ xs) = ground arith
counted-none problem false (x ∷ xs) = (λ h. inl refl, λ h. refl)

none_of-append : (ps qs : List Problem) → (none_of (ps ++ qs) ≡ true) ↔ ((ps ≡ []) × (qs ≡ []))
unfolding none_of
none_of-append [] [] = (λ h. (refl, refl), λ h. refl)
none_of-append [] (q ∷ qs) = (λ h. absurd (cc), λ h. absurd (cc h.1))
none_of-append (p ∷ ps) qs = (λ h. absurd (cc), λ h. absurd (cc h.0))

-- A row that uses an operator power.
abbrev pub IsOperator : LogRow → Type 0
IsOperator a = contains a.action_type operator_actions ≡ true

successes_iff :
    (actions : List LogRow)
    → (operator_successes actions ≡ [])
      ↔ All (λ a. ¬ (IsOperator a × (a.status ≡ "success"))) actions
unfolding operator_successes
successes_iff actions =
    let found =
      filter-none (λ (a : LogRow). contains a.action_type operator_actions && a.status == "success")
        actions in
    let same = All-iff actions (succeeds_iff) in (λ h. same.0 (found.0 h), λ h. found.1 (same.1 h))
  where
    succeeds_iff :
        (a : LogRow)
        → ((contains a.action_type operator_actions && a.status == "success") ≡ false)
          ↔ (¬ (IsOperator a × (a.status ≡ "success")))
    succeeds_iff a = ground (arith, eq_iff a.status "success")

refusals_iff :
    (actions : List LogRow)
    → (operator_refusals actions ≡ [])
      ↔ All (λ a. ¬ (IsOperator a × ((a.status ≡ "rejected") ⊎ (a.status ≡ "blocked")))) actions
unfolding operator_refusals
refusals_iff actions =
    let found =
      filter-none
        (λ (a : LogRow).
          (a.status == "rejected" || a.status == "blocked")
          && contains a.action_type operator_actions)
        actions in
    let same = All-iff actions (refused_iff) in (λ h. same.0 (found.0 h), λ h. found.1 (same.1 h))
  where
    refused_iff :
        (a : LogRow)
        → (((a.status == "rejected" || a.status == "blocked")
              && contains a.action_type operator_actions)
            ≡ false)
          ↔ (¬ (IsOperator a × ((a.status ≡ "rejected") ⊎ (a.status ≡ "blocked"))))
    refused_iff a = ground (arith, eq_iff a.status "rejected", eq_iff a.status "blocked")

-- The check of forbidden powers passes exactly where no row of an operator action is a success, and
-- the result does not claim a clean run or no row of an operator action is refused or blocked.
pub no_forbidden_capability_iff :
    (actions : List LogRow) (result : ResultRow)
    → ((no_forbidden_capability actions result).passed ≡ some true) ↔ (
        All (λ a. ¬ (IsOperator a × (a.status ≡ "success"))) actions
        × ((result.clean_run ≡ false)
            ⊎ All
                (λ a. ¬ (IsOperator a × ((a.status ≡ "rejected") ⊎ (a.status ≡ "blocked"))))
                actions))
unfolding no_forbidden_capability outcome
no_forbidden_capability_iff actions result =
    let both =
      none_of-append (counted operator_succeeded true (operator_successes actions))
        (counted claims_clean result.clean_run (operator_refusals actions)) in
    let first = counted-none operator_succeeded true (operator_successes actions) in
    let second = counted-none claims_clean result.clean_run (operator_refusals actions) in
    let succeeded = successes_iff actions in
    let refused = refusals_iff actions in ground (arith, both, first, second, succeeded, refused)
