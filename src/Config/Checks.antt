-- ===== src/Config/Checks.antt =====
-- When each check of `_validate_config` in src/nttd/config/scenario_config.py finds nothing.
use nttd.Prelude.{
  ◌≡◌, ◌≢◌, ◌↔◌, ◌⊎◌, inl, inr, refl, ap, String, Bool, true, false, not, ◌&&◌, ◌||◌, Option, some,
  Bool-cases, [], ◌∷◌, ◌++◌, ◌==◌, string_eq, nat_eq, arith,
}
use text.Mathlib.TextEquality.{eq_iff}
use nttd.Prelude.Distinct.{contains}
use nttd.Prelude.Int.{ℤ, pos, ◌≤ℤ◌}
use nttd.Config.Tree
use nttd.Config.Tree.{Node, null, Texts, int_of, is_key, is_text, is_null}
use nttd.Config.Validate.{
  Problem, Found, report, size_found, check_size, check_range, check_custom, check_borders,
  check_mode, check_timekeeping, check_fairness, below, above, has_individual, limits_time,
  minutes_found,
}
use nttd.Config.Tables.{known_runtime_modes}
use nttd.Config.Conditions.{AtLeast, AtMost, IsSize, IsSized, IsBetween, IsKnownMode, IsTimed}
use nttd.Config.Clears.{
  report_iff, bounds_iff, size_found_iff, found_clears, report_clears, some_clears, Clears,
}

pub is_text_cases :
    (s : String) (node : Node)
    → ((node ≡ Tree.text s) × (is_text s node ≡ true))
      ⊎ ((node ≢ Tree.text s) × (is_text s node ≡ false))
is_text_cases s Tree.null = inr ((λ e. absurd (cc)), refl)
is_text_cases s (Tree.flag b) = inr ((λ e. absurd (cc)), refl)
is_text_cases s (Tree.integer n) = inr ((λ e. absurd (cc)), refl)
is_text_cases s (Tree.decimal n) = inr ((λ e. absurd (cc)), refl)
is_text_cases s (Tree.sequence b) = inr ((λ e. absurd (cc)), refl)
is_text_cases s (Tree.tree fields) = inr ((λ e. absurd (cc)), refl)
is_text_cases s (Tree.text t) = elim (Bool-cases (t == s)) [
  | inl same ↦ inl (ap Tree.text ((eq_iff t s).0 same), same)
  | inr other ↦ inr ((λ e. absurd (ground (arith, eq_iff t s))), other)
]

pub is_null_cases :
    (node : Node)
    → ((node ≡ null) × (is_null node ≡ true)) ⊎ ((node ≢ null) × (is_null node ≡ false))
is_null_cases Tree.null = inl (refl, refl)
is_null_cases (Tree.flag b) = inr ((λ e. absurd (cc)), refl)
is_null_cases (Tree.integer n) = inr ((λ e. absurd (cc)), refl)
is_null_cases (Tree.decimal n) = inr ((λ e. absurd (cc)), refl)
is_null_cases (Tree.sequence b) = inr ((λ e. absurd (cc)), refl)
is_null_cases (Tree.tree fields) = inr ((λ e. absurd (cc)), refl)
is_null_cases (Tree.text t) = inr ((λ e. absurd (cc)), refl)

pub check_borders_iff :
    (m : Node)
    → Clears (check_borders m) (
        has_individual m ≡ true
        → Tree.get_or (Tree.text "random") ("map_edges" ∷ []) m ≡ Tree.text "manual")
unfolding check_borders
check_borders_iff m =
    let edges = Tree.get_or (Tree.text "random") ("map_edges" ∷ []) m in
    some_clears _ _ (
      report_clears _ (Problem.borders_ignored edges) _ (elim (is_text_cases "manual" edges) [
        | inl (manual, e) ↦ rw e ((λ h own. manual), (λ h. refl))
        | inr (other, e) ↦ rw e (
          (λ clear own. absurd (cc)),
          (λ h. elim (Bool-cases (has_individual m)) [
            | inl own ↦ absurd (other (h own))
            | inr clear ↦ clear
          ]),
        )
      ]))

pub check_fairness_iff : (fair : Node) → Clears (check_fairness fair) (fair ≡ null)
unfolding check_fairness
check_fairness_iff fair = elim (is_null_cases fair) [
  | inl (e, absent) ↦ rw absent ((λ h. e), (λ h. refl))
  | inr (other, present) ↦ rw present ((λ h. absurd (cc)), (λ h. absurd (other h)))
]

pub mode_iff :
    (mode : String) (limited : Bool)
    → ((mode == "stepped" && limited) ≡ false) ↔ (mode ≡ "stepped" → limited ≡ false)
mode_iff mode limited = elim (Bool-cases (mode == "stepped")) [
  | inl stepped ↦ rw stepped ((λ h e. h), (λ h. h ((eq_iff mode "stepped").0 stepped)))
  | inr other ↦ rw other ((λ h e. absurd (ground (arith, eq_iff mode "stepped"))), (λ h. refl))
]

pub mode_clears :
    (mode : String) (ec : Node)
    → Clears
        (some (report (mode == "stepped" && limits_time ec) Problem.time_limit_in_stepped))
        (mode ≡ "stepped" → limits_time ec ≡ false)
mode_clears mode ec =
    some_clears _ _
      (report_clears _ Problem.time_limit_in_stepped _ (mode_iff mode (limits_time ec)))

abbrev TimedIff : String → ℤ → Type 0
TimedIff units n =
    ((report (not (units == "calendar" || units == "wallclock")) (Problem.unknown_units units)
        ++ minutes_found units n)
      ≡ [])
    ↔ (((units ≡ "calendar") × (n ≡ pos 12))
        ⊎ ((units ≡ "wallclock") × (pos 0 ≤ℤ n) × (n ≤ℤ pos 10080)))

pub apart : (s t : String) → (s == t) ≡ false → s ≢ t
apart s t h = ground (arith, eq_iff s t)

pub timed_on_wall : (n : ℤ) → TimedIff "wallclock" n
timed_on_wall n = (
  (λ h.
      let (lo, hi) =
        (bounds_iff n (some (pos 0)) (some (pos 10080))).0
          ((report_iff _ (Problem.minutes_out_of_range n)).0 h) in
      inr (refl, lo, hi)),
  (λ h. elim h [
    | inl (units, n) ↦ absurd (apart "wallclock" "calendar" refl units)
    | inr (units, lo, hi) ↦
        (report_iff _ (Problem.minutes_out_of_range n)).1
          ((bounds_iff n (some (pos 0)) (some (pos 10080))).1 (lo, hi))
  ]),
)

pub timed_on_calendar : (n : ℤ) → TimedIff "calendar" n
timed_on_calendar n = (
  (λ h. inl (refl, ground arith)),
  (λ h. elim h [
    | inl (units, same) ↦ ground arith
    | inr (units, lo, hi) ↦ absurd (apart "calendar" "wallclock" refl units)
  ]),
)

pub timed_iff : (units : String) (n : ℤ) → TimedIff units n
timed_iff units n = elim (Bool-cases (units == "wallclock")) [
  | inl wall ↦ rw ((eq_iff units "wallclock").0 wall) (timed_on_wall n)
  | inr other ↦ elim (Bool-cases (units == "calendar")) [
    | inl calendar ↦ rw ((eq_iff units "calendar").0 calendar) (timed_on_calendar n)
    | inr unknown ↦
        rw (other, unknown)
          (
            (λ h. absurd (cc)),
            (λ h. elim h [
              | inl (e, twelve) ↦ absurd (apart units "calendar" unknown e)
              | inr (e, lo, hi) ↦ absurd (apart units "wallclock" other e)
            ]),
          )
  ]
]

pub rest_of : {P Q : Type 0} → (P → ⊥) → P ⊎ Q → Q
rest_of other (inl p) = absurd (other p)
rest_of other (inr q) = q

pub right_of : {found : Found} {P Q : Type 0} → (P → ⊥) → Clears found Q → Clears found (P ⊎ Q)
right_of other agree = ((λ h. inr (agree.0 h)), (λ h. agree.1 (rest_of other h)))

module _ (texts : Texts) where
  pub check_size_iff :
      (dim : String) (m : Node) → Clears (check_size texts dim m) (IsSized texts dim m)
  unfolding check_size
  check_size_iff dim m =
      found_clears (size_found dim)
        (int_of texts (Tree.get_or (Tree.integer (pos 256)) (dim ∷ []) m)) IsSize
        (size_found_iff dim)

  pub check_range_iff :
      (name : String) (default : ℤ) (lo hi : Option ℤ) (cfg : Node)
      → Clears (check_range texts name default lo hi cfg) (IsBetween texts name default lo hi cfg)
  unfolding check_range
  check_range_iff name default lo hi cfg =
      found_clears (λ n. report (below n lo || above n hi) (Problem.out_of_range name n))
        (int_of texts (Tree.get_or (Tree.integer default) (name ∷ []) cfg))
        (λ n. AtLeast n lo × AtMost n hi)
        (λ n.
          report_clears (below n lo || above n hi) (Problem.out_of_range name n) _
            (bounds_iff n lo hi))

  pub check_custom_iff :
      (setting : Node) (name : String) (default lo : ℤ) (hi : Option ℤ) (m : Node)
      → Clears
          (check_custom texts setting name default lo hi m)
          (setting ≡ Tree.text "custom" → IsBetween texts name default (some lo) hi m)
  unfolding check_custom
  check_custom_iff setting name default lo hi m =
      let range = check_range_iff name default (some lo) hi m in
      elim (is_text_cases "custom" setting) [
        | inl (custom, e) ↦ rw e ((λ h same. range.0 h), (λ h. range.1 (h custom)))
        | inr (other, e) ↦ rw e ((λ h same. absurd (other same)), (λ h. refl))
      ]

  pub check_mode_iff : (rt ec : Node) → Clears (check_mode texts rt ec) (IsKnownMode texts rt ec)
  unfolding check_mode
  check_mode_iff rt ec =
      let mode = Tree.str_of texts (Tree.get_or (Tree.text "async_realtime") ("mode" ∷ []) rt) in
      elim (is_null_cases rt) [
        | inl (e, absent) ↦ rw absent ((λ h. inl e), (λ h. refl))
        | inr (other, present) ↦ rw present (elim (Bool-cases (contains mode known_runtime_modes)) [
          | inr unknown ↦ rw unknown ((λ h. absurd (cc)), (λ h. absurd (ground (arith, other))))
          | inl known ↦ rw known (
            (λ h. inr (refl, (mode_clears mode ec).0 h)),
            (λ h. (mode_clears mode ec).1 (rest_of other h).1),
          )
        ])
      ]

  pub check_timekeeping_iff : (rt : Node) → Clears (check_timekeeping texts rt) (IsTimed texts rt)
  unfolding check_timekeeping
  check_timekeeping_iff rt =
      let units =
        Tree.str_of texts (Tree.get_or (Tree.text "calendar") ("timekeeping_units" ∷ []) rt) in
      elim (is_null_cases rt) [
        | inl (e, absent) ↦ rw absent ((λ h. inl e), (λ h. refl))
        | inr (other, present) ↦ rw present (
            right_of other (
              found_clears
                (λ n.
                  report (not (units == "calendar" || units == "wallclock"))
                    (Problem.unknown_units units)
                  ++ minutes_found units n)
                (int_of texts
                  (Tree.get_or (Tree.integer (pos 12)) ("minutes_per_calendar_year" ∷ []) rt))
                _ (timed_iff units)))
      ]
