-- ===== src/Verify/Log.antt =====
-- What the check of the action log in src/nttd/verify/checks.py accepts.
use nttd.Prelude.{
  ℕ, ◌≤◌, ◌<◌, ◌≡◌, ◌↔◌, ◌⊎◌, inl, inr, refl, Bool, true, false, not, ◌&&◌, Option, none, some,
  List, [], ◌∷◌, ◌++◌, nat_eq, All, arith, length, filter, leb, Bool-cases,
}
use nttd.Verify.{
  Problem, outside_window, outcome, none_of, LogRow, ResultRow, of_company, succeeded, dates_of,
  insert_date, sorted, same_dates, outside, window_problems, reported_when, action_log_problems,
  action_log_consistent,
}

-- Each date is at most every later one.
abbrev pub IsAscending : List ℕ → Type 0
IsAscending [] = Unit
IsAscending (d ∷ ds) = All (λ e. d ≤ e) ds × IsAscending ds

insert_date-All :
    (low d : ℕ) (ds : List ℕ)
    → low ≤ d
    → All (λ e. low ≤ e) ds
    → All (λ e. low ≤ e) (insert_date d ds)
unfolding insert_date
insert_date-All low d [] h k = (h, tt)
insert_date-All low d (e ∷ es) h k = elim (Bool-cases (leb d e)) [
  | inl before ↦ rw before (h, k)
  | inr after ↦ rw after (k.0, insert_date-All low d es h k.1)
]

lower-All : (d e : ℕ) (es : List ℕ) → d ≤ e → All (λ x. e ≤ x) es → All (λ x. d ≤ x) es
lower-All d e [] h k = tt
lower-All d e (x ∷ xs) h k = (omega (arith, h, k.0), lower-All d e xs h k.1)

insert_date-IsAscending : (d : ℕ) (ds : List ℕ) → IsAscending ds → IsAscending (insert_date d ds)
unfolding insert_date
insert_date-IsAscending d [] h = (tt, tt)
insert_date-IsAscending d (e ∷ es) h = elim (Bool-cases (leb d e)) [
  | inl before ↦
      let first : d ≤ e = ground arith in rw before ((first, lower-All d e es first h.0), h)
  | inr after ↦
      rw after (insert_date-All e d es (ground arith) h.0, insert_date-IsAscending d es h.1)
]

sorted-IsAscending : (ds : List ℕ) → IsAscending (sorted ds)
unfolding sorted
sorted-IsAscending [] = tt
sorted-IsAscending (d ∷ ds) = insert_date-IsAscending d (sorted ds) (sorted-IsAscending ds)

insert_date_first : (d : ℕ) (ds : List ℕ) → All (λ e. d ≤ e) ds → insert_date d ds ≡ d ∷ ds
unfolding insert_date
insert_date_first d [] h = refl
insert_date_first d (e ∷ es) h = let first = h.0 in ground arith

sorted_lem : (ds : List ℕ) → IsAscending ds → sorted ds ≡ ds
unfolding sorted
sorted_lem [] h = refl
sorted_lem (d ∷ ds) h = rw (sorted_lem ds h.1) (insert_date_first d ds h.0)

same_dates_eq : (ds es : List ℕ) → same_dates ds es ≡ true → ds ≡ es
unfolding same_dates
same_dates_eq [] [] h = refl
same_dates_eq [] (e ∷ es) h = absurd (cc)
same_dates_eq (d ∷ ds) [] h = absurd (cc)
same_dates_eq (d ∷ ds) (e ∷ es) h = ground (arith, same_dates_eq ds es)

same_dates_self : (ds : List ℕ) → same_dates ds ds ≡ true
unfolding same_dates
same_dates_self [] = refl
same_dates_self (d ∷ ds) = ground (arith, same_dates_self ds)

sorted_iff : (ds : List ℕ) → (same_dates ds (sorted ds) ≡ true) ↔ IsAscending ds
sorted_iff ds = (
  λ h. rw (same_dates_eq ds (sorted ds) h) (sorted-IsAscending ds),
  λ h. rw (sorted_lem ds h) (same_dates_self ds),
)

-- Every date lies in the window, where the result names one that is not empty.
abbrev pub IsInWindow : Option ℕ → Option ℕ → List ℕ → Type 0
IsInWindow none last ds = Unit
IsInWindow (some start) none ds = Unit
IsInWindow (some start) (some last) ds = (last < start) ⊎ All (λ d. (start ≤ d) × (d ≤ last)) ds

outside_iff :
    (start last : ℕ) (ds : List ℕ)
    → (outside start last ds ≡ []) ↔ All (λ d. (start ≤ d) × (d ≤ last)) ds
unfolding outside filter
outside_iff start last [] = (λ h. tt, λ h. refl)
outside_iff start last (d ∷ ds) = ground (arith, outside_iff start last ds)

window_found :
    (found : List ℕ)
    → (none_of (elim found [ [] ↦ [] | d ∷ ds ↦ outside_window (length (d ∷ ds)) ∷ [] ]) ≡ true)
      ↔ (found ≡ [])
unfolding none_of
window_found [] = (λ h. refl, λ h. refl)
window_found (d ∷ ds) = (λ h. absurd (cc), λ h. absurd (cc))

window_iff :
    (start last : Option ℕ) (ds : List ℕ)
    → (none_of (window_problems start last ds) ≡ true) ↔ IsInWindow start last ds
unfolding window_problems none_of
window_iff none last ds = (λ h. tt, λ h. refl)
window_iff (some start) none ds = (λ h. tt, λ h. refl)
window_iff (some start) (some last) ds =
    let found = window_found (outside start last ds) in
    let inside = outside_iff start last ds in
    elim (Bool-cases (leb start last)) [
      | inl ordered ↦ rw ordered (
        λ h. inr (inside.0 (found.0 h)),
        λ h. elim h [
          | inl before ↦ absurd (ground arith)
          | inr all_inside ↦ found.1 (inside.1 all_inside)
        ],
      )
      | inr empty ↦ rw empty (λ h. inl (ground arith), λ h. refl)
    ]

none_of-reported :
    (w1 w2 w3 : Bool) (p1 p2 p3 : Problem) (ps : List Problem)
    → none_of (reported_when w1 p1 ++ reported_when w2 p2 ++ reported_when w3 p3 ++ ps)
      ≡ (not w1 && not w2 && not w3 && none_of ps)
unfolding none_of
none_of-reported true w2 w3 p1 p2 p3 ps = refl
none_of-reported false true w3 p1 p2 p3 ps = refl
none_of-reported false false true p1 p2 p3 ps = refl
none_of-reported false false false p1 p2 p3 ps = refl

-- The check of the action log passes exactly where the log holds as many actions of the company, and
-- as many successful ones, as the result claims, its dates never go back, and each lies in the run's
-- window where the result has one that is not empty.
pub action_log_consistent_iff :
    (actions : List LogRow) (result : ResultRow)
    → ((action_log_consistent actions result).passed ≡ some true) ↔ (
        (length (of_company result.company_id actions) ≡ result.total_actions)
        × (length (succeeded (of_company result.company_id actions)) ≡ result.successful_actions)
        × IsAscending (dates_of actions)
        × IsInWindow result.start_game_date result.end_game_date (dates_of actions))
unfolding action_log_consistent outcome action_log_problems
action_log_consistent_iff actions result =
    let order = sorted_iff (dates_of actions) in
    let window = window_iff result.start_game_date result.end_game_date (dates_of actions) in
    rw (none_of-reported _ _ _ _ _ _ _) (ground (arith, nat_eq.same_iff, order, window))
