-- ===== src/EndConditions/Conditions.antt =====
-- The six conditions of src/nttd/runtime/end_conditions.py in words, and what each adds to the
-- results of a check.
use nttd.Prelude.{
  ℕ, ◌+◌, ◌*◌, ◌≤◌, ◌≡◌, refl, ◌⊎◌, inl, inr, Bool, true, false, Option, none, some, List, [], ◌∷◌,
  arith, Any, Bool-cases, leb, leb→le, if◌then◌else◌,
}
use nttd.Prelude.Int.{ℤ, pos, ◌≤ℤ◌, leb_ℤ}
use nttd.Calendar.{game_date_to_year}
use nttd.EndConditions.{
  EndConditionsConfig, Company, StateSnapshot, Reason, EndResult, EndConditionChecker, hit,
  time_limit_results, game_date_results, first_inactive, bankruptcy_results, first_over_revenue,
  revenue_results, cargo_results, heartbeat_results,
}

pub data Condition : Type 0 where
  time_limit game_date_limit bankruptcy revenue_threshold cargo_threshold max_heartbeats : Condition

abbrev pub conditions : List Condition
conditions =
    time_limit ∷ game_date_limit ∷ bankruptcy ∷ revenue_threshold ∷ cargo_threshold ∷ max_heartbeats
    ∷ []

abbrev pub is_enabled : EndConditionsConfig → Condition → Bool
is_enabled cfg time_limit = cfg.time_limit.enabled
is_enabled cfg game_date_limit = cfg.game_date_limit.enabled
is_enabled cfg bankruptcy = cfg.bankruptcy.enabled
is_enabled cfg revenue_threshold = cfg.revenue_threshold.enabled
is_enabled cfg cargo_threshold = cfg.cargo_threshold.enabled
is_enabled cfg max_heartbeats = cfg.max_heartbeats.enabled

-- The condition in words, of the state that the check leaves.
abbrev pub Holds : ℕ → StateSnapshot → EndConditionChecker → Condition → Type 0
Holds now snapshot c time_limit =
    (start : ℕ) × (c.start_time ≡ some start)
    × (start + c.config.time_limit.wall_minutes * 60 ≤ now)
Holds now snapshot c game_date_limit =
    c.config.game_date_limit.end_year ≤ℤ pos (game_date_to_year snapshot.game_date)
Holds now snapshot c bankruptcy = Any (λ k. k.is_active ≡ false) snapshot.companies
Holds now snapshot c revenue_threshold =
    Any (λ k. c.config.revenue_threshold.total_revenue ≤ℤ k.income) snapshot.companies
Holds now snapshot c cargo_threshold =
    c.config.cargo_threshold.total_cargo_delivered ≤ℤ c.cargo_delivered
Holds now snapshot c max_heartbeats = c.config.max_heartbeats.count ≤ℤ pos c.heartbeat_count

-- What one condition adds to the results.
abbrev pub Outcome : Bool → Type 0 → List EndResult → Type 0
Outcome enabled P results =
    ((r : Reason) × (results ≡ hit r) × (enabled ≡ true) × P)
    ⊎ ((results ≡ []) × (enabled ≡ true → ¬ P))

first_inactive_cases :
    (companies : List Company)
    → ((r : Reason) × (first_inactive companies ≡ hit r) × Any (λ k. k.is_active ≡ false) companies)
      ⊎ ((first_inactive companies ≡ []) × ¬ Any (λ k. k.is_active ≡ false) companies)
unfolding first_inactive
first_inactive_cases [] = inr (refl, λ h. h)
first_inactive_cases (k ∷ companies) = elim (Bool-cases k.is_active) [
  | inl active ↦ rw active (elim (first_inactive_cases companies) [
    | inl (r, e, found) ↦ inl (r, e, inr found)
    | inr (e, never) ↦ inr (e, λ any. elim any [ inl h ↦ cc | inr later ↦ never later ])
  ])
  | inr gone ↦ rw gone (inl (Reason.not_active k.id k.name, refl, inl refl))
]

first_over_revenue_cases :
    (total : ℤ) (companies : List Company)
    → ((r : Reason) × (first_over_revenue total companies ≡ hit r)
        × Any (λ k. total ≤ℤ k.income) companies)
      ⊎ ((first_over_revenue total companies ≡ []) × ¬ Any (λ k. total ≤ℤ k.income) companies)
unfolding first_over_revenue
first_over_revenue_cases total [] = inr (refl, λ h. h)
first_over_revenue_cases total (k ∷ companies) = elim (Bool-cases (leb_ℤ total k.income)) [
  | inl over ↦
      rw over (inl (Reason.revenue_reached k.id k.name k.income total, refl, inl (leb→le _ _ over)))
  | inr under ↦ rw under (elim (first_over_revenue_cases total companies) [
    | inl (r, e, found) ↦ inl (r, e, inr found)
    | inr (e, never) ↦ inr (e, λ any. elim any [ inl h ↦ ground arith | inr later ↦ never later ])
  ])
]

-- The results of one condition, as `evaluate_all` computes them.
abbrev pub results_of : ℕ → StateSnapshot → EndConditionChecker → Condition → List EndResult
results_of now snapshot c time_limit = time_limit_results c.config c.start_time now
results_of now snapshot c game_date_limit = game_date_results c.config snapshot
results_of now snapshot c bankruptcy = bankruptcy_results c.config snapshot
results_of now snapshot c revenue_threshold = revenue_results c.config snapshot
results_of now snapshot c cargo_threshold = cargo_results c.config c.cargo_delivered
results_of now snapshot c max_heartbeats = heartbeat_results c.config c.heartbeat_count

guarded :
    (enabled test : Bool) (P : Type 0) (r : Reason)
    → (test ≡ true → P)
    → (test ≡ false → ¬ P)
    → Outcome enabled P (if enabled then if test then hit r else [] else [])
guarded true true P r holds fails = inl (r, refl, refl, holds refl)
guarded true false P r holds fails = inr (refl, λ _. fails refl)
guarded false test P r holds fails = inr (refl, λ e. cc)

time_limit-Outcome :
    (now : ℕ) (snapshot : StateSnapshot) (c : EndConditionChecker)
    → (o : Option ℕ) → c.start_time ≡ o
    → Outcome c.config.time_limit.enabled
        (Holds now snapshot c time_limit)
        (time_limit_results c.config o now)
unfolding time_limit_results
time_limit-Outcome now snapshot c none e = inr (refl, λ _ (start, started, _). cc)
time_limit-Outcome now snapshot c (some start) e =
    guarded c.config.time_limit.enabled (leb (start + c.config.time_limit.wall_minutes * 60) now) _
      _ (λ h. (start, e, leb→le _ _ h)) (λ h (other, started, over). ground arith)

pub result-Outcome :
    (now : ℕ) (snapshot : StateSnapshot) (c : EndConditionChecker) (k : Condition)
    → Outcome (is_enabled c.config k) (Holds now snapshot c k) (results_of now snapshot c k)
unfolding game_date_results bankruptcy_results revenue_results cargo_results heartbeat_results
result-Outcome now snapshot c time_limit = time_limit-Outcome now snapshot c c.start_time refl
result-Outcome now snapshot c game_date_limit =
    guarded _ (leb_ℤ c.config.game_date_limit.end_year (pos (game_date_to_year snapshot.game_date)))
      _ _ (leb→le _ _) (λ h le. ground arith)
result-Outcome now snapshot c bankruptcy = elim (Bool-cases c.config.bankruptcy.enabled) [
  | inl on ↦ rw on (elim (first_inactive_cases snapshot.companies) [
    | inl (r, e, any) ↦ inl (r, e, refl, any)
    | inr (e, never) ↦ inr (e, λ _. never)
  ])
  | inr off ↦ rw off (inr (refl, λ e. cc))
]
result-Outcome now snapshot c revenue_threshold =
    elim (Bool-cases c.config.revenue_threshold.enabled) [
      | inl on ↦
          rw on
            (elim (first_over_revenue_cases c.config.revenue_threshold.total_revenue
              snapshot.companies) [
                | inl (r, e, any) ↦ inl (r, e, refl, any)
                | inr (e, never) ↦ inr (e, λ _. never)
              ])
      | inr off ↦ rw off (inr (refl, λ e. cc))
    ]
result-Outcome now snapshot c cargo_threshold =
    guarded _ (leb_ℤ c.config.cargo_threshold.total_cargo_delivered c.cargo_delivered) _ _
      (leb→le _ _) (λ h le. ground arith)
result-Outcome now snapshot c max_heartbeats =
    guarded _ (leb_ℤ c.config.max_heartbeats.count (pos c.heartbeat_count)) _ _ (leb→le _ _)
      (λ h le. ground arith)
