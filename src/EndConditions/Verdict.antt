-- ===== src/EndConditions/Verdict.antt =====
-- When `check` of src/nttd/runtime/end_conditions.py ends a run, against the conditions in words.
use mathlib.Core.List.{append-nil}
use mathlib.Core.Path.{subst}
use text.Mathlib.TextEquality.{eq_iff}
use nttd.Prelude.{
  ℕ, suc, ◌+◌, ◌≤◌, ◌≡◌, refl, ap, ◌≢◌, ◌↔◌, inl, inr, true, List, [], ◌∷◌, ◌++◌, arith, length,
  filter, All, Any, Bool-cases,
}
use nttd.EndConditions.{
  EndConditionsConfig, StateSnapshot, EndResult, EndConditionChecker, bit, time_limit_results,
  game_date_results, bankruptcy_results, revenue_results, update_cargo, cargo_results,
  heartbeat_results, evaluate_all, count_enabled, decide_end, check,
}
use nttd.EndConditions.Conditions.{
  Condition, time_limit, game_date_limit, bankruptcy, revenue_threshold, cargo_threshold,
  max_heartbeats, conditions, is_enabled, Holds, results_of, result-Outcome,
}

module _ (now : ℕ) (snapshot : StateSnapshot) (c : EndConditionChecker) where
  gather : List Condition → List EndResult
  gather [] = []
  gather (k ∷ ks) = results_of now snapshot c k ++ gather ks

  enabled_in : List Condition → ℕ
  enabled_in [] = 0
  enabled_in (k ∷ ks) = bit (is_enabled c.config k) + enabled_in ks

  abbrev Fires : Condition → Type 0
  Fires k = (is_enabled c.config k ≡ true) × Holds now snapshot c k

  abbrev Satisfied : Condition → Type 0
  Satisfied k = is_enabled c.config k ≡ true → Holds now snapshot c k

  -- What the triggered results say of a list of conditions.
  record Reads (ks : List Condition) (results : List EndResult) : Type 0 where
    all_triggered : filter (λ r. r.triggered) results ≡ results
    none_fires : results ≡ [] → ¬ Any Fires ks
    one_fires : results ≢ [] → Any Fires ks
    bounded : length results ≤ enabled_in ks
    full : enabled_in ks ≤ length results → All Satisfied ks
    satisfied : All Satisfied ks → enabled_in ks ≤ length results

  gather-Reads : (ks : List Condition) → Reads ks (gather ks)
  unfolding gather enabled_in filter
  gather-Reads [] = record {
    all_triggered = refl;
    none_fires = λ _ h. h;
    one_fires = λ h. h refl;
    bounded = omega arith;
    full = λ _. tt;
    satisfied = λ _. omega arith;
  }
  gather-Reads (k ∷ ks) =
      let rest = gather-Reads ks in
      elim (result-Outcome now snapshot c k) [
        | inl (r, e, on, holds) ↦ rw e (record {
          all_triggered =
              ap (λ l. record { triggered = true; reason = r ∷ [] } ∷ l) rest.all_triggered;
          none_fires = λ h. cc;
          one_fires = λ _. inl (on, holds);
          bounded = omega (arith, ap bit on, rest.bounded);
          full = λ h. ((λ _. holds), rest.full (omega (arith, ap bit on)));
          satisfied = λ h. omega (arith, ap bit on, rest.satisfied h.1);
        })
        | inr (e, off) ↦ rw e (record {
          all_triggered = rest.all_triggered;
          none_fires =
              λ h any. elim any [ inl f ↦ off f.0 f.1 | inr later ↦ rest.none_fires h later ];
          one_fires = λ h. inr (rest.one_fires h);
          bounded = omega (arith, rest.bounded);
          full = λ h.
              ((λ on. absurd (omega (arith, ap bit on, rest.bounded))), rest.full (omega arith));
          satisfied = λ h. elim (Bool-cases (is_enabled c.config k)) [
            | inl on ↦ absurd (off on (h.0 on))
            | inr off' ↦ omega (arith, ap bit off', rest.satisfied h.1)
          ];
        })
      ]

  all_results :
      (time_limit_results c.config c.start_time now
        ++ (game_date_results c.config snapshot
            ++ (bankruptcy_results c.config snapshot
                ++ (revenue_results c.config snapshot
                    ++ (cargo_results c.config c.cargo_delivered
                        ++ heartbeat_results c.config c.heartbeat_count)))))
      ≡ gather conditions
  unfolding gather
  all_results = simp append-nil

  count_enabled-eq : enabled_in conditions ≡ count_enabled c.config
  unfolding enabled_in count_enabled
  count_enabled-eq = omega arith

  Any-conditions : Any Fires conditions → (k : Condition) × Fires k
  Any-conditions h = elim h [
    | inl f ↦ (time_limit, f)
    | inr (inl f) ↦ (game_date_limit, f)
    | inr (inr (inl f)) ↦ (bankruptcy, f)
    | inr (inr (inr (inl f))) ↦ (revenue_threshold, f)
    | inr (inr (inr (inr (inl f)))) ↦ (cargo_threshold, f)
    | inr (inr (inr (inr (inr (inl f))))) ↦ (max_heartbeats, f)
    | inr (inr (inr (inr (inr (inr f))))) ↦ absurd f
  ]

  Any-of : (k : Condition) → Fires k → Any Fires conditions
  Any-of time_limit f = inl f
  Any-of game_date_limit f = inr (inl f)
  Any-of bankruptcy f = inr (inr (inl f))
  Any-of revenue_threshold f = inr (inr (inr (inl f)))
  Any-of cargo_threshold f = inr (inr (inr (inr (inl f))))
  Any-of max_heartbeats f = inr (inr (inr (inr (inr (inl f)))))

  All-of : All Satisfied conditions → (k : Condition) → Satisfied k
  All-of h time_limit = h.0
  All-of h game_date_limit = h.1.0
  All-of h bankruptcy = h.1.1.0
  All-of h revenue_threshold = h.1.1.1.0
  All-of h cargo_threshold = h.1.1.1.1.0
  All-of h max_heartbeats = h.1.1.1.1.1.0

  All-conditions : ((k : Condition) → Satisfied k) → All Satisfied conditions
  All-conditions h = (
    h time_limit,
    (
      h game_date_limit,
      (h bankruptcy, (h revenue_threshold, (h cargo_threshold, (h max_heartbeats, tt)))),
    ),
  )

abbrev AnyVerdict : ℕ → StateSnapshot → EndConditionChecker → EndConditionsConfig → Type 0
AnyVerdict now snapshot after cfg =
    cfg.logic ≢ "all"
    → ((decide_end cfg (gather now snapshot after conditions)).triggered ≡ true)
      ↔ ((k : Condition) × (is_enabled cfg k ≡ true) × Holds now snapshot after k)

abbrev AllVerdict : ℕ → StateSnapshot → EndConditionChecker → EndConditionsConfig → Type 0
AllVerdict now snapshot after cfg =
    cfg.logic ≡ "all"
    → ((decide_end cfg (gather now snapshot after conditions)).triggered ≡ true) ↔ (
        ((k : Condition) × (is_enabled cfg k ≡ true))
        × ((k : Condition) → is_enabled cfg k ≡ true → Holds now snapshot after k))

update_cargo-fields :
    (snapshot : StateSnapshot) (c : EndConditionChecker)
    → ((update_cargo snapshot c).config ≡ c.config)
      × ((update_cargo snapshot c).start_time ≡ c.start_time)
      × ((update_cargo snapshot c).heartbeat_count ≡ c.heartbeat_count)
unfolding update_cargo
update_cargo-fields snapshot c = elim (Bool-cases c.config.cargo_threshold.enabled) [
  | inl on ↦ rw on (refl, refl, refl)
  | inr off ↦ rw off (refl, refl, refl)
]

decide_end_any :
    (cfg : EndConditionsConfig) (results : List EndResult)
    → cfg.logic ≢ "all"
    → ((decide_end cfg results).triggered ≡ true) ↔ (results ≢ [])
unfolding decide_end
decide_end_any cfg [] any = ((λ h. cc), (λ h. absurd (h refl)))
decide_end_any cfg (r ∷ rs) any = ground (arith, eq_iff cfg.logic "all")

decide_end_all :
    (cfg : EndConditionsConfig) (results : List EndResult)
    → cfg.logic ≡ "all"
    → ((decide_end cfg results).triggered ≡ true)
      ↔ ((results ≢ []) × (count_enabled cfg ≤ length results))
unfolding decide_end
decide_end_all cfg [] h = ((λ h. cc), (λ h. absurd (h.0 refl)))
decide_end_all cfg (r ∷ rs) h = ground (arith, eq_iff cfg.logic "all")

module _ (now : ℕ) (snapshot : StateSnapshot) (after : EndConditionChecker) where
  verdict_any : AnyVerdict now snapshot after after.config
  verdict_any any =
      let results = gather now snapshot after conditions in
      let reads = gather-Reads now snapshot after conditions in
      let decided = decide_end_any after.config results any in
      (
        (λ h.
            let (k, f) = Any-conditions now snapshot after (reads.one_fires (decided.0 h)) in
            (k, f.0, f.1)),
        (λ (k, on, holds).
            decided.1
              (λ none_hit. reads.none_fires none_hit (Any-of now snapshot after k (on, holds)))),
      )

  verdict_all : AllVerdict now snapshot after after.config
  verdict_all every =
      let results = gather now snapshot after conditions in
      let reads = gather-Reads now snapshot after conditions in
      let decided = decide_end_all after.config results every in
      let counted = count_enabled-eq now snapshot after in
      (
        (λ h.
            let (some_hit, enough) = decided.0 h in
            let (k, f) = Any-conditions now snapshot after (reads.one_fires some_hit) in
            ((k, f.0), All-of now snapshot after (reads.full (omega (arith, counted))))),
        (λ ((k, on), holds). decided.1 (
          (λ none_hit. reads.none_fires none_hit (Any-of now snapshot after k (on, holds k on))),
          omega (arith, counted, reads.satisfied (All-conditions now snapshot after holds)),
        )),
      )

abbrev counted : EndConditionChecker → EndConditionChecker
counted c = record c { heartbeat_count = suc c.heartbeat_count }

check-eq :
    (now : ℕ) (snapshot : StateSnapshot) (c : EndConditionChecker)
    → let after = update_cargo snapshot (counted c) in
      check now snapshot c ≡ (after, decide_end c.config (gather now snapshot after conditions))
unfolding check evaluate_all
check-eq now snapshot c =
    let after = update_cargo snapshot (counted c) in
    let (config, start, heartbeats) = update_cargo-fields snapshot (counted c) in
    cc (
      all_results now snapshot after,
      (gather-Reads now snapshot after conditions).all_triggered,
      config,
      start,
      heartbeats,
    )

-- With any logic but "all", a check ends the run exactly when some enabled condition holds of
-- the state that the check leaves. The time limit holds only of a clock that was started.
pub check_any :
    (now : ℕ) (snapshot : StateSnapshot) (c : EndConditionChecker)
    → c.config.logic ≢ "all"
    → let (after, result) = check now snapshot c in
      (result.triggered ≡ true)
      ↔ ((k : Condition) × (is_enabled c.config k ≡ true) × Holds now snapshot after k)
check_any now snapshot c = rw (check-eq now snapshot c) (
    let after = update_cargo snapshot (counted c) in
    subst (AnyVerdict now snapshot after) (update_cargo-fields snapshot (counted c)).0
      (verdict_any now snapshot after))

-- With the logic "all", a check ends the run exactly when some condition is enabled and every
-- enabled condition holds of the state that the check leaves.
pub check_all :
    (now : ℕ) (snapshot : StateSnapshot) (c : EndConditionChecker)
    → c.config.logic ≡ "all"
    → let (after, result) = check now snapshot c in
      (result.triggered ≡ true) ↔ (
        ((k : Condition) × (is_enabled c.config k ≡ true))
        × ((k : Condition) → is_enabled c.config k ≡ true → Holds now snapshot after k))
check_all now snapshot c = rw (check-eq now snapshot c) (
    let after = update_cargo snapshot (counted c) in
    subst (AllVerdict now snapshot after) (update_cargo-fields snapshot (counted c)).0
      (verdict_all now snapshot after))
