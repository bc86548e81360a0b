-- ===== src/Config/Admission.antt =====
-- The strict check of a scenario in src/nttd/config/scenario_config.py as a whole.
use nttd.Prelude.{
  ◌≡◌, ◌↔◌, ◌⊎◌, inl, inr, refl, String, Bool, not, if◌then◌else◌, true, false, arith, none, some,
  List, [], ◌∷◌, map, string_eq, nat_eq,
}
use nttd.Config.Tree.{Node, null, truth, is_null, get_or, Texts}
use nttd.Config.Profile.{BenchmarkProfile, Deviation, deviations}
use nttd.Config.Scored.{resolve_scored, is_empty}
use nttd.Config.Validate.{
  Found, gather, Parts, problems_of, accepted, validate_config, judge, deviates,
}
use nttd.Config.Conditions.{Every, conditions}
use nttd.Config.Clears.{both_iff, check_known_iff, Clears}
use nttd.Config.Checks.{
  check_borders_iff, check_fairness_iff, check_size_iff, check_range_iff, check_custom_iff,
  check_mode_iff, check_timekeeping_iff,
}

-- Each check clears one condition.
abbrev Agree : List Found → List (Type 0) → Type 0
Agree [] [] = Unit
Agree (check ∷ checks) (condition ∷ conditions) = Clears check condition × Agree checks conditions
Agree [] (condition ∷ conditions) = ⊥
Agree (check ∷ checks) [] = ⊥

gather_iff :
    (checks : List Found) (asked : List (Type 0))
    → Agree checks asked
    → (gather checks ≡ some []) ↔ Every asked
unfolding gather
gather_iff [] [] agree = ((λ h. tt), (λ h. refl))
gather_iff [] (condition ∷ asked) agree = absurd agree
gather_iff (check ∷ checks) [] agree = absurd agree
gather_iff (check ∷ checks) (condition ∷ asked) agree =
    let rest = gather_iff checks asked agree.1 in
    let split = both_iff check (gather checks) in
    (
      (λ h. (agree.0.0 (split.0 h).0, rest.0 (split.0 h).1)),
      (λ h. split.1 (agree.0.1 h.0, rest.1 h.1)),
    )

conformance_iff :
    (conformance : List Deviation) → Clears (some (map deviates conformance)) (conformance ≡ [])
conformance_iff [] = ((λ h. refl), (λ h. refl))
conformance_iff (d ∷ ds) = ((λ h. absurd (cc)), (λ h. absurd (cc)))

judge_iff : (found : Found) → (judge true found ≡ accepted) ↔ (found ≡ some [])
judge_iff none = ((λ h. absurd (cc)), (λ h. absurd (cc)))
judge_iff (some []) = ((λ h. refl), (λ h. refl))
judge_iff (some (problem ∷ problems)) = ((λ h. absurd (cc)), (λ h. absurd (cc)))

null-truth : (n : Node) → is_null n ≡ true → truth n ≡ false
null-truth n h = ground arith

-- `resolve_scored`, where what it asks of the declared value is known.
abbrev held : (missing declared : Bool) → List Deviation → Bool × List Deviation
held missing declared found =
    if missing
    then (is_empty found, [])
    else if not declared
    then (false, [])
    else if not (is_empty found)
    then (false, found)
    else (is_empty found, [])

true_not_false : true ≡ false → ⊥
true_not_false h = absurd (cc)

held_to_rules :
    (missing declared : Bool) (found : List Deviation)
    → (missing ≡ true → declared ≡ false)
    → ((held missing declared found).1 ≡ []) ↔ ((declared ≡ false) ⊎ (found ≡ []))
held_to_rules true true found h = absurd (true_not_false (h refl))
held_to_rules true false found h = ((λ k. inl refl), (λ k. refl))
held_to_rules false false found h = ((λ k. inl refl), (λ k. refl))
held_to_rules false true [] h = ((λ k. inr refl), (λ k. refl))
held_to_rules false true (d ∷ ds) h =
    ((λ k. absurd (cc)), (λ k. elim k [ inl e ↦ absurd (cc) | inr e ↦ absurd (cc) ]))

module _ (texts : Texts) where
  problems_of_iff :
      (conformance : List Deviation) (p : Parts)
      → (problems_of texts conformance p ≡ some [])
        ↔ ((conformance ≡ []) × Every (conditions texts p))
  unfolding problems_of
  problems_of_iff conformance p =
      let m = p.map_cfg in
      gather_iff _ ((conformance ≡ []) ∷ conditions texts p) (
        conformance_iff conformance,
        (
          check_known_iff _ _ _ m,
          (
            check_known_iff _ _ _ m,
            (
              check_known_iff _ _ _ m,
              (
                check_known_iff _ _ _ m,
                (
                  check_known_iff _ _ _ m,
                  (
                    check_known_iff _ _ _ m,
                    (
                      check_known_iff _ _ _ m,
                      (
                        check_known_iff _ _ _ m,
                        (
                          check_known_iff _ _ _ m,
                          (
                            check_size_iff texts _ m,
                            (
                              check_size_iff texts _ m,
                              (
                                check_custom_iff texts _ _ _ _ _ m,
                                (
                                  check_custom_iff texts _ _ _ _ _ m,
                                  (
                                    check_custom_iff texts _ _ _ _ _ m,
                                    (
                                      check_custom_iff texts _ _ _ _ _ m,
                                      (
                                        check_borders_iff m,
                                        (
                                          check_range_iff texts _ _ _ _ m,
                                          (
                                            check_range_iff texts _ _ _ _ p.companies,
                                            (
                                              check_range_iff texts _ _ _ _ p.companies,
                                              (
                                                check_mode_iff texts p.runtime p.end_conditions,
                                                (
                                                  check_timekeeping_iff texts p.runtime,
                                                  (check_fairness_iff p.fairness, tt),
                                                ),
                                              ),
                                            ),
                                          ),
                                        ),
                                      ),
                                    ),
                                  ),
                                ),
                              ),
                            ),
                          ),
                        ),
                      ),
                    ),
                  ),
                ),
              ),
            ),
          ),
        ),
      )

  pub validate_config-conditions :
      (conformance : List Deviation) (p : Parts)
      → (validate_config texts true conformance p ≡ accepted)
        ↔ ((conformance ≡ []) × Every (conditions texts p))
  unfolding validate_config
  validate_config-conditions conformance p =
      let judged = judge_iff (problems_of texts conformance p) in
      let agree = problems_of_iff conformance p in
      ((λ h. agree.0 (judged.0 h)), (λ h. judged.1 (agree.1 h)))

  module _ (profile : BenchmarkProfile) (raw m : Node) (scenario_id : String) where
    -- The scenario says that it is scored.
    abbrev pub declares_scored : Bool
    declares_scored = truth (get_or null ("scored" ∷ []) raw)

    -- A scenario is held to the rules of a scored run only where it says that it is one.
    resolve_scored_iff :
        ((resolve_scored texts profile raw m scenario_id).1 ≡ [])
        ↔ ((declares_scored ≡ false) ⊎ (deviations texts profile m scenario_id ≡ []))
    unfolding resolve_scored
    resolve_scored_iff =
        let declared = get_or null ("scored" ∷ []) raw in
        held_to_rules (is_null declared) (truth declared) (deviations texts profile m scenario_id)
          (null-truth declared)

  -- The strict check accepts a scenario exactly when every condition in words holds of its parts and,
  -- where it says that it is scored, it does not deviate from the rules of a scored run. One that
  -- deviates and does not say so is accepted where the conditions hold.
  pub validate_config_iff :
      (profile : BenchmarkProfile) (raw : Node) (scenario_id : String) (p : Parts)
      → let conformance = (resolve_scored texts profile raw p.map_cfg scenario_id).1 in
        (validate_config texts true conformance p ≡ accepted) ↔ (
          ((truth (get_or null ("scored" ∷ []) raw) ≡ false)
            ⊎ (deviations texts profile p.map_cfg scenario_id ≡ []))
          × Every (conditions texts p))
  validate_config_iff profile raw scenario_id p =
      let conformance = (resolve_scored texts profile raw p.map_cfg scenario_id).1 in
      let whole = validate_config-conditions conformance p in
      let held = resolve_scored_iff profile raw p.map_cfg scenario_id in
      ((λ h. (held.0 (whole.0 h).0, (whole.0 h).1)), (λ h. whole.1 (held.1 h.0, h.1)))
