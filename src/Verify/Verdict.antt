-- ===== src/Verify/Verdict.antt =====
-- What a verdict of src/nttd/verify/validator.py means.
use nttd.Prelude.{
  ◌≡◌, ◌≢◌, ◌↔◌, refl, String, Bool, true, false, not, ◌||◌, Option, none, some, List, [], ◌∷◌,
  string_eq, nat_eq, All, arith, any, if◌then◌else◌,
}
use nttd.Prelude.Dict.{lookup, insert}
use nttd.Verify.{
  Problem, CheckOutcome, ResultRow, verified, replayed, unverified, is_passed, is_failed, by_name,
  verdict,
}
use nttd.Verify.Validator.{Manifest, Bundle, skipped, outcomes_of, verify_manifest, verify}

-- A check that ran and passed, one that ran and failed, and one that was not attempted.
abbrev ran : String → Bool → List Problem → CheckOutcome
ran name passed detail = record { name = name; passed = some passed; detail = detail }

verdict-seven :
    (a c e n v s w : Bool) (da dc de dn dv ds dw : List Problem)
    → verdict
        (ran "artifact_integrity" a da
          ∷ ran "action_log_consistent" c dc
          ∷ ran "actions_explain_the_world" e de
          ∷ ran "no_forbidden_capability" n dn
          ∷ ran "savegame_readable" v dv
          ∷ ran "score_recomputed" s ds
          ∷ ran "world_regenerated" w dw
          ∷ [])
        true
      ≡ (if not a
          then unverified
          else if not s
          then unverified
          else if not a || (not c || (not e || (not n || (not v || (not s || (not w || false))))))
          then replayed
          else verified)
unfolding verdict lookup insert any
verdict-seven a c e n v s w da dc de dn dv ds dw = refl

abbrev AllTrue : List Bool → Type 0
AllTrue passed = All (λ p. some p ≡ some true) passed

chain_verified :
    (a c e n v s w : Bool)
    → ((if not a
          then unverified
          else if not s
          then unverified
          else if not a || (not c || (not e || (not n || (not v || (not s || (not w || false))))))
          then replayed
          else verified)
        ≡ verified)
      ↔ AllTrue (a ∷ c ∷ e ∷ n ∷ v ∷ s ∷ w ∷ [])
chain_verified a c e n v s w = ground arith

abbrev pub IsPassed : CheckOutcome → Type 0
IsPassed o = o.passed ≡ some true

-- The checks as `verify` runs them: the score is recomputed from a save that could be read.
abbrev chain : (a c e n v s w : Bool) (da dc de dn dv ds dw : List Problem) → List CheckOutcome
chain a c e n v s w da dc de dn dv ds dw =
    ran "artifact_integrity" a da
    ∷ ran "action_log_consistent" c dc
    ∷ ran "actions_explain_the_world" e de
    ∷ ran "no_forbidden_capability" n dn
    ∷ ran "savegame_readable" v dv
    ∷ (elim (some v) [ some true ↦ ran "score_recomputed" s ds | _ ↦ skipped "score_recomputed" ])
    ∷ ran "world_regenerated" w dw
    ∷ []

verdict-unread :
    (a c e n w : Bool) (da dc de dn dv dw : List Problem)
    → verdict (chain a c e n false false w da dc de dn dv [] dw) true ≡ unverified
unfolding verdict lookup insert
verdict-unread true c e n w da dc de dn dv dw = refl
verdict-unread false c e n w da dc de dn dv dw = refl

verdict-chain :
    (a c e n v s w : Bool) (da dc de dn dv ds dw : List Problem)
    → (verdict (chain a c e n v s w da dc de dn dv ds dw) true ≡ verified)
      ↔ All IsPassed (chain a c e n v s w da dc de dn dv ds dw)
verdict-chain a c e n true s w da dc de dn dv ds dw =
    rw (verdict-seven a c e n true s w da dc de dn dv ds dw) (chain_verified a c e n true s w)
verdict-chain a c e n false s w da dc de dn dv ds dw = (
  λ h. absurd (cc (verdict-unread a c e n w da dc de dn dv dw, h)),
  λ h. absurd (cc h.1.1.1.1.1.0),
)

not_reached :
    (i f a : Bool)
    → (if i
        then unverified
        else if f
        then unverified
        else if a
        then replayed
        else if not false
        then replayed
        else verified)
      ≢ verified
not_reached i f a = ground arith

verdict-not_regenerated : (outcomes : List CheckOutcome) → verdict outcomes false ≢ verified
unfolding verdict
verdict-not_regenerated outcomes =
    not_reached (not (is_passed (lookup "artifact_integrity" (by_name outcomes []))))
      (not (is_passed (lookup "score_recomputed" (by_name outcomes [])))) (any is_failed outcomes)

verdict-outcomes_of :
    (b : Bundle) (manifest : Manifest) (first : ResultRow)
    → (verdict (outcomes_of b manifest first true) true ≡ verified)
      ↔ All IsPassed (outcomes_of b manifest first true)
unfolding outcomes_of
verdict-outcomes_of b manifest first = verdict-chain _ _ _ _ _ _ _ _ _ _ _ _ _ _

-- The checks of a bundle that has a manifest and a result all ran, and all passed.
abbrev pub IsConfirmed : Bundle → Type 0
IsConfirmed b =
    (manifest : Manifest) × (first : ResultRow) × (rows : List ResultRow) × (b.manifest
      ≡ some manifest)
    × (b.rows ≡ first ∷ rows)
    × All IsPassed (outcomes_of b manifest first true)

verify-no_manifest :
    (b : Bundle) (regenerate : Bool) → b.manifest ≡ none → (verify b regenerate).0 ≡ unverified
unfolding verify
verify-no_manifest b regenerate e = rw e refl

verdict-no_result :
    (a : Bool) (da dc : List Problem) (regenerate : Bool)
    → verdict (ran "artifact_integrity" a da ∷ ran "action_log_consistent" false dc ∷ []) regenerate
      ≡ unverified
unfolding verdict lookup insert
verdict-no_result true da dc regenerate = refl
verdict-no_result false da dc regenerate = refl

verify-no_result :
    (b : Bundle) (manifest : Manifest) (regenerate : Bool)
    → b.manifest ≡ some manifest
    → b.rows ≡ []
    → (verify b regenerate).0 ≡ unverified
unfolding verify verify_manifest
verify-no_result b manifest regenerate e f = rw e (rw f (verdict-no_result _ _ _ regenerate))

verify-result :
    (b : Bundle) (manifest : Manifest) (first : ResultRow) (rows : List ResultRow)
    (regenerate : Bool)
    → b.manifest ≡ some manifest
    → b.rows ≡ first ∷ rows
    → (verify b regenerate).0 ≡ verdict (outcomes_of b manifest first regenerate) regenerate
unfolding verify verify_manifest
verify-result b manifest first rows regenerate e f = rw e (rw f refl)

verify_sound :
    (b : Bundle) (regenerate : Bool) (found : Option Manifest) (rows : List ResultRow)
    → b.manifest ≡ found
    → b.rows ≡ rows
    → (verify b regenerate).0 ≡ verified
    → (regenerate ≡ true) × IsConfirmed b
verify_sound b regenerate none rows e f h = absurd (cc (verify-no_manifest b regenerate e, h))
verify_sound b regenerate (some manifest) [] e f h =
    absurd (cc (verify-no_result b manifest regenerate e f, h))
verify_sound b false (some manifest) (first ∷ rows) e f h = absurd (
    verdict-not_regenerated (outcomes_of b manifest first false)
      (cc (verify-result b manifest first rows false e f, h)))
verify_sound b true (some manifest) (first ∷ rows) e f h =
    let passed =
      (verdict-outcomes_of b manifest first).0
        (cc (verify-result b manifest first rows true e f, h)) in
    (refl, (manifest, first, rows, e, f, passed))

-- A bundle is verified exactly where the world was to be made afresh, the bundle has a manifest and
-- a result, and each of the seven checks ran and passed.
pub verify_iff :
    (b : Bundle) (regenerate : Bool)
    → ((verify b regenerate).0 ≡ verified) ↔ ((regenerate ≡ true) × IsConfirmed b)
verify_iff b regenerate = (
  λ h. verify_sound b regenerate b.manifest b.rows refl refl h,
  λ h.
      let (manifest, first, rows, e, f, passed) = h.1 in
      let at_result = verify-result b manifest first rows true e f in
      let confirmed = (verdict-outcomes_of b manifest first).1 passed in
      cc (h.0, at_result, confirmed),
)
