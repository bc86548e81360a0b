-- ===== src/Verify.antt =====
-- src/nttd/verify/checks.py and the verdict of src/nttd/verify/validator.py: what a third party can
-- confirm of a run from its bundle. A check's `detail` is the list of the problems it found, as
-- data; the text of the messages is left out. The bundle's files are a parameter: for each name that
-- exists, its digest, cut to 16 digits, and its size. Game dates are not negative.
pub mod Log
pub mod Capability
pub mod Validator
pub mod Verdict
use nttd.Prelude.{
  ℕ, String, Bool, true, false, not, ◌&&◌, ◌||◌, Option, none, some, List, [], ◌∷◌, ◌++◌, ◌==◌,
  string_eq, nat_eq, ltb, leb, length, filter, any, if◌then◌else◌,
}
use nttd.Prelude.Dict.{Dict, lookup, insert}
use nttd.Prelude.Distinct.{contains}
use nttd.Actions.Vocabulary.{operator_actions}

pub data Problem : Type 0 where
  no_artifacts : Problem
  artifact_missing digest_differs size_differs : String → Problem
  total_differs success_differs : ℕ → ℕ → Problem
  dates_reordered : Problem
  outside_window : ℕ → Problem
  operator_succeeded : ℕ → Problem
  claims_clean : ℕ → Problem
  log_is_empty : ℕ → Problem
  no_manifest no_result : Problem
  save_missing save_not_inspected save_rejected save_not_reloaded : Problem
  company_absent rating_differs cargo_differs : ℕ → Problem
  no_seed no_scenario world_not_generated no_map_digest no_terrain world_differs : Problem

-- `passed` is none for a check that was not attempted.
pub record CheckOutcome : Type 0 where
  pub name : String
  pub passed : Option Bool
  pub detail : List Problem

unfoldable pub none_of : List Problem → Bool
none_of [] = true
none_of (p ∷ ps) = false

-- A check that ran: it passed where it found no problem.
unfoldable pub outcome : String → List Problem → CheckOutcome
unfolding none_of
outcome name problems = record { name = name; passed = some (none_of problems); detail = problems }

-- A row of the action log.
pub record LogRow : Type 0 where
  pub company_id : ℕ
  pub action_type : String
  pub status : String
  pub game_date : Option ℕ

pub record ResultRow : Type 0 where
  pub company_id : ℕ
  pub total_actions : ℕ
  pub successful_actions : ℕ
  pub start_game_date : Option ℕ
  pub end_game_date : Option ℕ
  pub clean_run : Bool
  pub performance_rating : ℕ
  pub total_cargo : ℕ
  pub map_seed : Option ℕ

pub record Artifact : Type 0 where
  pub sha256 : String
  pub bytes : ℕ

abbrev pub BundleDir : Type 0
BundleDir = String → Option Artifact

unfoldable pub artifact_problems : BundleDir → Dict String Artifact → List Problem
artifact_problems bundle_dir [] = []
artifact_problems bundle_dir ((name, claimed) ∷ artifacts) =
    let rest = artifact_problems bundle_dir artifacts in
    elim (bundle_dir name) [
      | none ↦ artifact_missing name ∷ rest
      | some actual ↦
          if not (actual.sha256 == claimed.sha256)
          then digest_differs name ∷ rest
          else if not (actual.bytes == claimed.bytes)
          then size_differs name ∷ rest
          else rest
    ]

-- The manifest's artifacts, sorted by name.
unfoldable pub integrity_problems : BundleDir → Dict String Artifact → List Problem
unfolding artifact_problems
integrity_problems bundle_dir [] = no_artifacts ∷ []
integrity_problems bundle_dir (a ∷ artifacts) = artifact_problems bundle_dir (a ∷ artifacts)

unfoldable pub artifact_integrity : BundleDir → Dict String Artifact → CheckOutcome
unfolding outcome integrity_problems
artifact_integrity bundle_dir artifacts =
    outcome "artifact_integrity" (integrity_problems bundle_dir artifacts)

unfoldable pub of_company : ℕ → List LogRow → List LogRow
of_company company_id actions = filter (λ a. a.company_id == company_id) actions

unfoldable pub succeeded : List LogRow → List LogRow
succeeded actions = filter (λ a. a.status == "success") actions

unfoldable pub dates_of : List LogRow → List ℕ
dates_of [] = []
dates_of (a ∷ actions) = elim a.game_date [
  | none ↦ dates_of actions
  | some d ↦ d ∷ dates_of actions
]

unfoldable pub insert_date : ℕ → List ℕ → List ℕ
insert_date d [] = d ∷ []
insert_date d (e ∷ es) = if leb d e then d ∷ e ∷ es else e ∷ insert_date d es

unfoldable pub sorted : List ℕ → List ℕ
unfolding insert_date
sorted [] = []
sorted (d ∷ ds) = insert_date d (sorted ds)

unfoldable pub same_dates : List ℕ → List ℕ → Bool
same_dates [] [] = true
same_dates [] (e ∷ es) = false
same_dates (d ∷ ds) [] = false
same_dates (d ∷ ds) (e ∷ es) = d == e && same_dates ds es

unfoldable pub outside : ℕ → ℕ → List ℕ → List ℕ
outside start last dates = filter (λ d. ltb d start || ltb last d) dates

unfoldable pub window_problems : Option ℕ → Option ℕ → List ℕ → List Problem
window_problems none last dates = []
window_problems (some start) none dates = []
window_problems (some start) (some last) dates =
    if leb start last
    then (elim (outside start last dates) [
      | [] ↦ []
      | d ∷ ds ↦ outside_window (length (d ∷ ds)) ∷ []
    ])
    else []

abbrev reported_when : Bool → Problem → List Problem
reported_when wrong problem = if wrong then problem ∷ [] else []

unfoldable pub action_log_problems : List LogRow → ResultRow → List Problem
action_log_problems actions result =
    let mine = of_company result.company_id actions in
    let counted = length mine in
    let counted_success = length (succeeded mine) in
    let dates = dates_of actions in
    reported_when (not (counted == result.total_actions))
      (total_differs result.total_actions counted)
    ++ reported_when (not (counted_success == result.successful_actions))
        (success_differs result.successful_actions counted_success)
    ++ reported_when (not (same_dates dates (sorted dates))) dates_reordered
    ++ window_problems result.start_game_date result.end_game_date dates

unfoldable pub action_log_consistent : List LogRow → ResultRow → CheckOutcome
unfolding outcome
action_log_consistent actions result =
    outcome "action_log_consistent" (action_log_problems actions result)

unfoldable pub operator_successes : List LogRow → List LogRow
operator_successes actions =
    filter (λ a. contains a.action_type operator_actions && a.status == "success") actions

unfoldable pub operator_refusals : List LogRow → List LogRow
operator_refusals actions =
    filter
      (λ a.
        (a.status == "rejected" || a.status == "blocked")
        && contains a.action_type operator_actions)
      actions

abbrev counted : (ℕ → Problem) → Bool → List LogRow → List Problem
counted problem counts [] = []
counted problem counts (a ∷ actions) = if counts then problem (length (a ∷ actions)) ∷ [] else []

unfoldable pub no_forbidden_capability : List LogRow → ResultRow → CheckOutcome
unfolding outcome
no_forbidden_capability actions result = outcome "no_forbidden_capability" (
    counted operator_succeeded true (operator_successes actions)
    ++ counted claims_clean result.clean_run (operator_refusals actions))

-- The company of each station and of each vehicle; no snapshot holds none of either.
pub record FinalSnapshot : Type 0 where
  pub stations : List ℕ
  pub vehicles : List ℕ

unfoldable pub owned_by : FinalSnapshot → ℕ → ℕ
owned_by final_snapshot company_id =
    length
      (filter (λ owner. owner == company_id) (final_snapshot.stations ++ final_snapshot.vehicles))

unfoldable pub unexplained : List LogRow → ResultRow → FinalSnapshot → List Problem
unfolding of_company owned_by
unexplained actions result final_snapshot =
    let owned = owned_by final_snapshot result.company_id in
    if owned == 0
    then []
    else (elim (of_company result.company_id actions) [ [] ↦ log_is_empty owned ∷ [] | _ ∷ _ ↦ [] ])

unfoldable pub actions_explain_the_world : List LogRow → ResultRow → FinalSnapshot → CheckOutcome
unfolding outcome unexplained
actions_explain_the_world actions result final_snapshot =
    outcome "actions_explain_the_world" (unexplained actions result final_snapshot)

pub data VerdictKind : Type 0 where
  verified replayed unverified : VerdictKind

-- `{outcome.name: outcome for outcome in outcomes}`
unfoldable pub by_name : List CheckOutcome → Dict String CheckOutcome → Dict String CheckOutcome
by_name [] d = d
by_name (o ∷ os) d = by_name os (insert o.name o d)

unfoldable pub is_passed : Option CheckOutcome → Bool
is_passed none = false
is_passed (some o) = elim o.passed [ none ↦ false | some passed ↦ passed ]

unfoldable pub is_failed : CheckOutcome → Bool
is_failed o = elim o.passed [ none ↦ false | some passed ↦ not passed ]

unfoldable pub verdict : List CheckOutcome → Bool → VerdictKind
unfolding by_name is_passed is_failed
verdict outcomes regenerate =
    let named = by_name outcomes [] in
    if not (is_passed (lookup "artifact_integrity" named))
    then unverified
    else if not (is_passed (lookup "score_recomputed" named))
    then unverified
    else if any is_failed outcomes
    then replayed
    else if not regenerate
    then replayed
    else verified
