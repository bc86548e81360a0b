-- ===== src/Verify/Validator.antt =====
-- src/nttd/verify/replay.py and the run of the checks in src/nttd/verify/validator.py. What OpenTTD
-- answers is a parameter: how `openttd -q` ended, the companies of the reloaded save, and the terrain
-- of the world made afresh. A seed that is missing or negative is none.
use nttd.Prelude.{
  ℕ, String, Bool, true, not, Option, none, some, List, [], ◌∷◌, ◌++◌, ◌==◌, string_eq, nat_eq,
  if◌then◌else◌,
}
use nttd.Prelude.Dict.{Dict, lookup}
use nttd.Verify.{
  Problem, no_manifest, no_result, save_missing, save_not_inspected, save_rejected,
  save_not_reloaded, company_absent, rating_differs, cargo_differs, no_seed, no_scenario,
  world_not_generated, no_map_digest, no_terrain, world_differs, CheckOutcome, outcome, LogRow,
  ResultRow, Artifact, BundleDir, artifact_integrity, action_log_consistent,
  no_forbidden_capability, FinalSnapshot, actions_explain_the_world, VerdictKind, unverified,
  verdict,
}

pub data SaveInspection : Type 0 where
  no_save : SaveInspection
  not_run : SaveInspection
  exited : ℕ → SaveInspection

unfoldable pub save_problems : SaveInspection → List Problem
save_problems no_save = save_missing ∷ []
save_problems not_run = save_not_inspected ∷ []
save_problems (exited code) = if code == 0 then [] else save_rejected ∷ []

unfoldable pub savegame_readable : SaveInspection → CheckOutcome
unfolding outcome save_problems
savegame_readable inspection = outcome "savegame_readable" (save_problems inspection)

pub record Score : Type 0 where
  pub performance_rating : ℕ
  pub total_cargo : ℕ

abbrev reported_when : Bool → Problem → List Problem
reported_when wrong problem = if wrong then problem ∷ [] else []

unfoldable pub row_problems : Dict ℕ Score → ResultRow → List Problem
row_problems recomputed row = elim (lookup row.company_id recomputed) [
  | none ↦ company_absent row.company_id ∷ []
  | some score ↦
      reported_when (not (score.performance_rating == row.performance_rating))
        (rating_differs row.company_id)
      ++ reported_when (not (score.total_cargo == row.total_cargo)) (cargo_differs row.company_id)
]

unfoldable pub score_problems : Dict ℕ Score → List ResultRow → List Problem
unfolding row_problems
score_problems recomputed [] = []
score_problems recomputed (row ∷ rows) =
    row_problems recomputed row ++ score_problems recomputed rows

-- The scores of the reloaded save, or none where the server did not start or did not answer.
unfoldable pub recompute_problems : Option (Dict ℕ Score) → List ResultRow → List Problem
unfolding score_problems
recompute_problems none rows = save_not_reloaded ∷ []
recompute_problems (some recomputed) rows = score_problems recomputed rows

unfoldable pub score_recomputed : Option (Dict ℕ Score) → List ResultRow → CheckOutcome
unfolding outcome recompute_problems
score_recomputed reloaded rows = outcome "score_recomputed" (recompute_problems reloaded rows)

pub record Manifest : Type 0 where
  pub artifacts : Dict String Artifact
  pub map_digest : String

-- What a throwaway server makes of a seed: nothing, or the number of tiles that a scan of its
-- terrain wrote, with their digest. No tiles stand for a scan that was not answered, too.
abbrev pub Generator : Type 0
Generator = ℕ → Option (ℕ × String)

unfoldable pub world_problems : String → ℕ → String → List Problem
world_problems claimed_digest written actual =
    if claimed_digest == ""
    then no_map_digest ∷ []
    else if written == 0
    then no_terrain ∷ []
    else if not (actual == claimed_digest)
    then world_differs ∷ []
    else []

unfoldable pub regenerate_problems :
    (has_settings : Bool) → Generator → Manifest → ResultRow → List Problem
unfolding world_problems
regenerate_problems has_settings generate manifest result = elim result.map_seed [
  | none ↦ no_seed ∷ []
  | some seed ↦ if not has_settings then no_scenario ∷ [] else (elim (generate seed) [
    | none ↦ world_not_generated ∷ []
    | some terrain ↦ world_problems manifest.map_digest terrain.0 terrain.1
  ])
]

unfoldable pub regenerate_world :
    (has_settings : Bool) → Generator → Manifest → ResultRow → CheckOutcome
unfolding outcome regenerate_problems
regenerate_world has_settings generate manifest result =
    outcome "world_regenerated" (regenerate_problems has_settings generate manifest result)

-- A bundle, with what OpenTTD answers about it.
pub record Bundle : Type 0 where
  pub manifest : Option Manifest
  pub files : BundleDir
  pub rows : List ResultRow
  pub actions : List LogRow
  pub final_snapshot : FinalSnapshot
  pub save : SaveInspection
  pub reloaded : Option (Dict ℕ Score)
  pub has_settings : Bool
  pub generate : Generator

abbrev pub skipped : String → CheckOutcome
skipped name = record { name = name; passed = none; detail = [] }

unfoldable pub recompute_step : Bundle → CheckOutcome
unfolding savegame_readable score_recomputed
recompute_step b = elim (savegame_readable b.save).passed [
  | some true ↦ score_recomputed b.reloaded b.rows
  | _ ↦ skipped "score_recomputed"
]

unfoldable pub regenerate_step : Bundle → Manifest → ResultRow → Bool → CheckOutcome
unfolding regenerate_world
regenerate_step b manifest first regenerate =
    if regenerate
    then regenerate_world b.has_settings b.generate manifest first
    else skipped "world_regenerated"

-- The checks of a bundle that has a manifest and a result, in the order they run.
unfoldable pub outcomes_of : Bundle → Manifest → ResultRow → Bool → List CheckOutcome
unfolding artifact_integrity action_log_consistent actions_explain_the_world no_forbidden_capability
    savegame_readable recompute_step regenerate_step
outcomes_of b manifest first regenerate =
    artifact_integrity b.files manifest.artifacts
    ∷ action_log_consistent b.actions first
    ∷ actions_explain_the_world b.actions first b.final_snapshot
    ∷ no_forbidden_capability b.actions first
    ∷ savegame_readable b.save
    ∷ recompute_step b
    ∷ regenerate_step b manifest first regenerate
    ∷ []

unfoldable pub verify_manifest :
    Bundle → Manifest → List ResultRow → Bool → VerdictKind × List CheckOutcome
unfolding artifact_integrity outcome outcomes_of verdict
verify_manifest b manifest [] regenerate =
    let outcomes =
      artifact_integrity b.files manifest.artifacts
      ∷ outcome "action_log_consistent" (no_result ∷ [])
      ∷ [] in
    (verdict outcomes regenerate, outcomes)
verify_manifest b manifest (first ∷ rows) regenerate =
    let outcomes = outcomes_of b manifest first regenerate in
    (verdict outcomes regenerate, outcomes)

unfoldable pub verify : Bundle → Bool → VerdictKind × List CheckOutcome
unfolding outcome verify_manifest
verify b regenerate = elim b.manifest [
  | none ↦ (unverified, outcome "artifact_integrity" (no_manifest ∷ []) ∷ [])
  | some manifest ↦ verify_manifest b manifest b.rows regenerate
]
