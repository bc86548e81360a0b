-- ===== src/Actions/Tracker.antt =====
-- src/nttd/actions/tracker.py: the actions that were submitted and what became of them, up to a
-- number of the last ones. A result lives in the tracker; a caller's reference to it is its id.
pub mod History
use nttd.Prelude.{
  ℕ, suc, ◌+◌, ◌-◌, String, Bool, true, false, Option, none, some, List, [], ◌∷◌, ◌==◌, string_eq,
  nat_eq, ltb, length, drop, if◌then◌else◌,
}
use nttd.Prelude.Dict.{Dict, lookup, insert, erase, values}
use nttd.Actions.Gate.{ActionStatus, pending}
use nttd.Prelude.Int.{ℤ}
use nttd.Json.{Payload}
use nttd.Actions.Reply.{ActionResult}

pub record ActionEnvelope : Type 0 where
  pub action_id : String
  pub company_id : ℤ
  pub action_type : String
  pub parameters : Payload

pub record ActionTracker : Type 0 where
  pub actions : Dict String ActionEnvelope
  pub results : Dict String ActionResult
  pub max_history : ℕ

unfoldable pub new : ℕ → ActionTracker
new max_history = record { actions = []; results = []; max_history = max_history }

-- The `while` loop of `_trim`: the oldest action goes, and its result with it.
unfoldable pub trim_from :
    ℕ
    → Dict String ActionEnvelope
    → Dict String ActionResult
    → Dict String ActionEnvelope × Dict String ActionResult
trim_from limit [] results = ([], results)
trim_from limit ((key, envelope) ∷ actions) results =
    let trimmed = trim_from limit actions (erase key results) in
    if ltb limit (length ((key, envelope) ∷ actions))
    then trimmed
    else ((key, envelope) ∷ actions, results)

unfoldable pub trim : ActionTracker → ActionTracker
unfolding trim_from
trim t =
    let (actions, results) = trim_from t.max_history t.actions t.results in
    record t { actions = actions; results = results }

abbrev pub pending_result : String → ActionResult
pending_result action_id = record {
  action_id = action_id;
  status = pending;
  error = [];
  error_code = none;
  error_name = "";
  error_category = "";
  changed_entities = [];
}

unfoldable pub submit : ActionEnvelope → ActionTracker → ActionTracker × ActionResult
submit envelope t =
    let result = pending_result envelope.action_id in
    (
      trim (record t {
        actions = insert envelope.action_id envelope t.actions;
        results = insert envelope.action_id result t.results;
      }),
      result,
    )

-- `changed_entities` is kept where the new ones are none or empty.
abbrev changed_or : Option Payload → Payload → Payload
changed_or none old = old
changed_or (some []) old = old
changed_or (some (entry ∷ entries)) old = entry ∷ entries

unfoldable pub update_result :
    String
    → ActionStatus
    → List String
    → Option Payload
    → ActionTracker
    → ActionTracker × Option ActionResult
update_result action_id status error changed t = elim (lookup action_id t.results) [
  | none ↦ (t, none)
  | some old ↦
      let updated : ActionResult = record old {
        status = status;
        error = error;
        changed_entities = changed_or changed old.changed_entities;
      } in
      (record t { results = insert action_id updated t.results }, some updated)
]

unfoldable pub get_result : String → ActionTracker → Option ActionResult
get_result action_id t = lookup action_id t.results

unfoldable pub get_envelope : String → ActionTracker → Option ActionEnvelope
get_envelope action_id t = lookup action_id t.actions

-- `list(values)[-limit:]`: with the limit 0 that is the whole list.
unfoldable pub get_recent : ℕ → ActionTracker → List ActionResult
get_recent limit t =
    let all = values t.results in if limit == 0 then all else drop (length all - limit) all
