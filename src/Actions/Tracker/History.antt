-- ===== src/Actions/Tracker/History.antt =====
-- The two dictionaries of src/nttd/actions/tracker.py stay in step and bounded.
use nttd.Prelude.{
  ℕ, suc, ◌≤◌, ◌≡◌, String, true, false, List, [], ◌∷◌, arith, ==-self, ◌==◌, string_eq, ltb,
  length, Bool-cases, inl, inr, Option, some, Option-cases, ◌∙◌, drop, ◌++◌, ◌-◌, ap, sym, refl,
  if◌then◌else◌, nat_eq,
}
use nttd.Prelude.Dict.{Dict, keys, erase, lookup, insert}
use nttd.Prelude.Distinct.{contains, Distinct, insert-Distinct, keys-insert_eq, erase_absent}
use nttd.Actions.Gate.{ActionStatus}
use nttd.Json.{Payload}
use nttd.Actions.Reply.{ActionResult}
use nttd.Actions.Tracker.{
  ActionEnvelope, ActionTracker, trim_from, trim, pending_result, submit, update_result,
}

-- Each tracked action has one result, in the order of the actions, and no more are kept than the
-- history allows.
pub record IsTracked (t : ActionTracker) : Type 0 where
  pub in_step : keys t.results ≡ keys t.actions
  pub distinct : Distinct (keys t.actions)
  pub bounded : length t.actions ≤ t.max_history

-- What a list of ids becomes when an id is submitted: a known one keeps its place, a new one is last.
abbrev pub added : String → List String → List String
added id ids = if contains id ids then ids else ids ++ (id ∷ [])

-- The last ones of a list, as many as the history allows.
abbrev pub newest : (limit : ℕ) → List String → List String
newest limit ids = drop (length ids - limit) ids

keys-insert :
    {V : Type 0} (k : String) (v : V) (d : Dict String V) → keys (insert k v d) ≡ added k (keys d)
unfolding insert contains
keys-insert k v [] = refl
keys-insert k v ((j, w) ∷ d) = ground (arith, string_eq.same_iff j k, keys-insert k v d)

drop-suc : (m n : ℕ) (k : String) (ks : List String) → m ≡ suc n → drop m (k ∷ ks) ≡ drop n ks
drop-suc m n k ks h = rw h refl

drop_zero : (m : ℕ) (ks : List String) → m ≡ 0 → drop m ks ≡ ks
drop_zero m ks h = rw h refl

length-keys : {V : Type 0} (d : Dict String V) → length (keys d) ≡ length d
length-keys [] = refl
length-keys ((k, v) ∷ d) = ap suc (length-keys d)

keys-trim_from :
    (limit : ℕ) (actions : Dict String ActionEnvelope) (results : Dict String ActionResult)
    → keys (trim_from limit actions results).0 ≡ newest limit (keys actions)
unfolding trim_from
keys-trim_from limit [] results = sym (drop_zero (0 - limit) [] (omega arith))
keys-trim_from limit ((k, a) ∷ actions) results =
    let rest = keys-trim_from limit actions (erase k results) in
    let size = length-keys actions in
    let long_ids = suc (length (keys actions)) - limit in
    elim (Bool-cases (ltb limit (suc (length actions)))) [
      | inl long ↦ rw long (
          rest
          ∙ sym (
              drop-suc long_ids (length (keys actions) - limit) k (keys actions)
                (ground (arith, long, size))))
      | inr short ↦
          rw short (sym (drop_zero long_ids (k ∷ keys actions) (ground (arith, short, size))))
    ]

pub keys-submit :
    (envelope : ActionEnvelope) (t : ActionTracker)
    → keys (submit envelope t).0.actions
      ≡ newest t.max_history (added envelope.action_id (keys t.actions))
unfolding submit trim
keys-submit envelope t =
    keys-trim_from t.max_history (insert envelope.action_id envelope t.actions) _
    ∙ ap (newest t.max_history) (keys-insert envelope.action_id envelope t.actions)

pub submit-max_history :
    (envelope : ActionEnvelope) (t : ActionTracker)
    → (submit envelope t).0.max_history ≡ t.max_history
unfolding submit trim
submit-max_history envelope t = refl

pub update_result-actions :
    (action_id : String) (status : ActionStatus) (error : List String) (changed : Option Payload)
    (t : ActionTracker)
    → let t' = (update_result action_id status error changed t).0 in
      (t'.actions ≡ t.actions) × (t'.max_history ≡ t.max_history)
unfolding update_result
update_result-actions action_id status error changed t =
    elim (Option-cases (lookup action_id t.results)) [
      | inl unknown ↦ rw (unknown, update_result) (refl, refl)
      | inr (old, known) ↦ rw (known, update_result) (refl, refl)
    ]

erase_first :
    {V : Type 0} (k : String) (ks : List String) (d : Dict String V)
    → keys d ≡ k ∷ ks
    → contains k ks ≡ false
    → keys (erase k d) ≡ ks
unfolding erase
erase_first k ks [] e absent = absurd (cc)
erase_first k ks ((j, v) ∷ d) e absent =
    let same : j ≡ k = cc in
    let rest : keys d ≡ ks = cc in
    let gone = erase_absent k d (rw rest absent) in
    let head : (j == k) ≡ true = rw same (==-self k) in rw (head, gone) rest

trim_from-IsTracked :
    (limit : ℕ) (actions : Dict String ActionEnvelope) (results : Dict String ActionResult)
    → keys results ≡ keys actions
    → Distinct (keys actions)
    → let (actions', results') = trim_from limit actions results in
      (keys results' ≡ keys actions') × Distinct (keys actions') × (length actions' ≤ limit)
unfolding trim_from
trim_from-IsTracked limit [] results same distinct = (same, tt, omega arith)
trim_from-IsTracked limit ((k, a) ∷ actions) results same distinct =
    let rest =
      trim_from-IsTracked limit actions (erase k results)
        (erase_first k (keys actions) results same distinct.0) distinct.1 in
    elim (Bool-cases (ltb limit (suc (length actions)))) [
      | inl long ↦ rw long rest
      | inr short ↦ rw short (same, distinct, ground arith)
    ]

-- Submitting keeps the tracker in order.
pub submit-IsTracked :
    (envelope : ActionEnvelope) (t : ActionTracker) → IsTracked t → IsTracked (submit envelope t).0
unfolding submit trim
submit-IsTracked envelope t h =
    let tracked =
      trim_from-IsTracked t.max_history _ _
        (keys-insert_eq envelope.action_id (pending_result envelope.action_id) envelope t.results
          t.actions h.in_step)
        (insert-Distinct envelope.action_id envelope t.actions h.distinct) in
    record { in_step = tracked.0; distinct = tracked.1; bounded = tracked.2 }

keys-insert_present :
    {V : Type 0} (k : String) (v w : V) (d : Dict String V)
    → lookup k d ≡ some v
    → keys (insert k w d) ≡ keys d
unfolding insert lookup
keys-insert_present k v w [] h = absurd (cc)
keys-insert_present k v w ((j, x) ∷ d) h =
    ground (arith, string_eq.same_iff j k, keys-insert_present k v w d)

-- An answer changes neither which actions are tracked nor their order.
pub update_result-IsTracked :
    (action_id : String) (status : ActionStatus) (error : List String) (changed : Option Payload)
    (t : ActionTracker)
    → IsTracked t
    → IsTracked (update_result action_id status error changed t).0
unfolding update_result
update_result-IsTracked action_id status error changed t h =
    elim (Option-cases (lookup action_id t.results)) [
      | inl unknown ↦ rw (unknown, update_result) h
      | inr (old, known) ↦
          rw (known, update_result)
            (record {
              in_step = keys-insert_present action_id old _ t.results known ∙ h.in_step;
              distinct = h.distinct;
              bounded = h.bounded;
            })
    ]
