-- ===== src/Session/Batch/Tracked.antt =====
-- The tracker over a batch of src/nttd/runtime/orchestrator.py.
use mathlib.Core.Path.{subst}
use nttd.Prelude.{
  ℕ, suc, ◌≡◌, refl, ◌∙◌, ap, String, true, false, if◌then◌else◌, Option, none, some, List, [], ◌∷◌,
  ◌==◌, string_eq, Bool-cases, Option-cases, inl, inr,
}
use nttd.Prelude.Dict.{Dict, keys}
use nttd.Prelude.Int.{ℤ}
use nttd.Json.{Payload}
use nttd.EndConditions.{start_clock}
use nttd.Actions.Gate.{ActionStatus, failed, admit}
use nttd.Actions.Reply.{Reply, result_from_reply}
use nttd.Actions.Tracker.{ActionEnvelope, ActionTracker, submit, update_result}
use nttd.Actions.Tracker.History.{
  IsTracked, added, newest, submit-IsTracked, update_result-IsTracked, keys-submit,
  submit-max_history, update_result-actions,
}
use nttd.Session.Batch.{
  Game, Entry, Session, note, refresh_changed_tiles, fail, envelope_of, conclude, run_action,
  execute_action, execute_all, execute_actions, when, refusal_text, company_named,
}

-- The session has a tracker, which is in order and tracks these ids.
abbrev IsTracking : (limit : ℕ) → (ids : List String) → Option ActionTracker → Type 0
IsTracking limit ids tracker =
    (t : ActionTracker) × (tracker ≡ some t)
    × IsTracked t
    × (keys t.actions ≡ ids)
    × (t.max_history ≡ limit)

-- As many ids are minted, and the tracker of the session tracks these.
abbrev pub IsInOrder :
    {W T : Type 0} → (limit : ℕ) → (ids : List String) → (minted : ℕ) → Session W T → Type 0
IsInOrder limit ids minted s = (s.minted ≡ minted) × IsTracking limit ids s.tracker

-- The ids that a history tracks after these were submitted one by one.
abbrev pub history : (limit : ℕ) → (ids : List String) → (submitted : List String) → List String
history limit ids [] = ids
history limit ids (id ∷ submitted) = history limit (newest limit (added id ids)) submitted

module _ {W T : Type 0} (game : Game W T) (fresh : ℕ → String)
    (codes categories : Dict ℤ String) where
  -- The ids that a batch submits: one for each entry that names an action, up to the first whose company
  -- is no int.
  abbrev pub ids_of : List Entry → (minted : ℕ) → List String
  ids_of [] minted = []
  ids_of (entry ∷ entries) minted = elim (company_named game entry) [
    | none ↦ []
    | some company_id ↦
        if entry.action == ""
        then ids_of entries minted
        else fresh minted ∷ ids_of entries (suc minted)
  ]

  submit-IsTracking :
      (limit : ℕ) (ids : List String) (envelope : ActionEnvelope) (tracker : Option ActionTracker)
      → IsTracking limit ids tracker
      → IsTracking limit
          (newest limit (added envelope.action_id ids))
          (when (λ t. (submit envelope t).0) tracker)
  submit-IsTracking limit ids envelope tracker (t, known, tracked, same, size) = (
    (submit envelope t).0,
    ap (when (λ (t : ActionTracker). (submit envelope t).0)) known,
    submit-IsTracked envelope t tracked,
    keys-submit envelope t
        ∙ ap (λ n. newest n (added envelope.action_id (keys t.actions))) size
        ∙ ap (λ known. newest limit (added envelope.action_id known)) same,
    submit-max_history envelope t ∙ size,
  )

  update-IsTracking :
      (limit : ℕ) (ids : List String) (envelope : ActionEnvelope) (status : ActionStatus)
      (error : List String) (changed : Option Payload) (tracker : Option ActionTracker)
      → IsTracking limit ids tracker
      → IsTracking limit ids
          (when (λ t. (update_result envelope.action_id status error changed t).0) tracker)
  update-IsTracking limit ids envelope status error changed tracker
        (t, known, tracked, same, size) =
      let updated =
        λ (t : ActionTracker). (update_result envelope.action_id status error changed t).0 in
      let kept = update_result-actions envelope.action_id status error changed t in
      (
        updated t,
        ap (when updated) known,
        update_result-IsTracked envelope.action_id status error changed t tracked,
        ap keys kept.0 ∙ same,
        kept.1 ∙ size,
      )

  module _ (limit : ℕ) (ids : List String) (n : ℕ) where
    note-IsInOrder :
        (envelope : ActionEnvelope) (status : ActionStatus) (error : List String)
        (changed : Option Payload) (s : Session W T)
        → IsInOrder limit ids n s
        → IsInOrder limit ids n (note game envelope status error changed s)
    unfolding note
    note-IsInOrder envelope status error changed s (minted, h) =
        (minted, update-IsTracking limit ids envelope status error changed s.tracker h)

    fail-IsInOrder :
        (envelope : ActionEnvelope) (status : ActionStatus) (error : List String) (s : Session W T)
        → IsInOrder limit ids n s
        → IsInOrder limit ids n (fail game envelope status error s).0
    unfolding fail
    fail-IsInOrder envelope status error s h = note-IsInOrder envelope status error none s h

    conclude-IsInOrder :
        (envelope : ActionEnvelope) (reply : Reply) (s : Session W T)
        → IsInOrder limit ids n s
        → IsInOrder limit ids n (conclude game fresh codes categories envelope reply s).0
    unfolding conclude
    conclude-IsInOrder envelope reply s h =
        let outcome = result_from_reply codes categories envelope.action_id reply in
        let noted =
          note game envelope outcome.status outcome.error (some outcome.changed_entities) s in
        let kept =
          note-IsInOrder envelope outcome.status outcome.error (some outcome.changed_entities) s
            h in
        let after =
          refresh_changed_tiles game envelope.action_type envelope.parameters outcome.status
            outcome.changed_entities noted.world noted.deltas in
        elim (Bool-cases after.2) [
          | inl raised ↦ rw raised (
              fail-IsInOrder envelope failed ("exception during execution" ∷ [])
                (record noted { world = after.0; deltas = after.1 }) kept)
          | inr fine ↦ rw fine kept
        ]

    run_action-IsInOrder :
        (envelope : ActionEnvelope) (s : Session W T)
        → IsInOrder limit ids n s
        → IsInOrder limit ids n (run_action game fresh codes categories envelope s).0
    unfolding run_action
    run_action-IsInOrder envelope s h =
        let reply = game.send_gamescript envelope.action_type envelope.parameters s.world in
        let s₁ = record s { world = reply.0 } in
        elim (Option-cases reply.1) [
          | inl raised ↦
              rw (raised, run_action)
                (fail-IsInOrder envelope failed ("exception during execution" ∷ []) s₁ h)
          | inr (answer, found) ↦ rw (found, run_action) (conclude-IsInOrder envelope answer s₁ h)
        ]

  execute_action-unnamed :
      (company_id : ℤ) (entry : Entry) (s : Session W T)
      → (entry.action == "") ≡ true
      → (execute_action game fresh codes categories company_id entry s).0 ≡ s
  unfolding execute_action
  execute_action-unnamed company_id entry s unnamed = rw unnamed refl

  execute_action-IsInOrder :
      (limit : ℕ) (ids : List String) (n : ℕ) (company_id : ℤ) (entry : Entry) (s : Session W T)
      → (entry.action == "") ≡ false
      → IsInOrder limit ids n s
      → IsInOrder limit
          (newest limit (added (fresh n) ids))
          (suc n)
          (execute_action game fresh codes categories company_id entry s).0
  unfolding execute_action
  execute_action-IsInOrder limit ids n company_id entry s named (minted, h) =
      let envelope = envelope_of game fresh codes categories company_id entry s in
      let submitted = record s {
        minted = suc s.minted;
        tracker = when (λ t. (submit envelope t).0) s.tracker;
      } in
      let ids₁ = newest limit (added (fresh n) ids) in
      let h₁ : IsInOrder limit ids₁ (suc n) submitted = (
        ap suc minted,
        subst (λ k. IsTracking limit (newest limit (added (fresh k) ids)) submitted.tracker) minted
            (submit-IsTracking limit ids envelope s.tracker h),
      ) in
      let admission = admit entry.action envelope.company_id in
      elim (Bool-cases admission.allowed) [
        | inr refused ↦
            rw (named, refused)
              (fail-IsInOrder limit ids₁ (suc n) envelope admission.status
                (refusal_text admission.error) submitted h₁)
        | inl allowed ↦ elim (Bool-cases (game.connected s.world)) [
          | inr offline ↦
              rw (named, allowed, offline)
                (fail-IsInOrder limit ids₁ (suc n) envelope failed ("Not connected to OpenTTD" ∷ [])
                  submitted h₁)
          | inl online ↦
              rw (named, allowed, online)
                (run_action-IsInOrder limit ids₁ (suc n) envelope submitted h₁)
        ]
      ]

  execute_all-IsTracking :
      (limit : ℕ) (ids : List String) (n : ℕ) (entries : List Entry) (s : Session W T)
      → IsInOrder limit ids n s
      → IsTracking limit
          (history limit ids (ids_of entries n))
          (execute_all game fresh codes categories entries s).0.tracker
  unfolding execute_all
  execute_all-IsTracking limit ids n [] s h = h.1
  execute_all-IsTracking limit ids n (entry ∷ entries) s h =
      elim (Option-cases (company_named game entry)) [
        | inl bad ↦ rw (bad, execute_all, ids_of) h.1
        | inr (company_id, company) ↦ elim (Bool-cases (entry.action == "")) [
          | inl unnamed ↦
              rw (company, execute_all, ids_of)
                (rw (unnamed, execute_action-unnamed company_id entry s unnamed)
                  (execute_all-IsTracking limit ids n entries s h))
          | inr named ↦
              rw (company, execute_all, ids_of)
                (rw named (
                  execute_all-IsTracking limit (newest limit (added (fresh n) ids)) (suc n) entries
                    _ (execute_action-IsInOrder limit ids n company_id entry s named h)))
        ]
      ]

  -- Over a batch, whatever becomes of its actions, each action that names itself is submitted under the
  -- next id, in the order of the batch, up to an entry whose company is no int. Of all ids, in the order
  -- of their submission, the tracker keeps the newest, as many as the history allows, with one result for
  -- each, in the same order; an id that is still tracked keeps its place.
  pub execute_actions-IsTracked :
      (entries : List Entry) (s : Session W T) (before : ActionTracker)
      → s.tracker ≡ some before
      → IsTracked before
      → (after : ActionTracker) × ((execute_actions game fresh codes categories entries s).0.tracker
          ≡ some after)
        × IsTracked after
        × (keys after.actions
            ≡ history before.max_history (keys before.actions) (ids_of entries s.minted))
  unfolding execute_actions
  execute_actions-IsTracked entries s before known h =
      let limit = before.max_history in
      let ids = keys before.actions in
      let s₁ = record s {
        checker = (start_clock (game.now s.world) (game.game_date s.world) s.checker).0;
      } in
      let (after, found, tracked, same, size) =
        execute_all-IsTracking limit ids s.minted entries s₁
          (refl, (before, known, h, refl, refl)) in
      (after, found, tracked, same)
