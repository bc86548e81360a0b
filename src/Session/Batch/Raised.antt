-- ===== src/Session/Batch/Raised.antt =====
-- An exception after the game answered, in `_execute_actions` of src/nttd/runtime/orchestrator.py.
use nttd.Prelude.{
  ◌≡◌, refl, ap, String, true, false, Option, none, some, List, [], ◌∷◌, ◌==◌, string_eq, ℕ, suc,
  arith,
}
use nttd.Prelude.Dict.{Dict, lookup}
use nttd.Prelude.Distinct.{contains}
use nttd.Prelude.Int.{ℤ}
use nttd.Json.{Payload}
use nttd.Actions.Vocabulary.{known_actions}
use nttd.Actions.Gate.{ActionStatus, failed, success, admit_iff}
use nttd.Actions.Reply.{Reply, result_from_reply}
use nttd.Actions.Tracker.{ActionEnvelope, submit}
use nttd.Session.Footprint.{type_error, affected_area, points, steps_of}
use nttd.Session.Batch.{
  Game, Entry, Outcome, Session, note, refresh_changed_tiles, fail, envelope_of, conclude,
  run_action, execute_action, when, company_named, execute_all, collect,
}
use nttd.Session.Batch.Sent.{unnamed_unknown}

affected_area-raises :
    (action : String) (params changed : Payload) (map_width map_height : ℕ)
    → contains action known_actions ≡ true
    → steps_of (lookup "steps" params) ≡ none
    → affected_area action params changed map_width map_height ≡ type_error
unfolding affected_area points
affected_area-raises action params changed map_width map_height known bad = rw (known, bad) refl

module _ {W T : Type 0} (game : Game W T) (codes categories : Dict ℤ String)
    (fresh : ℕ → String) where
  refresh-raises :
      (action : String) (params changed : Payload) (status : ActionStatus) (w : W)
      (deltas : Option (List (List T))) (written : List (List T))
      → status ≡ success
      → contains action known_actions ≡ true
      → steps_of (lookup "steps" params) ≡ none
      → deltas ≡ some written
      → refresh_changed_tiles game action params status changed w deltas ≡ (w, some written, true)
  unfolding refresh_changed_tiles
  refresh-raises action params changed status w deltas written ok known bad store =
      rw
        (
          ok,
          store,
          affected_area-raises action params changed (game.map_width w) (game.map_height w) known
              bad,
        )
        refl

  succeeded :
      (id : String) (answer : Reply)
      → answer.success ≡ true
      → (result_from_reply codes categories id answer).status ≡ success
  unfolding result_from_reply
  succeeded id answer ok = ground arith

  -- The outcome that hides an answer.
  abbrev IsLost : W → Session W T × Option Outcome → Type 0
  IsLost w result =
      (result.0.world ≡ w) × ((o : Outcome) × (result.1 ≡ some o) × (o.result.status ≡ failed))

  fail-IsLost :
      (envelope : ActionEnvelope) (error : List String) (s : Session W T)
      → IsLost s.world (fail game envelope failed error s)
  unfolding fail note
  fail-IsLost envelope error s = (refl, (_, refl, refl))

  conclude-raises :
      (envelope : ActionEnvelope) (answer : Reply) (s : Session W T) (written : List (List T))
      → answer.success ≡ true
      → contains envelope.action_type known_actions ≡ true
      → steps_of (lookup "steps" envelope.parameters) ≡ none
      → s.deltas ≡ some written
      → IsLost s.world (conclude game fresh codes categories envelope answer s)
  unfolding conclude note
  conclude-raises envelope answer s written ok known bad store =
      let out = result_from_reply codes categories envelope.action_id answer in
      let noted = note game envelope out.status out.error (some out.changed_entities) s in
      let raises =
        refresh-raises envelope.action_type envelope.parameters out.changed_entities out.status
          noted.world noted.deltas written (succeeded envelope.action_id answer ok) known bad
          store in
      rw raises (
        fail-IsLost envelope ("exception during execution" ∷ [])
          (record noted { deltas = some written }))

  run_action-answered :
      (envelope : ActionEnvelope) (s : Session W T) (w : W) (answer : Reply)
      → game.send_gamescript envelope.action_type envelope.parameters s.world ≡ (w, some answer)
      → run_action game fresh codes categories envelope s
        ≡ conclude game fresh codes categories envelope answer (record s { world = w })
  unfolding run_action
  run_action-answered envelope s w answer answered =
      let said : (game.send_gamescript envelope.action_type envelope.parameters s.world).1
          ≡ some answer =
        ap (λ r. r.1) answered in
      rw (said, run_action)
        (ap (λ r. conclude game fresh codes categories envelope answer (record s { world = r.0 }))
          answered)

  execute_action-raises :
      (company_id : ℤ) (entry : Entry) (s : Session W T) (w : W) (answer : Reply)
      (written : List (List T))
      → contains entry.action known_actions ≡ true
      → game.connected s.world ≡ true
      → game.send_gamescript entry.action entry.params s.world ≡ (w, some answer)
      → answer.success ≡ true
      → steps_of (lookup "steps" entry.params) ≡ none
      → s.deltas ≡ some written
      → IsLost w (execute_action game fresh codes categories company_id entry s)
  unfolding execute_action
  execute_action-raises company_id entry s w answer written known online answered ok bad store =
      let envelope = envelope_of game fresh codes categories company_id entry s in
      let admitted = (admit_iff entry.action envelope.company_id).0.1 known in
      let named : (entry.action == "") ≡ false =
        ground (arith, string_eq.same_iff entry.action "", unnamed_unknown) in
      let before = record s {
        minted = suc s.minted;
        tracker = when (λ t. (submit envelope t).0) s.tracker;
      } in
      let sent = record before { world = w } in
      rw (named, admitted, online, run_action-answered envelope before w answer answered)
        (conclude-raises envelope answer sent written ok known bad store)

  -- An action that the game carried out is reported as failed where its `steps` are a number other than
  -- zero, or `True`: for an action of the vocabulary whose company_id is an int, alone in its batch, on a
  -- connected bridge, with a store of tiles. The exception is raised after the answer, in the choice of
  -- the tiles to read again, and the game stays as it was after the answer.
  pub execute_all-raises :
      (company_id : ℤ) (entry : Entry) (s : Session W T) (w : W) (answer : Reply)
      (written : List (List T))
      → company_named game entry ≡ some company_id
      → contains entry.action known_actions ≡ true
      → game.connected s.world ≡ true
      → game.send_gamescript entry.action entry.params s.world ≡ (w, some answer)
      → answer.success ≡ true
      → steps_of (lookup "steps" entry.params) ≡ none
      → s.deltas ≡ some written
      → let result = execute_all game fresh codes categories (entry ∷ []) s in
        (result.0.world ≡ w)
        × ((o : Outcome) × (result.1 ≡ some (o ∷ [])) × (o.result.status ≡ failed))
  unfolding execute_all
  execute_all-raises company_id entry s w answer written company known online answered ok bad
        store =
      let lost =
        execute_action-raises company_id entry s w answer written known online answered ok bad
          store in
      let (kept, (o, told, status)) = lost in
      rw (company, execute_all) (kept, (o, rw (told, collect) refl, status))
