-- ===== src/Session/Batch/Sent.antt =====
-- What a batch of src/nttd/runtime/orchestrator.py does to the game and to the stored tiles.
use nttd.Prelude.{
  ◌≡◌, refl, sym, ◌∙◌, ap, String, Bool, true, false, Option, none, some, List, [], ◌∷◌, string_eq,
  if◌then◌else◌, ◌||◌, Bool-cases, Option-cases, inl, inr, ℕ, suc, filter, arith,
}
use nttd.Prelude.Dict.{Dict}
use nttd.Prelude.Distinct.{contains}
use nttd.Prelude.Int.{ℤ}
use nttd.Json.{Payload}
use nttd.EndConditions.{start_clock}
use nttd.Actions.Vocabulary.{known_actions}
use nttd.Actions.Gate.{ActionStatus, failed, admit, admit_iff}
use nttd.Actions.Reply.{Reply, result_from_reply}
use nttd.Actions.Tracker.{ActionEnvelope, submit}
use nttd.Session.Batch.{
  company_named, Game, Entry, Session, note, refresh_changed_tiles, fail, envelope_of, conclude,
  run_action, execute_action, execute_all, execute_actions, when, refusal_text,
}

-- An entry that names no action.
pub unnamed_unknown : contains "" known_actions ≡ false
unfolding contains
unnamed_unknown = refl

result_from_reply-id :
    (codes categories : Dict ℤ String) (i j : String) (reply : Reply)
    → let r = result_from_reply codes categories i reply in
      let q = result_from_reply codes categories j reply in
      (r.status ≡ q.status) × (r.changed_entities ≡ q.changed_entities)
unfolding result_from_reply
result_from_reply-id codes categories i j reply = ground arith

filter-nil : {A : Type 0} (p : A → Bool) → filter p [] ≡ []
unfolding filter
filter-nil p = refl

filter-cons :
    {A : Type 0} (p : A → Bool) (x : A) (xs : List A)
    → (p x ≡ true → filter p (x ∷ xs) ≡ x ∷ filter p xs)
      × (p x ≡ false → filter p (x ∷ xs) ≡ filter p xs)
unfolding filter
filter-cons p x xs = (λ h. rw h refl, λ h. rw h refl)

abbrev is_missing : {A : Type 0} → Option A → Bool
is_missing none = true
is_missing (some a) = false

or_true : (b : Bool) → (b || true) ≡ true
or_true true = refl
or_true false = refl

or_false : (b : Bool) → (b || false) ≡ b
or_false true = refl
or_false false = refl

module _ {W T : Type 0} (game : Game W T) (codes categories : Dict ℤ String) where
  -- The world and the stored tiles.
  abbrev pub Ground : Type 0
  Ground = W × Option (List (List T))

  abbrev pub ground_of : Session W T → Ground
  ground_of s = (s.world, s.deltas)

  abbrev pub answered_with : String → Payload → Reply → Ground → Ground
  answered_with action params reply (w, deltas) =
      let outcome = result_from_reply codes categories "" reply in
      let after =
        refresh_changed_tiles game action params outcome.status outcome.changed_entities w deltas in
      (after.0, after.1)

  abbrev pub sent : String → Payload → Ground → Ground
  sent action params (w, deltas) =
      let (w₁, reply) = game.send_gamescript action params w in
      elim reply [
        | none ↦ (w₁, deltas)
        | some answer ↦ answered_with action params answer (w₁, deltas)
      ]

  -- What an entry does to the game, if its envelope takes its company: nothing, unless its action is in
  -- the vocabulary and the bridge is connected.
  abbrev pub act : Entry → Ground → Ground
  act entry (w, deltas) =
      if contains entry.action known_actions
      then (if game.connected w then sent entry.action entry.params (w, deltas) else (w, deltas))
      else (w, deltas)

  abbrev pub act_all : List Entry → Ground → Ground
  act_all [] g = g
  act_all (entry ∷ entries) g = elim (company_named game entry) [
    | none ↦ g
    | some company_id ↦ act_all entries (act entry g)
  ]

  act_all-bad :
      (entry : Entry) (entries : List Entry) (g : Ground)
      → company_named game entry ≡ none
      → act_all (entry ∷ entries) g ≡ g
  act_all-bad entry entries g bad = rw (bad, act_all) refl

  act_all-named :
      (entry : Entry) (entries : List Entry) (g : Ground) (company_id : ℤ)
      → company_named game entry ≡ some company_id
      → act_all (entry ∷ entries) g ≡ act_all entries (act entry g)
  act_all-named entry entries g company_id named = rw (named, act_all) refl

  module _ (fresh : ℕ → String) where
    fail-ground :
        (envelope : ActionEnvelope) (status : ActionStatus) (error : List String) (s : Session W T)
        → ground_of (fail game envelope status error s).0 ≡ ground_of s
    unfolding fail note
    fail-ground envelope status error s = refl

    conclude-ground :
        (envelope : ActionEnvelope) (reply : Reply) (s : Session W T)
        → ground_of (conclude game fresh codes categories envelope reply s).0
          ≡ answered_with envelope.action_type envelope.parameters reply (ground_of s)
    unfolding conclude note fail
    conclude-ground envelope reply s =
        let ids = result_from_reply-id codes categories envelope.action_id "" reply in
        ground (arith, ids)

    run_action-ground :
        (envelope : ActionEnvelope) (s : Session W T)
        → ground_of (run_action game fresh codes categories envelope s).0
          ≡ sent envelope.action_type envelope.parameters (ground_of s)
    unfolding run_action
    run_action-ground envelope s =
        let reply = game.send_gamescript envelope.action_type envelope.parameters s.world in
        let s₁ = record s { world = reply.0 } in
        elim (Option-cases reply.1) [
          | inl raised ↦
              let after = fail-ground envelope failed ("exception during execution" ∷ []) s₁ in
              ground (arith, raised, after)
          | inr (answer, found) ↦
              let after = conclude-ground envelope answer s₁ in ground (arith, found, after)
        ]

    execute_action-ground :
        (company_id : ℤ) (entry : Entry) (s : Session W T)
        → ground_of (execute_action game fresh codes categories company_id entry s).0
          ≡ act entry (ground_of s)
    unfolding execute_action
    execute_action-ground company_id entry s =
        let envelope = envelope_of game fresh codes categories company_id entry s in
        let submitted = record s {
          minted = suc s.minted;
          tracker = when (λ t. (submit envelope t).0) s.tracker;
        } in
        let admission = admit entry.action envelope.company_id in
        let known = (admit_iff entry.action envelope.company_id).0 in
        let refused =
          fail-ground envelope admission.status (refusal_text admission.error) submitted in
        let offline = fail-ground envelope failed ("Not connected to OpenTTD" ∷ []) submitted in
        let ran = run_action-ground envelope submitted in
        ground
          (arith, known, refused, offline, ran, string_eq.same_iff entry.action "", unnamed_unknown)

    pub execute_all-ground :
        (entries : List Entry) (s : Session W T)
        → ground_of (execute_all game fresh codes categories entries s).0
          ≡ act_all entries (ground_of s)
    unfolding execute_all
    execute_all-ground [] s = refl
    execute_all-ground (entry ∷ entries) s = elim (Option-cases (company_named game entry)) [
      | inl bad ↦ rw (bad, execute_all) (sym (act_all-bad entry entries (ground_of s) bad))
      | inr (company_id, named) ↦
          let s₁ = (execute_action game fresh codes categories company_id entry s).0 in
          rw (named, execute_all)
            (execute_all-ground entries s₁
              ∙ ap (act_all entries) (execute_action-ground company_id entry s)
              ∙ sym (act_all-named entry entries (ground_of s) company_id named))
    ]

  act-unknown :
      (entry : Entry) (g : Ground) → contains entry.action known_actions ≡ false → act entry g ≡ g
  act-unknown entry g unknown = rw unknown refl

  -- Whether an entry has an effect: its action is in the vocabulary, or it ends the batch.
  abbrev pub counts : Entry → Bool
  counts entry = contains entry.action known_actions || is_missing (company_named game entry)

  abbrev pub vocabulary_only : List Entry → List Entry
  vocabulary_only = filter counts

  act_all-filter :
      (entries : List Entry) (g : Ground) → act_all entries g ≡ act_all (vocabulary_only entries) g
  act_all-filter [] g = ap (λ es. act_all es g) (sym (filter-nil counts))
  act_all-filter (entry ∷ entries) g =
      let cons = filter-cons counts entry entries in
      let allowed = vocabulary_only entries in
      let to = λ (es : List Entry). act_all es g in
      elim (Option-cases (company_named game entry)) [
        | inl bad ↦
            let kept : counts entry ≡ true =
              rw bad (or_true (contains entry.action known_actions)) in
            act_all-bad entry entries g bad
            ∙ sym (ap to (cons.0 kept) ∙ act_all-bad entry allowed g bad)
        | inr (company_id, named) ↦
            let same : counts entry ≡ contains entry.action known_actions =
              rw named (or_false (contains entry.action known_actions)) in
            let rest =
              act_all-named entry entries g company_id named
              ∙ act_all-filter entries (act entry g) in
            elim (Bool-cases (contains entry.action known_actions)) [
              | inl known ↦
                  rest
                  ∙ sym (
                      ap to (cons.0 (same ∙ known))
                      ∙ act_all-named entry allowed g company_id named)
              | inr unknown ↦
                  rest
                  ∙ ap (act_all allowed) (act-unknown entry g unknown)
                  ∙ sym (ap to (cons.1 (same ∙ unknown)))
            ]
      ]

  -- A batch leaves the game and the stored tiles as if its entries that are refused, or name no action,
  -- had not been in it, except those whose company is no int: such an entry ends the batch.
  pub execute_actions-filter :
      (fresh : ℕ → String) (entries : List Entry) (s : Session W T)
      → ground_of (execute_actions game fresh codes categories entries s).0
        ≡ ground_of (execute_actions game fresh codes categories (vocabulary_only entries) s).0
  unfolding execute_actions
  execute_actions-filter fresh entries s =
      let allowed = vocabulary_only entries in
      let s₁ = record s {
        checker = (start_clock (game.now s.world) (game.game_date s.world) s.checker).0;
      } in
      execute_all-ground fresh entries s₁
      ∙ act_all-filter entries (ground_of s)
      ∙ sym (execute_all-ground fresh allowed s₁)
