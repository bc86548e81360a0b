-- ===== src/Session/Batch.antt =====
-- `_execute_actions` and `refresh_changed_tiles` of src/nttd/runtime/orchestrator.py: a batch of actions,
-- one at a time. The game behind the bridge is an interface; a call that raises answers none. The locks
-- of the companies only order batches that overlap, and logging is left out. `fresh` mints the ids, and
-- codes and categories are the tables of the game's errors. W is the state of the game, T that of a tile.
pub mod Sent
pub mod Raised
pub mod Tracked
pub mod Kept
use nttd.Prelude.{
  ℕ, suc, String, Bool, true, false, not, Option, none, some, List, [], ◌∷◌, ◌++◌, ◌==◌, string_eq,
  if◌then◌else◌,
}
use nttd.Prelude.Dict.{Dict, lookup}
use nttd.Prelude.Int.{ℤ, pos, negsuc}
use nttd.Json.{Value, null, flag, number, fraction, str, items, table, Payload}
use nttd.EndConditions.{EndConditionChecker, start_clock}
use nttd.Actions.Gate.{
  ActionStatus, pending, validated, rejected, executing, success, failed, partial, blocked, Refusal,
  no_refusal, operator_tier, read_only_query, unknown_action, admit,
}
use nttd.Actions.Reply.{Reply, ActionResult, result_from_reply}
use nttd.Actions.Tracker.{ActionEnvelope, ActionTracker, submit, update_result}
use nttd.Session.Footprint.{Area, Affected, type_error, nothing, area, affected_area}
use nttd.Session.Refresh.{TileReply, read_tile_area}

-- What the orchestrator asks of the bridge and of the world model.
pub record Game (W T : Type 0) : Type 0 where
  pub connected : W → Bool
  -- What pydantic reads of a text as an int; none where it refuses it.
  pub int_of_text : String → Option ℤ
  pub send_gamescript : String → Payload → W → W × Option Reply
  pub get_tile_area : Area → W → W × TileReply T
  -- 256 where the world does not know.
  pub map_width : W → ℕ
  pub map_height : W → ℕ
  pub game_date : W → Option ℤ
  pub now : W → ℕ

-- An action of a batch: `action`, a text, empty where it is missing, and `params`.
pub record Entry : Type 0 where
  pub action : String
  pub params : Payload

pub record ActionRow : Type 0 where
  pub envelope : ActionEnvelope
  pub status : ActionStatus
  pub error : List String
  pub changed : Payload

pub record Outcome : Type 0 where
  pub action_type : String
  pub result : ActionResult

-- The parts of the session that a batch changes; none where the session has no tracker, no recorder or
-- no store of tiles.
pub record Session (W T : Type 0) : Type 0 where
  pub world : W
  pub checker : EndConditionChecker
  pub tracker : Option ActionTracker
  pub rows : Option (List ActionRow)
  pub deltas : Option (List (List T))
  pub minted : ℕ

abbrev pub when : {A : Type 0} → (A → A) → Option A → Option A
when f none = none
when f (some a) = some (f a)

abbrev is_rejected : ActionStatus → Bool
is_rejected rejected = true
is_rejected _ = false

abbrev pub refusal_text : Refusal → List String
refusal_text no_refusal = []
refusal_text (operator_tier action) = action ∷ " is operator-tier" ∷ []
refusal_text (read_only_query action) = action ∷ " is a read-only query, not an action" ∷ []
refusal_text (unknown_action action) = "Unknown action_type: " ∷ action ∷ []

abbrev of_flag : Bool → ℤ
of_flag true = pos 1
of_flag false = pos 0

-- The `company_id` that an `ActionEnvelope` takes, -1 where it is missing; none is a ValidationError.
abbrev pub company_id_of : (String → Option ℤ) → Option Value → Option ℤ
company_id_of int_of_text none = some (negsuc 0)
company_id_of int_of_text (some (number n)) = some n
company_id_of int_of_text (some (flag b)) = some (of_flag b)
company_id_of int_of_text (some (str s)) = int_of_text s
company_id_of int_of_text (some null) = none
company_id_of int_of_text (some (fraction n)) = none
company_id_of int_of_text (some (items entries)) = none
company_id_of int_of_text (some table) = none

-- A reading that raised, or brought no tiles, writes nothing.
abbrev pub write_delta : {T : Type 0} → Option (List T) → List (List T) → List (List T)
write_delta none written = written
write_delta (some []) written = written
write_delta (some (tile ∷ tiles)) written = written ++ ((tile ∷ tiles) ∷ [])

module _ {W T : Type 0} (game : Game W T) where
  -- The world, the tiles that are stored, and whether a TypeError of `affected_area` is raised.
  abbrev pub refresh_area : Affected → W → List (List T) → W × Option (List (List T)) × Bool
  refresh_area type_error w written = (w, some written, true)
  refresh_area nothing w written = (w, some written, false)
  refresh_area (area a) w written =
      let (w₁, tiles) = read_tile_area game.get_tile_area a w in
      (w₁, some (write_delta tiles written), false)

  unfoldable pub refresh_changed_tiles :
      String
      → Payload
      → ActionStatus
      → (changed : Payload) → W
      → Option (List (List T))
      → W × Option (List (List T)) × Bool
  refresh_changed_tiles action params status changed w none = (w, none, false)
  refresh_changed_tiles action params status changed w (some written) =
      if is_rejected status
      then (w, some written, false)
      else refresh_area (affected_area action params changed (game.map_width w) (game.map_height w))
          w written

  -- `update_result` and `_record_action`, in the order of the source.
  unfoldable pub note :
      ActionEnvelope → ActionStatus → List String → Option Payload → Session W T → Session W T
  note envelope status error changed s =
      let row : ActionRow = record {
        envelope = envelope;
        status = status;
        error = error;
        changed = elim changed [ none ↦ [] | some c ↦ c ];
      } in
      record s {
        tracker = when (λ t. (update_result envelope.action_id status error changed t).0) s.tracker;
        rows = when (λ rows. rows ++ (row ∷ [])) s.rows;
      }

  -- An outcome that nothing of the game is known of.
  unfoldable pub fail :
      ActionEnvelope → ActionStatus → List String → Session W T → Session W T × Option Outcome
  fail envelope status error s = (
    note envelope status error none s,
    some (record {
      action_type = envelope.action_type;
      result = record {
        action_id = envelope.action_id;
        status = status;
        error = error;
        error_code = none;
        error_name = "";
        error_category = "";
        changed_entities = [];
      };
    }),
  )

  -- The company of an entry, which is not read where it names no action.
  abbrev pub company_named : Entry → Option ℤ
  company_named entry =
      if entry.action == ""
      then some (negsuc 0)
      else company_id_of game.int_of_text (lookup "company_id" entry.params)

  module _ (fresh : ℕ → String) (codes categories : Dict ℤ String) where
    abbrev pub envelope_of : (company_id : ℤ) → Entry → Session W T → ActionEnvelope
    envelope_of company_id entry s = record {
      action_id = fresh s.minted;
      company_id = company_id;
      action_type = entry.action;
      parameters = entry.params;
    }

    -- What the game answered is noted and the tiles are read again; a TypeError on the way is caught as
    -- any other exception is.
    unfoldable pub conclude : ActionEnvelope → Reply → Session W T → Session W T × Option Outcome
    conclude envelope reply s =
        let outcome = result_from_reply codes categories envelope.action_id reply in
        let noted = note envelope outcome.status outcome.error (some outcome.changed_entities) s in
        let (w, deltas, raised) =
          refresh_changed_tiles envelope.action_type envelope.parameters outcome.status
            outcome.changed_entities noted.world noted.deltas in
        let refreshed = record noted { world = w; deltas = deltas } in
        if raised
        then fail envelope failed ("exception during execution" ∷ []) refreshed
        else (refreshed, some (record { action_type = envelope.action_type; result = outcome }))

    unfoldable pub run_action : ActionEnvelope → Session W T → Session W T × Option Outcome
    run_action envelope s =
        let (w, reply) = game.send_gamescript envelope.action_type envelope.parameters s.world in
        elim reply [
          | none ↦ fail envelope failed ("exception during execution" ∷ []) (record s { world = w })
          | some answer ↦ conclude envelope answer (record s { world = w })
        ]

    -- One round of the loop, once the envelope has its company: none is an entry that names no action.
    unfoldable pub execute_action :
        (company_id : ℤ) → Entry → Session W T → Session W T × Option Outcome
    execute_action company_id entry s =
        let envelope = envelope_of company_id entry s in
        let submitted = record s {
          minted = suc s.minted;
          tracker = when (λ t. (submit envelope t).0) s.tracker;
        } in
        let admission = admit entry.action envelope.company_id in
        if entry.action == ""
        then (s, none)
        else if not admission.allowed
        then fail envelope admission.status (refusal_text admission.error) submitted
        else if not (game.connected s.world)
        then fail envelope failed ("Not connected to OpenTTD" ∷ []) submitted
        else run_action envelope submitted

    abbrev pub collect : Option Outcome → Option (List Outcome) → Option (List Outcome)
    collect none outcomes = outcomes
    collect (some outcome) none = none
    collect (some outcome) (some outcomes) = some (outcome ∷ outcomes)

    -- none is the ValidationError of an envelope, which ends the batch: its id is minted by then.
    unfoldable pub execute_all : List Entry → Session W T → Session W T × Option (List Outcome)
    execute_all [] s = (s, some [])
    execute_all (entry ∷ entries) s = elim (company_named entry) [
      | none ↦ (record s { minted = suc s.minted }, none)
      | some company_id ↦
          let (s₁, outcome) = execute_action company_id entry s in
          let (s₂, outcomes) = execute_all entries s₁ in (s₂, collect outcome outcomes)
    ]

    unfoldable pub execute_actions : List Entry → Session W T → Session W T × Option (List Outcome)
    execute_actions entries s = execute_all entries (record s {
      checker = (start_clock (game.now s.world) (game.game_date s.world) s.checker).0;
    })
