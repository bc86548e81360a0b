-- ===== src/Bridge/Client.antt =====
-- The GameScript half of src/nttd/bridge/admin_client.py: requests, the packets of their replies, and
-- the loss of the stream. `send_gamescript` is cut at its await: `send`, then `finish` once its event
-- is set or `time_out`. An event is set or not; the callbacks of game events keep no state here, and
-- `_reconnect_loop` sleeps and reads the socket. J is the type of JSON values, `array` the list of them.
pub mod Merge
pub mod Requests
pub mod Delivery
pub mod Described
pub mod Release
use nttd.Prelude.{
  ℕ, suc, ◌+◌, ◌-◌, String, Bool, true, false, Option, none, some, List, [], ◌∷◌, ◌++◌, ◌==◌, ltb,
  leb, length, HasEq, string_eq, nat_eq, arith, if◌then◌else◌, ◌≡◌, refl, ◌↔◌, nat_eqb,
}
use nttd.Prelude.Dict.{Dict, keys, lookup, insert, erase}
use nttd.Prelude.Distinct.{contains}

-- `f"gs_{counter}"`, and any other string that a packet may carry.
pub data CorrelationId : Type 0 where
  gs : ℕ → CorrelationId
  foreign : String → CorrelationId

abbrev same_id : CorrelationId → CorrelationId → Bool
same_id (gs m) (gs n) = nat_eqb m n
same_id (gs m) (foreign t) = false
same_id (foreign s) (gs n) = false
same_id (foreign s) (foreign t) = s == t

pub same_id_iff : (i j : CorrelationId) → (same_id i j ≡ true) ↔ (i ≡ j)
same_id_iff (gs m) (gs n) = ground (arith, nat_eq.same_iff m n)
same_id_iff (gs m) (foreign t) = ground arith
same_id_iff (foreign s) (gs n) = ground arith
same_id_iff (foreign s) (foreign t) = ground (arith, string_eq.same_iff s t)

instance abbrev pub id_eq : HasEq CorrelationId
id_eq = record { same = same_id; same_iff = same_id_iff }

-- The `result` of a packet: a list, or a single value.
pub data Outcome (J : Type 0) : Type 0 where
  items : List J → Outcome J
  value : J → Outcome J

-- The fields that explain a verdict; none where the packet lacks one.
pub record Explanation (J : Type 0) : Type 0 where
  pub error : Option J
  pub error_code : Option J
  pub error_category : Option J
  pub error_name : Option J
  pub reason : Option J

-- A packet of a reply: its fields `id`, `_event`, `success`, `result`, `_chunk`, `_total`, `_key` and
-- `_meta`, none where a field is missing.
pub record Chunk (J : Type 0) : Type 0 where
  pub correlation_id : CorrelationId
  pub is_event : Bool
  pub success : Option Bool
  pub result : Option (Outcome J)
  pub number : Option ℕ
  pub total : Option ℕ
  pub key : Option String
  pub meta : Option (Dict String J)
  pub explanation : Explanation J

pub record AdminClient (J : Type 0) : Type 0 where
  pub connected : Bool
  pub gs_counter : ℕ
  pub gs_responses : Dict CorrelationId (List (Chunk J))
  pub gs_events : Dict CorrelationId Bool
  pub gs_totals : Dict CorrelationId ℕ
  pub unparseable_total : ℕ
  pub unparseable_streak : ℕ
  pub resyncs : ℕ

-- What a GameScript packet holds: no JSON, JSON that is no object, or an object.
pub data Packet (J : Type 0) : Type 0 where
  unreadable : Packet J
  not_object : Packet J
  object : Chunk J → Packet J

abbrev pub or_else : {A : Type 0} → Option A → A → A
or_else none default = default
or_else (some a) default = a

-- `for event in self._gs_events.values(): event.set()`
unfoldable pub set_all : Dict CorrelationId Bool → Dict CorrelationId Bool
set_all [] = []
set_all ((i, event) ∷ events) = (i, true) ∷ set_all events

module _ {J : Type 0} where
  unfoldable pub new : AdminClient J
  new = record {
    connected = false;
    gs_counter = 0;
    gs_responses = [];
    gs_events = [];
    gs_totals = [];
    unparseable_total = 0;
    unparseable_streak = 0;
    resyncs = 0;
  }

  -- `send_gamescript` up to its await: the id that it waits for, and the count of unparseable packets
  -- that it noted. Where `_send` raises, the request stays registered, as one that never finishes.
  unfoldable pub send : AdminClient J → AdminClient J × CorrelationId × ℕ
  send c =
      let id = gs (suc c.gs_counter) in
      (
        record c {
          gs_counter = suc c.gs_counter;
          gs_responses = insert id [] c.gs_responses;
          gs_events = insert id false c.gs_events;
          gs_totals = insert id 1 c.gs_totals;
        },
        id,
        c.unparseable_total,
      )

  -- The chunk is kept behind those that came before it, and the event is set with the last one.
  unfoldable pub append_chunk : Chunk J → List (Chunk J) → AdminClient J → AdminClient J
  append_chunk packet chunks c =
      let id = packet.correlation_id in
      let total = or_else packet.total 1 in
      let received = chunks ++ packet ∷ [] in
      record c {
        gs_totals = insert id total c.gs_totals;
        gs_responses = insert id received c.gs_responses;
        gs_events =
            (if leb total (length received) then insert id true c.gs_events else c.gs_events);
      }

  -- none is a KeyError of `self._gs_responses[cid]`.
  unfoldable pub handle_gs_response : Chunk J → AdminClient J → Option (AdminClient J)
  handle_gs_response packet c =
      if packet.is_event
      then some c
      else if contains packet.correlation_id (keys c.gs_events)
      then (elim (lookup packet.correlation_id c.gs_responses) [
        | none ↦ none
        | some chunks ↦ some (append_chunk packet chunks c)
      ])
      else some c

  -- Every waiter is released and the connection given up: what the loss of the connection does in
  -- `poll_loop`.
  unfoldable pub lose_connection : AdminClient J → AdminClient J
  unfolding set_all
  lose_connection c = record c { connected = false; gs_events = set_all c.gs_events }

  -- `_note_unparseable`, up to its reconnect loop: whether that loop is run.
  unfoldable pub note_unparseable : AdminClient J → AdminClient J × Bool
  unfolding lose_connection
  note_unparseable c =
      let c₁ = record c {
        unparseable_total = suc c.unparseable_total;
        unparseable_streak = suc c.unparseable_streak;
      } in
      if ltb c₁.unparseable_streak 3
      then (c₁, false)
      else (lose_connection (record c₁ { resyncs = suc c.resyncs; unparseable_streak = 0 }), true)

  -- A GameScript packet in `poll_loop`. The streak ends as soon as the JSON is read, also where it is
  -- no object and `data.get` then raises the AttributeError.
  unfoldable pub receive : Packet J → AdminClient J → Option (AdminClient J)
  unfolding note_unparseable handle_gs_response
  receive unreadable c = some (note_unparseable c).0
  receive not_object c = some (note_unparseable (record c { unparseable_streak = 0 })).0
  receive (object packet) c = handle_gs_response packet (record c { unparseable_streak = 0 })
