-- ===== src/Bridge/Client/Delivery.antt =====
-- The event of a request in src/nttd/bridge/admin_client.py: it is set by the last chunk of the reply.
use nttd.Prelude.{
  ℕ, suc, ◌≤◌, ◌≡◌, refl, Bool, true, false, some, string_eq, List, [], ◌∷◌, ◌++◌, ==-self, length,
  length-append, arith, All, All-split,
}
use mathlib.Core.List.{append_assoc}
use nttd.Prelude.Dict.{Dict, keys, lookup, lookup-insert, lookup-insert_self}
use nttd.Prelude.Distinct.{contains, contains-insert}
use nttd.Bridge.Client.{
  CorrelationId, gs, id_eq, Chunk, AdminClient, Packet, unreadable, not_object, object, or_else,
  set_all, send, append_chunk, handle_gs_response, lose_connection, note_unparseable, receive,
}
use nttd.Bridge.Client.Requests.{
  receive_all, chunk_for, chunks_for, IsOrderly, IsWaiting, receive-Received, Received-IsOrderly,
  Received-IsWaiting, append-nil, receive_all-IsWaiting,
}
use nttd.Bridge.Client.Merge.{merge, merge_chunks, finish}

pub set_all-lookup :
    (id : CorrelationId) (events : Dict CorrelationId Bool)
    → contains id (keys events) ≡ true
    → lookup id (set_all events) ≡ some true
unfolding set_all lookup contains
set_all-lookup id [] h = absurd (cc)
set_all-lookup id ((i, event) ∷ events) h = ground (arith, set_all-lookup id events)

module _ {J : Type 0} where
  note_unparseable-event :
      (c : AdminClient J) (id : CorrelationId)
      → contains id (keys c.gs_events) ≡ true
      → lookup id c.gs_events ≡ some true
      → lookup id (note_unparseable c).0.gs_events ≡ some true
  unfolding note_unparseable lose_connection
  note_unparseable-event c id known event = ground (arith, set_all-lookup id c.gs_events known)

  -- A packet of a reply says how many there are; one that does not say is the only one.
  abbrev pub Announces : ℕ → List (Chunk J) → Type 0
  Announces n = All (λ chunk. or_else chunk.total 1 ≡ n)

  handle-event :
      (n : ℕ) (chunk : Chunk J) (c c' : AdminClient J) (id : CorrelationId)
      (chunks : List (Chunk J))
      → IsWaiting id chunks c
      → handle_gs_response chunk c ≡ some c'
      → Announces n (chunk_for id (object chunk))
      → (n ≤ length chunks → lookup id c.gs_events ≡ some true)
      → n ≤ length (chunks ++ chunk_for id (object chunk))
      → lookup id c'.gs_events ≡ some true
  unfolding handle_gs_response append_chunk
  handle-event n chunk c c' id chunks waiting found announced before enough =
      let w = waiting.waits in
      let o = waiting.collected in
      ground (
        arith,
        append-nil chunks,
        length-append chunks (chunk ∷ []),
        id_eq.same_iff chunk.correlation_id id,
        lookup-insert chunk.correlation_id id true c.gs_events,
      )

  receive-event :
      (n : ℕ) (packet : Packet J) (c c' : AdminClient J) (id : CorrelationId)
      (chunks : List (Chunk J))
      → IsWaiting id chunks c
      → receive packet c ≡ some c'
      → Announces n (chunk_for id packet)
      → (n ≤ length chunks → lookup id c.gs_events ≡ some true)
      → n ≤ length (chunks ++ chunk_for id packet)
      → lookup id c'.gs_events ≡ some true
  unfolding receive
  receive-event n unreadable c c' id chunks waiting found announced before enough =
      let w = waiting.waits in
      ground (
        arith,
        append-nil chunks,
        note_unparseable-event c id w (before (rw⁻¹ (append-nil chunks) enough)),
      )
  receive-event n not_object c c' id chunks waiting found announced before enough =
      let w = waiting.waits in
      ground (
        arith,
        append-nil chunks,
        note_unparseable-event (record c { unparseable_streak = 0 }) id w
            (before (rw⁻¹ (append-nil chunks) enough)),
      )
  receive-event n (object chunk) c c' id chunks waiting found announced before enough =
      handle-event n chunk (record c { unparseable_streak = 0 }) c' id chunks
        (record { waits = waiting.waits; collected = waiting.collected }) found announced before
        enough

  receive_all-cons :
      (packet : Packet J) (packets : List (Packet J)) (c c₁ : AdminClient J)
      → receive packet c ≡ some c₁
      → receive_all (packet ∷ packets) c ≡ receive_all packets c₁
  unfolding receive_all
  receive_all-cons packet packets c c₁ one = rw (one, receive_all) refl

  receive_all-event :
      (n : ℕ) (packets : List (Packet J)) (c c' : AdminClient J) (id : CorrelationId)
      (chunks : List (Chunk J))
      → IsOrderly c
      → IsWaiting id chunks c
      → receive_all packets c ≡ some c'
      → Announces n (chunks_for id packets)
      → (n ≤ length chunks → lookup id c.gs_events ≡ some true)
      → n ≤ length (chunks ++ chunks_for id packets)
      → lookup id c'.gs_events ≡ some true
  unfolding receive_all
  receive_all-event n [] c c' id chunks orderly waiting found announced before enough =
      ground (arith, append-nil chunks)
  receive_all-event n (packet ∷ packets) c c' id chunks orderly waiting found announced before
        enough =
      let (c₁, one, left) = receive-Received packet c orderly in
      let (first, later) =
        All-split (λ chunk. or_else chunk.total 1 ≡ n) (chunk_for id packet) (chunks_for id packets)
          announced in
      receive_all-event n packets c₁ c' id (chunks ++ chunk_for id packet)
        (Received-IsOrderly packet c c₁ left orderly)
        (Received-IsWaiting packet c c₁ id chunks left waiting)
        (rw⁻¹ (receive_all-cons packet packets c c₁ one) found) later
        (receive-event n packet c c₁ id chunks waiting one first before)
        (rw (append_assoc chunks (chunk_for id packet) (chunks_for id packets)) enough)

  pub send-IsOrderly : (c : AdminClient J) → IsOrderly c → IsOrderly (send c).0
  unfolding send
  send-IsOrderly c orderly =
      let own = gs (suc c.gs_counter) in
      record {
        has_place = λ id h. ground (
          arith,
          contains-insert own id false c.gs_events,
          contains-insert own id [] c.gs_responses,
          orderly.has_place id,
        );
      }

  send-IsWaiting : (c : AdminClient J) → IsWaiting (send c).1 [] (send c).0
  unfolding send
  send-IsWaiting c =
      let own = gs (suc c.gs_counter) in
      record {
        waits = rw (contains-insert own own false c.gs_events, ==-self own) refl;
        collected = lookup-insert_self own [] c.gs_responses;
      }

  -- Once as many packets of a reply came as each of them announces, whatever came between them, the
  -- request's event is set: in a client where every request has a place for its chunks, for a reply of
  -- one packet at least.
  pub send-event :
      (c : AdminClient J) (packets : List (Packet J)) (n : ℕ)
      → IsOrderly c
      → 1 ≤ n
      → Announces n (chunks_for (send c).1 packets)
      → n ≤ length (chunks_for (send c).1 packets)
      → (c' : AdminClient J) × (receive_all packets (send c).0 ≡ some c')
        × (lookup (send c).1 c'.gs_events ≡ some true)
  send-event c packets n orderly positive announced enough =
      let ready = send-IsOrderly c orderly in
      let waiting = send-IsWaiting c in
      let (c', found, later, kept) =
        receive_all-IsWaiting packets (send c).0 (send c).1 [] ready waiting in
      (
        c',
        found,
        receive_all-event n packets (send c).0 c' (send c).1 [] ready waiting found announced
            (λ none. absurd (omega (arith, positive, none))) enough,
      )

  module _ (array : List J → J) where
    pub finish-merge :
        (id : CorrelationId) (chunks : List (Chunk J)) (c : AdminClient J)
        → IsWaiting id chunks c
        → (finish array id c).1 ≡ merge array id chunks
    unfolding finish merge_chunks
    finish-merge id chunks c waiting = rw (waiting.collected) refl
