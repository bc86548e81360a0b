-- ===== src/Bridge/Client/Requests.antt =====
-- A request from `send` to `finish` (src/nttd/bridge/admin_client.py), whatever else the stream brings
-- in between.
use nttd.Prelude.{
  ◌≡◌, refl, sym, ◌∙◌, Bool, true, false, Option, none, some, List, [], ◌∷◌, ◌++◌, ◌==◌, arith,
  if◌then◌else◌, Bool-cases, inl, inr,
}
use mathlib.Core.List.{append_assoc}
use nttd.Prelude.Dict.{Dict, keys, lookup, lookup-insert}
use nttd.Prelude.Distinct.{contains, contains-insert, lookup_present}
use nttd.Bridge.Client.{
  CorrelationId, id_eq, Chunk, AdminClient, Packet, unreadable, not_object, object, set_all,
  append_chunk, handle_gs_response, lose_connection, note_unparseable, receive,
}

pub keys-set_all : (d : Dict CorrelationId Bool) → keys (set_all d) ≡ keys d
unfolding set_all
keys-set_all [] = refl
keys-set_all ((i, event) ∷ d) = rw (keys-set_all d) refl

module _ {J : Type 0} where
  -- The rounds of `poll_loop` that bring GameScript packets, until a KeyError.
  unfoldable pub receive_all : List (Packet J) → AdminClient J → Option (AdminClient J)
  unfolding receive
  receive_all [] c = some c
  receive_all (packet ∷ packets) c = elim (receive packet c) [
    | none ↦ none
    | some c' ↦ receive_all packets c'
  ]

  -- The chunk of a request's reply that a packet is, if any.
  abbrev pub chunk_for : CorrelationId → Packet J → List (Chunk J)
  chunk_for id unreadable = []
  chunk_for id not_object = []
  chunk_for id (object chunk) =
      if chunk.is_event then [] else if chunk.correlation_id == id then chunk ∷ [] else []

  abbrev pub chunks_for : CorrelationId → List (Packet J) → List (Chunk J)
  chunks_for id [] = []
  chunks_for id (packet ∷ packets) = chunk_for id packet ++ chunks_for id packets

  -- Every request that waits has a place for its chunks.
  pub record IsOrderly (c : AdminClient J) : Type 0 where
    pub has_place :
        (id : CorrelationId)
        → contains id (keys c.gs_events) ≡ true
        → contains id (keys c.gs_responses) ≡ true

  -- A request that waits for its event, with the chunks that came so far.
  pub record IsWaiting (id : CorrelationId) (chunks : List (Chunk J)) (c : AdminClient J)
      : Type 0 where
    pub waits : contains id (keys c.gs_events) ≡ true
    pub collected : lookup id c.gs_responses ≡ some chunks

  -- What a packet leaves: the keys of both dictionaries, and one chunk more where it is one.
  abbrev pub Received : Packet J → AdminClient J → AdminClient J → Type 0
  Received packet c c' =
      ((id : CorrelationId) → contains id (keys c'.gs_events) ≡ contains id (keys c.gs_events))
      × ((id : CorrelationId)
          → contains id (keys c'.gs_responses) ≡ contains id (keys c.gs_responses))
      × ((id : CorrelationId) (chunks : List (Chunk J))
          → IsWaiting id chunks c
          → lookup id c'.gs_responses ≡ some (chunks ++ chunk_for id packet))

  pub append-nil : (chunks : List (Chunk J)) → chunks ++ [] ≡ chunks
  append-nil [] = refl
  append-nil (chunk ∷ chunks) = rw (append-nil chunks) refl

  note_unparseable-keys :
      (c : AdminClient J)
      → (keys (note_unparseable c).0.gs_events ≡ keys c.gs_events)
        × ((note_unparseable c).0.gs_responses ≡ c.gs_responses)
  unfolding note_unparseable lose_connection
  note_unparseable-keys c = ground (arith, keys-set_all c.gs_events)

  unread-Received :
      (packet : Packet J) (c c' : AdminClient J)
      → ((id : CorrelationId) → chunk_for id packet ≡ [])
      → keys c'.gs_events ≡ keys c.gs_events
      → c'.gs_responses ≡ c.gs_responses
      → Received packet c c'
  unread-Received packet c c' nothing same_events same_responses = (
    λ id. rw same_events refl,
    λ id. rw same_responses refl,
    λ id chunks waiting. rw (nothing id, append-nil chunks, same_responses) waiting.collected,
  )

  append_chunk-Received :
      (chunk : Chunk J) (before : List (Chunk J)) (c : AdminClient J)
      → chunk.is_event ≡ false
      → IsWaiting chunk.correlation_id before c
      → contains chunk.correlation_id (keys c.gs_responses) ≡ true
      → Received (object chunk) c (append_chunk chunk before c)
  unfolding append_chunk
  append_chunk-Received chunk before c answer waiting placed =
      let own = chunk.correlation_id in
      (
        λ id.
            ground (
              arith,
              contains-insert own id true c.gs_events,
              id_eq.same_iff own id,
              waiting.waits,
            ),
        λ id. ground (
          arith,
          contains-insert own id (before ++ chunk ∷ []) c.gs_responses,
          id_eq.same_iff own id,
          placed,
        ),
        λ id chunks other.
            let w = waiting.collected in
            let o = other.collected in
            ground (
              arith,
              answer,
              w,
              o,
              lookup-insert own id (before ++ chunk ∷ []) c.gs_responses,
              id_eq.same_iff own id,
              append-nil chunks,
            ),
      )

  handle-Received :
      (chunk : Chunk J) (c : AdminClient J)
      → IsOrderly c
      → (c' : AdminClient J) × (handle_gs_response chunk c ≡ some c') × Received (object chunk) c c'
  unfolding handle_gs_response
  handle-Received chunk c orderly = elim (Bool-cases chunk.is_event) [
    | inl event ↦
        (c, rw event refl, unread-Received (object chunk) c c (λ id. rw event refl) refl refl)
    | inr answer ↦ elim (Bool-cases (contains chunk.correlation_id (keys c.gs_events))) [
      | inr unknown ↦ (
        c,
        rw (answer, unknown) refl,
        (
          λ id. refl,
          λ id. refl,
          λ id chunks waiting.
              let w = waiting.waits in
              ground (
                arith,
                answer,
                unknown,
                w,
                id_eq.same_iff chunk.correlation_id id,
                append-nil chunks,
              ),
        ),
      )
      | inl known ↦
          let placed = orderly.has_place chunk.correlation_id known in
          let (before, found) = lookup_present chunk.correlation_id c.gs_responses placed in
          (
            append_chunk chunk before c,
            simp (answer, known, found),
            append_chunk-Received chunk before c answer
                (record { waits = known; collected = found }) placed,
          )
    ]
  ]

  pub receive-Received :
      (packet : Packet J) (c : AdminClient J)
      → IsOrderly c
      → (c' : AdminClient J) × (receive packet c ≡ some c') × Received packet c c'
  unfolding receive
  receive-Received unreadable c orderly =
      let same = note_unparseable-keys c in
      (
        (note_unparseable c).0,
        refl,
        unread-Received unreadable c (note_unparseable c).0 (λ id. refl) same.0 same.1,
      )
  receive-Received not_object c orderly =
      let read = record c { unparseable_streak = 0 } in
      let same = note_unparseable-keys read in
      (
        (note_unparseable read).0,
        refl,
        unread-Received not_object c (note_unparseable read).0 (λ id. refl) same.0 same.1,
      )
  receive-Received (object chunk) c orderly =
      let (c', found, left) =
        handle-Received chunk (record c { unparseable_streak = 0 })
          (record { has_place = orderly.has_place }) in
      (
        c',
        found,
        (
          left.0,
          left.1,
          λ id chunks w. left.2 id chunks (record { waits = w.waits; collected = w.collected }),
        ),
      )

  pub Received-IsOrderly :
      (packet : Packet J) (c c' : AdminClient J) → Received packet c c' → IsOrderly c → IsOrderly c'
  Received-IsOrderly packet c c' left orderly = record {
    has_place = λ id h. left.1 id ∙ orderly.has_place id (sym (left.0 id) ∙ h);
  }

  pub Received-IsWaiting :
      (packet : Packet J) (c c' : AdminClient J) (id : CorrelationId) (chunks : List (Chunk J))
      → Received packet c c'
      → IsWaiting id chunks c
      → IsWaiting id (chunks ++ chunk_for id packet) c'
  Received-IsWaiting packet c c' id chunks left waiting = record {
    waits = left.0 id ∙ waiting.waits;
    collected = left.2 id chunks waiting;
  }

  -- No GameScript packet raises a KeyError, and a request collects exactly its own chunks, in the order
  -- of their arrival.
  pub receive_all-IsWaiting :
      (packets : List (Packet J)) (c : AdminClient J) (id : CorrelationId) (chunks : List (Chunk J))
      → IsOrderly c
      → IsWaiting id chunks c
      → (c' : AdminClient J) × (receive_all packets c ≡ some c')
        × IsOrderly c'
        × IsWaiting id (chunks ++ chunks_for id packets) c'
  unfolding receive_all
  receive_all-IsWaiting [] c id chunks orderly waiting =
      (c, refl, orderly, rw (append-nil chunks) waiting)
  receive_all-IsWaiting (packet ∷ packets) c id chunks orderly waiting =
      let (c₁, found, left) = receive-Received packet c orderly in
      let (c₂, rest, orderly₂, waiting₂) =
        receive_all-IsWaiting packets c₁ id (chunks ++ chunk_for id packet)
          (Received-IsOrderly packet c c₁ left orderly)
          (Received-IsWaiting packet c c₁ id chunks left waiting) in
      (
        c₂,
        rw (found, receive_all) rest,
        orderly₂,
        rw⁻¹ (append_assoc chunks (chunk_for id packet) (chunks_for id packets)) waiting₂,
      )
