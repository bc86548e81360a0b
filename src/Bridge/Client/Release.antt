-- ===== src/Bridge/Client/Release.antt =====
-- What every run of the client of src/nttd/bridge/admin_client.py keeps, and what the loss of the
-- stream does to the requests that wait.
use nttd.Prelude.{ℕ, ◌+◌, ◌*◌, ◌≤◌, ◌<◌, ◌≡◌, refl, true, false, some, List, arith}
use nttd.Prelude.Dict.{keys, lookup, erase}
use nttd.Prelude.Distinct.{contains, contains-erase}
use nttd.Bridge.Client.{
  CorrelationId, id_eq, Chunk, AdminClient, Packet, unreadable, not_object, object, new, send,
  append_chunk, handle_gs_response, lose_connection, note_unparseable, receive,
}
use nttd.Bridge.Client.Merge.{merge, merge_chunks, finish, time_out}
use nttd.Bridge.Client.Requests.{
  IsOrderly, IsWaiting, keys-set_all, receive-Received, Received-IsOrderly,
}
use nttd.Bridge.Client.Delivery.{send-IsOrderly, set_all-lookup, finish-merge}

module _ {J : Type 0} (array : List J → J) where
  pub data Step : AdminClient J → AdminClient J → Type 0 where
    connects : (c : AdminClient J) → Step c (record c { connected = true })
    sends : (c : AdminClient J) → Step c (send c).0
    receives : (packet : Packet J) (c c' : AdminClient J) → receive packet c ≡ some c' → Step c c'
    loses_connection : (c : AdminClient J) → Step c (lose_connection c)
    finishes :
        (id : CorrelationId) (c : AdminClient J)
        → lookup id c.gs_events ≡ some true
        → Step c (finish array id c).0
    times_out :
        (id : CorrelationId) (garbled_before : ℕ) (c : AdminClient J)
        → Step c (time_out id garbled_before c).0

  pub data Reach : AdminClient J → Type 0 where
    here : Reach new
    next : {c c' : AdminClient J} → Reach c → Step c c' → Reach c'

  -- A run of unparseable packets ends in a resynchronisation at the third.
  abbrev pub IsCounted : AdminClient J → Type 0
  IsCounted c =
      (c.unparseable_streak < 3) × (3 * c.resyncs + c.unparseable_streak ≤ c.unparseable_total)

  handle-counters :
      (chunk : Chunk J) (c c' : AdminClient J)
      → handle_gs_response chunk c ≡ some c'
      → IsCounted c
      → IsCounted c'
  unfolding handle_gs_response append_chunk
  handle-counters chunk c c' found h = ground arith

  receive-IsCounted :
      (packet : Packet J) (c c' : AdminClient J)
      → receive packet c ≡ some c'
      → IsCounted c
      → IsCounted c'
  unfolding receive note_unparseable lose_connection
  receive-IsCounted unreadable c c' found h = ground arith
  receive-IsCounted not_object c c' found h = ground arith
  receive-IsCounted (object chunk) c c' found h =
      handle-counters chunk (record c { unparseable_streak = 0 }) c' found (ground arith)

  Step-IsCounted : {c c' : AdminClient J} → Step c c' → IsCounted c → IsCounted c'
  unfolding send lose_connection finish merge_chunks time_out
  Step-IsCounted (connects c) h = h
  Step-IsCounted (sends c) h = h
  Step-IsCounted (receives packet c c' found) h = receive-IsCounted packet c c' found h
  Step-IsCounted (loses_connection c) h = h
  Step-IsCounted (finishes id c set) h = h
  Step-IsCounted (times_out id garbled_before c) h = h

  erase-IsOrderly :
      (id : CorrelationId) (c c' : AdminClient J)
      → c'.gs_events ≡ erase id c.gs_events
      → c'.gs_responses ≡ erase id c.gs_responses
      → IsOrderly c
      → IsOrderly c'
  erase-IsOrderly id c c' events responses orderly = record {
    has_place = λ j.
        rw (events, responses)
          (λ h. ground (
            arith,
            contains-erase id j c.gs_events,
            contains-erase id j c.gs_responses,
            orderly.has_place j,
          ));
  }

  Step-IsOrderly : {c c' : AdminClient J} → Step c c' → IsOrderly c → IsOrderly c'
  unfolding lose_connection finish merge_chunks time_out
  Step-IsOrderly (connects c) h = record { has_place = h.has_place }
  Step-IsOrderly (sends c) h = send-IsOrderly c h
  Step-IsOrderly (receives packet c c' found) h =
      let (c₁, same, left) = receive-Received packet c h in
      let alike : c₁ ≡ c' = cc (same, found) in rw⁻¹ alike (Received-IsOrderly packet c c₁ left h)
  Step-IsOrderly (loses_connection c) h = record {
    has_place = λ id. rw (keys-set_all c.gs_events) (h.has_place id);
  }
  Step-IsOrderly (finishes id c set) h = erase-IsOrderly id c (finish array id c).0 refl refl h
  Step-IsOrderly (times_out id garbled_before c) h =
      erase-IsOrderly id c (time_out id garbled_before c).0 refl refl h

  Reach-IsOrderly : {c : AdminClient J} → Reach c → IsOrderly c × IsCounted c
  unfolding new contains
  Reach-IsOrderly here = (record { has_place = λ id h. absurd (cc) }, (omega arith, omega arith))
  Reach-IsOrderly (next r st) =
      let (orderly, counted) = Reach-IsOrderly r in
      (Step-IsOrderly st orderly, Step-IsCounted st counted)

  -- In every state that the client reaches, no packet on the GameScript channel raises a KeyError, so that
  -- the receive loop goes on; fewer than three unparseable packets in a row are counted, and there were
  -- three for each resynchronisation.
  pub Reach-receive :
      {c : AdminClient J} (packet : Packet J)
      → Reach c
      → IsCounted c × ((c' : AdminClient J) × (receive packet c ≡ some c') × Reach c')
  Reach-receive {c} packet r =
      let (orderly, counted) = Reach-IsOrderly r in
      let (c', found, left) = receive-Received packet c orderly in
      (counted, (c', found, next r (receives packet c c' found)))

  -- The third unreadable packet in a row disconnects the client and sets the event of every request
  -- that waits; such a request then answers what the chunks that came so far merge into, as if they
  -- were all.
  pub resync-reply :
      (id : CorrelationId) (chunks : List (Chunk J)) (c : AdminClient J)
      → c.unparseable_streak ≡ 2
      → IsWaiting id chunks c
      → (c' : AdminClient J) × (receive unreadable c ≡ some c')
        × (c'.connected ≡ false)
        × (lookup id c'.gs_events ≡ some true)
        × ((finish array id c').1 ≡ merge array id chunks)
  unfolding receive note_unparseable lose_connection
  resync-reply id chunks c third waiting =
      let w = waiting.waits in
      let c' = (note_unparseable c).0 in
      let kept : c'.gs_responses ≡ c.gs_responses = ground arith in
      let names : keys c'.gs_events ≡ keys c.gs_events = ground (arith, keys-set_all c.gs_events) in
      (
        c',
        refl,
        ground arith,
        ground (arith, set_all-lookup id c.gs_events w),
        finish-merge array id chunks c'
            (record { waits = rw names w; collected = rw kept waiting.collected }),
      )
