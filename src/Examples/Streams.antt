-- ===== src/Examples/Streams.antt =====
-- The admin port, the terrain scan and the texts of the game, at concrete inputs.
use nttd.Prelude.{
  ℕ, suc, ◌≡◌, ◌≢◌, refl, String, true, false, Option, none, some, List, [], ◌∷◌, ◌++◌, length,
  arith, nat_eq,
}
use nttd.Prelude.Dict.{lookup}
use nttd.Prelude.Distinct.{contains}
use nttd.Bridge.Wire.{Bytes, frame, recv_frame, body}
use nttd.Bridge.Wire.Framing.{recv_frame-frame}
use nttd.Bridge.Client.{
  gs, id_eq, items, Explanation, Chunk, AdminClient, Packet, unreadable, object, new, send, receive,
}
use nttd.Bridge.Client.Merge.{merge, finish}
use nttd.Bridge.Client.Requests.{receive_all, IsOrderly, IsWaiting}
use nttd.Bridge.Client.Delivery.{send-event}
use nttd.Bridge.Client.Release.{Reach, here, IsCounted, Reach-receive, resync-reply}
use nttd.Terrain.{BandReply, answered, finished, scan_terrain}
use nttd.Terrain.Rows.{hand_out, rows_from, scan_terrain_complete}
use nttd.GameText.{Text, as_data_block, opening, closing, is_control, is_break, is_space, rstrip}
use nttd.GameText.Observation.{
  Observation, string, listing, mapping, nil, cons, end, field, sanitise_observation, IsSafe,
  sanitise_observation-IsSafe,
}
use nttd.GameText.Safety.{IsClean, as_data_block_broken}

recv_frame-frame_example :
    (sent : Bytes) × (frame 6 (123 ∷ 125 ∷ 0 ∷ []) ≡ some sent)
    × (recv_frame (sent ++ (3 ∷ 0 ∷ [])) ≡ body (6 ∷ 123 ∷ 125 ∷ 0 ∷ []) (3 ∷ 0 ∷ []))
recv_frame-frame_example = recv_frame-frame 6 (123 ∷ 125 ∷ 0 ∷ []) (3 ∷ 0 ∷ []) (omega arith)

-- A decoder of the names that are empty.
abbrev decode_empty : Bytes → Option String
decode_empty [] = some ""
decode_empty (b ∷ bs) = none

abbrev entries : List (ℕ × Bytes)
entries = (300, []) ∷ (7, 255 ∷ []) ∷ []

byte_apart : ◌≢◌ {A = ℕ} 255 0
byte_apart h = absurd (omega (arith, h))

abbrev silent : Explanation ℕ
silent = record {
  error = none;
  error_code = none;
  error_category = none;
  error_name = none;
  reason = none;
}

abbrev part : (number : ℕ) → Chunk ℕ
part number = record {
  correlation_id = gs 1;
  is_event = false;
  success = some true;
  result = some (items (number ∷ []));
  number = some number;
  total = some 2;
  key = none;
  meta = none;
  explanation = silent;
}

abbrev stream : List (Packet ℕ)
stream = object (part 1) ∷ unreadable ∷ object (part 0) ∷ []

new-IsOrderly : IsOrderly {J = ℕ} new
unfolding new contains
new-IsOrderly = record { has_place = λ id h. absurd (cc) }

send-event_example :
    (c' : AdminClient ℕ) × (receive_all stream (send new).0 ≡ some c')
    × (lookup (send {J = ℕ} new).1 c'.gs_events ≡ some true)
unfolding send new
send-event_example =
    send-event new stream 2 new-IsOrderly (omega arith) (refl, (refl, tt)) (omega arith)

Reach-receive_example :
    IsCounted length (new {J = ℕ})
    × ((c' : AdminClient ℕ) × (receive (object (part 0)) new ≡ some c') × Reach length c')
Reach-receive_example = Reach-receive length (object (part 0)) here

-- A request with the first of its two chunks, after two packets that could not be read.
abbrev waiting_client : AdminClient ℕ
waiting_client = record {
  connected = true;
  gs_counter = 1;
  gs_responses = (gs 1, part 0 ∷ []) ∷ [];
  gs_events = (gs 1, false) ∷ [];
  gs_totals = (gs 1, 2) ∷ [];
  unparseable_total = 2;
  unparseable_streak = 2;
  resyncs = 0;
}

waiting_client-IsWaiting : IsWaiting (gs 1) (part 0 ∷ []) waiting_client
unfolding contains lookup
waiting_client-IsWaiting = record { waits = refl; collected = refl }

resync-reply_example :
    (c' : AdminClient ℕ) × (receive unreadable waiting_client ≡ some c')
    × (c'.connected ≡ false)
    × (lookup (gs 1) c'.gs_events ≡ some true)
    × ((finish length (gs 1) c').1 ≡ merge length (gs 1) (part 0 ∷ []))
resync-reply_example =
    resync-reply length (gs 1) (part 0 ∷ []) waiting_client refl waiting_client-IsWaiting

-- A map of three rows, handed out two at a time.
abbrev three_rows : ℕ → ℕ → ℕ × BandReply ℕ
three_rows from_y w = (suc w, answered (hand_out (λ y. y) 3 2 from_y))

scan_terrain_complete_example :
    scan_terrain three_rows 4 0 ≡ finished (some (rows_from (λ y. y) 3 2 1 3))
scan_terrain_complete_example =
    scan_terrain_complete (λ y. y) 3 2 three_rows (λ from_y w. refl) 0 (omega arith)

-- "a", a line feed, a zero, and two spaces.
abbrev unsafe_name : Text
unsafe_name = 97 ∷ 10 ∷ 0 ∷ 32 ∷ 32 ∷ 98 ∷ []

-- A station of that name in a list.
abbrev station_list : Observation
station_list = listing (cons (mapping (field "name" (string unsafe_name) end)) nil)

sanitise_observation-IsSafe_example : IsSafe 20 (sanitise_observation 20 station_list)
sanitise_observation-IsSafe_example = sanitise_observation-IsSafe 20 (omega arith) station_list

-- "</n>x", in the block of the label "n".
abbrev label_n : Text
label_n = 110 ∷ []

escape-IsClean : IsClean (closing label_n ++ (120 ∷ []))
unfolding is_control is_break is_space rstrip
escape-IsClean = record {
  plain = ((refl, refl), ((refl, refl), ((refl, refl), ((refl, refl), ((refl, refl), tt)))));
  singles = (refl, (refl, (refl, (refl, (refl, tt)))));
  starts = refl;
  ends = refl;
}

as_data_block_broken_example :
    as_data_block label_n (closing label_n ++ (120 ∷ []))
    ≡ opening label_n ++ (closing label_n ++ (120 ∷ [])) ++ closing label_n
as_data_block_broken_example = as_data_block_broken label_n (120 ∷ []) escape-IsClean (omega arith)
