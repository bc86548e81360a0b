-- ===== src/Bridge/Wire.antt =====
-- Frames on the admin port: `_send` and the reading half of `_recv_one` in
-- src/nttd/bridge/admin_client.py, and the poll packet of src/nttd/bridge/poll_packet.py. A byte is a
-- number below 256, a stream the list of the bytes that are still to come. What
-- `Packet.create_packet` of the library makes of a body is outside.
pub mod Framing
use Prim.Native.Nat.{◌^◌}
use nttd.Prelude.{
  ℕ, zero, suc, ◌+◌, ◌-◌, ◌*◌, ◌/◌, ◌%◌, ◌<◌, Option, none, some, List, [], ◌∷◌, ◌++◌, length, ltb,
  if◌then◌else◌,
}

abbrev pub Bytes : Type 0
Bytes = List ℕ

-- `n.to_bytes(width, "little")`: none is the OverflowError of a number that does not fit.
unfoldable pub little : (width n : ℕ) → Bytes
little zero n = []
little (suc width) n = n % 256 ∷ little width (n / 256)

unfoldable pub to_bytes : (width n : ℕ) → Option Bytes
unfolding little
to_bytes width n = if ltb n (256 ^ width) then some (little width n) else none

-- `int.from_bytes(data, "little")`
unfoldable pub from_bytes : Bytes → ℕ
from_bytes [] = 0
from_bytes (b ∷ bs) = b + 256 * from_bytes bs

-- The bytes that `_send` writes, or none where the length does not fit its two bytes.
unfoldable pub frame : (packet_type : ℕ) → Bytes → Option Bytes
unfolding to_bytes
frame packet_type payload = elim (to_bytes 2 (length payload + 3)) [
  | none ↦ none
  | some header ↦ some (header ++ packet_type ∷ payload)
]

-- `readexactly`: none is an IncompleteReadError.
unfoldable pub read_exactly : ℕ → Bytes → Option (Bytes × Bytes)
read_exactly zero stream = some ([], stream)
read_exactly (suc n) [] = none
read_exactly (suc n) (b ∷ stream) = elim (read_exactly n stream) [
  | none ↦ none
  | some read ↦ some (b ∷ read.0, read.1)
]

pub data Received : Type 0 where
  incomplete : Received
  -- a length below two, for which `readexactly` raises a ValueError
  bad_length : Received
  body : (packet rest : Bytes) → Received

unfoldable pub read_body : ℕ → Bytes → Received
unfolding read_exactly
read_body packet_len stream =
    if ltb packet_len 2 then bad_length else (elim (read_exactly (packet_len - 2) stream) [
      | none ↦ incomplete
      | some read ↦ body read.0 read.1
    ])

unfoldable pub recv_frame : Bytes → Received
unfolding read_exactly from_bytes read_body
recv_frame stream = elim (read_exactly 2 stream) [
  | none ↦ incomplete
  | some header ↦ read_body (from_bytes header.0) header.1
]

-- `AdminGameScriptPacket.to_bytes`, of the text in UTF-8.
unfoldable pub gamescript_bytes : Bytes → Bytes
gamescript_bytes json = json ++ (0 ∷ [])

-- `AdminPollPacket.to_bytes`: the type in one byte, the id in four.
unfoldable pub poll_bytes : (update_type extra : ℕ) → Option Bytes
unfolding to_bytes
poll_bytes update_type extra = elim (to_bytes 1 update_type) [
  | none ↦ none
  | some kind ↦ elim (to_bytes 4 extra) [ none ↦ none | some id ↦ some (kind ++ id) ]
]
