-- ===== src/Bridge/Wire/Framing.antt =====
-- What is sent on the admin port is what is read.
use nttd.Prelude.{
  ℕ, ◌+◌, ◌-◌, ◌<◌, ◌≡◌, refl, some, [], ◌∷◌, ◌++◌, length, ltb, lt→ltb, arith, false,
}
use nttd.Bridge.Wire.{
  Bytes, little, to_bytes, frame, from_bytes, read_exactly, body, read_body, recv_frame,
}

read_exactly-append : (xs rest : Bytes) → read_exactly (length xs) (xs ++ rest) ≡ some (xs, rest)
unfolding read_exactly
read_exactly-append [] rest = refl
read_exactly-append (x ∷ xs) rest = rw (read_exactly-append xs rest) refl

pub from_bytes-little : (n : ℕ) → n < 65536 → from_bytes (little 2 n) ≡ n
unfolding from_bytes little
from_bytes-little n h = omega arith

read_body-packet :
    (n : ℕ) (packet rest : Bytes)
    → length packet + 2 ≡ n
    → read_body n (packet ++ rest) ≡ body packet rest
unfolding read_body
read_body-packet n packet rest h =
    let long : ltb n 2 ≡ false = ground arith in
    let left : n - 2 ≡ length packet = omega arith in
    rw (long, left, read_exactly-append packet rest) refl

-- A frame that is sent is read back whole, type first, and leaves the bytes that follow it; every
-- packet is sent whose length fits the two bytes of the header.
pub recv_frame-frame :
    (packet_type : ℕ) (payload rest : Bytes)
    → length payload + 3 < 65536
    → (sent : Bytes) × (frame packet_type payload ≡ some sent)
      × (recv_frame (sent ++ rest) ≡ body (packet_type ∷ payload) rest)
unfolding frame to_bytes recv_frame little read_exactly
recv_frame-frame packet_type payload rest fits =
    let n = length payload + 3 in
    let sent = little 2 n ++ packet_type ∷ payload in
    let written : frame packet_type payload ≡ some sent = rw (lt→ltb n 65536 fits, frame) refl in
    let whole =
      read_body-packet (from_bytes (little 2 n)) (packet_type ∷ payload) rest
        (rw (from_bytes-little n fits) (omega arith)) in
    (sent, written, whole)
