-- ===== src/Bridge/CommandNames.antt =====
-- src/nttd/bridge/command_names.py: the table of command names. The walk along an offset is a walk
-- along the rest of the body; each round takes at least four bytes of it or ends, so the length of
-- the body is fuel enough. `decode` is Python's reading of UTF-8, a parameter: none where it raises.
use nttd.Prelude.{
  ℕ, zero, suc, ◌<◌, ◌≤◌, ◌≡◌, ◌≢◌, refl, String, false, Option, none, some, List, [], ◌∷◌, ◌++◌,
  ◌==◌, nat_eq, length, length-append, All, arith, if◌then◌else◌,
}
use nttd.Prelude.Dict.{Dict, insert}
use mathlib.Core.List.{append_assoc}
use nttd.Bridge.Wire.{Bytes, little, from_bytes}
use nttd.Bridge.Wire.Framing.{from_bytes-little}

-- What stands before the first zero, and what follows it.
unfoldable pub until_zero : Bytes → Option (Bytes × Bytes)
until_zero [] = none
until_zero (b ∷ bs) =
    if b == 0
    then some ([], bs)
    else (elim (until_zero bs) [ none ↦ none | some split ↦ some (b ∷ split.0, split.1) ])

module _ (decode : Bytes → Option String) where
  -- `names[command_id] = …`, unless the name cannot be decoded.
  unfoldable pub add_name : ℕ → Bytes → Dict ℕ String → Dict ℕ String
  add_name command_id name names = elim (decode name) [
    | none ↦ names
    | some text ↦ insert command_id text names
  ]

  -- The rounds of the `while` loop; the flag, the two bytes of the id, and the name.
  unfoldable pub parse_names : (fuel : ℕ) → Bytes → Dict ℕ String → Dict ℕ String
  unfolding until_zero from_bytes add_name
  parse_names zero rest names = names
  parse_names (suc fuel) (flag ∷ low ∷ high ∷ rest) names =
      if flag == 0 then names else (elim (until_zero rest) [
        | none ↦ names
        | some split ↦
            parse_names fuel split.1 (add_name (from_bytes (low ∷ high ∷ [])) split.0 names)
      ])
  parse_names (suc fuel) _ names = names

  -- The first byte is the type of the packet.
  unfoldable pub parse_command_names : Bytes → Dict ℕ String
  unfolding parse_names
  parse_command_names [] = []
  parse_command_names (packet_type ∷ rest) = parse_names (length rest) rest []

-- The table as the protocol writes it: a flag, an id in two bytes, and a name that a zero ends.
abbrev pub write_names : List (ℕ × Bytes) → Bytes
write_names [] = 0 ∷ []
write_names ((command_id, name) ∷ entries) =
    1 ∷ little 2 command_id ++ (name ++ (0 ∷ write_names entries))

abbrev pub IsName : ℕ × Bytes → Type 0
IsName entry = (entry.0 < 65536) × All (λ b. b ≢ 0) entry.1

until_zero-append :
    (name rest : Bytes)
    → All (λ b. b ≢ 0) name
    → until_zero (name ++ (0 ∷ rest)) ≡ some (name, rest)
unfolding until_zero
until_zero-append [] rest h = refl
until_zero-append (b ∷ name) rest h =
    let inside = until_zero-append name rest h.1 in
    let first = h.0 in let apart : (b == 0) ≡ false = ground arith in rw (apart, inside) refl

module _ (decode : Bytes → Option String) where
  -- The names that can be decoded, entered in the order of the table.
  abbrev pub entered : List (ℕ × Bytes) → Dict ℕ String → Dict ℕ String
  entered [] names = names
  entered ((command_id, name) ∷ entries) names =
      entered entries (add_name decode command_id name names)

  parse_names-end :
      (fuel : ℕ) (names : Dict ℕ String) (tail : Bytes)
      → parse_names decode (suc fuel) (0 ∷ tail) names ≡ names
  unfolding parse_names
  parse_names-end fuel names [] = refl
  parse_names-end fuel names (a ∷ []) = refl
  parse_names-end fuel names (a ∷ b ∷ tail) = refl

  parse_names-write :
      (fuel : ℕ) (entries : List (ℕ × Bytes)) (names : Dict ℕ String) (tail : Bytes)
      → length (write_names entries) ≤ fuel
      → All IsName entries
      → parse_names decode fuel (write_names entries ++ tail) names ≡ entered entries names
  unfolding parse_names little
  parse_names-write zero [] names tail enough h = absurd (omega (arith, enough))
  parse_names-write zero ((command_id, name) ∷ entries) names tail enough h =
      absurd (omega (arith, enough))
  parse_names-write (suc fuel) [] names tail enough h = parse_names-end fuel names tail
  parse_names-write (suc fuel) ((command_id, name) ∷ entries) names tail enough
        ((small, full), rest) =
      let found = until_zero-append name (write_names entries ++ tail) full in
      let later =
        parse_names-write fuel entries (add_name decode command_id name names) tail
          (omega (arith, enough, length-append name (0 ∷ write_names entries))) rest in
      rw
        (
          append_assoc name (0 ∷ write_names entries) tail,
          found,
          from_bytes-little command_id small,
        )
        later

  -- Reading a table that the protocol writes, whatever follows it, enters each of its names that can
  -- be decoded under its id, in order; the ids fit two bytes and the names hold no zero.
  parse_command_names-write :
      (packet_type : ℕ) (entries : List (ℕ × Bytes)) (tail : Bytes)
      → All IsName entries
      → parse_command_names decode (packet_type ∷ write_names entries ++ tail) ≡ entered entries []
  unfolding parse_command_names
  parse_command_names-write packet_type entries tail h =
      parse_names-write (length (write_names entries ++ tail)) entries [] tail
        (omega (arith, length-append (write_names entries) tail)) h
