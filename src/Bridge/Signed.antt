-- ===== src/Bridge/Signed.antt =====
-- `_signed64` of src/nttd/bridge/bridge.py: the admin port sends signed numbers as unsigned ones.
use Prim.Native.Nat.{◌^◌}
use nttd.Prelude.{ℕ, suc, ◌-◌, ◌<◌, ◌≤◌, ◌≡◌, arith, ltb, if◌then◌else◌}
use nttd.Prelude.Int.{ℤ, pos, negsuc, pos_part, neg_part, sub_ℕ}

unfoldable pub signed64 : ℕ → ℤ
signed64 value = if ltb (2 ^ 63 - 1) value then sub_ℕ value (2 ^ 64) else pos value

-- How a signed number is sent in 64 bits.
abbrev pub unsigned64 : ℤ → ℕ
unsigned64 (pos n) = n
unsigned64 (negsuc n) = 2 ^ 64 - suc n

-- Every number of 64 bits is read as the signed number, from -2 ^ 63 to 2 ^ 63 - 1, that is sent so.
signed64-unsigned64 :
    (value : ℕ)
    → value < 2 ^ 64
    → (unsigned64 (signed64 value) ≡ value)
      × (pos_part (signed64 value) < 2 ^ 63)
      × (neg_part (signed64 value) ≤ 2 ^ 63)
unfolding signed64
signed64-unsigned64 value h = ground arith
