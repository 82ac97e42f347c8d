-- ===== src/Util/Crc32c/Reference.antt =====
-- CRC-32C, one bit at a time: the remainder by the polynomial 0x1EDC6F41 with its bits reflected, as
-- the comments of src/util/crc32c_8x256_tables.cc name it. It is not code of the repository.
use Prim.Native.Nat.{bit_xor}
use libnodecc.Prelude.{ℕ, zero, suc, ◌/◌, ◌%◌, Bytes, [], ◌∷◌}
use libnodecc.Prelude.{◌==◌, if◌then◌else◌}

-- One bit is shifted out.
unfoldable pub step : ℕ → ℕ
step r = if r % 2 == 1 then bit_xor (r / 2) 0x82F63B78 else r / 2

unfoldable pub steps : ℕ → ℕ → ℕ
steps zero r = r
steps (suc k) r = steps k (step r)

-- A byte enters at the low end, and eight bits leave.
unfoldable pub take_byte : ℕ → ℕ → ℕ
take_byte r b = steps 8 (bit_xor r b)

unfoldable pub remainder : ℕ → Bytes → ℕ
remainder r [] = r
remainder r (b ∷ bs) = remainder (take_byte r b) bs

-- All ones at the beginning, and the complement at the end.
unfoldable pub crc : Bytes → ℕ
crc bs = bit_xor (remainder 0xffffffff bs) 0xffffffff
