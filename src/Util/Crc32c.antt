-- ===== src/Util/Crc32c.antt =====
-- src/util/crc32c.cc on a machine of 64 bits in little endian. Bytes are read from what is left of the
-- buffer; `none` is a read out of bounds, of the buffer or of a table.
pub mod Tables
pub mod Reference
pub mod Entries
pub mod Linear
pub mod Halves
pub mod Loops
pub mod Sliced
pub mod Pushes
mod Tests
use Prim.Native.Nat.{bit_and, bit_xor}
use libnodecc.Prelude.{
  ℕ, zero, suc, ◌+◌, ◌-◌, ◌/◌, ◌%◌, ◌^◌, min, Bytes, ◌||◌, List, [], ◌∷◌, length, get_elem?,
  is_empty, Option, none, some, ◌>>=◌,
}
use libnodecc.Prelude.{◌==◌, if◌then◌else◌}
use libnodecc.Util.Base64.{word}
use libnodecc.Util.Crc32c.Tables.Low.{
  crc_tableil8_o32, crc_tableil8_o40, crc_tableil8_o48, crc_tableil8_o56,
}
use libnodecc.Util.Crc32c.Tables.High.{
  crc_tableil8_o64, crc_tableil8_o72, crc_tableil8_o80, crc_tableil8_o88,
}

-- An entry of a table at a masked index.
unfoldable pub entry : List ℕ → ℕ → Option ℕ
entry table i = get_elem? table (bit_and i 0xff)

-- `*(const uint32_t*)data`.
abbrev pub load_little : Bytes → Option (ℕ × Bytes)
load_little (a ∷ b ∷ c ∷ d ∷ bs) = some (word d c b a, bs)
load_little (a ∷ b ∷ c ∷ []) = none
load_little (a ∷ b ∷ []) = none
load_little (a ∷ []) = none
load_little [] = none

-- The first and the last loop, over `count` bytes.
unfoldable pub push_bytes : ℕ → ℕ → Bytes → Option (ℕ × Bytes)
push_bytes zero crc bs = some (crc, bs)
push_bytes (suc count) crc [] = none
push_bytes (suc count) crc (b ∷ bs) =
    entry crc_tableil8_o32 (bit_xor crc b) >>= λ t. push_bytes count (bit_xor t (crc / 2 ^ 8)) bs

-- The first half of the body of the second loop, from the word that is read to the new `crc`.
unfoldable pub first_half : ℕ → Option ℕ
first_half crc = entry crc_tableil8_o88 crc >>= λ a. entry crc_tableil8_o80 (crc / 2 ^ 8) >>= λ b.
    entry crc_tableil8_o72 (crc / 2 ^ 16) >>= λ c.
    entry crc_tableil8_o64 (crc / 2 ^ 16 / 2 ^ 8) >>= λ d.
    some (bit_xor (bit_xor (bit_xor a b) c) d)

-- The second half, with the next word.
unfoldable pub second_half : ℕ → ℕ → Option ℕ
second_half crc address = entry crc_tableil8_o56 address >>= λ a.
    entry crc_tableil8_o48 (address / 2 ^ 8) >>= λ b.
    entry crc_tableil8_o40 (address / 2 ^ 16) >>= λ c.
    entry crc_tableil8_o32 (address / 2 ^ 16 / 2 ^ 8) >>= λ d.
    some (bit_xor (bit_xor (bit_xor crc (bit_xor a b)) c) d)

-- The second loop, over `count` times eight bytes.
unfoldable pub push_words : ℕ → ℕ → Bytes → Option (ℕ × Bytes)
push_words zero crc bs = some (crc, bs)
push_words (suc count) crc bs = load_little bs >>= λ r. first_half (bit_xor crc r.0) >>= λ c.
    load_little r.1 >>= λ s. second_half c s.0 >>= λ d. push_words count d s.1

-- `uintptr_t(data) & ~7`.
abbrev pub aligned_down : ℕ → ℕ
aligned_down address = bit_and address (2 ^ 64 - 8)

-- The number of bytes before the words: the address moves to `div8start`, or to the end before it.
unfoldable pub head_count : ℕ → ℕ → ℕ
head_count address count = min (aligned_down ((address + 7) % 2 ^ 64)) (address + count) - address

-- The number of rounds of the second loop: `data < div8end` holds for each eight of the distance,
-- rounded up.
unfoldable pub word_count : ℕ → ℕ → ℕ
word_count address stop = (aligned_down stop - address + 7) / 8

-- The static `push`, of a buffer of these bytes at the address `address`; null is 0.
unfoldable pub push_to : ℕ → ℕ → Bytes → Option ℕ
push_to crc address bs =
    if (address == 0) || is_empty bs
    then some 0xffffffff
    else (push_bytes (head_count address (length bs)) crc bs >>= λ r.
        push_words (word_count (address + head_count address (length bs)) (address + length bs)) r.0
          r.1
        >>= λ s. push_bytes (length s.1) s.0 s.1 >>= λ t. some t.0)

-- The static `checksum`.
unfoldable pub checksum_of : ℕ → Bytes → Option ℕ
checksum_of address bs = push_to 0xffffffff address bs >>= λ crc. some (bit_xor crc 0xffffffff)

-- The object, whose only field is `_crc`.
pub record Crc32c : Type 0 where
  pub _crc : ℕ

unfoldable pub crc32c : Crc32c
crc32c = record { _crc = 0xffffffff }

unfoldable pub push : Crc32c → ℕ → Bytes → Option Crc32c
push c address bs = push_to (c._crc) address bs >>= λ crc. some (record { _crc = crc })

unfoldable pub checksum : Crc32c → ℕ
checksum c = bit_xor (c._crc) 0xffffffff
