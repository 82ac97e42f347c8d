-- ===== src/Util/Uri.antt =====
-- `uri::component_decode` of src/util/uri.cc. The buffer that it fills is taken by its contents,
-- and `none` is a thrown `std::range_error`.
pub mod Escapes
mod Tests
use libnodecc.Prelude.{
  ℕ, zero, suc, ◌+◌, ◌*◌, ◌/◌, ◌%◌, Bytes, Bool, true, false, ◌&&◌, ◌||◌, List, [], ◌∷◌, ◌++◌,
  length, Option, none, some,
}
use libnodecc.Prelude.{◌==◌, ltb, leb, if◌then◌else◌}

-- The value of a hexadecimal digit. The case of the decimal digits falls through.
unfoldable pub hex_to_int : ℕ → Option ℕ
hex_to_int c =
    let lo = c % 16 in
    let hi = c / 16 * 16 in
    if hi == 0x30 && leb lo 9
    then some lo
    else if (hi == 0x30 || hi == 0x40 || hi == 0x60) && (leb 1 lo && leb lo 6)
    then some (9 + lo)
    else none

-- `(hi << 4) + lo` as a `uint8_t`, `lo` being the first of the two digits.
abbrev pub combine : ℕ → ℕ → ℕ
combine lo hi = (hi * 16 + lo) % 256

-- An escape in front of at least two bytes.
unfoldable pub escape : Bytes → Option (ℕ × ℕ)
escape (a ∷ b ∷ cs) = elim (hex_to_int a) [
  | none ↦ none
  | some lo ↦ elim (hex_to_int b) [ none ↦ none | some hi ↦ some (combine lo hi, 2) ]
]
escape (a ∷ []) = none
escape [] = none

-- The byte that is pushed for `c` in front of `rest`, and by how much `i` moves on beyond it.
unfoldable pub decoded : Bool → ℕ → Bytes → Option (ℕ × ℕ)
decoded urlencoded c rest =
    if ltb c 0x20 || leb 0x7F c
    then none
    else if urlencoded && c == b'+'
    then some (b' ', 0)
    else if c == b'%' && ltb 2 (length (c ∷ rest))
    then escape rest
    else some (c, 0)

-- The loop, with the number of bytes that are still to be passed over.
unfoldable pub decode_loop : Bool → ℕ → Bytes → Bytes → Option Bytes
decode_loop urlencoded skip [] result = some result
decode_loop urlencoded (suc skip) (c ∷ cs) result = decode_loop urlencoded skip cs result
decode_loop urlencoded zero (c ∷ cs) result = elim (decoded urlencoded c cs) [
  | none ↦ none
  | some (b, skip) ↦ decode_loop urlencoded skip cs (result ++ b ∷ [])
]

-- Every exception ends in an empty buffer.
unfoldable pub component_decode : Bool → Bytes → Bytes
component_decode urlencoded bs = elim (decode_loop urlencoded 0 bs []) [
  | none ↦ []
  | some result ↦ result
]
