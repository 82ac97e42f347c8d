-- ===== src/Util/Base64.antt =====
-- src/util/base64.cc. Bytes are read from what is left of the buffer; `none` is a read or a write
-- out of bounds.
pub mod Reference
pub mod Quads
pub mod Encode
pub mod Groups
pub mod RoundTrip
mod Tests
use Prim.Native.Nat.{bit_and, bit_or}
use libnodecc.Prelude.{
  ℕ, zero, suc, ◌+◌, ◌-◌, ◌*◌, ◌/◌, ◌%◌, ◌^◌, Bytes, codes, Bool, true, false, ◌||◌, List, [], ◌∷◌,
  ◌++◌, length, get_or, Option, none, some, ◌>>=◌,
}
use libnodecc.Prelude.{◌==◌, ltb, leb, if◌then◌else◌}
use libnodecc.Buffer.Mutable.{grown}

abbrev pub encode_table_def : Bytes
encode_table_def = codes "ABCDEFGHIJKLMNOPQRSTUVWXYZabcdefghijklmnopqrstuvwxyz0123456789+/"

abbrev pub encode_table_url : Bytes
encode_table_url = codes "ABCDEFGHIJKLMNOPQRSTUVWXYZabcdefghijklmnopqrstuvwxyz0123456789-_"

-- Four bytes as a number in big endian.
abbrev pub word : ℕ → ℕ → ℕ → ℕ → ℕ
word a b c d = ((a * 256 + b) * 256 + c) * 256 + d

-- A word in memory, through `htonl`.
abbrev pub load : Bytes → Option (ℕ × Bytes)
load (a ∷ b ∷ c ∷ d ∷ bs) = some (word a b c d, bs)
load (a ∷ b ∷ c ∷ []) = none
load (a ∷ b ∷ []) = none
load (a ∷ []) = none
load [] = none

abbrev pub load_three : Bytes → Option (ℕ × ℕ × ℕ × Bytes)
load_three bs = load bs >>= λ r. load r.1 >>= λ s. load s.1 >>= λ t. some (r.0, s.0, t.0, t.1)

module _ (table : Bytes) where
  abbrev pub letter : ℕ → ℕ
  letter i = get_or table i 0

  -- Three bytes, one at a time.
  unfoldable pub quad : ℕ → ℕ → ℕ → Bytes
  quad in0 in1 in2 =
      letter (in0 / 4)
      ∷ letter (bit_or (bit_and in0 0x03 * 16) (in1 / 16))
      ∷ letter (bit_or (bit_and in1 0x0f * 4) (in2 / 64))
      ∷ letter (bit_and in2 0x3f)
      ∷ []

  -- Twelve bytes, as three words in big endian.
  unfoldable pub quads : ℕ → ℕ → ℕ → Bytes
  quads in1 in2 in3 =
      letter (in1 / 2 ^ 26)
      ∷ letter (bit_and in1 0x3F00000 / 2 ^ 20)
      ∷ letter (bit_and in1 0xFC000 / 2 ^ 14)
      ∷ letter (bit_and in1 0x3F00 / 2 ^ 8)
      ∷ letter (bit_and in1 0xFC / 2 ^ 2)
      ∷ letter (bit_or (bit_and in1 0x3 * 2 ^ 4) (in2 / 2 ^ 28))
      ∷ letter (bit_and in2 0xFC00000 / 2 ^ 22)
      ∷ letter (bit_and in2 0x3F0000 / 2 ^ 16)
      ∷ letter (bit_and in2 0xFC00 / 2 ^ 10)
      ∷ letter (bit_and in2 0x3F0 / 2 ^ 4)
      ∷ letter (bit_or (bit_and in2 0xF * 2 ^ 2) (in3 / 2 ^ 30))
      ∷ letter (bit_and in3 0x3F000000 / 2 ^ 24)
      ∷ letter (bit_and in3 0xFC0000 / 2 ^ 18)
      ∷ letter (bit_and in3 0x3F000 / 2 ^ 12)
      ∷ letter (bit_and in3 0xFC0 / 2 ^ 6)
      ∷ letter (bit_and in3 0x3F)
      ∷ []

  -- The first loop, over `count` times three bytes.
  unfoldable pub align : ℕ → Bytes → Option (Bytes × Bytes)
  align zero bs = some ([], bs)
  align (suc count) (a ∷ b ∷ c ∷ bs) = align count bs >>= λ r. some (quad a b c ++ r.0, r.1)
  align (suc count) (a ∷ b ∷ []) = none
  align (suc count) (a ∷ []) = none
  align (suc count) [] = none

  -- The second loop, over `count` times twelve bytes.
  unfoldable pub by_words : ℕ → Bytes → Option (Bytes × Bytes)
  by_words zero bs = some ([], bs)
  by_words (suc count) bs =
      load_three bs >>= λ r. by_words count r.3 >>= λ s. some (quads r.0 r.1 r.2 ++ s.0, s.1)

  -- The last loop, and the one or two bytes that are left.
  unfoldable pub triples : Bytes → Bytes
  triples [] = []
  triples (a ∷ []) =
      letter (a / 4) ∷ letter (bit_or (bit_and a 0x03 * 16) (0 / 16)) ∷ b'=' ∷ b'=' ∷ []
  triples (a ∷ b ∷ []) =
      letter (a / 4)
      ∷ letter (bit_or (bit_and a 0x03 * 16) (b / 16))
      ∷ letter (bit_or (bit_and b 0x0f * 4) (0 / 64))
      ∷ b'='
      ∷ []
  triples (a ∷ b ∷ c ∷ bs) = quad a b c ++ triples bs

  -- The last loop and the switch behind it, for an input that ends before the address `stop`. Where
  -- `end - 2` wraps, the loop is entered and reads past the end, or at null.
  unfoldable pub by_bytes : ℕ → Bytes → Option Bytes
  by_bytes stop bs = if ltb stop 2 then none else some (triples bs)

  -- The first two loops. `base < end_aligned` holds for each twelve of the distance between the
  -- two, rounded up; `end_aligned` is reckoned from the `base` that the first loop has moved.
  unfoldable pub in_bulk : ℕ → Bytes → Option (Bytes × Bytes)
  in_bulk offset bs = align offset bs >>= λ r.
      by_words ((length bs - 11 + 11) / 12) r.1 >>= λ s. some (r.0 ++ s.0, s.1)

  -- `encode` of a buffer at `address`, which is 0 for null. Its result has memory for 16 characters
  -- at least, so that the body is run for a buffer without bytes too.
  unfoldable pub encode_with : ℕ → Bytes → Option Bytes
  encode_with address bs =
      (if leb 12 (length bs) then in_bulk (address % 4) bs else some ([], bs)) >>= λ r.
      by_bytes (address + length bs) r.1 >>= λ cs. some (r.0 ++ cs)

abbrev pub table_of : Bool → Bytes
table_of base64url = if base64url then encode_table_url else encode_table_def

unfoldable pub encode : Bool → ℕ → Bytes → Option Bytes
encode base64url address bs = encode_with (table_of base64url) address bs

-- The 128 entries that the table lists; the others are 0. A row stands for 16 bytes.
abbrev pub decode_table : List ℕ
decode_table =
    255 ∷ 255 ∷ 255 ∷ 255 ∷ 255 ∷ 255 ∷ 255 ∷ 255 ∷ 255 ∷ 255 ∷ 255 ∷ 255 ∷ 255 ∷ 255 ∷ 255 ∷ 255
    ∷ 255 ∷ 255 ∷ 255 ∷ 255 ∷ 255 ∷ 255 ∷ 255 ∷ 255 ∷ 255 ∷ 255 ∷ 255 ∷ 255 ∷ 255 ∷ 255 ∷ 255 ∷ 255
    ∷ 255 ∷ 255 ∷ 255 ∷ 255 ∷ 255 ∷ 255 ∷ 255 ∷ 255 ∷ 255 ∷ 255 ∷ 255 ∷ 62 ∷ 255 ∷ 62 ∷ 255 ∷ 63
    ∷ 52 ∷ 53 ∷ 54 ∷ 55 ∷ 56 ∷ 57 ∷ 58 ∷ 59 ∷ 60 ∷ 61 ∷ 255 ∷ 255 ∷ 255 ∷ 255 ∷ 255 ∷ 255 ∷ 255 ∷ 0
    ∷ 1 ∷ 2 ∷ 3 ∷ 4 ∷ 5 ∷ 6 ∷ 7 ∷ 8 ∷ 9 ∷ 10 ∷ 11 ∷ 12 ∷ 13 ∷ 14 ∷ 15 ∷ 16 ∷ 17 ∷ 18 ∷ 19 ∷ 20 ∷ 21
    ∷ 22 ∷ 23 ∷ 24 ∷ 25 ∷ 255 ∷ 255 ∷ 255 ∷ 255 ∷ 63 ∷ 255 ∷ 26 ∷ 27 ∷ 28 ∷ 29 ∷ 30 ∷ 31 ∷ 32 ∷ 33
    ∷ 34 ∷ 35 ∷ 36 ∷ 37 ∷ 38 ∷ 39 ∷ 40 ∷ 41 ∷ 42 ∷ 43 ∷ 44 ∷ 45 ∷ 46 ∷ 47 ∷ 48 ∷ 49 ∷ 50 ∷ 51 ∷ 255
    ∷ 255 ∷ 255 ∷ 255 ∷ 255 ∷ []

unfoldable pub decoded : ℕ → ℕ
decoded c = get_or decode_table c 0

-- The local variables of the decoder: the bits `r`, the number `ri` of sextets, and what is
-- written before `out`.
pub record Decoder : Type 0 where
  pub r : ℕ
  pub ri : ℕ
  pub written : Bytes

-- The macro `shift6`.
unfoldable pub shift6 : ℕ → Decoder → Decoder
shift6 n s =
    if leb n 0x3F then record s { r = bit_or (s.r * 64 % 2 ^ 32) n; ri = (s.ri + 1) % 256 } else s

-- The bytes that the switch over `ri` writes.
unfoldable pub unpacked : Decoder → Bytes
unpacked s =
    if s.ri == 2
    then (bit_and s.r 0xff0 / 2 ^ 4) ∷ []
    else if s.ri == 3
    then (bit_and s.r 0x3fc00 / 2 ^ 10) ∷ (bit_and s.r 0x3fc / 2 ^ 2) ∷ []
    else if s.ri == 4
    then (bit_and s.r 0xff0000 / 2 ^ 16)
      ∷ (bit_and s.r 0xff00 / 2 ^ 8)
      ∷ (bit_and s.r 0xff / 2 ^ 0)
      ∷ []
    else []

-- What the switch of the first loop leaves in `ri`.
unfoldable pub carried : ℕ → ℕ
carried ri = if ri == 2 || ri == 3 then 1 else if ri == 4 then 0 else ri

-- Four characters.
unfoldable pub group : ℕ → ℕ → ℕ → ℕ → Decoder → Decoder
group a b c d s =
    let s' = shift6 (decoded d) (shift6 (decoded c) (shift6 (decoded b) (shift6 (decoded a) s))) in
    record s' { written = s'.written ++ unpacked s'; ri = carried s'.ri }

-- The first loop, and the characters that are left.
unfoldable pub decode_loop : Bytes → Decoder → Decoder
decode_loop [] s = s
decode_loop (a ∷ []) s = shift6 (decoded a) s
decode_loop (a ∷ b ∷ []) s = shift6 (decoded b) (shift6 (decoded a) s)
decode_loop (a ∷ b ∷ c ∷ []) s = shift6 (decoded c) (shift6 (decoded b) (shift6 (decoded a) s))
decode_loop (a ∷ b ∷ c ∷ d ∷ cs) s = decode_loop cs (group a b c d s)

-- `decode` of a buffer at `address`. The result has memory for 16 bytes at least. Where `end - 3`
-- wraps, the first loop reads past the end, or at null. The last switch writes without moving
-- `out`; a write that does not fit the memory of the result is a fault.
unfoldable pub decode : ℕ → Bytes → Option Bytes
decode address cs =
    let s = decode_loop cs (record { r = 0; ri = 0; written = [] }) in
    if ltb (address + length cs) 3
    then none
    else if leb (length s.written + length (unpacked s)) (grown 0 (length cs / 4 * 3))
    then some s.written
    else none
