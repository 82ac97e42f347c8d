-- ===== src/Util/Fnv.antt =====
-- `fnv1a` of include/libnodecc/util/fnv.h, for a size_t of 64 bits.
use Prim.Native.Nat.{bit_xor}
use libnodecc.Prelude.{ℕ, ◌+◌, ◌-◌, ◌*◌, ◌%◌, ◌^◌, ◌<◌, ◌≡◌, refl, Bytes, [], ◌∷◌, All, lt→ltb}
use libnodecc.Prelude.{ltb, if◌then◌else◌}

abbrev pub basis : ℕ
basis = 14695981039346656037

abbrev pub prime : ℕ
prime = 1099511628211

-- One byte, in the arithmetic of T.
unfoldable pub mix : ℕ → ℕ → ℕ
mix hash byte = (bit_xor hash byte * prime) % 2 ^ 64

unfoldable pub hash_from : ℕ → Bytes → ℕ
hash_from hash [] = hash
hash_from hash (b ∷ bs) = hash_from (mix hash b) bs

unfoldable pub hash : Bytes → ℕ
hash bs = hash_from basis bs

-- `static_cast<T>(*str)` for a signed char.
abbrev pub widened : ℕ → ℕ
widened b = if ltb b 128 then b else b + (2 ^ 64 - 256)

unfoldable pub const_hash : Bytes → ℕ → ℕ
const_hash [] hash = hash
const_hash (b ∷ bs) hash = const_hash bs (mix hash (widened b))

abbrev pub IsAscii : ℕ → Type 0
IsAscii b = b < 128

-- On ASCII the hash of a literal is that of a buffer.
pub const_hash-from : (bs : Bytes) (h : ℕ) → All IsAscii bs → const_hash bs h ≡ hash_from h bs
unfolding const_hash hash_from
const_hash-from [] h a = refl
const_hash-from (b ∷ bs) h a = rw (lt→ltb b 128 a.0) (const_hash-from bs (mix h b) a.1)
