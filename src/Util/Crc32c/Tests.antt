-- ===== src/Util/Crc32c/Tests.antt =====
-- Concrete checksums.
use libnodecc.Prelude.{ℕ, ◌≡◌, refl, arith, codes, Bytes, List, [], ◌∷◌, All, some, ◌>>=◌}
use libnodecc.Util.Crc32c.{crc32c, push_to, checksum}
use libnodecc.Util.Crc32c.Reference.{step, steps, take_byte, remainder, crc}
use libnodecc.Util.Crc32c.Sliced.{push_to-remainder}
use libnodecc.Util.Crc32c.Pushes.{IsPiece, push_all, push_all-crc, push_all-crc_empty}

-- The check value of CRC-32C, of nine bytes.
check_value : crc (codes "123456789") ≡ 0xE3069283
unfolding crc remainder take_byte steps step
check_value = refl

-- Three bytes up to an address that is a multiple of 8, two rounds, and two bytes.
push_to-remainder_example :
    push_to 0xffffffff 1005 (codes "twenty-one characters")
    ≡ some (remainder 0xffffffff (codes "twenty-one characters"))
push_to-remainder_example =
    push_to-remainder 0xffffffff 1005 (codes "twenty-one characters") (omega arith) (omega arith)
      (omega arith) (omega arith) (ground arith)

abbrev nine_digits : List (ℕ × Bytes)
nine_digits = (4099, codes "1234") ∷ (9008, codes "56789") ∷ []

nine_digits-IsPiece : All IsPiece nine_digits
nine_digits-IsPiece = ground arith

-- Two buffers at two addresses.
push_all-crc_example : (push_all crc32c nine_digits >>= λ c. some (checksum c)) ≡ some 0xE3069283
unfolding crc remainder take_byte steps step
push_all-crc_example = push_all-crc nine_digits nine_digits-IsPiece

-- An empty buffer between them.
push_all-crc_empty_example :
    (push_all crc32c ((4096, codes "lost") ∷ (5000, []) ∷ nine_digits) >>= λ c. some (checksum c))
    ≡ some 0xE3069283
unfolding crc remainder take_byte steps step
push_all-crc_empty_example =
    push_all-crc_empty ((4096, codes "lost") ∷ []) nine_digits 5000 (ground arith)
      nine_digits-IsPiece
