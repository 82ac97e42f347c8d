-- ===== src/Util/Base64/Reference.antt =====
-- Base64 as in RFC 4648: each three bytes are a number of 24 bits, which is written as four digits
-- of six bits.
use libnodecc.Prelude.{ℕ, ◌+◌, ◌*◌, ◌/◌, ◌%◌, ◌^◌, Bytes, [], ◌∷◌, ◌++◌}
use libnodecc.Util.Base64.{letter}

module _ (table : Bytes) where
  abbrev pub digit : ℕ → ℕ → ℕ
  digit n k = letter table (n / 64 ^ k % 64)

  abbrev pub digits_of : ℕ → ℕ → ℕ → Bytes
  digits_of a b c =
      let n = a * 2 ^ 16 + b * 2 ^ 8 + c in digit n 3 ∷ digit n 2 ∷ digit n 1 ∷ digit n 0 ∷ []

  unfoldable pub reference : Bytes → Bytes
  reference [] = []
  reference (a ∷ []) = let n = a * 2 ^ 16 in digit n 3 ∷ digit n 2 ∷ b'=' ∷ b'=' ∷ []
  reference (a ∷ b ∷ []) =
      let n = a * 2 ^ 16 + b * 2 ^ 8 in digit n 3 ∷ digit n 2 ∷ digit n 1 ∷ b'=' ∷ []
  reference (a ∷ b ∷ c ∷ bs) = digits_of a b c ++ reference bs
