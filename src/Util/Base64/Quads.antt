-- ===== src/Util/Base64/Quads.antt =====
-- The masks and shifts of the encoder give the digits of the reference.
use Prim.Native.Nat.{bit_and, bit_or}
use libnodecc.Prelude.{
  ℕ, ◌+◌, ◌-◌, ◌*◌, ◌/◌, ◌%◌, ◌^◌, ◌<◌, ◌≡◌, refl, ap, ◌∙◌, arith, Bytes, IsByte, IsBytes, [], ◌∷◌,
  ◌++◌,
}
use libnodecc.Util.Bits.{bit_and-ones, bit_and-shifted, bit_or-fields}
use libnodecc.Util.Base64.{word, quad, quads}
use libnodecc.Util.Base64.Reference.{digits_of}

-- The low `k` bits of one number in front of `m` bits of another.
pub low_then :
    (k m a r : ℕ) → r < 2 ^ m → bit_or (bit_and a (2 ^ k - 1) * 2 ^ m) r ≡ a % 2 ^ k * 2 ^ m + r
low_then k m a r h =
    bit_or-fields m (bit_and a (2 ^ k - 1)) r h ∙ ap (λ t. t * 2 ^ m + r) (bit_and-ones k a)

-- `k` bits of a number from bit `m` on.
pub field : (k m a : ℕ) → bit_and a ((2 ^ k - 1) * 2 ^ m) / 2 ^ m ≡ a / 2 ^ m % 2 ^ k
field k m a = bit_and-shifted m a (2 ^ k - 1) ∙ bit_and-ones k (a / 2 ^ m)

module _ (table : Bytes) where
  pub quad-digits :
      (a b c : ℕ) → IsByte a → IsByte b → IsByte c → quad table a b c ≡ digits_of table a b c
  unfolding quad
  quad-digits a b c ha hb hc = rw (e0, e1, e2, e3) refl
    where
      n : ℕ
      n = a * 2 ^ 16 + b * 2 ^ 8 + c

      e0 : a / 4 ≡ n / 64 ^ 3 % 64
      e0 = omega arith

      e1 : bit_or (bit_and a 3 * 16) (b / 16) ≡ n / 64 ^ 2 % 64
      e1 = omega (arith, low_then 2 4 a (b / 16) (omega arith))

      e2 : bit_or (bit_and b 15 * 4) (c / 64) ≡ n / 64 ^ 1 % 64
      e2 = omega (arith, low_then 4 2 b (c / 64) (omega arith))

      e3 : bit_and c 63 ≡ n / 64 ^ 0 % 64
      e3 = omega (arith, bit_and-ones 6 c)

  pub quads-digits :
      (a b c d e f g h i j k l : ℕ)
      → IsBytes (a ∷ b ∷ c ∷ d ∷ e ∷ f ∷ g ∷ h ∷ i ∷ j ∷ k ∷ l ∷ [])
      → quads table (word a b c d) (word e f g h) (word i j k l)
        ≡ digits_of table a b c
          ++ (digits_of table d e f ++ (digits_of table g h i ++ digits_of table j k l))
  unfolding quads
  quads-digits a b c d e f g h i j k l below =
      rw (e0, e1, e2, e3, e4, e5, e6, e7, e8, e9, e10, e11, e12, e13, e14, e15) refl
    where
      w1 : ℕ
      w1 = word a b c d

      w2 : ℕ
      w2 = word e f g h

      w3 : ℕ
      w3 = word i j k l

      e0 : w1 / 2 ^ 26 ≡ (a * 2 ^ 16 + b * 2 ^ 8 + c) / 64 ^ 3 % 64
      e0 = omega arith

      e1 : bit_and w1 66060288 / 2 ^ 20 ≡ (a * 2 ^ 16 + b * 2 ^ 8 + c) / 64 ^ 2 % 64
      e1 = omega (arith, field 6 20 w1)

      e2 : bit_and w1 1032192 / 2 ^ 14 ≡ (a * 2 ^ 16 + b * 2 ^ 8 + c) / 64 ^ 1 % 64
      e2 = omega (arith, field 6 14 w1)

      e3 : bit_and w1 16128 / 2 ^ 8 ≡ (a * 2 ^ 16 + b * 2 ^ 8 + c) / 64 ^ 0 % 64
      e3 = omega (arith, field 6 8 w1)

      e4 : bit_and w1 252 / 2 ^ 2 ≡ (d * 2 ^ 16 + e * 2 ^ 8 + f) / 64 ^ 3 % 64
      e4 = omega (arith, field 6 2 w1)

      e5 : bit_or (bit_and w1 3 * 2 ^ 4) (w2 / 2 ^ 28) ≡ (d * 2 ^ 16 + e * 2 ^ 8 + f) / 64 ^ 2 % 64
      e5 = omega (arith, low_then 2 4 w1 (w2 / 2 ^ 28) (omega arith))

      e6 : bit_and w2 264241152 / 2 ^ 22 ≡ (d * 2 ^ 16 + e * 2 ^ 8 + f) / 64 ^ 1 % 64
      e6 = omega (arith, field 6 22 w2)

      e7 : bit_and w2 4128768 / 2 ^ 16 ≡ (d * 2 ^ 16 + e * 2 ^ 8 + f) / 64 ^ 0 % 64
      e7 = omega (arith, field 6 16 w2)

      e8 : bit_and w2 64512 / 2 ^ 10 ≡ (g * 2 ^ 16 + h * 2 ^ 8 + i) / 64 ^ 3 % 64
      e8 = omega (arith, field 6 10 w2)

      e9 : bit_and w2 1008 / 2 ^ 4 ≡ (g * 2 ^ 16 + h * 2 ^ 8 + i) / 64 ^ 2 % 64
      e9 = omega (arith, field 6 4 w2)

      e10 :
          bit_or (bit_and w2 15 * 2 ^ 2) (w3 / 2 ^ 30) ≡ (g * 2 ^ 16 + h * 2 ^ 8 + i) / 64 ^ 1 % 64
      e10 = omega (arith, low_then 4 2 w2 (w3 / 2 ^ 30) (omega arith))

      e11 : bit_and w3 1056964608 / 2 ^ 24 ≡ (g * 2 ^ 16 + h * 2 ^ 8 + i) / 64 ^ 0 % 64
      e11 = omega (arith, field 6 24 w3)

      e12 : bit_and w3 16515072 / 2 ^ 18 ≡ (j * 2 ^ 16 + k * 2 ^ 8 + l) / 64 ^ 3 % 64
      e12 = omega (arith, field 6 18 w3)

      e13 : bit_and w3 258048 / 2 ^ 12 ≡ (j * 2 ^ 16 + k * 2 ^ 8 + l) / 64 ^ 2 % 64
      e13 = omega (arith, field 6 12 w3)

      e14 : bit_and w3 4032 / 2 ^ 6 ≡ (j * 2 ^ 16 + k * 2 ^ 8 + l) / 64 ^ 1 % 64
      e14 = omega (arith, field 6 6 w3)

      e15 : bit_and w3 63 ≡ (j * 2 ^ 16 + k * 2 ^ 8 + l) / 64 ^ 0 % 64
      e15 = omega (arith, bit_and-ones 6 w3)
