-- ===== src/Util/Crc32c/Halves.antt =====
-- The two halves of a round, and the loops, against the reference.
use Prim.Native.Nat.{bit_xor}
use libnodecc.Prelude.{
  ℕ, ◌/◌, ◌%◌, ◌^◌, ◌<◌, ◌≡◌, refl, sym, ap, ◌∙◌, arith, IsByte, IsBytes, [], ◌∷◌, some,
}
use libnodecc.Util.Bits.Xor.{xor-shift, xor_after, xor_zero}
use libnodecc.Util.Base64.{word}
use libnodecc.Util.Crc32c.{first_half, second_half}
use libnodecc.Util.Crc32c.Reference.{steps, take_byte, remainder}
use libnodecc.Util.Crc32c.Linear.{steps-xor, steps_add, steps-split, steps-bytes, remainder-word}
use libnodecc.Util.Crc32c.Entries.{
  entry-o32, entry-o40, entry-o48, entry-o56, entry-o64, entry-o72, entry-o80, entry-o88,
}

pub first_half-steps : (crc : ℕ) → crc < 2 ^ 32 → first_half crc ≡ some (steps 64 crc)
unfolding first_half
first_half-steps crc h =
    rw
      (
        entry-o88 crc,
        entry-o80 (crc / 2 ^ 8),
        entry-o72 (crc / 2 ^ 16),
        entry-o64 (crc / 2 ^ 16 / 2 ^ 8),
        steps-bytes 32 crc h,
      )
      refl

pub second_half-steps :
    (crc w : ℕ) → w < 2 ^ 32 → second_half crc w ≡ some (bit_xor crc (steps 32 w))
unfolding second_half
second_half-steps crc w h =
    rw
      (
        entry-o56 w,
        entry-o48 (w / 2 ^ 8),
        entry-o40 (w / 2 ^ 16),
        entry-o32 (w / 2 ^ 16 / 2 ^ 8),
        steps-bytes 0 w h,
      )
      (ap some (
        xor_after crc (bit_xor (steps 32 (w % 2 ^ 8)) (steps 24 (w / 2 ^ 8 % 2 ^ 8)))
          (steps 16 (w / 2 ^ 16 % 2 ^ 8)) (steps 8 (w / 2 ^ 16 / 2 ^ 8 % 2 ^ 8))))

-- One byte by the table.
pub table-take_byte :
    (crc b : ℕ)
    → IsByte b
    → bit_xor (steps 8 (bit_xor crc b % 2 ^ 8)) (crc / 2 ^ 8) ≡ take_byte crc b
unfolding take_byte steps
table-take_byte crc b h = rw (steps-split 8 0 (bit_xor crc b), above) refl
  where
    no_more : b / 2 ^ 8 ≡ 0
    no_more = omega arith

    above : bit_xor crc b / 2 ^ 8 ≡ crc / 2 ^ 8
    above = xor-shift 8 crc b ∙ ap (bit_xor (crc / 2 ^ 8)) no_more ∙ xor_zero (crc / 2 ^ 8)

-- A whole round, from two words to eight bytes.
pub round-remainder :
    (crc a b c d e f g h : ℕ)
    → IsBytes (a ∷ b ∷ c ∷ d ∷ e ∷ f ∷ g ∷ h ∷ [])
    → bit_xor (steps 64 (bit_xor crc (word d c b a))) (steps 32 (word h g f e))
      ≡ remainder crc (a ∷ b ∷ c ∷ d ∷ e ∷ f ∷ g ∷ h ∷ [])
unfolding remainder
round-remainder crc a b c d e f g h (ha, (hb, (hc, (hd, (he, (hf, (hg, (hh, _)))))))) = sym (
    remainder-word (remainder crc (a ∷ b ∷ c ∷ d ∷ [])) e f g h he hf hg hh
    ∙ ap (λ t. steps 32 (bit_xor t (word h g f e))) (remainder-word crc a b c d ha hb hc hd)
    ∙ steps-xor 32 (steps 32 x) (word h g f e)
    ∙ ap (λ t. bit_xor t (steps 32 (word h g f e))) (steps_add 32 32 x))
  where
    x : ℕ
    x = bit_xor crc (word d c b a)
