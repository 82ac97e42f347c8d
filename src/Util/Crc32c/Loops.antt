-- ===== src/Util/Crc32c/Loops.antt =====
-- The loops of `push` against the reference, on whatever they read.
use Prim.Native.Nat.{bit_xor}
use libnodecc.Prelude.{
  ℕ, zero, suc, ◌*◌, ◌/◌, ◌^◌, ◌<◌, ◌≡◌, refl, arith, Bytes, IsBytes, [], ◌∷◌, ◌++◌, length, some,
}
use libnodecc.Util.Bits.Xor.{xor-below}
use libnodecc.Util.Base64.{word}
use libnodecc.Util.Crc32c.{push_bytes, push_words}
use libnodecc.Util.Crc32c.Reference.{step, steps, take_byte, remainder}
use libnodecc.Util.Crc32c.Entries.{entry-o32}
use libnodecc.Util.Crc32c.Halves.{
  first_half-steps, second_half-steps, table-take_byte, round-remainder,
}

pub remainder-append :
    (r : ℕ) (xs ys : Bytes) → remainder r (xs ++ ys) ≡ remainder (remainder r xs) ys
unfolding remainder
remainder-append r [] ys = refl
remainder-append r (x ∷ xs) ys = remainder-append (take_byte r x) xs ys

step-below : (r : ℕ) → r < 2 ^ 32 → step r < 2 ^ 32
unfolding step
step-below r h = ground (arith, xor-below 32 (r / 2) 0x82F63B78)

steps-below : (k r : ℕ) → r < 2 ^ 32 → steps k r < 2 ^ 32
unfolding steps
steps-below zero r h = h
steps-below (suc k) r h = steps-below k (step r) (step-below r h)

pub remainder-below : (r : ℕ) (bs : Bytes) → r < 2 ^ 32 → IsBytes bs → remainder r bs < 2 ^ 32
unfolding remainder take_byte
remainder-below r [] h ok = h
remainder-below r (b ∷ bs) h ok =
    remainder-below (take_byte r b) bs
      (steps-below 8 (bit_xor r b) (xor-below 32 r b h (omega (arith, ok.0)))) ok.1

pub push_bytes-append :
    (crc : ℕ) (xs ys : Bytes)
    → IsBytes xs
    → push_bytes (length xs) crc (xs ++ ys) ≡ some (remainder crc xs, ys)
unfolding push_bytes remainder
push_bytes-append crc [] ys ok = refl
push_bytes-append crc (x ∷ xs) ys ok =
    rw (entry-o32 (bit_xor crc x), table-take_byte crc x ok.0)
      (push_bytes-append (take_byte crc x) xs ys ok.1)

pub push_words-append :
    (n crc : ℕ) (xs ys : Bytes)
    → length xs ≡ n * 8
    → crc < 2 ^ 32
    → IsBytes xs
    → push_words n crc (xs ++ ys) ≡ some (remainder crc xs, ys)
unfolding push_words remainder
push_words-append zero crc [] ys count small ok = refl
push_words-append zero crc (x ∷ xs) ys count small ok = absurd (omega arith)
push_words-append (suc n) crc (a ∷ b ∷ c ∷ d ∷ e ∷ f ∷ g ∷ h ∷ xs) ys count small
      (ha, (hb, (hc, (hd, (he, (hf, (hg, (hh, ok)))))))) =
    rw
      (
        first_half-steps (bit_xor crc (word d c b a))
            (xor-below 32 crc (word d c b a) small (omega arith)),
        second_half-steps (steps 64 (bit_xor crc (word d c b a))) (word h g f e) (omega arith),
        round-remainder crc a b c d e f g h bytes,
      )
      (push_words-append n (remainder crc (a ∷ b ∷ c ∷ d ∷ e ∷ f ∷ g ∷ h ∷ [])) xs ys (omega arith)
        (remainder-below crc (a ∷ b ∷ c ∷ d ∷ e ∷ f ∷ g ∷ h ∷ []) small bytes) ok)
  where
    bytes : IsBytes (a ∷ b ∷ c ∷ d ∷ e ∷ f ∷ g ∷ h ∷ [])
    bytes = (ha, (hb, (hc, (hd, (he, (hf, (hg, (hh, tt))))))))
push_words-append (suc n) crc (a ∷ b ∷ c ∷ d ∷ e ∷ f ∷ g ∷ []) ys count small ok =
    absurd (omega arith)
push_words-append (suc n) crc (a ∷ b ∷ c ∷ d ∷ e ∷ f ∷ []) ys count small ok = absurd (omega arith)
push_words-append (suc n) crc (a ∷ b ∷ c ∷ d ∷ e ∷ []) ys count small ok = absurd (omega arith)
push_words-append (suc n) crc (a ∷ b ∷ c ∷ d ∷ []) ys count small ok = absurd (omega arith)
push_words-append (suc n) crc (a ∷ b ∷ c ∷ []) ys count small ok = absurd (omega arith)
push_words-append (suc n) crc (a ∷ b ∷ []) ys count small ok = absurd (omega arith)
push_words-append (suc n) crc (a ∷ []) ys count small ok = absurd (omega arith)
push_words-append (suc n) crc [] ys count small ok = absurd (omega arith)
