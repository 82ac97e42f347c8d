-- ===== src/Util/Crc32c/Linear.antt =====
-- The steps of the reference, on numbers of any size, respect `^`.
use Prim.Native.Nat.{bit_xor}
use native.Mathlib.Nat.{div-add-mod, mod-lt, one-le-pow}
use libnodecc.Prelude.{
  ℕ, zero, suc, ◌+◌, ◌*◌, ◌/◌, ◌%◌, ◌^◌, ◌<◌, ◌≡◌, refl, sym, ap, ◌∙◌, arith, IsByte, [], ◌∷◌,
}
use libnodecc.Util.Bits.Xor.{
  xor-half, xor-parity, xor_comm, xor_assoc, xor_twice, xor_swap, xor_chain, xor-fields,
}
use libnodecc.Util.Bits.{pow_double}
use libnodecc.Util.Base64.{word}
use libnodecc.Util.Crc32c.Reference.{step, steps, take_byte, remainder}

both-odd : (a b c : ℕ) → bit_xor a b ≡ bit_xor (bit_xor a c) (bit_xor b c)
both-odd a b c = sym (
    sym (xor_assoc (bit_xor a c) b c)
    ∙ ap (λ t. bit_xor t c) (xor_swap a c b)
    ∙ xor_twice (bit_xor a b) c)

step-xor : (a b : ℕ) → step (bit_xor a b) ≡ bit_xor (step a) (step b)
unfolding step
step-xor a b = ground (
  arith,
  xor-half a b,
  xor-parity a b,
  xor_swap (a / 2) (b / 2) 0x82F63B78,
  xor_assoc (a / 2) (b / 2) 0x82F63B78,
  both-odd (a / 2) (b / 2) 0x82F63B78,
)

pub steps-xor : (k a b : ℕ) → steps k (bit_xor a b) ≡ bit_xor (steps k a) (steps k b)
unfolding steps
steps-xor zero a b = refl
steps-xor (suc k) a b = ap (steps k) (step-xor a b) ∙ steps-xor k (step a) (step b)

step-double : (q : ℕ) → step (2 * q) ≡ q
unfolding step
step-double q = ground arith

-- Zeros leave without a trace.
steps-shift : (k q : ℕ) → steps k (q * 2 ^ k) ≡ q
unfolding steps
steps-shift zero q = omega arith
steps-shift (suc k) q = rw (pow_double q k, step-double (q * 2 ^ k)) (steps-shift k q)

pub steps_add : (k n r : ℕ) → steps n (steps k r) ≡ steps (k + n) r
unfolding steps
steps_add zero n r = rw (none_more) refl
  where
    none_more : 0 + n ≡ n
    none_more = omega arith
steps_add (suc k) n r = rw (one_more) (steps_add k n (step r))
  where
    one_more : suc k + n ≡ suc (k + n)
    one_more = omega arith

-- The bits that leave first act on the others only by `^`.
pub steps-fields :
    (k n q r : ℕ)
    → r < 2 ^ k
    → steps (k + n) (q * 2 ^ k + r) ≡ bit_xor (steps (k + n) r) (steps n q)
steps-fields k n q r h =
    rw
      (
        sym (xor-fields k q r h),
        steps-xor (k + n) (q * 2 ^ k) r,
        sym (steps_add k n (q * 2 ^ k)),
        steps-shift k q,
      )
      (xor_comm (steps n q) (steps (k + n) r))

pub steps-split :
    (k n x : ℕ) → steps (k + n) x ≡ bit_xor (steps (k + n) (x % 2 ^ k)) (steps n (x / 2 ^ k))
steps-split k n x =
    ap (steps (k + n)) parts
    ∙ steps-fields k n (x / 2 ^ k) (x % 2 ^ k) (mod-lt x (omega (arith, one-le-pow k 2)))
  where
    parts : x ≡ x / 2 ^ k * 2 ^ k + x % 2 ^ k
    parts = omega (arith, div-add-mod x (2 ^ k))

pub take_byte-fields :
    (r b q : ℕ) → IsByte b → steps 8 (bit_xor r (q * 2 ^ 8 + b)) ≡ bit_xor (take_byte r b) q
unfolding take_byte
take_byte-fields r b q h =
    rw
      (
        sym (xor-fields 8 q b h),
        xor_comm (q * 2 ^ 8) b,
        sym (xor_assoc r b (q * 2 ^ 8)),
        steps-xor 8 (bit_xor r b) (q * 2 ^ 8),
        steps-shift 8 q,
      )
      refl

-- A word of four bytes enters at once.
pub remainder-word :
    (r a b c d : ℕ)
    → IsByte a
    → IsByte b
    → IsByte c
    → IsByte d
    → remainder r (a ∷ b ∷ c ∷ d ∷ []) ≡ steps 32 (bit_xor r (word d c b a))
unfolding remainder take_byte
remainder-word r a b c d ha hb hc hd = sym (
    rw
      (
        sym (steps_add 8 24 (bit_xor r (word d c b a))),
        take_byte-fields r a ((d * 256 + c) * 256 + b) ha,
        sym (steps_add 8 16 (bit_xor (take_byte r a) ((d * 256 + c) * 256 + b))),
        take_byte-fields (take_byte r a) b (d * 256 + c) hb,
        sym (steps_add 8 8 (bit_xor (take_byte (take_byte r a) b) (d * 256 + c))),
        take_byte-fields (take_byte (take_byte r a) b) c d hc,
      )
      refl)

-- The four bytes of a number below 2 ^ 32, each by itself.
pub steps-bytes :
    (n x : ℕ)
    → x < 2 ^ 32
    → steps (8 + (8 + (8 + (8 + n)))) x
      ≡ bit_xor
          (bit_xor
            (bit_xor
              (steps (8 + (8 + (8 + (8 + n)))) (x % 2 ^ 8))
              (steps (8 + (8 + (8 + n))) (x / 2 ^ 8 % 2 ^ 8)))
            (steps (8 + (8 + n)) (x / 2 ^ 16 % 2 ^ 8)))
          (steps (8 + n) (x / 2 ^ 16 / 2 ^ 8 % 2 ^ 8))
steps-bytes n x h =
    rw
      (
        steps-split 8 (8 + (8 + (8 + n))) x,
        steps-split 8 (8 + (8 + n)) (x / 2 ^ 8),
        third,
        steps-split 8 (8 + n) (x / 2 ^ 16),
        fourth,
      )
      (xor_chain (steps (8 + (8 + (8 + (8 + n)))) (x % 2 ^ 8))
        (steps (8 + (8 + (8 + n))) (x / 2 ^ 8 % 2 ^ 8)) (steps (8 + (8 + n)) (x / 2 ^ 16 % 2 ^ 8))
        (steps (8 + n) (x / 2 ^ 16 / 2 ^ 8)))
  where
    third : x / 2 ^ 8 / 2 ^ 8 ≡ x / 2 ^ 16
    third = omega arith

    fourth : x / 2 ^ 16 / 2 ^ 8 % 2 ^ 8 ≡ x / 2 ^ 16 / 2 ^ 8
    fourth = omega arith
