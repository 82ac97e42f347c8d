-- ===== src/Util/Bits/Xor.antt =====
-- The laws of `^`, from its digits.
use Prim.Native.Nat.{bit_xor}
use native.Mathlib.Nat.{pow-suc}
use libnodecc.Prelude.{
  ℕ, zero, suc, ◌+◌, ◌*◌, ◌/◌, ◌%◌, ◌^◌, ◌≤◌, ◌<◌, ◌≡◌, refl, sym, ap, ◌∙◌, arith,
}
use libnodecc.Util.Bits.Digit.{bit_xor-digit}
use libnodecc.Util.Bits.{div-two_pow, pow_double}

pub xor-half : (a b : ℕ) → bit_xor a b / 2 ≡ bit_xor (a / 2) (b / 2)
xor-half a b = omega (arith, bit_xor-digit a b)

pub xor-parity : (a b : ℕ) → bit_xor a b % 2 ≡ (a % 2 + b % 2) % 2
xor-parity a b = omega (arith, bit_xor-digit a b)

comm_below : (n a b : ℕ) → a ≤ n → b ≤ n → bit_xor a b ≡ bit_xor b a
comm_below zero zero zero h k = refl
comm_below zero zero (suc b) h k = absurd (omega arith)
comm_below zero (suc a) b h k = absurd (omega arith)
comm_below (suc n) a b h k = omega (
  arith,
  bit_xor-digit a b,
  bit_xor-digit b a,
  comm_below n (a / 2) (b / 2) (omega arith) (omega arith),
)

pub xor_comm : (a b : ℕ) → bit_xor a b ≡ bit_xor b a
xor_comm a b = comm_below (a + b) a b (omega arith) (omega arith)

assoc_below :
    (n a b c : ℕ) → a ≤ n → b ≤ n → c ≤ n → bit_xor (bit_xor a b) c ≡ bit_xor a (bit_xor b c)
assoc_below zero a b c h k l = zeros (omega arith) (omega arith) (omega arith)
  where
    zeros : a ≡ 0 → b ≡ 0 → c ≡ 0 → bit_xor (bit_xor a b) c ≡ bit_xor a (bit_xor b c)
    zeros p q r = rw (p, q, r) refl
assoc_below (suc n) a b c h k l = omega (
  arith,
  bit_xor-digit (bit_xor a b) c,
  bit_xor-digit a (bit_xor b c),
  ap (λ t. bit_xor t (c / 2)) (xor-half a b),
  ap (λ t. bit_xor (a / 2) t) (xor-half b c),
  xor-parity a b,
  xor-parity b c,
  assoc_below n (a / 2) (b / 2) (c / 2) (omega arith) (omega arith) (omega arith),
)

pub xor_assoc : (a b c : ℕ) → bit_xor (bit_xor a b) c ≡ bit_xor a (bit_xor b c)
xor_assoc a b c = assoc_below (a + b + c) a b c (omega arith) (omega arith) (omega arith)

self_below : (n a : ℕ) → a ≤ n → bit_xor a a ≡ 0
self_below zero a h = rw (the_zero) refl
  where
    the_zero : a ≡ 0
    the_zero = omega arith
self_below (suc n) a h = omega (arith, bit_xor-digit a a, self_below n (a / 2) (omega arith))

pub xor_self : (a : ℕ) → bit_xor a a ≡ 0
xor_self a = self_below a a (omega arith)

zero_below : (n a : ℕ) → a ≤ n → bit_xor a 0 ≡ a
zero_below zero a h = rw (the_zero) refl
  where
    the_zero : a ≡ 0
    the_zero = omega arith
zero_below (suc n) a h = omega (arith, bit_xor-digit a 0, zero_below n (a / 2) (omega arith))

pub xor_zero : (a : ℕ) → bit_xor a 0 ≡ a
xor_zero a = zero_below a a (omega arith)

-- What is mixed in twice is gone.
pub xor_twice : (a b : ℕ) → bit_xor (bit_xor a b) b ≡ a
xor_twice a b = xor_assoc a b b ∙ ap (bit_xor a) (xor_self b) ∙ xor_zero a

pub xor_swap : (a b c : ℕ) → bit_xor (bit_xor a b) c ≡ bit_xor (bit_xor a c) b
xor_swap a b c = xor_assoc a b c ∙ ap (bit_xor a) (xor_comm b c) ∙ sym (xor_assoc a c b)

pub xor_chain :
    (a b c d : ℕ) → bit_xor a (bit_xor b (bit_xor c d)) ≡ bit_xor (bit_xor (bit_xor a b) c) d
xor_chain a b c d = sym (xor_assoc (bit_xor a b) c d ∙ xor_assoc a b (bit_xor c d))

pub xor_after :
    (a b c d : ℕ) → bit_xor (bit_xor (bit_xor a b) c) d ≡ bit_xor a (bit_xor (bit_xor b c) d)
xor_after a b c d = ap (λ t. bit_xor t d) (xor_assoc a b c) ∙ xor_assoc a (bit_xor b c) d

pub xor-below : (k a b : ℕ) → a < 2 ^ k → b < 2 ^ k → bit_xor a b < 2 ^ k
xor-below zero a b h l = zeros (omega arith) (omega arith)
  where
    zeros : a ≡ 0 → b ≡ 0 → bit_xor a b < 1
    zeros p q = rw (p, q) omega arith
xor-below (suc k) a b h l = omega (
  arith,
  pow-suc 2 k,
  bit_xor-digit a b,
  xor-below k (a / 2) (b / 2) (omega (arith, pow-suc 2 k)) (omega (arith, pow-suc 2 k)),
)

pub xor-shift : (k a b : ℕ) → bit_xor a b / 2 ^ k ≡ bit_xor (a / 2 ^ k) (b / 2 ^ k)
xor-shift zero a b = ground arith
xor-shift (suc k) a b = ground (
  arith,
  div-two_pow (bit_xor a b) k,
  div-two_pow a k,
  div-two_pow b k,
  xor-half a b,
  xor-shift k (a / 2) (b / 2),
)

-- Fields that do not meet.
pub xor-fields : (k q r : ℕ) → r < 2 ^ k → bit_xor (q * 2 ^ k) r ≡ q * 2 ^ k + r
xor-fields zero q r h = ground (arith, xor_zero q)
xor-fields (suc k) q r h = ground (
  arith,
  bit_xor-digit (q * 2 ^ suc k) r,
  pow_double q k,
  xor-fields k q (r / 2) (omega (arith, pow-suc 2 k)),
)
