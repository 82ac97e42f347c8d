-- ===== src/Util/Bits.antt =====
-- The masks and shifts of src/util as arithmetic.
pub mod Digit
pub mod Xor
use native.Mathlib.Nat.{pow-suc, pow-succ', one-le-pow, div-div-eq-div-mul, div-add-mod}
use Prim.Native.Nat.{bit_and, bit_or}
use libnodecc.Prelude.{
  ℕ, zero, suc, ◌+◌, ◌-◌, ◌*◌, ◌/◌, ◌%◌, ◌^◌, ◌≤◌, ◌<◌, ◌≡◌, refl, ap, ◌∙◌, sym, arith,
}
use libnodecc.Util.Bits.Digit.{bit_and-digit, bit_or-digit}

and_zero_below : (n a : ℕ) → a ≤ n → bit_and a 0 ≡ 0
and_zero_below n zero h = refl
and_zero_below zero (suc a) h = absurd (omega arith)
and_zero_below (suc n) (suc a) h =
    omega (arith, bit_and-digit (suc a) 0, and_zero_below n (suc a / 2) (omega arith))

or_zero_below : (n a : ℕ) → a ≤ n → bit_or a 0 ≡ a
or_zero_below n zero h = refl
or_zero_below zero (suc a) h = absurd (omega arith)
or_zero_below (suc n) (suc a) h =
    omega (arith, bit_or-digit (suc a) 0, or_zero_below n (suc a / 2) (omega arith))

pub pow_double : (q k : ℕ) → q * 2 ^ suc k ≡ 2 * (q * 2 ^ k)
pow_double q k = omega (arith, ap (λ (t : ℕ). q * t) (pow-suc 2 k))

-- A division by a power of two, one digit at a time.
pub div-two_pow : (a k : ℕ) → a / 2 ^ suc k ≡ a / 2 / 2 ^ k
div-two_pow a k = ap (λ (t : ℕ). a / t) (pow-succ' 2 k) ∙ sym (div-div-eq-div-mul a 2 (2 ^ k))

pub mod-two_pow : (a k : ℕ) → a % 2 ^ suc k ≡ a / 2 % 2 ^ k * 2 + a % 2
mod-two_pow a k = omega (
  arith,
  div-add-mod (a / 2) (2 ^ k),
  div-add-mod a (2 ^ suc k),
  ap (λ (t : ℕ). 2 ^ suc k * t) (div-two_pow a k),
  ap (λ (t : ℕ). t * (a / 2 / 2 ^ k)) (pow-suc 2 k),
)

-- A mask of `k` ones.
pub bit_and-ones : (k a : ℕ) → bit_and a (2 ^ k - 1) ≡ a % 2 ^ k
bit_and-ones zero a = omega (arith, and_zero_below a a (omega arith))
bit_and-ones (suc k) a = ground (
  arith,
  bit_and-digit a (2 ^ suc k - 1),
  pow-suc 2 k,
  one-le-pow k 2,
  mod-two_pow a k,
  bit_and-ones k (a / 2),
)

-- A mask that is shifted away again.
pub bit_and-shifted : (k a m : ℕ) → bit_and a (m * 2 ^ k) / 2 ^ k ≡ bit_and (a / 2 ^ k) m
bit_and-shifted zero a m = ground arith
bit_and-shifted (suc k) a m = ground (
  arith,
  div-two_pow (bit_and a (m * 2 ^ suc k)) k,
  div-two_pow a k,
  bit_and-digit a (m * 2 ^ suc k),
  pow_double m k,
  bit_and-shifted k (a / 2) m,
)

-- A mask of high bits.
pub bit_and-high : (k a m : ℕ) → bit_and a (m * 2 ^ k) ≡ bit_and (a / 2 ^ k) m * 2 ^ k
bit_and-high zero a m = ground arith
bit_and-high (suc k) a m = ground (
  arith,
  div-two_pow a k,
  bit_and-digit a (m * 2 ^ suc k),
  pow_double m k,
  pow_double (bit_and (a / 2 ^ suc k) m) k,
  bit_and-high k (a / 2) m,
)

-- Fields that do not meet.
pub bit_or-fields : (k q r : ℕ) → r < 2 ^ k → bit_or (q * 2 ^ k) r ≡ q * 2 ^ k + r
bit_or-fields zero q r h = ground (arith, or_zero_below q q (omega arith))
bit_or-fields (suc k) q r h = ground (
  arith,
  bit_or-digit (q * 2 ^ suc k) r,
  pow_double q k,
  bit_or-fields k q (r / 2) (omega (arith, pow-suc 2 k)),
)
