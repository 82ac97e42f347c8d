-- ===== src/Util/Digits.antt =====
-- `digits2` and `digits` of src/util/math.cc: how many digits a number has in a base.
use Prim.Native.Nat.{bit_and}
use native.Mathlib.Decide.{dec_lt}
use native.Mathlib.Nat.{pow-suc, pow-le-pow_right, le_trans, one-le-pow}
use libnodecc.Prelude.{
  ℕ, zero, suc, ◌+◌, ◌-◌, ◌*◌, ◌/◌, ◌^◌, ◌≤◌, ◌<◌, ◌≡◌, refl, ◌∙◌, ap, arith, Bool,
}
use libnodecc.Prelude.{◌==◌, leb, ◌||◌, if◌then◌else◌}
use libnodecc.Prelude.{leb→le, Bool-cases, inl, inr}
use libnodecc.Util.Power.{pow-add}

-- What the compiler and the platform supply. `clz` is `__builtin_clzl`, which counts the leading
-- zero bits of a 64-bit number other than 0; `log_ratio n base` is
-- `(unsigned int)(std::log(n) / std::log(base))`; `wide` says that the preprocessor chose the
-- branch `SIZE_T_MAX == UINT64_MAX` over `SIZE_T_MAX <= UINT32_MAX`.
pub record Platform : Type 0 where
  pub clz : ℕ → ℕ
  pub log_ratio : ℕ → ℕ → ℕ
  pub wide : Bool
  pub clz-lt : (n : ℕ) → 0 < n → n < 2 ^ 64 → clz n < 64
  pub clz_lower : (n : ℕ) → 0 < n → n < 2 ^ 64 → 2 ^ (63 - clz n) ≤ n
  pub clz_upper : (n : ℕ) → 0 < n → n < 2 ^ 64 → n < 2 ^ (64 - clz n)

-- One test for each power of ten, from `10 ^ k` down.
ladder : ℕ → ℕ → ℕ
ladder zero n = 1
ladder (suc k) n = if leb (10 ^ suc k) n then k + 2 else ladder k n

sub-sub_one : (c : ℕ) → 64 - c - 1 ≡ 63 - c
sub-sub_one c = omega arith

module _ ⦃p : Platform⦄ where
  unfoldable pub digits2 : ℕ → ℕ
  digits2 n = if n == 0 then 0 else 64 - p.clz n

  unfoldable pub digits : ℕ → ℕ → ℕ
  unfolding ladder digits2
  digits n base =
      if (base == 0) || (base == 1)
      then 0
      else if base == 2
      then digits2 n
      else if base == 10
      then ladder (if p.wide then 19 else 9) n
      else if bit_and base (base - 1) == 0
      then (digits2 n + digits2 base - 2) / (digits2 base - 1)
      else p.log_ratio n base

  -- The bounds that make `digits2 n` the number of binary digits of `n`.
  digits2_bounds :
      (n : ℕ)
      → 0 < n
      → n < 2 ^ 64
      → (1 ≤ digits2 n) × (2 ^ (digits2 n - 1) ≤ n) × (n < 2 ^ digits2 n)
  unfolding digits2
  digits2_bounds n pos lt =
      ground (arith, p.clz-lt n, p.clz_lower n, p.clz_upper n, sub-sub_one (p.clz n))

-- Only one number of digits fits.
exponent_unique :
    (b i j n : ℕ) → 1 < b → b ^ i ≤ n → n < b ^ suc i → b ^ j ≤ n → n < b ^ suc j → i ≡ j
exponent_unique b i j n h p q r s = elim (dec_lt i j) [
  | yes l ↦ absurd (omega (arith, pow-le-pow_right {n = b} (omega arith) {i = suc i} {j = j} l))
  | no l ↦ elim (dec_lt j i) [
    | yes m ↦ absurd (omega (arith, pow-le-pow_right {n = b} (omega arith) {i = suc j} {j = i} m))
    | no m ↦ omega arith
  ]
]

pow_sixteen : (k : ℕ) → 16 ^ k ≡ 2 ^ (4 * k)
pow_sixteen zero = refl
pow_sixteen (suc k) =
    omega (arith, pow-suc 16 k, pow_sixteen k, pow-add 2 4 (4 * k), ap (λ t. 2 ^ t) (four_suc k))
  where
    four_suc : (k : ℕ) → 4 * suc k ≡ 4 + 4 * k
    four_suc k = omega arith

ladder_upper : (k n : ℕ) → n < 10 ^ suc k → n < 10 ^ ladder k n
unfolding ladder
ladder_upper zero n h = h
ladder_upper (suc k) n h = elim (Bool-cases (leb (10 ^ suc k) n)) [
  | inl e ↦ rw e (rw (add_two k) h)
  | inr e ↦ rw e (ladder_upper k n (ground arith))
]
  where
    add_two : (k : ℕ) → k + 2 ≡ suc (suc k)
    add_two k = omega arith

ladder_lower : (k n : ℕ) → 0 < n → 10 ^ (ladder k n - 1) ≤ n
unfolding ladder
ladder_lower zero n h = h
ladder_lower (suc k) n h = elim (Bool-cases (leb (10 ^ suc k) n)) [
  | inl e ↦ rw e (rw (sub_one k) (leb→le _ _ e))
  | inr e ↦ rw e (ladder_lower k n h)
]
  where
    sub_one : (k : ℕ) → k + 2 - 1 ≡ suc k
    sub_one k = omega arith

ladder_pos : (k n : ℕ) → 1 ≤ ladder k n
unfolding ladder
ladder_pos zero n = omega arith
ladder_pos (suc k) n = ground (arith, ladder_pos k n)

ladder_zero : (k : ℕ) → ladder k 0 ≡ 1
unfolding ladder
ladder_zero zero = refl
ladder_zero (suc k) = ground (arith, one-le-pow (suc k) 10, ladder_zero k)

hex_power : (a : ℕ) → 1 ≤ a → 4 * ((a + 5 - 2) / (5 - 1) - 1) ≤ a - 1
hex_power a h = omega arith

hex_power_above : (a : ℕ) → a ≤ 4 * ((a + 5 - 2) / (5 - 1))
hex_power_above a = omega arith

-- The bounds that make `length` the number of digits of `n` in `base`.
abbrev pub IsLength : ℕ → ℕ → ℕ → Type 0
IsLength base n length = (1 ≤ length) × (base ^ (length - 1) ≤ n) × (n < base ^ length)

module _ ⦃p : Platform⦄ where
  digits2_sixteen : digits2 16 ≡ 5
  digits2_sixteen =
      let b = digits2_bounds 16 (omega arith) (omega arith) in
      let e : digits2 16 ≡ suc (digits2 16 - 1) = omega (arith, b) in
      e
      ∙ ap suc (
          exponent_unique 2 (digits2 16 - 1) 4 16 (omega arith) b.1
            (let u : 16 < 2 ^ suc (digits2 16 - 1) = rw (← e) b.2 in u) (omega arith) (omega arith))

  pub digits-hex : (n : ℕ) → 0 < n → n < 2 ^ 64 → IsLength 16 n (digits n 16)
  unfolding digits
  digits-hex n pos lt = rw digits2_sixteen (
    omega (arith, digits2_bounds n pos lt),
    rw pow_sixteen (
        le_trans
          (pow-le-pow_right (omega arith) (hex_power (digits2 n) (digits2_bounds n pos lt).0))
          (digits2_bounds n pos lt).1),
    rw pow_sixteen (
        le_trans (digits2_bounds n pos lt).2
          (pow-le-pow_right (omega arith) (hex_power_above (digits2 n)))),
  )

  -- Below this bound the decimal ladder is long enough.
  abbrev pub decimal_limit : ℕ
  decimal_limit = if p.wide then 2 ^ 64 else 10 ^ 10

  pub digits-decimal : (n : ℕ) → 0 < n → n < decimal_limit → IsLength 10 n (digits n 10)
  unfolding digits
  digits-decimal n pos lt = elim (Bool-cases p.wide) [
    | inl w ↦ rw w (
      ladder_pos 19 n,
      ladder_lower 19 n pos,
      ladder_upper 19 n (le_trans (rw w at lt) (omega arith)),
    )
    | inr w ↦ rw w (ladder_pos 9 n, ladder_lower 9 n pos, ladder_upper 9 n (rw w at lt))
  ]

  digits2_zero : digits2 0 ≡ 0
  unfolding digits2
  digits2_zero = refl

  pub digits_zero_hex : digits 0 16 ≡ 0
  unfolding digits
  digits_zero_hex = rw (digits2_sixteen, digits2_zero)

  pub digits_zero_decimal : digits 0 10 ≡ 1
  unfolding digits
  digits_zero_decimal = ladder_zero (if p.wide then 19 else 9)

  pub decimal_limit_le : decimal_limit ≤ 2 ^ 64
  decimal_limit_le = ground arith
