-- ===== src/Util/Sample.antt =====
-- A platform that meets what `Platform` asks for, to run the models on: leading zeros are counted by
-- halving.
use native.Mathlib.Nat.{pow-suc}
use libnodecc.Prelude.{
  ℕ, zero, suc, ◌-◌, ◌*◌, ◌/◌, ◌^◌, ◌≤◌, ◌<◌, ◌≡◌, refl, arith, true, false, Bool-cases, inl, inr,
  ◌==◌, if◌then◌else◌,
}
use libnodecc.Util.Digits.{Platform}

unfoldable pub bit_size : ℕ → ℕ → ℕ
bit_size zero n = 0
bit_size (suc fuel) n = let rest = bit_size fuel (n / 2) in if n == 0 then 0 else suc rest

record Bounds (fuel n s : ℕ) : Type 0 where
  above : 1 ≤ s
  below : s ≤ fuel
  lower : 2 ^ (s - 1) ≤ n
  upper : n < 2 ^ s

bit_size_zero : (fuel : ℕ) → bit_size fuel 0 ≡ 0
unfolding bit_size
bit_size_zero zero = refl
bit_size_zero (suc fuel) = refl

nonzero : (n : ℕ) → 0 < n → (n == 0) ≡ false
nonzero n h = ground arith

suc-sub-one : (s : ℕ) → suc s - 1 ≡ s
suc-sub-one s = omega arith

pow-pred : (s : ℕ) → 1 ≤ s → 2 ^ s ≡ 2 ^ (s - 1) * 2
pow-pred zero h = absurd (omega arith)
pow-pred (suc s) h = rw (suc-sub-one s) (pow-suc 2 s)

Bounds-double : {fuel s : ℕ} (n : ℕ) → Bounds fuel (n / 2) s → Bounds (suc fuel) n (suc s)
Bounds-double {s} n b = record {
  above = omega arith;
  below = omega (arith, b.below);
  lower = rw (suc-sub-one s) (omega (arith, pow-pred s b.above, b.lower));
  upper = omega (arith, pow-suc 2 s, b.upper);
}

bit_size-Bounds : (fuel n : ℕ) → 0 < n → n < 2 ^ fuel → Bounds fuel n (bit_size fuel n)
unfolding bit_size
bit_size-Bounds zero n pos lt = absurd (omega arith)
bit_size-Bounds (suc fuel) n pos lt = rw (nonzero n pos) (elim (Bool-cases (n / 2 == 0)) [
  | inl last ↦ let e : n / 2 ≡ 0 = ground arith in rw (e, bit_size_zero fuel) (omega arith)
  | inr more ↦
      Bounds-double n (bit_size-Bounds fuel (n / 2) (ground arith) (omega (arith, pow-suc 2 fuel)))
])

unfoldable pub clz_by_halving : ℕ → ℕ
clz_by_halving n = 64 - bit_size 64 n

pub clz-lt : (n : ℕ) → 0 < n → n < 2 ^ 64 → clz_by_halving n < 64
unfolding clz_by_halving
clz-lt n pos lt = omega (arith, bit_size-Bounds 64 n pos lt)

pub clz_lower : (n : ℕ) → 0 < n → n < 2 ^ 64 → 2 ^ (63 - clz_by_halving n) ≤ n
unfolding clz_by_halving
clz_lower n pos lt =
    let b = bit_size-Bounds 64 n pos lt in
    let e : 63 - (64 - bit_size 64 n) ≡ bit_size 64 n - 1 = omega (arith, b.above, b.below) in
    rw e b.lower

pub clz_upper : (n : ℕ) → 0 < n → n < 2 ^ 64 → n < 2 ^ (64 - clz_by_halving n)
unfolding clz_by_halving
clz_upper n pos lt =
    let b = bit_size-Bounds 64 n pos lt in
    let e : 64 - (64 - bit_size 64 n) ≡ bit_size 64 n = omega (arith, b.below) in rw e b.upper

instance abbrev pub sample_platform : Platform
sample_platform = record {
  clz = clz_by_halving;
  log_ratio = λ n base. 0;
  wide = true;
  clz-lt = clz-lt;
  clz_lower = clz_lower;
  clz_upper = clz_upper;
}
