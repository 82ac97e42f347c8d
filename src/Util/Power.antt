-- ===== src/Util/Power.antt =====
-- `ipow` of include/libnodecc/util/math.h: exponentiation by squaring on `size_t`.
use mathlib.Core.Path.{◌≡⟨◌⟩◌, ◌∎}
use native.Mathlib.Nat.{
  pow-suc, pow-zero, add-mul-mod_self_right, mul_comm, div-add-mod, mod-eq_of_lt, zero-add, one-mul,
  mul-one, mul_assoc,
}
use libnodecc.Prelude.{ℕ, zero, suc, ◌+◌, ◌*◌, ◌/◌, ◌%◌, ◌^◌, ◌<◌, ◌≡◌, ◌≢◌, sym, ap, ◌∙◌, arith}
use libnodecc.Prelude.{◌==◌, if◌then◌else◌, Bool-cases, inl, inr}

-- The range of `size_t`.
abbrev pub size_mod : ℕ
size_mod = 2 ^ 64

-- One round for each binary digit of `exp`; the products wrap.
ipow_loop : ℕ → ℕ → ℕ → ℕ → ℕ
ipow_loop zero base exp result = result
ipow_loop (suc fuel) base exp result =
    let next =
      ipow_loop fuel (base * base % size_mod) (exp / 2)
        (if exp % 2 == 1 then result * base % size_mod else result) in
    if exp == 0 then result else next

-- 64 rounds are enough for an exponent of type `size_t`.
unfoldable pub ipow : ℕ → ℕ → ℕ
unfolding ipow_loop
ipow base exp = ipow_loop 64 base exp 1

pub pow-add : (b m n : ℕ) → b ^ (m + n) ≡ b ^ m * b ^ n
pow-add b zero n = rw (pow-zero, zero-add, one-mul)
pow-add b (suc m) n =
    ap (λ k. b ^ k) (omega arith)
    ∙ (pow-suc b (m + n)
        ∙ omega
            (arith, ap (λ (t : ℕ). t * b) (pow-add b m n), ap (λ (t : ℕ). t * b ^ n) (pow-suc b m)))

pow-square : (b n : ℕ) → (b * b) ^ n ≡ b ^ n * b ^ n
pow-square b zero = rw (pow-zero, pow-zero)
pow-square b (suc n) = rw (pow-suc (b * b) n, pow-suc b n, pow-square b n) (omega arith)

mul-mod_mod : (a b m : ℕ) → a * (b % m) % m ≡ a * b % m
mul-mod_mod a b m = sym (
    ap (λ t. t % m) (omega (arith, ap (λ (t : ℕ). a * t) (div-add-mod b m)))
    ∙ add-mul-mod_self_right (a * (b % m)) (a * (b / m)) m)

mod-mul_mod : (a b m : ℕ) → a % m * b % m ≡ a * b % m
mod-mul_mod a b m = rw (mul_comm (a % m) b, mul-mod_mod b a m, mul_comm b a)

mod-pow : (b n m : ℕ) → (b % m) ^ n % m ≡ b ^ n % m
mod-pow b zero m = rw (pow-zero, pow-zero)
mod-pow b (suc n) m =
    (b % m) ^ suc n % m
    ≡⟨ (rw pow-suc (mul-mod_mod ((b % m) ^ n) b m)) ⟩ (b % m) ^ n * b % m
    ≡⟨ sym (mod-mul_mod ((b % m) ^ n) b m) ⟩ (b % m) ^ n % m * b % m
    ≡⟨ (rw (mod-pow b n m) (mod-mul_mod (b ^ n) b m)) ⟩ b ^ n * b % m
    ≡⟨ ap (λ t. t % m) (sym (pow-suc b n)) ⟩ b ^ suc n % m ∎

-- Squaring the base once halves the exponent.
square_step : (b h r : ℕ) → r * (b * b % size_mod) ^ h % size_mod ≡ r * (b ^ h * b ^ h) % size_mod
square_step b h r =
    sym (mul-mod_mod r ((b * b % size_mod) ^ h) size_mod)
    ∙ (ap (λ t. r * t % size_mod) (mod-pow (b * b) h size_mod)
        ∙ (mul-mod_mod r ((b * b) ^ h) size_mod ∙ ap (λ t. r * t % size_mod) (pow-square b h)))

pow-odd : (b e : ℕ) → e % 2 ≡ 1 → b ^ e ≡ b * (b ^ (e / 2) * b ^ (e / 2))
pow-odd b e h =
    ap (λ k. b ^ k) (let s : e ≡ suc (e / 2 + e / 2) = omega arith in s)
    ∙ (pow-suc b (e / 2 + e / 2) ∙ rw (pow-add, mul_comm))

pow-even : (b e : ℕ) → e % 2 ≢ 1 → b ^ e ≡ b ^ (e / 2) * b ^ (e / 2)
pow-even b e h =
    ap (λ k. b ^ k) (let s : e ≡ e / 2 + e / 2 = omega arith in s) ∙ pow-add b (e / 2) (e / 2)

ipow_loop_lem :
    (fuel base exp result : ℕ)
    → exp < 2 ^ fuel
    → result < size_mod
    → ipow_loop fuel base exp result ≡ result * base ^ exp % size_mod
unfolding ipow_loop
ipow_loop_lem zero base exp result h lt =
    let e : exp ≡ 0 = omega arith in rw (e, pow-zero, mul-one) (sym (mod-eq_of_lt lt))
ipow_loop_lem (suc fuel) base exp result h lt = elim (Bool-cases (exp == 0)) [
  | inl done ↦
      let e : exp ≡ 0 = ground arith in rw done (rw (e, pow-zero, mul-one) (sym (mod-eq_of_lt lt)))
  | inr more ↦ rw more (elim (Bool-cases (exp % 2 == 1)) [
    | inl odd ↦
        rw
          (
            odd,
            ipow_loop_lem fuel (base * base % size_mod) (exp / 2) (result * base % size_mod)
                (omega (arith, pow-suc 2 fuel)) (omega arith),
          )
          (mod-mul_mod (result * base) ((base * base % size_mod) ^ (exp / 2)) size_mod
            ∙ (square_step base (exp / 2) (result * base)
                ∙ ap (λ t. t % size_mod)
                    (mul_assoc result base (base ^ (exp / 2) * base ^ (exp / 2))
                      ∙ ap (λ t. result * t) (sym (pow-odd base exp (ground arith))))))
    | inr even ↦
        rw
          (
            even,
            ipow_loop_lem fuel (base * base % size_mod) (exp / 2) result
                (omega (arith, pow-suc 2 fuel)) lt,
          )
          (square_step base (exp / 2) result
            ∙ ap (λ t. result * t % size_mod) (sym (pow-even base exp (ground arith))))
  ])
]

-- `ipow` is the power modulo the range of `size_t`, whatever wraps on the way.
pub ipow_lem : (base exp : ℕ) → exp < size_mod → ipow base exp ≡ base ^ exp % size_mod
unfolding ipow
ipow_lem base exp h = ipow_loop_lem 64 base exp 1 h (omega arith) ∙ rw one-mul
