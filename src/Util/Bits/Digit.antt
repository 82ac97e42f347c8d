-- ===== src/Util/Bits/Digit.antt =====
-- One binary digit of `&`, `|` and `^`, from the recursion that they stand for.
use Prim.Native.Nat.{
  min, max, digits, bitwise, differ, bit_and, bit_or, bit_xor, bit_and-bitwise, bit_or-bitwise,
  bit_xor-bitwise,
}
use libnodecc.Prelude.{ℕ, zero, suc, ◌+◌, ◌*◌, ◌/◌, ◌%◌, ◌≤◌, ◌≡◌, refl, ap, arith}

module _ (rest : ℕ → ℕ) (op : ℕ → ℕ → ℕ) where
  -- Any count of digits serves that is not below the first number.
  enough : (m a b : ℕ) → a ≤ m → (n : ℕ) → a ≤ n → digits rest op n a b ≡ digits rest op m a b
  enough zero zero b h zero k = refl
  enough zero zero b h (suc n) k = refl
  enough (suc m) zero b h zero k = refl
  enough (suc m) zero b h (suc n) k = refl
  enough zero (suc a) b h n k = absurd (omega arith)
  enough (suc m) (suc a) b h zero k = absurd (omega arith)
  enough (suc m) (suc a) b h (suc n) k =
      ap (λ t. t * 2 + op (suc a % 2) (b % 2))
        (enough m (suc a / 2) (b / 2) (omega arith) n (omega arith))

  first_digit :
      (a b : ℕ)
      → bitwise rest op (suc a) b ≡ bitwise rest op (suc a / 2) (b / 2) * 2 + op (suc a % 2) (b % 2)
  first_digit a b =
      ap (λ t. t * 2 + op (suc a % 2) (b % 2))
        (enough (suc a / 2) (suc a / 2) (b / 2) (omega arith) a (omega arith))

pub bit_and-digit : (a b : ℕ) → bit_and a b ≡ bit_and (a / 2) (b / 2) * 2 + min (a % 2) (b % 2)
bit_and-digit zero b = simp bit_and-bitwise (omega arith)
bit_and-digit (suc a) b = simp bit_and-bitwise (first_digit (λ _. 0) min a b)

pub bit_or-digit : (a b : ℕ) → bit_or a b ≡ bit_or (a / 2) (b / 2) * 2 + max (a % 2) (b % 2)
bit_or-digit zero b = simp bit_or-bitwise (omega arith)
bit_or-digit (suc a) b = simp bit_or-bitwise (first_digit (λ y. y) max a b)

differ_bits : (x y : ℕ) → x ≤ 1 → y ≤ 1 → differ x y ≡ (x + y) % 2
differ_bits zero zero h k = refl
differ_bits zero (suc y) h k = omega arith
differ_bits (suc x) zero h k = omega arith
differ_bits (suc zero) (suc zero) h k = refl
differ_bits (suc zero) (suc (suc y)) h k = absurd (omega arith)
differ_bits (suc (suc x)) (suc y) h k = absurd (omega arith)

pub bit_xor-digit : (a b : ℕ) → bit_xor a b ≡ bit_xor (a / 2) (b / 2) * 2 + (a % 2 + b % 2) % 2
bit_xor-digit zero b = simp bit_xor-bitwise (omega arith)
bit_xor-digit (suc a) b =
    omega (arith, split, differ_bits (suc a % 2) (b % 2) (omega arith) (omega arith))
  where
    split : bit_xor (suc a) b ≡ bit_xor (suc a / 2) (b / 2) * 2 + differ (suc a % 2) (b % 2)
    split = simp bit_xor-bitwise (first_digit (λ y. y) differ a b)
