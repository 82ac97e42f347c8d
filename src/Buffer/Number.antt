-- ===== src/Buffer/Number.antt =====
-- The digits that `mutable_buffer::append_number` of src/buffer/mutable_buffer.cc writes.
use native.Mathlib.Nat.{
  pow-suc, pow-zero, one-le-pow, mod-lt, div-add-mod, div-eq_of_lt, mul-div_left,
  div-div-eq-div-mul,
}
use mathlib.Core.Option
use libnodecc.Prelude.{Bool, true, false, length, passes_to, passes_to-holds, lt→ltb}
use libnodecc.Prelude.{
  ℕ, zero, suc, ◌+◌, ◌-◌, ◌*◌, ◌/◌, ◌%◌, ◌^◌, ◌≤◌, ◌<◌, ◌≡◌, refl, ap, ◌∙◌, arith, Bytes, Option,
  none, some, [], ◌∷◌, codes, get_or,
}
use libnodecc.Prelude.{◌==◌, ◌>>=◌, ltb, leb, ◌&&◌, if◌then◌else◌}

-- `chars` of `append_number`.
abbrev pub chars : Bytes
chars = codes "0123456789abcdefghijklmnopqrstuvwxyz"

-- The `do … while (div > 0)` loop from the divisor `div` on. `none` is a division by zero, which
-- the first round makes when `div` is 0.
unfoldable pub emit : ℕ → ℕ → ℕ → ℕ → Option Bytes
emit zero n div base = none
emit (suc fuel) n div base =
    let rest = emit fuel n (div / base) base in
    let c = get_or chars (n / div % base) 0 in
    if div == 0
    then none
    else if ltb 0 (div / base)
    then Option.map (λ t. c ∷ t) rest
    else some (c ∷ [])

-- The value of a character in a base, as a reader of the number takes it.
unfoldable pub char_value : ℕ → Option ℕ
char_value c =
    if leb b'0' c && leb c b'9'
    then some (c - b'0')
    else if leb b'a' c && leb c b'z'
    then some (c - b'a' + 10)
    else none

-- The number that a digit string stands for, most significant digit first.
unfoldable pub read_number : ℕ → ℕ → Bytes → Option ℕ
read_number base acc [] = some acc
read_number base acc (c ∷ cs) =
    char_value c >>= λ v. if ltb v base then read_number base (acc * base + v) cs else none

-- What `emit` writes when it does not fail: the digits of the positions `k`, `k - 1`, …, 0.
unfoldable pub positions : ℕ → ℕ → ℕ → Bytes
positions n base zero = []
positions n base (suc k) = get_or chars (n / base ^ k % base) 0 ∷ positions n base k

pub emit-eq-positions :
    (fuel n base k : ℕ)
    → 2 ≤ base
    → k < fuel
    → emit fuel n (base ^ k) base ≡ some (positions n base (suc k))
unfolding emit positions
emit-eq-positions zero n base k h lt = elim lt [ ]
emit-eq-positions (suc fuel) n base zero h lt =
    ground (arith, pow-zero base, div-eq_of_lt {n = 1} {m = base} h)
emit-eq-positions (suc fuel) n base (suc k) h lt = ground (
  arith,
  pow-suc base k,
  one-le-pow k base,
  mul-div_left (base ^ k) {n = base} (omega arith),
  emit-eq-positions fuel n base k,
)

abbrev reads_back : ℕ → Bool
reads_back i = elim (char_value (get_or chars i 0)) [ none ↦ false | some v ↦ v == i ]

reads_back_table : passes_to reads_back 36 ≡ true
unfolding passes_to char_value
reads_back_table = refl

char_value-chars : (i : ℕ) → i < 36 → char_value (get_or chars i 0) ≡ some i
char_value-chars i h = ground (arith, passes_to-holds reads_back 36 {i = i} reads_back_table h)

-- One more digit of a remainder.
mod-mul : (n b c : ℕ) → n % (b * c) ≡ n / b % c * b + n % b
mod-mul n b c = omega (
  arith,
  div-add-mod n b,
  div-add-mod n (b * c),
  ap (λ (t : ℕ). b * t) (div-add-mod (n / b) c),
  ap (λ (t : ℕ). b * c * t) (div-div-eq-div-mul n b c),
)

read-digit :
    (base d acc : ℕ) (cs : Bytes)
    → d < base
    → base ≤ 36
    → read_number base acc (get_or chars d 0 ∷ cs) ≡ read_number base (acc * base + d) cs
unfolding read_number
read-digit base d acc cs h le = rw (char_value-chars d (omega arith), lt→ltb d base h)

pub read-positions :
    (n base k acc : ℕ)
    → 2 ≤ base
    → base ≤ 36
    → read_number base acc (positions n base k) ≡ some (acc * base ^ k + n % base ^ k)
unfolding positions
read-positions n base zero acc h le =
    let e : acc ≡ acc * base ^ 0 + n % base ^ 0 = rw pow-zero (omega arith) in
    unfold read_number in ap some e
read-positions n base (suc k) acc h le =
    read-digit base (n / base ^ k % base) acc (positions n base k) (mod-lt _ (omega arith)) le
    ∙ (read-positions n base k (acc * base + n / base ^ k % base) h le
        ∙ ap some (rw (pow-suc, mod-mul) (omega arith)))

pub length-positions : (n base k : ℕ) → length (positions n base k) ≡ k
unfolding positions
length-positions n base zero = refl
length-positions n base (suc k) = ap suc (length-positions n base k)
