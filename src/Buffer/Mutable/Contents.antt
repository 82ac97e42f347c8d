-- ===== src/Buffer/Mutable/Contents.antt =====
-- What the bytes of a `mutable_buffer` are after each operation.
use native.Mathlib.Nat.{sub-zero}
use native.Mathlib.Decide.{dec_le}
use libnodecc.Prelude.{
  ℕ, zero, suc, ◌≤◌, ◌≡◌, refl, sym, ap, ◌∙◌, Bytes, [], ◌∷◌, ◌++◌, length, take, take-append, drop,
  min, max, arith, append-nil,
}
use libnodecc.Buffer.Mutable.{
  MutableBuffer, IsValid, grown, fill, append, of_slice, slice, append_buffer, set_size,
  set_capacity,
}
use libnodecc.Buffer.Mutable.Validity.{le-grown, expand_size_room}

nil_of_length : (bs : Bytes) → length bs ≡ 0 → bs ≡ []
nil_of_length [] h = refl
nil_of_length (c ∷ bs) h = absurd (omega arith)

-- `append` puts the bytes at the end, whether or not the memory had to grow.
pub bytes-append :
    (b : MutableBuffer) (bs : Bytes) → IsValid b → (append b bs).bytes ≡ b.bytes ++ bs
unfolding append fill
bytes-append b bs v =
    ground (arith, expand_size_room b (length bs) v, append-nil b.bytes, nil_of_length bs)

take-take-append : (n m : ℕ) (xs ys : Bytes) → n ≤ m → take n (take m xs ++ ys) ≡ take n (xs ++ ys)
take-take-append zero m xs ys h = refl
take-take-append (suc n) zero xs ys h = absurd (omega arith)
take-take-append (suc n) (suc m) [] ys h = refl
take-take-append (suc n) (suc m) (x ∷ xs) ys h =
    ap (λ t. x ∷ t) (take-take-append n m xs ys (omega arith))

pub take_all : (n : ℕ) (xs : Bytes) → length xs ≤ n → take n xs ≡ xs
take_all zero [] h = refl
take_all zero (x ∷ xs) h = absurd (omega arith)
take_all (suc n) [] h = refl
take_all (suc n) (x ∷ xs) h = ap (λ t. x ∷ t) (take_all n xs (omega arith))

take-min : (n : ℕ) (xs : Bytes) → take (min n (length xs)) xs ≡ take n xs
take-min n xs = elim (dec_le n (length xs)) [
  | yes l ↦ ap (λ k. take k xs) (let e : min n (length xs) ≡ n = omega arith in e)
  | no l ↦
      ap (λ k. take k xs) (let e : min n (length xs) ≡ length xs = omega arith in e)
      ∙ (take_all (length xs) xs (omega arith) ∙ sym (take_all n xs (omega arith)))
]

take-take : (m n : ℕ) (xs : Bytes) → m ≤ n → take m (take n xs) ≡ take m xs
take-take zero n xs h = refl
take-take (suc m) zero xs h = absurd (omega arith)
take-take (suc m) (suc n) [] h = refl
take-take (suc m) (suc n) (x ∷ xs) h = ap (λ t. x ∷ t) (take-take m n xs (omega arith))

take_zero : (n : ℕ) → take {A = ℕ} n [] ≡ []
take_zero zero = refl
take_zero (suc n) = refl

bytes-of_slice : (bs : Bytes) → (of_slice bs).bytes ≡ bs
unfolding of_slice
bytes-of_slice [] = refl
bytes-of_slice (c ∷ bs) = refl

drop_none : (n : ℕ) (xs : Bytes) → n ≡ 0 → drop n xs ≡ xs
drop_none zero xs h = refl
drop_none (suc n) xs h = absurd (omega arith)

zero_take : (n : ℕ) (xs : Bytes) → n ≡ 0 → take n xs ≡ []
zero_take zero xs h = refl
zero_take (suc n) xs h = absurd (omega arith)

-- Appending from the start of a buffer adds its first `count` bytes, whether the empty target
-- takes over the memory of the source or copies it.
pub append_buffer_start :
    (b : MutableBuffer) (src : Bytes) (count : ℕ)
    → IsValid b
    → (append_buffer b src 0 count).bytes ≡ b.bytes ++ take count src
unfolding append_buffer slice
append_buffer_start b src count v = ground (
  arith,
  take-min count src,
  sub-zero (length src),
  take-min (min count (length src)) src,
  drop_none (min 0 (length src)) (take (min (min count (length src)) (length src)) src),
  bytes-append b (take (min count (length src)) src) v,
  bytes-of_slice (take count src),
  append-nil b.bytes,
  nil_of_length b.bytes,
  nil_of_length src,
  take_zero count,
  zero_take count src,
)

cut : (m n : ℕ) (xs : Bytes) → n ≤ m → take (min m n) xs ≡ take n xs
cut m n xs h = ap (λ k. take k xs) (let e : min m n ≡ n = omega arith in e)

-- `set_size` keeps the bytes that fit and ends with exactly `n` of them, within the capacity.
pub set_size_lem :
    (rest : Bytes) (b : MutableBuffer) (n : ℕ)
    → IsValid b
    → ((set_size rest b n).bytes ≡ take n (b.bytes ++ rest)) × (n ≤ (set_size rest b n).capacity)
unfolding set_size
set_size_lem rest b n v = ground (
  arith,
  le-grown b.capacity n,
  cut (grown b.capacity n) n (b.bytes ++ rest),
  cut (max 16 n) n (take (max 16 n) b.bytes ++ rest),
  take-take-append n (max 16 n) b.bytes rest,
  cut b.capacity n (b.bytes ++ rest),
)

-- Reserving at least the current size keeps the bytes.
pub set_capacity_lem :
    (rest : Bytes) (b : MutableBuffer) (n : ℕ)
    → IsValid b
    → length b.bytes ≤ n
    → ((set_capacity rest b n).bytes ≡ b.bytes) × (n ≤ (set_capacity rest b n).capacity)
unfolding set_capacity
set_capacity_lem rest b n v h = ground (
  arith,
  set_size_lem rest b n v,
  take-take (length b.bytes) n (b.bytes ++ rest) h,
  take-append b.bytes rest,
  take_all (length b.bytes) (set_size rest b n).bytes,
)
