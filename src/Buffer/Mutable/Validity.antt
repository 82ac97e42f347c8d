-- ===== src/Buffer/Mutable/Validity.antt =====
-- The operations of `mutable_buffer` keep a buffer's size within its capacity.
use libnodecc.Prelude.{
  ℕ, ap, ◌+◌, ◌-◌, ◌≤◌, ◌≡◌, Bytes, Bool, true, false, Option, none, some, List, [], ◌∷◌, ◌++◌,
  length, length-append, take, drop, min, max, arith, Bool-cases, inl, inr, zero, suc, ◌>>=◌,
}
use libnodecc.Prelude.{◌==◌, leb, ◌&&◌, if◌then◌else◌, Option-cases}
use libnodecc.Util.Digits.{Platform, digits}
use libnodecc.Buffer.Shared.Parts.{length-take, length-drop}
use libnodecc.Buffer.Mutable.{
  MutableBuffer, IsValid, empty, grown, expand_size, fill, append, push_back, of_slice,
  append_buffer, append_view, append_number, set_size, set_capacity, clear, reset, with_room,
  assign_buffer, move_buffer, assign, move, slice_buffer, slice,
}

none-ne-some {ℓ} : {A : Type ℓ} {a : A} → none ≡ some a → ⊥
none-ne-some e = cc

length-take_bound : (n : ℕ) (xs : Bytes) → length (take n xs) ≤ n
length-take_bound n xs = omega (arith, length-take n xs)

length-take-le : (n : ℕ) (xs : Bytes) → length (take n xs) ≤ length xs
length-take-le zero xs = omega arith
length-take-le (suc n) [] = omega arith
length-take-le (suc n) (x ∷ xs) = omega (arith, length-take-le n xs)

pub le-grown : (capacity size : ℕ) → (size ≤ grown capacity size) × (16 ≤ grown capacity size)
unfolding grown
le-grown capacity size = omega arith

-- After the expansion there is room for `n` more bytes.
pub expand_size_room :
    (b : MutableBuffer) (n : ℕ)
    → IsValid b
    → (n + length b.bytes ≤ (expand_size b n).capacity)
      × ((expand_size b n).bytes ≡ b.bytes)
      × ((expand_size b n).null ≡ true
          → (n ≡ 0) × (b.bytes ≡ []) × ((expand_size b n).capacity ≡ 0))
unfolding expand_size
expand_size_room b n v = ground (arith, le-grown b.capacity (n + length b.bytes), v.of_null)

pub fill-IsValid :
    (b : MutableBuffer) (n : ℕ) (bs : Bytes)
    → IsValid b
    → length bs ≤ n
    → IsValid (fill (expand_size b n) bs)
unfolding fill
fill-IsValid b n bs v h =
    ground (arith, expand_size_room b n v, length-append (expand_size b n).bytes bs)

pub append-IsValid : (b : MutableBuffer) (bs : Bytes) → IsValid b → IsValid (append b bs)
unfolding append
append-IsValid b bs v = fill-IsValid b (length bs) bs v (omega arith)

of_slice-IsValid : (bs : Bytes) → IsValid (of_slice bs)
unfolding of_slice
of_slice-IsValid [] = ground arith
of_slice-IsValid (c ∷ bs) = ground arith

pub append_buffer-IsValid :
    (b : MutableBuffer) (src : Bytes) (pos count : ℕ)
    → IsValid b
    → IsValid (append_buffer b src pos count)
unfolding append_buffer
append_buffer-IsValid b src pos count v = grind (arith, append-IsValid, of_slice-IsValid)

append_view-IsValid :
    (b : MutableBuffer) (src : Bytes) (pos count : ℕ)
    → IsValid b
    → IsValid (append_view b src pos count)
unfolding append_view
append_view-IsValid b src pos count v = grind (arith, append-IsValid)

set_size-IsValid :
    (rest : Bytes) (b : MutableBuffer) (n : ℕ) → IsValid b → IsValid (set_size rest b n)
unfolding set_size
set_size-IsValid rest b n v = ground (
  arith,
  le-grown b.capacity n,
  length-take_bound (min (grown b.capacity n) n) (b.bytes ++ rest),
  length-take_bound (min (max 16 n) n) (take (max 16 n) b.bytes ++ rest),
  length-take_bound (min b.capacity n) (b.bytes ++ rest),
)

pub set_capacity-IsValid :
    (rest : Bytes) (b : MutableBuffer) (n : ℕ) → IsValid b → IsValid (set_capacity rest b n)
unfolding set_capacity
set_capacity-IsValid rest b n v =
    ground (
      arith,
      set_size-IsValid rest b n v,
      length-take-le (length b.bytes) (set_size rest b n).bytes,
    )

fill_digits-IsValid :
    (b : MutableBuffer) (size : ℕ) (r : Option Bytes) {b' : MutableBuffer}
    → IsValid b
    → (r >>= λ ds. if length ds == size then some (fill (expand_size b size) ds) else none)
      ≡ some b'
    → IsValid b'
fill_digits-IsValid b size none v e = absurd (none-ne-some e)
fill_digits-IsValid b size (some ds) v e = ground (arith, fill-IsValid b size ds v)

append_number-IsValid :
    ⦃p : Platform⦄ (b : MutableBuffer) (n base : ℕ) {b' : MutableBuffer}
    → IsValid b
    → append_number b n base ≡ some b'
    → IsValid b'
unfolding append_number expand_size
append_number-IsValid b n base v e = elim (Bool-cases (leb 2 base && leb base 36)) [
  | inr out ↦ ground arith
  | inl within ↦ elim (Bool-cases (expand_size b (digits n base)).null) [
    | inl z ↦ ground (arith, expand_size_room b (digits n base) v)
    | inr nz ↦ fill_digits-IsValid b (digits n base) _ v (rw (within, nz) at e)
  ]
]

with_room-IsValid : (room : ℕ) (bs : Bytes) → length bs ≤ room → IsValid (with_room room bs)
with_room-IsValid room [] h = ground arith
with_room-IsValid room (c ∷ bs) h = ground arith

-- A buffer without memory has no bytes.
abbrev pub IsBuffer : Bool → Bytes → Type 0
IsBuffer null bs = null ≡ true → bs ≡ []

assign_buffer-IsValid :
    (null : Bool) (bs : Bytes) → IsBuffer null bs → IsValid (assign_buffer null bs)
unfolding assign_buffer
assign_buffer-IsValid null bs h = record {
  of_null = λ e. (ap length (h e), h e);
  fits = omega arith;
}

pub empty-IsValid : IsValid empty
empty-IsValid = ground arith

slice_buffer-IsValid :
    (b : MutableBuffer) (beg end : ℕ) → IsValid b → IsValid (slice_buffer b beg end)
unfolding slice_buffer slice
slice_buffer-IsValid b beg end v =
    with_room-IsValid (b.capacity - min beg (length b.bytes))
      (drop (min beg (length b.bytes)) (take (min end (length b.bytes)) b.bytes))
      (omega (
        arith,
        v.fits,
        length-drop (min beg (length b.bytes)) (take (min end (length b.bytes)) b.bytes),
        length-take (min end (length b.bytes)) b.bytes,
      ))

-- What is moved from a `buffer` with bytes has no capacity for them.
move_buffer-not : (c : ℕ) (bs : Bytes) → ¬ IsValid (move_buffer false (c ∷ bs))
unfolding move_buffer
move_buffer-not c bs v = absurd (omega (arith, v.fits))

-- A call on the buffer, where assignments are from another buffer that is valid itself. The bytes
-- of `set_size` and `set_capacity` are what lies behind the contents.
pub data Operation : Type 0 where
  appends : Bytes → Operation
  pushes : ℕ → Operation
  appends_buffer : Bytes → ℕ → ℕ → Operation
  appends_view : Bytes → ℕ → ℕ → Operation
  appends_number : ℕ → ℕ → Operation
  sets_size : Bytes → ℕ → Operation
  sets_capacity : Bytes → ℕ → Operation
  clears resets : Operation
  slices : ℕ → ℕ → Operation
  assigns_buffer : (null : Bool) (bs : Bytes) → IsBuffer null bs → Operation
  assigns moves : (other : MutableBuffer) → IsValid other → Operation

module _ ⦃p : Platform⦄ where
  unfoldable pub apply : Operation → MutableBuffer → Option MutableBuffer
  apply (appends bs) b = some (append b bs)
  apply (pushes c) b = some (push_back b c)
  apply (appends_buffer src pos count) b = some (append_buffer b src pos count)
  apply (appends_view src pos count) b = some (append_view b src pos count)
  apply (appends_number n base) b = append_number b n base
  apply (sets_size rest n) b = some (set_size rest b n)
  apply (sets_capacity rest n) b = some (set_capacity rest b n)
  apply clears b = some (clear b)
  apply resets b = some (reset b)
  apply (slices beg end) b = some (slice_buffer b beg end)
  apply (assigns_buffer null bs h) b = some (assign_buffer null bs)
  apply (assigns other h) b = some (assign other)
  apply (moves other h) b = some (move other).0

  unfoldable pub run : List Operation → MutableBuffer → Option MutableBuffer
  run [] b = some b
  run (op ∷ ops) b = apply op b >>= run ops

  apply-IsValid :
      (op : Operation) (b : MutableBuffer) {b' : MutableBuffer}
      → IsValid b
      → apply op b ≡ some b'
      → IsValid b'
  unfolding apply push_back clear reset assign move
  apply-IsValid (appends bs) b v e = ground (arith, append-IsValid b bs v)
  apply-IsValid (pushes c) b v e = ground (arith, append-IsValid b (c ∷ []) v)
  apply-IsValid (appends_buffer src pos count) b v e =
      ground (arith, append_buffer-IsValid b src pos count v)
  apply-IsValid (appends_view src pos count) b v e =
      ground (arith, append_view-IsValid b src pos count v)
  apply-IsValid (appends_number n base) b v e = append_number-IsValid b n base v e
  apply-IsValid (sets_size rest n) b v e = ground (arith, set_size-IsValid rest b n v)
  apply-IsValid (sets_capacity rest n) b v e = ground (arith, set_capacity-IsValid rest b n v)
  apply-IsValid clears b v e = ground arith
  apply-IsValid resets b v e = ground arith
  apply-IsValid (slices beg end) b v e = ground (arith, slice_buffer-IsValid b beg end v)
  apply-IsValid (assigns_buffer null bs h) b v e = ground (arith, assign_buffer-IsValid null bs h)
  apply-IsValid (assigns other h) b v e = ground (arith, h)
  apply-IsValid (moves other h) b v e = ground (arith, h)

  -- Whatever of these calls are made on a valid buffer, in whatever order, the buffer stays valid:
  -- its bytes fit its capacity, and without memory it has neither. The calls are `append`,
  -- `push_back`, `append_number`, `set_size`, `set_capacity`, `clear`, `reset`, `slice`, and the
  -- assignments by copy from another `buffer` and by copy or move from another `mutable_buffer`
  -- that is valid. They are not the assignment from a `buffer&&`, the one of a buffer to itself, and
  -- the `swap` with a `buffer` that the class inherits.
  pub run-IsValid :
      (ops : List Operation) (b : MutableBuffer) {b' : MutableBuffer}
      → IsValid b
      → run ops b ≡ some b'
      → IsValid b'
  unfolding run
  run-IsValid [] b v e = ground arith
  run-IsValid (op ∷ ops) b v e = elim (Option-cases (apply op b)) [
    | inl z ↦ absurd (none-ne-some (rw z at e))
    | inr (b₁, e₁) ↦ run-IsValid ops b₁ (apply-IsValid op b v e₁) (rw e₁ at e)
  ]
