-- ===== src/Buffer/Mutable.antt =====
-- `mutable_buffer` of src/buffer/mutable_buffer.cc, by the bytes it holds. Memory shared with
-- another buffer is not written through, an allocation succeeds, and the sizes of objects in
-- memory add up without a wrap.
pub mod Validity
pub mod Contents
pub mod Numbers
mod Tests
use mathlib.Core.Option
use libnodecc.Prelude.{
  ℕ, ◌+◌, ◌-◌, ◌/◌, ◌%◌, ◌≤◌, ◌≡◌, Bytes, Bool, true, false, Option, none, some, [], ◌∷◌, ◌++◌,
  length, take, drop, min, max,
}
use libnodecc.Prelude.{◌==◌, ltb, leb, ◌&&◌, ◌>>=◌, if◌then◌else◌}
use libnodecc.Util.Power.{size_mod, ipow}
use libnodecc.Util.Digits.{Platform, digits}
use libnodecc.Buffer.Number.{emit}

-- `null` is `_data == nullptr`; `_size` is the length of `bytes`.
pub record MutableBuffer : Type 0 where
  pub null : Bool
  pub bytes : Bytes
  pub capacity : ℕ

abbrev pub empty : MutableBuffer
empty = record { null = true; bytes = []; capacity = 0 }

-- The capacity that is allocated for `size` bytes.
unfoldable pub grown : ℕ → ℕ → ℕ
grown capacity size = max 16 (max size ((capacity + capacity / 2) % size_mod))

-- `_expand_size`, which leaves the new bytes to the caller.
unfoldable pub expand_size : MutableBuffer → ℕ → MutableBuffer
expand_size b n =
    let size = n + length b.bytes in
    if ltb b.capacity size then record b { null = false; capacity = grown b.capacity size } else b

-- What is written at the pointer that `_expand_size` returned, if that is not null.
unfoldable pub fill : MutableBuffer → Bytes → MutableBuffer
fill b bs = if b.null then b else record b { bytes = b.bytes ++ bs }

-- `append(const void*, size_t)`; `push_back` appends one byte.
unfoldable pub append : MutableBuffer → Bytes → MutableBuffer
append b bs = fill (expand_size b (length bs)) bs

unfoldable pub push_back : MutableBuffer → ℕ → MutableBuffer
push_back b c = append b (c ∷ [])

-- `buffer::slice(beg, end)` of the bytes of a buffer.
unfoldable pub slice : Bytes → ℕ → ℕ → Bytes
slice bs beg end = drop (min beg (length bs)) (take (min end (length bs)) bs)

-- `operator=` by a slice, the capacity being its size.
unfoldable pub of_slice : Bytes → MutableBuffer
of_slice [] = empty
of_slice (c ∷ bs) = record { null = false; bytes = c ∷ bs; capacity = length (c ∷ bs) }

-- A slice with memory behind it.
abbrev pub with_room : ℕ → Bytes → MutableBuffer
with_room capacity [] = empty
with_room capacity (c ∷ bs) = record { null = false; bytes = c ∷ bs; capacity = capacity }

-- `append(const node::buffer&, size_t pos, size_t count)`.
unfoldable pub append_buffer : MutableBuffer → Bytes → ℕ → ℕ → MutableBuffer
append_buffer b src pos count =
    if ltb pos (length src) && ltb 0 count
    then (let count' = min count (length src - pos) in
        if ltb 0 (length b.bytes)
        then append b (take count' (drop pos src))
        else of_slice (slice src pos count'))
    else b

-- `append(const node::buffer_view&, size_t pos, size_t count)`.
unfoldable pub append_view : MutableBuffer → Bytes → ℕ → ℕ → MutableBuffer
append_view b src pos count =
    if ltb pos (length src) && ltb 0 count
    then (let count' = min count (length src - pos) in
        if ltb 0 (length b.bytes) then append b (take count' (drop pos src)) else b)
    else b

-- `append_number`. `none` is a division by zero, or digits that do not fit the bytes reserved.
unfoldable pub append_number : ⦃p : Platform⦄ → MutableBuffer → ℕ → ℕ → Option MutableBuffer
append_number b n base =
    if leb 2 base && leb base 36
    then (let size = digits n base in
        let div = ipow base ((size + size_mod - 1) % size_mod) in
        let b' = expand_size b size in
        if b'.null
        then some b'
        else emit 64 n div base >>= λ ds. if length ds == size then some (fill b' ds) else none)
    else some b

-- The buffer that `copy` allocated, cut to `size`.
unfoldable pub resized : Bytes → ℕ → ℕ → Bytes → MutableBuffer
resized rest size capacity bs = record {
  null = false;
  bytes = take (min capacity size) (bs ++ rest);
  capacity = capacity;
}

-- `set_size`. `rest` is what the memory behind the bytes happens to hold.
unfoldable pub set_size : Bytes → MutableBuffer → ℕ → MutableBuffer
unfolding resized
set_size rest b size =
    if ltb b.capacity size
    then resized rest size (grown b.capacity size) b.bytes
    else if leb ((size + size / 2) % size_mod) b.capacity
    then resized rest size (max 16 size) (take (max 16 size) b.bytes)
    else record b { bytes = take (min b.capacity size) (b.bytes ++ rest) }

unfoldable pub set_capacity : Bytes → MutableBuffer → ℕ → MutableBuffer
set_capacity rest b capacity =
    let b' = set_size rest b capacity in
    if ltb (length b.bytes) (length b'.bytes)
    then record b' { bytes = take (length b.bytes) b'.bytes }
    else b'

unfoldable pub clear : MutableBuffer → MutableBuffer
clear b = record b { bytes = [] }

unfoldable pub reset : MutableBuffer → MutableBuffer
reset b = empty

-- `operator=` and the constructor from another `const node::buffer&` with or without memory.
unfoldable pub assign_buffer : Bool → Bytes → MutableBuffer
assign_buffer null bs = record { null = null; bytes = bs; capacity = length bs }

-- The same from a `node::buffer&&`, whose size is read after it was moved and set to 0.
unfoldable pub move_buffer : Bool → Bytes → MutableBuffer
move_buffer null bs = record { null = null; bytes = bs; capacity = 0 }

-- `operator=` and the constructor from another `const mutable_buffer&` and `mutable_buffer&&`; what
-- is left of the latter has no memory, but its capacity.
unfoldable pub assign : MutableBuffer → MutableBuffer
assign other = other

unfoldable pub move : MutableBuffer → MutableBuffer × MutableBuffer
move other = (other, record other { null = true; bytes = [] })

-- `mutable_buffer::slice`: without bytes it is null.
unfoldable pub slice_buffer : MutableBuffer → ℕ → ℕ → MutableBuffer
slice_buffer b beg end = with_room (b.capacity - min beg (length b.bytes)) (slice b.bytes beg end)

-- A null buffer has no bytes and no capacity, and the bytes fit the capacity.
pub record IsValid (b : MutableBuffer) : Type 0 where
  pub of_null : b.null ≡ true → (b.capacity ≡ 0) × (b.bytes ≡ [])
  pub fits : length b.bytes ≤ b.capacity
