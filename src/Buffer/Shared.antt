-- ===== src/Buffer/Shared.antt =====
-- `buffer` of src/buffer/buffer.cc: handles on blocks that are counted and freed. A block keeps its
-- bytes; it is free when its count is 0.
pub mod Counts
pub mod Values
pub mod Parts
pub mod Sound
pub mod Runs
pub mod Views
pub mod Spec
mod Tests
use libnodecc.Prelude.{
  update, ℕ, zero, suc, ◌+◌, ◌-◌, min, Bytes, Bool, true, false, List, [], ◌∷◌, ◌++◌, length, take,
  drop, Option, none, some, map,
}
use libnodecc.Prelude.{◌==◌, ltb, if◌then◌else◌}

-- `_data`, `_size` and `_p` of a buffer: all null; a view of memory that others keep, with no
-- `_p`; or, with `_p`, `size` bytes from `beg` on of a block.
pub data Handle : Type 0 where
  null : Handle
  weak : Bytes → Handle
  strong : ℕ → ℕ → ℕ → Handle

-- A block by its bytes and `use_count`.
abbrev pub Blocks : Type 0
Blocks = List (Bytes × ℕ)

-- The blocks that were ever allocated, and the buffers of the program.
pub record Store : Type 0 where
  pub blocks : Blocks
  pub handles : List Handle

abbrev pub handle_at : ℕ → List Handle → Handle
handle_at i [] = null
handle_at zero (h ∷ hs) = h
handle_at (suc i) (h ∷ hs) = handle_at i hs

-- `control_base::retain` and `release`.
abbrev pub retained : Bytes × ℕ → Bytes × ℕ
retained (bs, count) = (bs, count + 1)

abbrev pub released : Bytes × ℕ → Bytes × ℕ
released (bs, count) = (bs, count - 1)

-- `_retain` and `_release` as far as the count goes.
unfoldable pub retain : Handle → Blocks → Blocks
retain null blocks = blocks
retain (weak bs) blocks = blocks
retain (strong b beg size) blocks = update b retained blocks

unfoldable pub release : Handle → Blocks → Blocks
release null blocks = blocks
release (weak bs) blocks = blocks
release (strong b beg size) blocks = update b released blocks

-- `_release` of the buffer at `i`, `_reset_zero` included; `reset` and the destructor.
unfoldable pub reset : ℕ → Store → Store
reset i s = record {
  blocks = release (handle_at i s.handles) s.blocks;
  handles = update i (λ _. null) s.handles;
}

-- A further buffer.
unfoldable pub push : Handle → Store → Store
push h s = record s { handles = s.handles ++ h ∷ [] }

-- `buffer(const buffer&)`.
unfoldable pub copy_construct : ℕ → Store → Store
copy_construct i s =
    let h = handle_at i s.handles in
    record { blocks = retain h s.blocks; handles = s.handles ++ h ∷ [] }

-- `operator=(const buffer&)`, which releases first and then reads the other buffer.
unfoldable pub assign : ℕ → ℕ → Store → Store
assign i j s =
    let s' = reset i s in
    let h = handle_at j s'.handles in
    record { blocks = retain h s'.blocks; handles = update i (λ _. h) s'.handles }

unfoldable pub swap : ℕ → ℕ → Store → Store
swap i j s =
    let a = handle_at i s.handles in
    let b = handle_at j s.handles in
    record s { handles = update j (λ _. a) (update i (λ _. b) s.handles) }

-- `operator=(buffer&&)`.
unfoldable pub move_assign : ℕ → ℕ → Store → Store
move_assign i j s = swap i j (reset i s)

-- `buffer(buffer&&)`.
unfoldable pub move_construct : ℕ → Store → Store
move_construct j s = record s {
  handles = update j (λ _. null) s.handles ++ handle_at j s.handles ∷ [];
}

-- A buffer on a new block, `_reset_unsafe`, with its bytes; none for an empty size.
unfoldable pub allocate : Bytes → Store → Store
allocate [] s = push null s
allocate (b ∷ bs) s = record {
  blocks = s.blocks ++ (b ∷ bs, 1) ∷ [];
  handles = s.handles ++ strong (length s.blocks) 0 (length (b ∷ bs)) ∷ [];
}

-- The part of a handle that `slice` refers to. Its offsets are of type size_t, so that a negative
-- index is one far past the end.
unfoldable pub part : Handle → ℕ → ℕ → Handle
part null beg end = null
part (weak bs) beg end =
    let cbeg = min beg (length bs) in
    let cend = min end (length bs) in
    if ltb cbeg cend then weak (take (cend - cbeg) (drop cbeg bs)) else null
part (strong b from size) beg end =
    let cbeg = min beg size in
    let cend = min end size in if ltb cbeg cend then strong b (from + cbeg) (cend - cbeg) else null

-- `slice` into a further buffer.
unfoldable pub slice_construct : ℕ → ℕ → ℕ → Store → Store
slice_construct i beg end s =
    let h = part (handle_at i s.handles) beg end in
    record { blocks = retain h s.blocks; handles = s.handles ++ h ∷ [] }

-- What is read through a handle; `none` is a use of freed memory.
unfoldable pub value : Blocks → Handle → Option Bytes
value blocks null = some []
value blocks (weak bs) = some bs
value [] (strong b beg size) = none
value ((bs, count) ∷ blocks) (strong zero beg size) =
    if count == 0 then none else some (take size (drop beg bs))
value ((bs, count) ∷ blocks) (strong (suc b) beg size) = value blocks (strong b beg size)

-- The bytes in a buffer, once they could be read.
abbrev pub or_empty : Option Bytes → Bytes
or_empty none = []
or_empty (some bs) = bs

-- `copy(size)` into a further buffer. `rest` is what the new memory happens to hold.
unfoldable pub copy : Bytes → ℕ → ℕ → Store → Store
copy rest i size s =
    let bs = or_empty (value s.blocks (handle_at i s.handles)) in
    let size' = if size == 0 then length bs else size in allocate (take size' (bs ++ rest)) s
