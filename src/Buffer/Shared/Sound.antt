-- ===== src/Buffer/Shared/Sound.antt =====
-- Every operation keeps the counts right.
use libnodecc.Prelude.{
  update, ℕ, zero, suc, ◌+◌, ◌≤◌, ◌<◌, ◌≡◌, refl, ap, ◌∙◌, sym, arith, Bytes, List, [], ◌∷◌, ◌++◌,
  length, All, All-append,
}
use libnodecc.Prelude.{◌==◌, if◌then◌else◌}
use libnodecc.Buffer.Shared.{
  Handle, null, weak, strong, Blocks, Store, handle_at, retain, release, reset, push, assign, swap,
  move_assign, move_construct, allocate,
}
use libnodecc.Buffer.Shared.Counts.{
  bytes_of, owns, owners, IsLive, count_of-retain, count_of-release, bytes_of-retain,
  bytes_of-release, count_of-append, bytes_of-append, bytes_of-beyond, owns-strong, owners-append,
  owners-update,
}
use libnodecc.Buffer.Shared.Values.{Fits, IsSound, handle_at-IsLive}

-- The bytes of the blocks are kept, or blocks are added.
abbrev Grows : Blocks → Blocks → Type 0
Grows blocks blocks' = (b : ℕ) → length (bytes_of b blocks) ≤ length (bytes_of b blocks')

Fits-grown :
    (blocks blocks' : Blocks) (h : Handle) → Grows blocks blocks' → Fits blocks h → Fits blocks' h
Fits-grown blocks blocks' null g f = tt
Fits-grown blocks blocks' (weak bs) g f = tt
Fits-grown blocks blocks' (strong b beg size) g f = omega (arith, f, g b)

All-grown :
    (blocks blocks' : Blocks) (hs : List Handle)
    → Grows blocks blocks'
    → All (Fits blocks) hs
    → All (Fits blocks') hs
All-grown blocks blocks' [] g f = tt
All-grown blocks blocks' (h ∷ hs) g f =
    (Fits-grown blocks blocks' h g f.0, All-grown blocks blocks' hs g f.1)

retain-Grows : (h : Handle) (blocks : Blocks) → Grows blocks (retain h blocks)
retain-Grows h blocks b = omega (arith, ap length (bytes_of-retain b h blocks))

release-Grows : (h : Handle) (blocks : Blocks) → Grows blocks (release h blocks)
release-Grows h blocks b = omega (arith, ap length (bytes_of-release b h blocks))

All-update :
    (blocks : Blocks) (i : ℕ) (h : Handle) (hs : List Handle)
    → Fits blocks h
    → All (Fits blocks) hs
    → All (Fits blocks) (update i (λ _. h) hs)
All-update blocks i h [] f fs = tt
All-update blocks zero h (x ∷ hs) f fs = (f, fs.1)
All-update blocks (suc i) h (x ∷ hs) f fs = (fs.0, All-update blocks i h hs f fs.1)

pub handle_at-Fits :
    (blocks : Blocks) (i : ℕ) (hs : List Handle)
    → All (Fits blocks) hs
    → Fits blocks (handle_at i hs)
handle_at-Fits blocks i [] fs = tt
handle_at-Fits blocks zero (h ∷ hs) fs = fs.0
handle_at-Fits blocks (suc i) (h ∷ hs) fs = handle_at-Fits blocks i hs fs.1

pub length-update :
    (i : ℕ) (h : Handle) (hs : List Handle) → length (update i (λ _. h) hs) ≡ length hs
length-update i h [] = refl
length-update zero h (x ∷ hs) = refl
length-update (suc i) h (x ∷ hs) = ap suc (length-update i h hs)

-- A further buffer on what is live.
pub further-IsSound :
    (h : Handle) (s : Store)
    → IsLive s.blocks h
    → Fits s.blocks h
    → IsSound s
    → IsSound (record { blocks = retain h s.blocks; handles = s.handles ++ h ∷ [] })
further-IsSound h s l f k = record {
  counts =
      λ b. omega (arith, count_of-retain b h s.blocks l, owners-append b s.handles h, k.counts b);
  fits =
      All-append (Fits (retain h s.blocks)) s.handles (h ∷ [])
        (All-grown s.blocks (retain h s.blocks) s.handles (retain-Grows h s.blocks) k.fits)
        (Fits-grown s.blocks (retain h s.blocks) h (retain-Grows h s.blocks) f, tt);
}

owns-null : (b : ℕ) → owns b null ≡ 0
unfolding owns
owns-null b = refl

pub reset-IsSound : (i : ℕ) (s : Store) → i < length s.handles → IsSound s → IsSound (reset i s)
unfolding reset
reset-IsSound i s lt k = record {
  counts = λ b. omega (
    arith,
    count_of-release b (handle_at i s.handles) s.blocks,
    owners-update b i null s.handles lt,
    owns-null b,
    k.counts b,
  );
  fits = All-update (release (handle_at i s.handles) s.blocks) i null s.handles tt (
      All-grown s.blocks (release (handle_at i s.handles) s.blocks) s.handles
        (release-Grows (handle_at i s.handles) s.blocks) k.fits);
}

pub handle_at-update :
    (i j : ℕ) (h : Handle) (hs : List Handle)
    → i < length hs
    → handle_at j (update i (λ _. h) hs) ≡ (if j == i then h else handle_at j hs)
handle_at-update i j h [] lt = absurd (omega arith)
handle_at-update zero zero h (x ∷ hs) lt = refl
handle_at-update zero (suc j) h (x ∷ hs) lt = ground arith
handle_at-update (suc i) zero h (x ∷ hs) lt = ground arith
handle_at-update (suc i) (suc j) h (x ∷ hs) lt =
    ground (arith, handle_at-update i j h hs (omega arith))

-- A live handle for a buffer that holds nothing.
put-IsSound :
    (i : ℕ) (h : Handle) (s : Store)
    → i < length s.handles
    → handle_at i s.handles ≡ null
    → IsLive s.blocks h
    → Fits s.blocks h
    → IsSound s
    → IsSound (record { blocks = retain h s.blocks; handles = update i (λ _. h) s.handles })
put-IsSound i h s lt e l f k = record {
  counts = λ b. omega (
    arith,
    count_of-retain b h s.blocks l,
    owners-update b i h s.handles lt,
    ap (owns b) e,
    owns-null b,
    k.counts b,
  );
  fits =
      All-update (retain h s.blocks) i h s.handles
        (Fits-grown s.blocks (retain h s.blocks) h (retain-Grows h s.blocks) f)
        (All-grown s.blocks (retain h s.blocks) s.handles (retain-Grows h s.blocks) k.fits);
}

pub length-reset : (i : ℕ) (s : Store) → length (reset i s).handles ≡ length s.handles
unfolding reset
length-reset i s = length-update i null s.handles

pub handle_at-reset :
    (i : ℕ) (s : Store) → i < length s.handles → handle_at i (reset i s).handles ≡ null
unfolding reset
handle_at-reset i s lt = ground (arith, handle_at-update i i null s.handles lt)

pub assign-IsSound :
    (i j : ℕ) (s : Store) → i < length s.handles → IsSound s → IsSound (assign i j s)
unfolding assign
assign-IsSound i j s lt k =
    put-IsSound i (handle_at j (reset i s).handles) (reset i s)
      (omega (arith, lt, length-reset i s)) (handle_at-reset i s lt)
      (handle_at-IsLive (reset i s) j k')
      (handle_at-Fits (reset i s).blocks j (reset i s).handles k'.fits) k'
  where
    k' : IsSound (reset i s)
    k' = reset-IsSound i s lt k

owners-swap :
    (b i j : ℕ) (hs : List Handle)
    → i < length hs
    → j < length hs
    → owners b (update j (λ _. handle_at i hs) (update i (λ _. handle_at j hs) hs)) ≡ owners b hs
owners-swap b i j hs lt lt' = ground (
  arith,
  owners-update b i (handle_at j hs) hs lt,
  owners-update b j (handle_at i hs) (update i (λ _. handle_at j hs) hs)
      (omega (arith, lt', length-update i (handle_at j hs) hs)),
  handle_at-update i j (handle_at j hs) hs lt,
)

pub swap-IsSound :
    (i j : ℕ) (s : Store)
    → i < length s.handles
    → j < length s.handles
    → IsSound s
    → IsSound (swap i j s)
unfolding swap
swap-IsSound i j s lt lt' k = record {
  counts = λ b. k.counts b ∙ sym (owners-swap b i j s.handles lt lt');
  fits =
      All-update s.blocks j (handle_at i s.handles)
        (update i (λ _. handle_at j s.handles) s.handles)
        (handle_at-Fits s.blocks i s.handles k.fits)
        (All-update s.blocks i (handle_at j s.handles) s.handles
          (handle_at-Fits s.blocks j s.handles k.fits) k.fits);
}

pub move_assign-IsSound :
    (i j : ℕ) (s : Store)
    → i < length s.handles
    → j < length s.handles
    → IsSound s
    → IsSound (move_assign i j s)
unfolding move_assign
move_assign-IsSound i j s lt lt' k =
    swap-IsSound i j (reset i s) (omega (arith, lt, length-reset i s))
      (omega (arith, lt', length-reset i s)) (reset-IsSound i s lt k)

pub move_construct-IsSound :
    (j : ℕ) (s : Store) → j < length s.handles → IsSound s → IsSound (move_construct j s)
unfolding move_construct
move_construct-IsSound j s lt k = record {
  counts = λ b. omega (
    arith,
    owners-append b (update j (λ _. null) s.handles) (handle_at j s.handles),
    owners-update b j null s.handles lt,
    owns-null b,
    k.counts b,
  );
  fits =
      All-append (Fits s.blocks) (update j (λ _. null) s.handles) (handle_at j s.handles ∷ [])
        (All-update s.blocks j null s.handles tt k.fits)
        (handle_at-Fits s.blocks j s.handles k.fits, tt);
}

-- A buffer that counts for no block.
pub push-IsSound :
    (h : Handle) (s : Store)
    → ((b : ℕ) → owns b h ≡ 0)
    → Fits s.blocks h
    → IsSound s
    → IsSound (push h s)
unfolding push
push-IsSound h s none_owned f k = record {
  counts = λ b. omega (arith, owners-append b s.handles h, none_owned b, k.counts b);
  fits = All-append (Fits s.blocks) s.handles (h ∷ []) k.fits (f, tt);
}

append-Grows : (blocks : Blocks) (bs : Bytes) → Grows blocks (blocks ++ (bs, 1) ∷ [])
append-Grows blocks bs b = ground (arith, bytes_of-append b blocks bs, bytes_of-beyond b blocks)

pub allocate-IsSound : (bs : Bytes) (s : Store) → IsSound s → IsSound (allocate bs s)
unfolding allocate
allocate-IsSound [] s k = push-IsSound null s owns-null tt k
allocate-IsSound (c ∷ bs) s k = record {
  counts = λ b. ground (
    arith,
    count_of-append b s.blocks (c ∷ bs),
    owners-append b s.handles (strong (length s.blocks) 0 (length (c ∷ bs))),
    k.counts b,
    owns-strong b (length s.blocks) 0 (length (c ∷ bs)),
  );
  fits =
      All-append (Fits blocks') s.handles (strong (length s.blocks) 0 (length (c ∷ bs)) ∷ [])
        (All-grown s.blocks blocks' s.handles (append-Grows s.blocks (c ∷ bs)) k.fits) (whole, tt);
}
  where
    blocks' : Blocks
    blocks' = s.blocks ++ (c ∷ bs, 1) ∷ []

    whole : 0 + length (c ∷ bs) ≤ length (bytes_of (length s.blocks) blocks')
    whole = ground (arith, bytes_of-append (length s.blocks) s.blocks (c ∷ bs))
