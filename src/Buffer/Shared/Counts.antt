-- ===== src/Buffer/Shared/Counts.antt =====
-- The count of a block, and the buffers that hold it.
use libnodecc.Prelude.{
  update, ℕ, zero, suc, ◌+◌, ◌-◌, ◌≤◌, ◌<◌, ◌≡◌, refl, arith, Bytes, List, [], ◌∷◌, ◌++◌, length,
}
use libnodecc.Prelude.{◌==◌, if◌then◌else◌}
use libnodecc.Buffer.Shared.{
  Handle, null, weak, strong, Blocks, handle_at, retained, released, retain, release,
}

unfoldable pub count_of : ℕ → Blocks → ℕ
count_of b [] = 0
count_of zero ((bs, count) ∷ blocks) = count
count_of (suc b) ((bs, count) ∷ blocks) = count_of b blocks

unfoldable pub bytes_of : ℕ → Blocks → Bytes
bytes_of b [] = []
bytes_of zero ((bs, count) ∷ blocks) = bs
bytes_of (suc b) ((bs, count) ∷ blocks) = bytes_of b blocks

unfoldable pub owns : ℕ → Handle → ℕ
owns b null = 0
owns b (weak bs) = 0
owns b (strong c beg size) = if b == c then 1 else 0

-- The number of buffers that hold a block.
unfoldable pub owners : ℕ → List Handle → ℕ
owners b [] = 0
owners b (h ∷ hs) = owns b h + owners b hs

count_of-retained :
    (b c : ℕ) (blocks : Blocks)
    → 0 < count_of c blocks
    → count_of b (update c retained blocks) ≡ count_of b blocks + (if b == c then 1 else 0)
unfolding count_of
count_of-retained b c [] h = absurd (omega arith)
count_of-retained zero zero (x ∷ blocks) h = refl
count_of-retained zero (suc c) (x ∷ blocks) h = ground arith
count_of-retained (suc b) zero (x ∷ blocks) h = ground arith
count_of-retained (suc b) (suc c) (x ∷ blocks) h = ground (arith, count_of-retained b c blocks h)

count_of-released :
    (b c : ℕ) (blocks : Blocks)
    → count_of b (update c released blocks) ≡ count_of b blocks - (if b == c then 1 else 0)
unfolding count_of
count_of-released b c [] = ground arith
count_of-released zero zero (x ∷ blocks) = refl
count_of-released zero (suc c) (x ∷ blocks) = ground arith
count_of-released (suc b) zero (x ∷ blocks) = ground arith
count_of-released (suc b) (suc c) (x ∷ blocks) = ground (arith, count_of-released b c blocks)

bytes_of-retained :
    (b c : ℕ) (blocks : Blocks) → bytes_of b (update c retained blocks) ≡ bytes_of b blocks
unfolding bytes_of
bytes_of-retained b c [] = refl
bytes_of-retained zero zero (x ∷ blocks) = refl
bytes_of-retained zero (suc c) (x ∷ blocks) = refl
bytes_of-retained (suc b) zero (x ∷ blocks) = refl
bytes_of-retained (suc b) (suc c) (x ∷ blocks) = bytes_of-retained b c blocks

bytes_of-released :
    (b c : ℕ) (blocks : Blocks) → bytes_of b (update c released blocks) ≡ bytes_of b blocks
unfolding bytes_of
bytes_of-released b c [] = refl
bytes_of-released zero zero (x ∷ blocks) = refl
bytes_of-released zero (suc c) (x ∷ blocks) = refl
bytes_of-released (suc b) zero (x ∷ blocks) = refl
bytes_of-released (suc b) (suc c) (x ∷ blocks) = bytes_of-released b c blocks

-- What the buffer refers to is not freed.
abbrev pub IsLive : Blocks → Handle → Type 0
IsLive blocks null = Unit
IsLive blocks (weak bs) = Unit
IsLive blocks (strong b beg size) = 0 < count_of b blocks

pub count_of-retain :
    (b : ℕ) (h : Handle) (blocks : Blocks)
    → IsLive blocks h
    → count_of b (retain h blocks) ≡ count_of b blocks + owns b h
unfolding retain owns
count_of-retain b null blocks l = omega arith
count_of-retain b (weak bs) blocks l = omega arith
count_of-retain b (strong c beg size) blocks l = count_of-retained b c blocks l

pub count_of-release :
    (b : ℕ) (h : Handle) (blocks : Blocks)
    → count_of b (release h blocks) ≡ count_of b blocks - owns b h
unfolding release owns
count_of-release b null blocks = omega arith
count_of-release b (weak bs) blocks = omega arith
count_of-release b (strong c beg size) blocks = count_of-released b c blocks

pub bytes_of-retain :
    (b : ℕ) (h : Handle) (blocks : Blocks) → bytes_of b (retain h blocks) ≡ bytes_of b blocks
unfolding retain
bytes_of-retain b null blocks = refl
bytes_of-retain b (weak bs) blocks = refl
bytes_of-retain b (strong c beg size) blocks = bytes_of-retained b c blocks

pub bytes_of-release :
    (b : ℕ) (h : Handle) (blocks : Blocks) → bytes_of b (release h blocks) ≡ bytes_of b blocks
unfolding release
bytes_of-release b null blocks = refl
bytes_of-release b (weak bs) blocks = refl
bytes_of-release b (strong c beg size) blocks = bytes_of-released b c blocks

-- A new block.
pub count_of-append :
    (b : ℕ) (blocks : Blocks) (bs : Bytes)
    → count_of b (blocks ++ (bs, 1) ∷ [])
      ≡ count_of b blocks + (if b == length blocks then 1 else 0)
unfolding count_of
count_of-append zero [] bs = refl
count_of-append (suc b) [] bs = ground arith
count_of-append zero (x ∷ blocks) bs = ground arith
count_of-append (suc b) (x ∷ blocks) bs = ground (arith, count_of-append b blocks bs)

pub bytes_of-append :
    (b : ℕ) (blocks : Blocks) (bs : Bytes)
    → bytes_of b (blocks ++ (bs, 1) ∷ []) ≡ (if b == length blocks then bs else bytes_of b blocks)
unfolding bytes_of
bytes_of-append zero [] bs = refl
bytes_of-append (suc b) [] bs = ground arith
bytes_of-append zero (x ∷ blocks) bs = ground arith
bytes_of-append (suc b) (x ∷ blocks) bs = ground (arith, bytes_of-append b blocks bs)

pub count_of-beyond : (b : ℕ) (blocks : Blocks) → length blocks ≤ b → count_of b blocks ≡ 0
unfolding count_of
count_of-beyond b [] h = refl
count_of-beyond zero (x ∷ blocks) h = absurd (omega arith)
count_of-beyond (suc b) (x ∷ blocks) h = count_of-beyond b blocks (omega arith)

pub owners-append :
    (b : ℕ) (hs : List Handle) (h : Handle) → owners b (hs ++ h ∷ []) ≡ owners b hs + owns b h
unfolding owners
owners-append b [] h = omega arith
owners-append b (x ∷ hs) h = omega (arith, owners-append b hs h)

pub owners-update :
    (b i : ℕ) (h : Handle) (hs : List Handle)
    → i < length hs
    → owners b (update i (λ _. h) hs) + owns b (handle_at i hs) ≡ owners b hs + owns b h
unfolding owners
owners-update b i h [] lt = absurd (omega arith)
owners-update b zero h (x ∷ hs) lt = omega arith
owners-update b (suc i) h (x ∷ hs) lt = omega (arith, owners-update b i h hs (omega arith))

pub owns-handle_at : (b i : ℕ) (hs : List Handle) → owns b (handle_at i hs) ≤ owners b hs
unfolding owners owns
owns-handle_at b i [] = omega arith
owns-handle_at b zero (h ∷ hs) = omega arith
owns-handle_at b (suc i) (h ∷ hs) = omega (arith, owns-handle_at b i hs)

pub bytes_of-beyond : (b : ℕ) (blocks : Blocks) → length blocks ≤ b → bytes_of b blocks ≡ []
unfolding bytes_of
bytes_of-beyond b [] h = refl
bytes_of-beyond zero (x ∷ blocks) h = absurd (omega arith)
bytes_of-beyond (suc b) (x ∷ blocks) h = bytes_of-beyond b blocks (omega arith)

pub owns-strong : (b c beg size : ℕ) → owns b (strong c beg size) ≡ (if b == c then 1 else 0)
unfolding owns
owns-strong b c beg size = refl
