-- ===== src/Buffer/Shared/Values.antt =====
-- What a buffer reads, and that the counts keep it readable.
use libnodecc.Prelude.{
  ℕ, zero, suc, ◌+◌, ◌≤◌, ◌<◌, ◌≡◌, refl, ap, ◌∙◌, arith, Bytes, List, [], ◌∷◌, length, take, drop,
  some, map, All,
}
use libnodecc.Buffer.Shared.{Handle, null, weak, strong, Blocks, Store, handle_at, value}
use libnodecc.Buffer.Shared.Counts.{count_of, bytes_of, owns, owners, IsLive, owns-handle_at}

-- The bytes that a buffer refers to, whether they are freed or not.
unfoldable pub seen : Blocks → Handle → Bytes
seen blocks null = []
seen blocks (weak bs) = bs
seen blocks (strong b beg size) = take size (drop beg (bytes_of b blocks))

value-strong :
    (blocks : Blocks) (b beg size : ℕ)
    → 0 < count_of b blocks
    → value blocks (strong b beg size) ≡ some (take size (drop beg (bytes_of b blocks)))
unfolding value count_of bytes_of
value-strong [] b beg size h = absurd (omega arith)
value-strong ((bs, count) ∷ blocks) zero beg size h = ground arith
value-strong ((bs, count) ∷ blocks) (suc b) beg size h = value-strong blocks b beg size h

pub value-live :
    (blocks : Blocks) (h : Handle) → IsLive blocks h → value blocks h ≡ some (seen blocks h)
unfolding value seen
value-live blocks null l = refl
value-live blocks (weak bs) l = refl
value-live blocks (strong b beg size) l = value-strong blocks b beg size l

-- The bytes of a buffer lie in its block.
abbrev pub Fits : Blocks → Handle → Type 0
Fits blocks null = Unit
Fits blocks (weak bs) = Unit
Fits blocks (strong b beg size) = beg + size ≤ length (bytes_of b blocks)

-- The count of every block is the number of buffers that hold it, and each buffer lies in its
-- block.
pub record IsSound (s : Store) : Type 0 where
  pub counts : (b : ℕ) → count_of b s.blocks ≡ owners b s.handles
  pub fits : All (Fits s.blocks) s.handles

own : (b beg size : ℕ) → owns b (strong b beg size) ≡ 1
unfolding owns
own b beg size = ground arith

pub IsLive-of_owned :
    (blocks : Blocks) (h : Handle) → ((b : ℕ) → owns b h ≤ count_of b blocks) → IsLive blocks h
IsLive-of_owned blocks null k = tt
IsLive-of_owned blocks (weak bs) k = tt
IsLive-of_owned blocks (strong b beg size) k = omega (arith, k b, own b beg size)

-- A buffer of the program is readable.
pub handle_at-IsLive : (s : Store) (i : ℕ) → IsSound s → IsLive s.blocks (handle_at i s.handles)
handle_at-IsLive s i h =
    IsLive-of_owned s.blocks (handle_at i s.handles)
      (λ b. omega (arith, h.counts b, owns-handle_at b i s.handles))

-- All buffers are, and what they read is what they see.
map-value :
    (blocks : Blocks) (hs : List Handle)
    → ((b : ℕ) → owners b hs ≤ count_of b blocks)
    → map (value blocks) hs ≡ map some (map (seen blocks) hs)
unfolding owners
map-value blocks [] k = refl
map-value blocks (h ∷ hs) k =
    ap (λ x. x ∷ map (value blocks) hs)
      (value-live blocks h (IsLive-of_owned blocks h (λ b. omega (arith, k b))))
    ∙ ap (λ t. some (seen blocks h) ∷ t) (map-value blocks hs (λ b. omega (arith, k b)))

pub values_lem :
    (s : Store)
    → IsSound s
    → map (value s.blocks) s.handles ≡ map some (map (seen s.blocks) s.handles)
values_lem s h = map-value s.blocks s.handles (λ b. omega (arith, h.counts b))
