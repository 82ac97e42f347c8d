-- ===== src/Buffer/View.antt =====
-- src/buffer/buffer_view.cc and include/libnodecc/buffer/buffer_view.h, over a memory that is a
-- function from addresses to bytes.
pub mod Search
pub mod Slices
pub mod Equality
mod Tests
use libnodecc.Prelude.{
  ℕ, zero, suc, ◌+◌, ◌-◌, ◌^◌, min, Bytes, bytes_eq, Bool, true, false, ◌&&◌, ◌||◌, [], ◌∷◌, length,
  Option, none, some,
}
use libnodecc.Prelude.{◌==◌, if◌then◌else◌}
use libnodecc.Buffer.Hashed.{same_address, is_some, contents}

abbrev pub npos : ℕ
npos = 2 ^ 64 - 1

pub record BufferView : Type 0 where
  pub at : Option ℕ
  pub size : ℕ

-- The constructor from a pointer and a size.
unfoldable pub buffer_view : Option ℕ → ℕ → BufferView
buffer_view p n = record { at = (if n == 0 then none else p); size = (if is_some p then n else 0) }

-- `data() + n`, null for null.
abbrev pub moved : Option ℕ → ℕ → Option ℕ
moved none n = none
moved (some a) n = some (a + n)

-- `view`: the difference stops at 0.
unfoldable pub view : ℕ → ℕ → BufferView → BufferView
view beg stop v = buffer_view (moved v.at (min beg v.size)) (min stop v.size - min beg v.size)

-- The offset of the first byte that is `ch`: `memchr`, `none` for null.
unfoldable pub find_byte : ℕ → Bytes → Option ℕ
find_byte ch [] = none
find_byte ch (b ∷ bs) = let rest = find_byte ch bs in if b == ch then some 0 else moved rest 1

-- Whether the first bytes are these.
unfoldable pub starts_with : Bytes → Bytes → Bool
starts_with [] bs = true
starts_with (x ∷ xs) [] = false
starts_with (x ∷ xs) (b ∷ bs) = (x == b) && starts_with xs bs

-- `std::search`, as an offset: the size if there is no match.
unfoldable pub search_bytes : Bytes → Bytes → ℕ
search_bytes [] xs = 0
search_bytes (b ∷ bs) xs =
    let rest = search_bytes bs xs in if starts_with xs (b ∷ bs) then 0 else suc rest

unfoldable pub or_npos : Option ℕ → ℕ
or_npos none = npos
or_npos (some i) = i

module _ (memory : ℕ → ℕ) where
  abbrev pub bytes : BufferView → Bytes
  bytes v = contents memory v.at v.size

  unfoldable pub equals : BufferView → BufferView → Bool
  equals v w =
      (v.size == w.size)
      && (same_address v.at w.at || (is_some v.at && is_some w.at && bytes_eq (bytes v) (bytes w)))

  unfoldable pub index_of_char : ℕ → BufferView → ℕ
  index_of_char ch v = or_npos (find_byte ch (bytes v))

  unfoldable pub index_of : BufferView → BufferView → ℕ
  index_of v w =
      if is_some v.at && is_some w.at
      then (if search_bytes (bytes v) (bytes w) == v.size
          then npos
          else search_bytes (bytes v) (bytes w))
      else npos
