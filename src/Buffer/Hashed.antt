-- ===== src/Buffer/Hashed.antt =====
-- `hashed_trait` of include/libnodecc/buffer/_hashed_trait.h, and the assignments of
-- src/buffer/hashed_buffer.cc and src/buffer/hashed_buffer_view.cc.
pub mod Equality
mod Tests
use libnodecc.Prelude.{
  ℕ, zero, suc, ◌+◌, Bytes, bytes_eq, Bool, true, false, ◌&&◌, ◌||◌, [], ◌∷◌, Option, none, some,
}
use libnodecc.Prelude.{◌==◌, if◌then◌else◌}
use libnodecc.Util.Fnv.{hash, const_hash, basis}

-- `data()`, an address or null, `size()` and `_hash`.
pub record Hashed : Type 0 where
  pub data_at : Option ℕ
  pub size : ℕ
  pub cached : ℕ

-- `operator=` from what has no hash, and from what has one.
unfoldable pub assign_plain : Option ℕ → ℕ → Hashed → Hashed
assign_plain from size h = record { data_at = from; size = size; cached = 0 }

unfoldable pub assign_hashed : Hashed → Hashed → Hashed
assign_hashed other h = other

abbrev pub same_address : Option ℕ → Option ℕ → Bool
same_address none none = true
same_address none (some b) = false
same_address (some a) none = false
same_address (some a) (some b) = a == b

abbrev pub is_some : Option ℕ → Bool
is_some none = false
is_some (some a) = true

abbrev pub bytes_at : (ℕ → ℕ) → ℕ → ℕ → Bytes
bytes_at memory a zero = []
bytes_at memory a (suc n) = memory a ∷ bytes_at memory (a + 1) n

module _ (memory : ℕ → ℕ) where
  abbrev pub contents : Option ℕ → ℕ → Bytes
  contents none n = []
  contents (some a) n = bytes_at memory a n

  -- `hash()` without its cache.
  unfoldable pub fresh_hash : Bytes → ℕ
  fresh_hash bs = if hash bs == 0 then 1 else hash bs

  -- `hash()`: the cache, or the hash of the bytes if it is empty.
  unfoldable pub hash_of : Hashed → ℕ
  hash_of h = if h.cached == 0 then fresh_hash (contents h.data_at h.size) else h.cached

  -- What `hash()` leaves.
  abbrev pub hashed : Hashed → Hashed
  hashed h = record h { cached = hash_of h }

  -- `equals`, and what it leaves of either side.
  unfoldable pub equals : Hashed → Hashed → Bool × Hashed × Hashed
  equals a b =
      if a.size == b.size
      then if same_address a.data_at b.data_at
        then (true, a, b)
        else if is_some a.data_at && is_some b.data_at
        then (
          (hash_of a == hash_of b)
              && bytes_eq (contents a.data_at a.size) (contents b.data_at b.size),
          hashed a,
          hashed b,
        )
        else (false, a, b)
      else (false, a, b)
