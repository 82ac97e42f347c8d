-- ===== src/Buffer/Hashed/Tests.antt =====
-- Runs of hashed buffers and hashes, and the theorem at a pair of them.
use libnodecc.Prelude.{ℕ, ◌≡◌, refl, arith, bytes_eq, codes, false, [], ◌∷◌, none, some, inl, inr}
use libnodecc.Prelude.{◌==◌, if◌then◌else◌}
use libnodecc.Util.Fnv.{hash, hash_from, mix, const_hash, basis}
use libnodecc.Buffer.Hashed.{Hashed, fresh_hash, equals}
use libnodecc.Buffer.Hashed.Equality.{bytes_of, IsHashed, equals-bytes}

-- The values that the comment in fnv.h gives for 64 bits.
foobar_hash : hash (codes "foobar") ≡ 0x85944171f73967e8
unfolding hash hash_from mix
foobar_hash = refl

-- A literal with a byte from 0x80 on has another hash than a buffer with the same bytes.
high_literal : (hash (0x80 ∷ []) == const_hash (0x80 ∷ []) basis) ≡ false
unfolding hash hash_from const_hash mix
high_literal = refl

-- An empty buffer at an address is not equal to one that is null.
empty_unequal :
    (equals
      (λ a. a)
      (record { data_at = none; size = 0; cached = 0 })
      (record { data_at = some 8; size = 0; cached = 0 })).0
    ≡ false
unfolding equals
empty_unequal = refl

-- Memory with the same two bytes at 10 and at 20.
abbrev twice : ℕ → ℕ
twice a = if a == 10 then 104 else if a == 20 then 104 else 105

abbrev here : Hashed
here = record { data_at = some 10; size = 2; cached = 0 }

abbrev there : Hashed
there = record { data_at = some 20; size = 2; cached = fresh_hash twice (codes "hi") }

here-IsHashed : IsHashed twice here
here-IsHashed = record { is_cached = inl refl; null_empty = λ e. ground (arith, e) }

there-IsHashed : IsHashed twice there
there-IsHashed = record { is_cached = inr refl; null_empty = λ e. ground (arith, e) }

equals-bytes_example :
    ((equals twice here there).0 ≡ bytes_eq (bytes_of twice here) (bytes_of twice there))
    × IsHashed twice (equals twice here there).1
    × IsHashed twice (equals twice here there).2
equals-bytes_example = equals-bytes twice here there here-IsHashed there-IsHashed refl
