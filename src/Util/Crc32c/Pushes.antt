-- ===== src/Util/Crc32c/Pushes.antt =====
-- The checksums of one buffer and of several.
use libnodecc.Prelude.{
  ℕ, ◌+◌, ◌^◌, ◌<◌, ◌≡◌, refl, inl, inr, arith, Bytes, IsBytes, List, [], ◌∷◌, ◌++◌, All, length,
  Option, some, ◌>>=◌,
}
use libnodecc.Prelude.{◌==◌, Bool-cases, Option-cases}
use libnodecc.Util.Crc32c.{Crc32c, crc32c, push, checksum, push_to, checksum_of}
use libnodecc.Util.Crc32c.Reference.{remainder, crc}
use libnodecc.Util.Crc32c.Sliced.{push_to-remainder}
use libnodecc.Util.Crc32c.Loops.{remainder-append, remainder-below}

-- A buffer that is there: its address and its bytes.
abbrev pub IsPiece : ℕ × Bytes → Type 0
IsPiece p = (0 < p.0) × (0 < length p.1) × (p.0 + length p.1 + 7 < 2 ^ 64) × IsBytes p.1

-- The static `checksum` of a buffer that is there is the CRC-32C of its bytes.
pub checksum_of-crc : (p : ℕ × Bytes) → IsPiece p → checksum_of p.0 p.1 ≡ some (crc p.1)
unfolding checksum_of crc
checksum_of-crc p ok =
    rw (push_to-remainder 0xffffffff p.0 p.1 ok.0 ok.1 ok.2 (omega arith) ok.3) refl

-- The pushes of one object, in order.
unfoldable pub push_all : Crc32c → List (ℕ × Bytes) → Option Crc32c
push_all c [] = some c
push_all c (p ∷ ps) = push c p.0 p.1 >>= λ d. push_all d ps

abbrev pub contents : List (ℕ × Bytes) → Bytes
contents [] = []
contents (p ∷ ps) = p.1 ++ contents ps

push_all-remainder :
    (c : Crc32c) (ps : List (ℕ × Bytes))
    → c._crc < 2 ^ 32
    → All IsPiece ps
    → push_all c ps ≡ some (record { _crc = remainder (c._crc) (contents ps) })
unfolding push_all push remainder
push_all-remainder c [] small ok = refl
push_all-remainder c (p ∷ ps) small (here, there) =
    rw
      (
        push_to-remainder (c._crc) p.0 p.1 here.0 here.1 here.2 small here.3,
        push_all-remainder (record { _crc = remainder (c._crc) p.1 }) ps
            (remainder-below (c._crc) p.1 small here.3) there,
        remainder-append (c._crc) p.1 (contents ps),
      )
      refl

-- An object that is given the buffers one after the other, wherever they are cut and whatever
-- their addresses, has the checksum of all their bytes. No buffer is empty.
pub push_all-crc :
    (ps : List (ℕ × Bytes))
    → All IsPiece ps
    → (push_all crc32c ps >>= λ c. some (checksum c)) ≡ some (crc (contents ps))
unfolding crc32c crc checksum
push_all-crc ps ok = rw (push_all-remainder crc32c ps (omega arith) ok) refl

push_all-append :
    (c : Crc32c) (ps qs : List (ℕ × Bytes))
    → push_all c (ps ++ qs) ≡ (push_all c ps >>= λ d. push_all d qs)
unfolding push_all
push_all-append c [] qs = refl
push_all-append c (p ∷ ps) qs = elim (Option-cases (push c p.0 p.1)) [
  | inl e ↦ rw e refl
  | inr found ↦ rw (found.1) (push_all-append (found.0) ps qs)
]

push-nothing : (c : Crc32c) (address : ℕ) → push c address [] ≡ some crc32c
unfolding push push_to crc32c
push-nothing c address = elim (Bool-cases (address == 0)) [ inl e ↦ rw e refl | inr e ↦ rw e refl ]

-- A push of an empty buffer, among buffers that are not empty, loses what was pushed before it: the
-- checksum is that of the buffers after it alone.
pub push_all-crc_empty :
    (ps qs : List (ℕ × Bytes)) (address : ℕ)
    → All IsPiece ps
    → All IsPiece qs
    → (push_all crc32c (ps ++ (address, []) ∷ qs) >>= λ c. some (checksum c))
      ≡ some (crc (contents qs))
unfolding push_all crc32c
push_all-crc_empty ps qs address p q =
    rw
      (
        push_all-append crc32c ps ((address, []) ∷ qs),
        push_all-remainder crc32c ps (omega arith) p,
        push-nothing (record { _crc = remainder 0xffffffff (contents ps) }) address,
      )
      (push_all-crc qs q)
