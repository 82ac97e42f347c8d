-- ===== src/Buffer/View/Search.antt =====
-- What the searches find, and what a view refers to.
use libnodecc.Prelude.{
  ℕ, zero, suc, ◌≤◌, ◌<◌, ◌≡◌, refl, ◌↔◌, ◌⊎◌, inl, inr, Bytes, Bool, true, false, ◌&&◌, [], ◌∷◌,
  length, take, drop, Option, none, some, arith,
}
use libnodecc.Prelude.{◌==◌, ==_iff, if◌then◌else◌, Bool-cases}
use libnodecc.Buffer.Hashed.{is_some, contents}
use libnodecc.Buffer.Hashed.Equality.{length-contents}
use libnodecc.Buffer.View.{
  BufferView, find_byte, starts_with, search_bytes, bytes, npos, or_npos, index_of_char, index_of,
}

starts_with_iff : (xs bs : Bytes) → (starts_with xs bs ≡ true) ↔ (take (length xs) bs ≡ xs)
unfolding starts_with
starts_with_iff [] bs = (λ h. refl, λ h. refl)
starts_with_iff (x ∷ xs) [] = ground arith
starts_with_iff (x ∷ xs) (b ∷ bs) = ground (arith, starts_with_iff xs bs)

search_bytes-within : (bs xs : Bytes) → search_bytes bs xs ≤ length bs
unfolding search_bytes
search_bytes-within [] xs = omega arith
search_bytes-within (b ∷ bs) xs = ground (arith, search_bytes-within bs xs)

-- A match at the offset that is found, unless it is the end.
search_bytes-match :
    (bs xs : Bytes)
    → search_bytes bs xs < length bs
    → starts_with xs (drop (search_bytes bs xs) bs) ≡ true
unfolding search_bytes
search_bytes-match [] xs h = absurd (omega arith)
search_bytes-match (b ∷ bs) xs h = elim (Bool-cases (starts_with xs (b ∷ bs))) [
  | inl e ↦ rw (e) e
  | inr e ↦ ground (arith, e, search_bytes-match bs xs)
]

search_bytes-first :
    (bs xs : Bytes) (i : ℕ) → i < search_bytes bs xs → starts_with xs (drop i bs) ≡ false
unfolding search_bytes
search_bytes-first [] xs i h = absurd (omega arith)
search_bytes-first (b ∷ bs) xs zero h = ground arith
search_bytes-first (b ∷ bs) xs (suc i) h = ground (arith, search_bytes-first bs xs i)

-- The bytes of one view stand at an offset of another.
abbrev pub IsAt : Bytes → Bytes → ℕ → Type 0
IsAt hay needle i = take (length needle) (drop i hay) ≡ needle

-- No match, or the first one.
unfoldable pub IsFirst : Bytes → Bytes → ℕ → Type 0
IsFirst hay needle r =
    ((r ≡ npos) × ((i : ℕ) → i < length hay → ¬ IsAt hay needle i))
    ⊎ ((r < length hay) × IsAt hay needle r × ((i : ℕ) → i < r → ¬ IsAt hay needle i))

search_bytes-not : (hay needle : Bytes) (i : ℕ) → i < search_bytes hay needle → ¬ IsAt hay needle i
search_bytes-not hay needle i h at =
    let yes = (starts_with_iff needle (drop i hay)).1 at in
    let no = search_bytes-first hay needle i h in cc

search_bytes-IsFirst :
    (hay needle : Bytes) (n : ℕ)
    → length hay ≡ n
    → IsFirst hay needle (if search_bytes hay needle == n then npos else search_bytes hay needle)
unfolding IsFirst
search_bytes-IsFirst hay needle n e = elim (Bool-cases (search_bytes hay needle == n)) [
  | inl k ↦ rw k (
      inl (
        refl,
        λ i h.
            search_bytes-not hay needle i
              (ground (arith, (==_iff (search_bytes hay needle) n).0 k)),
      ))
  | inr k ↦ rw k (
      inr (
        within k,
        (starts_with_iff needle (drop (search_bytes hay needle) hay)).0
            (search_bytes-match hay needle (within k)),
        λ i h. search_bytes-not hay needle i h,
      ))
]
  where
    within : (search_bytes hay needle == n) ≡ false → search_bytes hay needle < length hay
    within k = ground (arith, k, search_bytes-within hay needle)

-- What the constructors leave: null has no bytes, and no bytes are null.
abbrev pub IsView : BufferView → Type 0
IsView v = (is_some v.at ≡ false → v.size ≡ 0) × (v.size ≡ 0 → is_some v.at ≡ false)

nothing-IsFirst : (needle : Bytes) → IsFirst [] needle npos
unfolding IsFirst
nothing-IsFirst needle = inl (refl, λ i h. absurd (omega arith))

-- A byte is looked for as one byte is searched for.
find_byte-search :
    (ch : ℕ) (bs : Bytes)
    → find_byte ch bs
      ≡ (if search_bytes bs (ch ∷ []) == length bs then none else some (search_bytes bs (ch ∷ [])))
unfolding find_byte search_bytes starts_with
find_byte-search ch [] = refl
find_byte-search ch (b ∷ bs) = ground (arith, find_byte-search ch bs)

or_npos-if : (c : Bool) (n : ℕ) → or_npos (if c then none else some n) ≡ (if c then npos else n)
unfolding or_npos
or_npos-if true n = refl
or_npos-if false n = refl

module _ (memory : ℕ → ℕ) where
  found-IsFirst :
      (p q : Option ℕ) (n m : ℕ)
      → (is_some q ≡ false → m ≡ 0)
      → 0 < m
      → IsFirst (contents memory p n) (contents memory q m) (
          if is_some p && is_some q
          then (if search_bytes (contents memory p n) (contents memory q m) == n
              then npos
              else search_bytes (contents memory p n) (contents memory q m))
          else npos)
  found-IsFirst none q n m hq k = nothing-IsFirst (contents memory q m)
  found-IsFirst (some a) none n m hq k = absurd (omega (arith, hq refl))
  found-IsFirst (some a) (some b) n m hq k =
      search_bytes-IsFirst (contents memory (some a) n) (contents memory (some b) m) n
        (length-contents memory (some a) n (λ h. cc))

  -- `index_of` of a view that has bytes is the first offset at which they stand, and `npos` if they
  -- stand at none.
  pub index_of-IsFirst :
      (v w : BufferView)
      → IsView w
      → 0 < w.size
      → IsFirst (bytes memory v) (bytes memory w) (index_of memory v w)
  unfolding index_of
  index_of-IsFirst v w hw k = found-IsFirst v.at w.at v.size w.size hw.0 k

  -- The same for a byte.
  pub index_of_char-IsFirst :
      (ch : ℕ) (v : BufferView) → IsFirst (bytes memory v) (ch ∷ []) (index_of_char memory ch v)
  unfolding index_of_char
  index_of_char-IsFirst ch v =
      rw
        (
          find_byte-search ch (bytes memory v),
          or_npos-if (search_bytes (bytes memory v) (ch ∷ []) == length (bytes memory v))
              (search_bytes (bytes memory v) (ch ∷ [])),
        )
        (search_bytes-IsFirst (bytes memory v) (ch ∷ []) (length (bytes memory v)) refl)
