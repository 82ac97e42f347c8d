-- ===== src/Buffer/Hashed/Equality.antt =====
-- `equals` on hashed buffers, as equality of what they refer to.
use libnodecc.Prelude.{
  ℕ, zero, suc, ◌+◌, ◌≡◌, ◌⊎◌, inl, inr, refl, sym, ap, ◌∙◌, arith, Bytes, bytes_eq, bytes_eq_iff,
  true, false, ◌&&◌, length, Option, none, some, Bool-cases, ==_iff,
}
use libnodecc.Prelude.{◌==◌}
use libnodecc.Buffer.Hashed.{
  Hashed, same_address, is_some, bytes_at, contents, fresh_hash, hash_of, hashed, equals,
}

length-bytes_at : (memory : ℕ → ℕ) (a n : ℕ) → length (bytes_at memory a n) ≡ n
length-bytes_at memory a zero = refl
length-bytes_at memory a (suc n) = omega (arith, length-bytes_at memory (a + 1) n)

module _ (memory : ℕ → ℕ) where
  abbrev pub bytes_of : Hashed → Bytes
  bytes_of h = contents memory h.data_at h.size

  -- The cache is empty or holds the hash of the bytes.
  abbrev pub IsCached : Hashed → Type 0
  IsCached h = (h.cached ≡ 0) ⊎ (h.cached ≡ fresh_hash memory (bytes_of h))

  -- What the constructors and assignments leave, and null has no bytes.
  pub record IsHashed (h : Hashed) : Type 0 where
    pub is_cached : IsCached h
    pub null_empty : is_some h.data_at ≡ false → h.size ≡ 0

  hash_of_lem : (h : Hashed) → IsHashed h → hash_of memory h ≡ fresh_hash memory (bytes_of h)
  unfolding hash_of
  hash_of_lem h v = go v.is_cached
    where
      go : IsCached h → hash_of memory h ≡ fresh_hash memory (bytes_of h)
      go (inl e) = ground (arith, e)
      go (inr e) = ground (arith, e)

  hashed-IsHashed : (h : Hashed) → IsHashed h → IsHashed (hashed memory h)
  hashed-IsHashed h v = record { is_cached = inr (hash_of_lem h v); null_empty = v.null_empty }

  pub length-contents :
      (p : Option ℕ) (n : ℕ) → (is_some p ≡ false → n ≡ 0) → length (contents memory p n) ≡ n
  length-contents none n h = sym (h refl)
  length-contents (some a) n h = length-bytes_at memory a n

  unequal_sizes :
      (a b : Hashed)
      → IsHashed a
      → IsHashed b
      → (a.size == b.size) ≡ false
      → bytes_eq (bytes_of a) (bytes_of b) ≡ false
  unequal_sizes a b va vb ne = elim (Bool-cases (bytes_eq (bytes_of a) (bytes_of b))) [
    | inr e ↦ e
    | inl e ↦
        let same : length (bytes_of a) ≡ length (bytes_of b) =
          ap length ((bytes_eq_iff (bytes_of a) (bytes_of b)).0 e) in
        ground (
          arith,
          ne,
          same,
          length-contents a.data_at a.size va.null_empty,
          length-contents b.data_at b.size vb.null_empty,
        )
  ]

  same-eq : (p q : Option ℕ) → same_address p q ≡ true → p ≡ q
  same-eq none none h = refl
  same-eq none (some b) h = ground (arith, h)
  same-eq (some a) none h = ground (arith, h)
  same-eq (some a) (some b) h = ap some ((==_iff a b).0 h)

  both_some :
      (p q : Option ℕ)
      → is_some p ≡ is_some q
      → same_address p q ≡ false
      → (is_some p && is_some q) ≡ true
  both_some none none h k = ground (arith, k)
  both_some none (some b) h k = ground (arith, h)
  both_some (some a) none h k = ground (arith, h)
  both_some (some a) (some b) h k = refl

  -- The comparison of the hashes changes nothing.
  hash_first :
      (a b : Hashed)
      → IsHashed a
      → IsHashed b
      → ((hash_of memory a == hash_of memory b) && bytes_eq (bytes_of a) (bytes_of b))
        ≡ bytes_eq (bytes_of a) (bytes_of b)
  hash_first a b va vb = elim (Bool-cases (bytes_eq (bytes_of a) (bytes_of b))) [
    | inr e ↦ ground (arith, e)
    | inl e ↦
        let same : hash_of memory a ≡ hash_of memory b =
          hash_of_lem a va
          ∙ (ap (fresh_hash memory) ((bytes_eq_iff (bytes_of a) (bytes_of b)).0 e)
              ∙ sym (hash_of_lem b vb)) in
        ground (arith, e, same)
  ]

  same_place :
      (a b : Hashed)
      → same_address a.data_at b.data_at ≡ true
      → (a.size == b.size) ≡ true
      → bytes_of a ≡ bytes_of b
  same_place a b here same =
      ap (λ p. contents memory p a.size) (same-eq a.data_at b.data_at here)
      ∙ ap (λ n. contents memory b.data_at n) ((==_iff a.size b.size).0 same)

  -- Two hashed buffers, each without a hash or with that of its bytes, are equal by their hashes,
  -- addresses and sizes exactly if they have the same bytes, and keep such hashes; null has no
  -- bytes, and either both of them are null or neither is.
  pub equals-bytes :
      (a b : Hashed)
      → IsHashed a
      → IsHashed b
      → is_some a.data_at ≡ is_some b.data_at
      → ((equals memory a b).0 ≡ bytes_eq (bytes_of a) (bytes_of b))
        × IsHashed (equals memory a b).1
        × IsHashed (equals memory a b).2
  unfolding equals
  equals-bytes a b va vb nulls = elim (Bool-cases (a.size == b.size)) [
    | inr ne ↦ rw (ne) (sym (unequal_sizes a b va vb ne), va, vb)
    | inl same ↦ elim (Bool-cases (same_address a.data_at b.data_at)) [
      | inl here ↦
          rw (same, here)
            (sym ((bytes_eq_iff (bytes_of a) (bytes_of b)).1 (same_place a b here same)), va, vb)
      | inr there ↦
          rw (same, there, both_some a.data_at b.data_at nulls there)
            (hash_first a b va vb, hashed-IsHashed a va, hashed-IsHashed b vb)
    ]
  ]
