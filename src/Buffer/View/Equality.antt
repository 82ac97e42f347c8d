-- ===== src/Buffer/View/Equality.antt =====
-- `equals` of views is equality of what they refer to.
use libnodecc.Prelude.{
  ℕ, ◌≡◌, ◌↔◌, inl, inr, refl, sym, ap, ◌∙◌, arith, bytes_eq, bytes_eq_iff, Bool, true, false, ◌&&◌,
  ◌||◌, length, Option, none, some,
}
use libnodecc.Prelude.{◌==◌, ==_iff, Bool-cases}
use libnodecc.Buffer.Hashed.{same_address, is_some, contents, bytes_at}
use libnodecc.Buffer.Hashed.Equality.{length-contents}
use libnodecc.Buffer.View.{BufferView, bytes, equals}
use libnodecc.Buffer.View.Search.{IsView}

module _ (memory : ℕ → ℕ) where
  same_length :
      (p q : Option ℕ) (n m : ℕ)
      → (is_some p ≡ false → n ≡ 0)
      → (is_some q ≡ false → m ≡ 0)
      → contents memory p n ≡ contents memory q m
      → n ≡ m
  same_length p q n m hp hq e =
      sym (length-contents memory p n hp) ∙ ap length e ∙ length-contents memory q m hq

  same_bytes :
      (a b n : ℕ)
      → ((a == b) || bytes_eq (bytes_at memory a n) (bytes_at memory b n)) ≡ true
      → bytes_at memory a n ≡ bytes_at memory b n
  same_bytes a b n h = elim (Bool-cases (a == b)) [
    | inl e ↦ ap (λ t. bytes_at memory t n) ((==_iff a b).0 e)
    | inr e ↦ (bytes_eq_iff (bytes_at memory a n) (bytes_at memory b n)).0 (ground (arith, e))
  ]

  abbrev compared : Option ℕ → Option ℕ → ℕ → ℕ → Bool
  compared p q n m =
      (n == m)
      && (same_address p q
          || (is_some p && is_some q && bytes_eq (contents memory p n) (contents memory q m)))

  to_bytes :
      (p q : Option ℕ) (n m : ℕ)
      → (n ≡ 0 → is_some p ≡ false)
      → (m ≡ 0 → is_some q ≡ false)
      → compared p q n m ≡ true
      → contents memory p n ≡ contents memory q m
  to_bytes none none n m hp hq h = refl
  to_bytes none (some b) n m hp hq h = ground arith
  to_bytes (some a) none n m hp hq h = ground arith
  to_bytes (some a) (some b) n m hp hq h = ground (arith, same_bytes a b n, same_bytes a b m)

  from_bytes :
      (p q : Option ℕ) (n m : ℕ)
      → (n ≡ 0 → is_some p ≡ false)
      → (m ≡ 0 → is_some q ≡ false)
      → (is_some p ≡ false → n ≡ 0)
      → (is_some q ≡ false → m ≡ 0)
      → n ≡ m
      → contents memory p n ≡ contents memory q m
      → compared p q n m ≡ true
  from_bytes none none n m hp hq zp zq k e = ground arith
  from_bytes none (some b) n m hp hq zp zq k e = let f = hq (sym k ∙ zp refl) in cc
  from_bytes (some a) none n m hp hq zp zq k e = let f = hp (k ∙ zq refl) in cc
  from_bytes (some a) (some b) n m hp hq zp zq k e =
      ground (arith, (bytes_eq_iff (bytes_at memory a n) (bytes_at memory b m)).1 e)

  -- Two valid views are equal when the bytes that they refer to are, wherever these stand.
  pub equals_iff :
      (v w : BufferView)
      → IsView v
      → IsView w
      → (equals memory v w ≡ true) ↔ (bytes memory v ≡ bytes memory w)
  unfolding equals
  equals_iff v w hv hw = (
    to_bytes v.at w.at v.size w.size hv.1 hw.1,
    λ e.
        from_bytes v.at w.at v.size w.size hv.1 hw.1 hv.0 hw.0
          (same_length v.at w.at v.size w.size hv.0 hw.0 e) e,
  )
