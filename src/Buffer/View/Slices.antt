-- ===== src/Buffer/View/Slices.antt =====
-- What a view of a view refers to.
use libnodecc.Prelude.{
  ℕ, zero, suc, ◌+◌, ◌-◌, ◌≡◌, refl, sym, ap, ◌∙◌, inl, inr, min, false, [], ◌∷◌, take, drop,
  Option, none, some, arith,
}
use libnodecc.Prelude.{◌==◌, ltb, Bool-cases}
use libnodecc.Buffer.Hashed.{contents, bytes_at}
use libnodecc.Buffer.View.{BufferView, buffer_view, moved, view, bytes}
use libnodecc.Buffer.View.Search.{IsView}

buffer_view-IsView : (p : Option ℕ) (n : ℕ) → IsView (buffer_view p n)
unfolding buffer_view
buffer_view-IsView none n = (λ h. refl, λ h. ground arith)
buffer_view-IsView (some a) n = ground arith

drop-nil : (k : ℕ) → drop {A = ℕ} k [] ≡ []
drop-nil zero = refl
drop-nil (suc k) = refl

take-nil : (k : ℕ) → take {A = ℕ} k [] ≡ []
take-nil zero = refl
take-nil (suc k) = refl

module _ (memory : ℕ → ℕ) where
  same_range : (a b n m : ℕ) → a ≡ b → n ≡ m → bytes_at memory a n ≡ bytes_at memory b m
  same_range a b n m e k = rw (e, k) refl

  none_left : (a n : ℕ) → n ≡ 0 → bytes_at memory a n ≡ []
  none_left a n e = rw e refl

  drop-bytes_at : (k a n : ℕ) → drop k (bytes_at memory a n) ≡ bytes_at memory (a + k) (n - k)
  drop-bytes_at zero a n = same_range a (a + 0) n (n - 0) (omega arith) (omega arith)
  drop-bytes_at (suc k) a zero = sym (none_left (a + suc k) (0 - suc k) (omega arith))
  drop-bytes_at (suc k) a (suc n) =
      drop-bytes_at k (a + 1) n
      ∙ same_range (a + 1 + k) (a + suc k) (n - k) (suc n - suc k) (omega arith) (omega arith)

  take-bytes_at : (k a n : ℕ) → take k (bytes_at memory a n) ≡ bytes_at memory a (min k n)
  take-bytes_at zero a n = same_range a a 0 (min 0 n) refl (omega arith)
  take-bytes_at (suc k) a zero = same_range a a 0 (min (suc k) 0) refl (omega arith)
  take-bytes_at (suc k) a (suc n) =
      ap (λ t. memory a ∷ t) (take-bytes_at k (a + 1) n)
      ∙ same_range a a (suc (min k n)) (min (suc k) (suc n)) refl (omega arith)

  contents-buffer_view :
      (a n : ℕ)
      → contents memory (buffer_view (some a) n).at (buffer_view (some a) n).size
        ≡ bytes_at memory a n
  unfolding buffer_view
  contents-buffer_view a zero = refl
  contents-buffer_view a (suc n) = rw (not_zero) refl
    where
      not_zero : (suc n == 0) ≡ false
      not_zero = ground arith

  -- Past the end there is nothing.
  clipped :
      (beg stop a n : ℕ)
      → bytes_at memory (a + min beg n) (min stop n - min beg n)
        ≡ bytes_at memory (a + beg) (min stop n - beg)
  clipped beg stop a n = elim (Bool-cases (ltb n beg)) [
    | inl e ↦
        none_left (a + min beg n) (min stop n - min beg n) (ground (arith, e))
        ∙ sym (none_left (a + beg) (min stop n - beg) (ground (arith, e)))
    | inr e ↦
        same_range (a + min beg n) (a + beg) (min stop n - min beg n) (min stop n - beg)
          (ground (arith, e)) (ground (arith, e))
  ]

  nothing : (n : ℕ) → bytes memory (buffer_view none n) ≡ []
  unfolding buffer_view
  nothing n = elim (Bool-cases (n == 0)) [ inl e ↦ rw e refl | inr e ↦ rw e refl ]

  view-at :
      (beg stop : ℕ) (p : Option ℕ) (n : ℕ)
      → bytes memory (view beg stop (record { at = p; size = n }))
        ≡ drop beg (take stop (contents memory p n))
  unfolding view
  view-at beg stop none n =
      nothing (min stop n - min beg n) ∙ sym (ap (drop beg) (take-nil stop) ∙ drop-nil beg)
  view-at beg stop (some a) n =
      contents-buffer_view (a + min beg n) (min stop n - min beg n)
      ∙ clipped beg stop a n
      ∙ sym (ap (drop beg) (take-bytes_at stop a n) ∙ drop-bytes_at beg a (min stop n))

  -- A view of a view is a valid view of the bytes from `beg` on and before `end`, as far as there are
  -- such bytes, whatever the two offsets.
  pub view-bytes :
      (beg stop : ℕ) (v : BufferView)
      → IsView (view beg stop v)
        × (bytes memory (view beg stop v) ≡ drop beg (take stop (bytes memory v)))
  unfolding view
  view-bytes beg stop v = (
    buffer_view-IsView (moved v.at (min beg v.size)) (min stop v.size - min beg v.size),
    view-at beg stop v.at v.size,
  )
