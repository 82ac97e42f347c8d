-- ===== src/Stream/Uv/Trim.antt =====
-- The buffers of a write without the bytes that the kernel took.
use libnodecc.Prelude.{
  ℕ, zero, suc, ◌-◌, ◌≤◌, ◌≡◌, refl, ap, ◌∙◌, sym, arith, Bytes, concat, List, [], ◌∷◌, ◌++◌,
  length, take, drop, Bool-cases, inl, inr,
}
use libnodecc.Prelude.{ltb}
use libnodecc.Stream.Uv.{trim}

pub take-drop : (n : ℕ) (xs : Bytes) → take n xs ++ drop n xs ≡ xs
take-drop zero xs = refl
take-drop (suc n) [] = refl
take-drop (suc n) (x ∷ xs) = ap (λ t. x ∷ t) (take-drop n xs)

drop-within : (n : ℕ) (xs ys : Bytes) → n ≤ length xs → drop n (xs ++ ys) ≡ drop n xs ++ ys
drop-within zero xs ys h = refl
drop-within (suc n) [] ys h = absurd (omega arith)
drop-within (suc n) (x ∷ xs) ys h = drop-within n xs ys (omega arith)

drop-beyond : (n : ℕ) (xs ys : Bytes) → length xs ≤ n → drop n (xs ++ ys) ≡ drop (n - length xs) ys
drop-beyond n [] ys h = ap (λ k. drop k ys) (omega arith)
drop-beyond zero (x ∷ xs) ys h = absurd (omega arith)
drop-beyond (suc n) (x ∷ xs) ys h =
    drop-beyond n xs ys (omega arith) ∙ ap (λ k. drop k ys) (omega arith)

drop-nil : (n : ℕ) → drop {A = ℕ} n [] ≡ []
drop-nil zero = refl
drop-nil (suc n) = refl

-- The loop over the written buffers leaves what was not written.
pub concat-trim : (n : ℕ) (bs : List Bytes) → concat (trim n bs) ≡ drop n (concat bs)
unfolding trim
concat-trim n [] = sym (drop-nil n)
concat-trim n (b ∷ bs) = elim (Bool-cases (ltb n (length b))) [
  | inl e ↦ ground (arith, e, drop-within n b (concat bs) (ground (arith, e)))
  | inr e ↦
      ground
        (arith, e, concat-trim (n - length b) bs, drop-beyond n b (concat bs) (ground (arith, e)))
]
