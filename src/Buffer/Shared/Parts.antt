-- ===== src/Buffer/Shared/Parts.antt =====
-- The part of a buffer that `slice` refers to, as a part of its bytes.
use libnodecc.Prelude.{
  ℕ, zero, suc, ◌+◌, ◌-◌, min, ◌≤◌, ◌≡◌, refl, ap, ◌∙◌, sym, arith, Bytes, [], ◌∷◌, length, take,
  drop,
}
use libnodecc.Buffer.Mutable.{slice}
use libnodecc.Buffer.Shared.{Handle, null, weak, strong, Blocks, part}
use libnodecc.Buffer.Shared.Counts.{bytes_of, IsLive}
use libnodecc.Buffer.Shared.Values.{seen, Fits}

nil-take : (n : ℕ) → take {A = ℕ} n [] ≡ []
nil-take zero = refl
nil-take (suc n) = refl

nil-drop : (n : ℕ) → drop {A = ℕ} n [] ≡ []
nil-drop zero = refl
nil-drop (suc n) = refl

drop-take : (m n : ℕ) (xs : Bytes) → drop m (take n xs) ≡ take (n - m) (drop m xs)
drop-take zero n xs = ap (λ k. take k xs) (omega arith)
drop-take (suc m) zero xs = ap (λ k. take k (drop (suc m) xs)) none_left
  where
    none_left : 0 ≡ 0 - suc m
    none_left = omega arith
drop-take (suc m) (suc n) [] = sym (nil-take (suc n - suc m))
drop-take (suc m) (suc n) (x ∷ xs) = drop-take m n xs ∙ ap (λ k. take k (drop m xs)) same
  where
    same : n - m ≡ suc n - suc m
    same = omega arith

take-take : (m n : ℕ) (xs : Bytes) → m ≤ n → take m (take n xs) ≡ take m xs
take-take zero n xs h = refl
take-take (suc m) zero xs h = absurd (omega arith)
take-take (suc m) (suc n) [] h = refl
take-take (suc m) (suc n) (x ∷ xs) h = ap (λ t. x ∷ t) (take-take m n xs (omega arith))

drop-drop : (m n : ℕ) (xs : Bytes) → drop m (drop n xs) ≡ drop (n + m) xs
drop-drop m zero xs = ap (λ k. drop k xs) same
  where
    same : m ≡ 0 + m
    same = omega arith
drop-drop m (suc n) [] = nil-drop m ∙ sym (nil-drop (suc n + m))
drop-drop m (suc n) (x ∷ xs) = drop-drop m n xs ∙ ap (λ k. drop k (x ∷ xs)) same
  where
    same : suc (n + m) ≡ suc n + m
    same = omega arith

pub length-drop : (n : ℕ) (xs : Bytes) → length (drop n xs) ≡ length xs - n
length-drop zero xs = omega arith
length-drop (suc n) [] = omega arith
length-drop (suc n) (x ∷ xs) = omega (arith, length-drop n xs)

pub length-take : (n : ℕ) (xs : Bytes) → length (take n xs) ≡ min n (length xs)
length-take zero xs = omega arith
length-take (suc n) [] = omega arith
length-take (suc n) (x ∷ xs) = omega (arith, length-take n xs)

-- A part of a part.
part_of_part :
    (from size cbeg cend : ℕ) (xs : Bytes)
    → cend ≤ size
    → drop cbeg (take cend (take size (drop from xs))) ≡ take (cend - cbeg) (drop (from + cbeg) xs)
part_of_part from size cbeg cend xs h =
    ap (drop cbeg) (take-take cend size (drop from xs) h)
    ∙ (drop-take cbeg cend (drop from xs) ∙ ap (take (cend - cbeg)) (drop-drop cbeg from xs))

-- Nothing is between two positions that are not in order.
nothing_between : (cbeg cend : ℕ) (xs : Bytes) → cend ≤ cbeg → drop cbeg (take cend xs) ≡ []
nothing_between cbeg cend xs h = drop-take cbeg cend xs ∙ ap (λ k. take k (drop cbeg xs)) none_left
  where
    none_left : cend - cbeg ≡ 0
    none_left = omega arith

pub seen-part :
    (blocks : Blocks) (h : Handle) (beg end : ℕ)
    → Fits blocks h
    → seen blocks (part h beg end) ≡ slice (seen blocks h) beg end
unfolding seen part slice
seen-part blocks null beg end f = sym (nothing_between (min beg 0) (min end 0) [] (omega arith))
seen-part blocks (weak bs) beg end f = ground (
  arith,
  drop-take (min beg (length bs)) (min end (length bs)) bs,
  nothing_between (min beg (length bs)) (min end (length bs)) bs,
)
seen-part blocks (strong b from size) beg end f = rw held (
    ground (
      arith,
      part_of_part from size (min beg size) (min end size) (bytes_of b blocks) (omega arith),
      nothing_between (min beg size) (min end size) (take size (drop from (bytes_of b blocks))),
    ))
  where
    held : length (take size (drop from (bytes_of b blocks))) ≡ size
    held = omega (
      arith,
      f,
      length-take size (drop from (bytes_of b blocks)),
      length-drop from (bytes_of b blocks),
    )

-- A part is live and fits if the whole does.
pub part-IsLive :
    (blocks : Blocks) (h : Handle) (beg end : ℕ) → IsLive blocks h → IsLive blocks (part h beg end)
unfolding part
part-IsLive blocks null beg end l = tt
part-IsLive blocks (weak bs) beg end l = ground arith
part-IsLive blocks (strong b from size) beg end l = ground arith

pub part-Fits :
    (blocks : Blocks) (h : Handle) (beg end : ℕ) → Fits blocks h → Fits blocks (part h beg end)
unfolding part
part-Fits blocks null beg end f = tt
part-Fits blocks (weak bs) beg end f = ground arith
part-Fits blocks (strong b from size) beg end f = ground arith
