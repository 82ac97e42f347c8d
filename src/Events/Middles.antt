-- ===== src/Events/Middles.antt =====
-- A list without one of its elements.
use libnodecc.Prelude.{
  ℕ, ◌≡◌, refl, sym, ap, ◌∙◌, arith, true, false, List, [], ◌∷◌, ◌++◌, append-nil, Option, none,
  some, Bool-cases, inl, inr,
}
use libnodecc.Prelude.{◌==◌, if◌then◌else◌}
use libnodecc.Events.{is_none}
use libnodecc.Events.Spec.{remove, first}
use libnodecc.Events.Chains.{has, has-ne, has_self, last, NoDup, self}
use libnodecc.Events.Related.{is_nil}

pub is_nil-first : (xs : List ℕ) → is_nil xs ≡ is_none (first xs)
is_nil-first [] = refl
is_nil-first (x ∷ xs) = refl

pub nil_of : (xs : List ℕ) → is_nil xs ≡ true → xs ≡ []
nil_of [] h = refl
nil_of (x ∷ xs) h = cc

pub none_of {ℓ} : {A : Type ℓ} (o : Option A) → is_none o ≡ true → o ≡ none
none_of none h = refl
none_of (some a) h = cc

pub has-insert :
    (x c : ℕ) (pre post : List ℕ) → has x (pre ++ post) ≡ true → has x (pre ++ c ∷ post) ≡ true
has-insert x c [] post h = ground (arith, h)
has-insert x c (y ∷ ys) post h = ground (arith, h, has-insert x c ys post)

pub has-delete :
    (x c : ℕ) (pre post : List ℕ)
    → has x (pre ++ c ∷ post) ≡ true
    → has x (c ∷ []) ≡ false
    → has x (pre ++ post) ≡ true
has-delete x c [] post h ne = ground (arith, h, ne)
has-delete x c (y ∷ ys) post h ne = ground (arith, h, ne, has-delete x c ys post)

pub has-middle : (c : ℕ) (ys post : List ℕ) → has c (ys ++ c ∷ post) ≡ true
has-middle c [] post = has_self c post
has-middle c (z ∷ zs) post = ground (arith, has-middle c zs post)

-- Without the one element a list has no duplicates still, and has that element no more.
pub NoDup-delete :
    (c : ℕ) (pre post : List ℕ)
    → NoDup (pre ++ c ∷ post)
    → NoDup (pre ++ post) × (has c (pre ++ post) ≡ false)
NoDup-delete c [] post d = (d.1, d.0)
NoDup-delete c (y ∷ ys) post d =
    let rest = NoDup-delete c ys post d.1 in
    let yc : (c == y) ≡ false = has-ne c y (ys ++ c ∷ post) (has-middle c ys post) d.0 in
    ((not_had y d.0, rest.0), ground (arith, rest.1, yc))
  where
    not_had : (y : ℕ) → has y (ys ++ c ∷ post) ≡ false → has y (ys ++ post) ≡ false
    not_had y out = elim (Bool-cases (has y (ys ++ post))) [
      | inr h ↦ h
      | inl h ↦ let had = has-insert y c ys post h in cc
    ]

pub remove-middle :
    (c : ℕ) (pre post : List ℕ) → has c pre ≡ false → remove c (pre ++ c ∷ post) ≡ pre ++ post
remove-middle c [] post h = rw (self c) refl
remove-middle c (y ∷ ys) post h =
    let ne : (y == c) ≡ false = ground (arith, h) in
    rw ne (ap (λ t. y ∷ t) (remove-middle c ys post (ground (arith, h))))

pub remove-absent : (c : ℕ) (xs : List ℕ) → has c xs ≡ false → remove c xs ≡ xs
remove-absent c [] h = refl
remove-absent c (y ∷ ys) h =
    let ne : (y == c) ≡ false = ground (arith, h) in
    rw ne (ap (λ t. y ∷ t) (remove-absent c ys (ground (arith, h))))

pub last-append_cons : (pre post : List ℕ) (y : ℕ) → last (pre ++ y ∷ post) ≡ last (y ∷ post)
last-append_cons [] post y = refl
last-append_cons (x ∷ []) post y = refl
last-append_cons (x ∷ z ∷ zs) post y = last-append_cons (z ∷ zs) post y

-- The last handler of a list without its middle.
pub last-delete :
    (c : ℕ) (pre post : List ℕ)
    → (if is_none (first post) then last pre else last (pre ++ c ∷ post)) ≡ last (pre ++ post)
last-delete c pre [] = ap last (sym (append-nil pre))
last-delete c pre (y ∷ ys) = last-append_cons pre (y ∷ ys) c ∙ sym (last-append_cons pre ys y)
