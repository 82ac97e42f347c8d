-- ===== src/Events/Chains.antt =====
-- The links of the handlers of one symbol, as a list.
use libnodecc.Prelude.{
  ℕ, ◌≡◌, refl, ap, ◌∙◌, arith, Bool, true, false, List, [], ◌∷◌, ◌++◌, Option, none, some,
  Bool-cases, inl, inr, ==_iff,
}
use libnodecc.Prelude.{◌==◌, if◌then◌else◌}
use libnodecc.Events.{set}
use libnodecc.Events.Spec.{first, successor}

abbrev pub has : ℕ → List ℕ → Bool
has x [] = false
has x (y ∷ ys) = if y == x then true else has x ys

abbrev pub last : List ℕ → Option ℕ
last [] = none
last (x ∷ []) = some x
last (x ∷ y ∷ ys) = last (y ∷ ys)

abbrev pub NoDup : List ℕ → Type 0
NoDup [] = Unit {0}
NoDup (x ∷ xs) = (has x xs ≡ false) × NoDup xs

pub last-none : (xs : List ℕ) → last xs ≡ none → xs ≡ []
last-none [] h = refl
last-none (x ∷ []) h = cc
last-none (x ∷ y ∷ ys) h = let rest = last-none (y ∷ ys) h in cc

-- From a pointer the handlers of the list are found one by one, each of them there.
abbrev pub Linked : (ℕ → Bool) → (ℕ → Option ℕ) → Option ℕ → List ℕ → Type 0
Linked live next p [] = p ≡ none
Linked live next p (x ∷ xs) = (p ≡ some x) × (live x ≡ true) × Linked live next (next x) xs

pub self : (x : ℕ) → (x == x) ≡ true
self x = ground arith

pub has_self : (x : ℕ) (xs : List ℕ) → has x (x ∷ xs) ≡ true
has_self x xs = rw (self x) refl

pub has-append_left : (x : ℕ) (xs ys : List ℕ) → has x (xs ++ ys) ≡ false → has x xs ≡ false
has-append_left x [] ys h = refl
has-append_left x (y ∷ xs) ys h = ground (arith, has-append_left x xs ys)

pub has-prefix : (x : ℕ) (xs ys : List ℕ) → has x xs ≡ true → has x (xs ++ ys) ≡ true
has-prefix x [] ys h = cc
has-prefix x (y ∷ xs) ys h = ground (arith, h, has-prefix x xs ys)

pub has-append : (x : ℕ) (xs ys : List ℕ) → has x xs ≡ false → has x (xs ++ ys) ≡ has x ys
has-append x [] ys h = refl
has-append x (y ∷ xs) ys h = ground (arith, has-append x xs ys)

pub NoDup-append_last : (xs : List ℕ) (n : ℕ) → NoDup xs → has n xs ≡ false → NoDup (xs ++ n ∷ [])
NoDup-append_last [] n d h = (refl, record {})
NoDup-append_last (x ∷ xs) n d h = (
  ground (arith, d.0, h, has-append x xs (n ∷ []) d.0),
  NoDup-append_last xs n d.1 (ground (arith, h)),
)

pub has-last : (x : ℕ) (xs : List ℕ) → last xs ≡ some x → has x xs ≡ true
has-last x [] h = cc
has-last x (y ∷ []) h = ground (arith, h)
has-last x (y ∷ z ∷ zs) h = ground (arith, has-last x (z ∷ zs) h)

-- Two handlers, of which one is in the list, differ.
pub has-ne : (x y : ℕ) (xs : List ℕ) → has x xs ≡ true → has y xs ≡ false → (x == y) ≡ false
has-ne x y xs m out = elim (Bool-cases (x == y)) [
  | inr e ↦ e
  | inl e ↦
      let same : has x xs ≡ has y xs = ap (λ z. has z xs) ((==_iff x y).0 e) in ground (arith, same)
]

pub set-same {ℓ} : {A : Type ℓ} (x : ℕ) (v : A) (f : ℕ → A) → set x v f x ≡ v
set-same x v f = rw (self x) refl

pub set-other {ℓ} :
    {A : Type ℓ} (x y : ℕ) (v : A) (f : ℕ → A) → (x == y) ≡ false → set x v f y ≡ f y
set-other x y v f e = rw e refl

module _ (live live' : ℕ → Bool) (next next' : ℕ → Option ℕ) where
  -- What the links of other handlers are does not matter.
  pub Linked-frame :
      (p : Option ℕ) (xs : List ℕ)
      → ((x : ℕ) → has x xs ≡ true → (live' x ≡ live x) × (next' x ≡ next x))
      → Linked live next p xs
      → Linked live' next' p xs
  Linked-frame p [] same h = h
  Linked-frame p (x ∷ xs) same h =
      let here = same x (has_self x xs) in
      (
        h.0,
        here.0 ∙ h.1,
        rw here.1 (Linked-frame (next x) xs (λ y m. same y (ground (arith, m))) h.2),
      )

module _ (live : ℕ → Bool) (next : ℕ → Option ℕ) where
  pub Linked-first : (p : Option ℕ) (xs : List ℕ) → Linked live next p xs → p ≡ first xs
  Linked-first p [] h = h
  Linked-first p (x ∷ xs) h = h.0

  pub Linked-live :
      (x : ℕ) (p : Option ℕ) (xs : List ℕ) → has x xs ≡ true → Linked live next p xs → live x ≡ true
  Linked-live x p [] m h = cc
  Linked-live x p (y ∷ ys) m h = elim (Bool-cases (y == x)) [
    | inl e ↦ rw (← (==_iff y x).0 e) h.1
    | inr e ↦ Linked-live x (next y) ys (ground (arith, m, e)) h.2
  ]

  pub next-successor :
      (x : ℕ) (p : Option ℕ) (xs : List ℕ)
      → has x xs ≡ true
      → Linked live next p xs
      → next x ≡ successor x xs
  next-successor x p [] m h = cc
  next-successor x p (y ∷ ys) m h = elim (Bool-cases (y == x)) [
    | inl e ↦ rw e (rw (← (==_iff y x).0 e) (Linked-first _ ys h.2))
    | inr e ↦ rw e (next-successor x (next y) ys (ground (arith, m, e)) h.2)
  ]

  -- A handler behind the last one.
  pub Linked-push :
      (p : Option ℕ) (xs : List ℕ) (t n : ℕ)
      → last xs ≡ some t
      → NoDup xs
      → has n xs ≡ false
      → live n ≡ true
      → next n ≡ none
      → Linked live next p xs
      → Linked live (set t (some n) next) p (xs ++ n ∷ [])
  Linked-push p [] t n e d out l z h = cc
  Linked-push p (x ∷ []) t n e d out l z h =
      let te : (t == x) ≡ true = ground (arith, e) in
      let tn : (t == n) ≡ false = ground (arith, e, out) in (h.0, h.1, (rw te refl, l, rw tn z))
  Linked-push p (x ∷ y ∷ ys) t n e d out l z h =
      let ne : (t == x) ≡ false = has-ne t x (y ∷ ys) (has-last t (y ∷ ys) e) d.0 in
      (h.0, h.1, rw ne (Linked-push (next x) (y ∷ ys) t n e d.1 (ground (arith, out)) l z h.2))

  -- The handler before another one is linked to the one behind that.
  pub Linked-unlink :
      (p : Option ℕ) (pre post : List ℕ) (q c : ℕ)
      → last pre ≡ some q
      → NoDup (pre ++ c ∷ post)
      → Linked live next p (pre ++ c ∷ post)
      → Linked live (set q (next c) next) p (pre ++ post)
  Linked-unlink p [] post q c e d h = cc
  Linked-unlink p (x ∷ []) post q c e d h =
      let qx : (q == x) ≡ true = ground (arith, e) in
      (
        h.0,
        h.1,
        rw qx (
            Linked-frame live live next (set q (next c) next) (next c) post
              (λ y m. (refl, set-other q y (next c) next (apart y m))) h.2.2),
      )
    where
      apart : (y : ℕ) → has y post ≡ true → (q == y) ≡ false
      apart y m =
          let out : has x post ≡ false = ground (arith, d.0) in
          let ne : (y == x) ≡ false = has-ne y x post m out in ground (arith, e, ne)
  Linked-unlink p (x ∷ y ∷ ys) post q c e d h =
      let in_pre : has q (y ∷ ys) ≡ true = has-last q (y ∷ ys) e in
      let out : has x (y ∷ ys) ≡ false = has-append_left x (y ∷ ys) (c ∷ post) d.0 in
      let ne : (q == x) ≡ false = has-ne q x (y ∷ ys) in_pre out in
      (h.0, h.1, rw ne (Linked-unlink (next x) (y ∷ ys) post q c e d.1 h.2))
