-- ===== src/Events/Related.antt =====
-- How an emitter holds the handlers of its specification.
use libnodecc.Prelude.{
  ℕ, suc, ◌≤◌, ◌≡◌, refl, sym, ap, ◌∙◌, arith, Bool, true, false, List, [], ◌∷◌, length, none,
  Bool-cases, inl, inr, ==_iff,
}
use libnodecc.Prelude.{◌==◌, if◌then◌else◌}
use libnodecc.Events.{Emitter, root_of, is_none, set, Run, done, fault, spent, and_then}
use libnodecc.Events.Spec.{Listing}
use libnodecc.Events.Chains.{has, last, NoDup, Linked, Linked-frame, Linked-live}

abbrev pub is_nil : List ℕ → Bool
is_nil [] = true
is_nil (x ∷ xs) = false

abbrev pub count : ℕ → List ℕ → ℕ
count x [] = 0
count x (y ∷ ys) = if y == x then suc (count x ys) else count x ys

-- The root of a symbol, and the handlers that are linked from it.
pub record At (e : Emitter) (home : ℕ → ℕ) (s : ℕ) (xs : List ℕ) : Type 0 where
  pub chain : Linked e.live e.next (root_of (e.events s)).head xs
  pub tail : (root_of (e.events s)).tail ≡ last xs
  pub present : is_none (e.events s) ≡ is_nil xs
  pub nodup : NoDup xs
  pub homes : (x : ℕ) → has x xs ≡ true → home x ≡ s
  pub short : length xs ≤ e.fresh

-- `guards` has the handlers that calls of `emit` are at, and `pending` those that are in no list any
-- more and still to be disposed of.
pub record Rel (e : Emitter) (guards pending : List ℕ) (m : Listing) : Type 0 where
  pub at : (s : ℕ) → At e m.home s (m.lists s)
  pub loose :
      (x : ℕ)
      → e.live x ≡ true
      → has x (m.lists (m.home x)) ≡ false
      → has x pending ≡ false
      → e.next x ≡ none
  pub counted : (x : ℕ) → e.ref_count x ≡ count x guards
  pub guarded : (x : ℕ) → has x guards ≡ true → e.live x ≡ true
  pub unborn : (x : ℕ) → e.fresh ≤ x → e.live x ≡ false
  pub same_func : e.func ≡ m.func
  pub same_fresh : e.fresh ≡ m.fresh
  pub same_log : e.log ≡ m.log

-- Both end alike, in states that are related.
abbrev pub Sim : List ℕ → Run Emitter → Run Listing → Type 0
Sim guards (done e) (done m) = Rel e guards [] m
Sim guards spent spent = Unit {0}
Sim guards (done e) fault = ⊥
Sim guards (done e) spent = ⊥
Sim guards spent (done m) = ⊥
Sim guards spent fault = ⊥
Sim guards fault r = ⊥

pub Sim-and_then :
    (g h : List ℕ) (r : Run Emitter) (q : Run Listing) (f : Emitter → Run Emitter)
    (k : Listing → Run Listing)
    → Sim g r q
    → ((e : Emitter) (m : Listing) → Rel e g [] m → Sim h (f e) (k m))
    → Sim h (and_then r f) (and_then q k)
Sim-and_then g h (done e) (done m) f k rel go = go e m rel
Sim-and_then g h spent spent f k rel go = record {}
Sim-and_then g h (done e) fault f k rel go = elim rel [ ]
Sim-and_then g h (done e) spent f k rel go = elim rel [ ]
Sim-and_then g h spent (done m) f k rel go = elim rel [ ]
Sim-and_then g h spent fault f k rel go = elim rel [ ]
Sim-and_then g h fault q f k rel go = elim rel [ ]

pub At-frame :
    (e e' : Emitter) (home home' : ℕ → ℕ) (s : ℕ) (xs : List ℕ)
    → e'.events s ≡ e.events s
    → ((x : ℕ)
        → has x xs ≡ true
        → (e'.live x ≡ e.live x) × (e'.next x ≡ e.next x) × (home' x ≡ home x))
    → e.fresh ≤ e'.fresh
    → At e home s xs
    → At e' home' s xs
At-frame e e' home home' s xs roots same grown a = record {
  chain = rw roots (
      Linked-frame e.live e'.live e.next e'.next _ xs (λ x m. ((same x m).0, (same x m).1))
        a.chain);
  tail = rw roots a.tail;
  present = rw roots a.present;
  nodup = a.nodup;
  homes = λ x m. (same x m).2 ∙ a.homes x m;
  short = omega (arith, a.short);
}

pub set-all :
    (P : ℕ → List ℕ → Type 0) (s : ℕ) (v : List ℕ) (f : ℕ → List ℕ)
    → P s v
    → ((t : ℕ) → (s == t) ≡ false → P t (f t))
    → (t : ℕ) → P t (set s v f t)
set-all P s v f h hs t = elim (Bool-cases (s == t)) [
  | inl e ↦ rw e (rw (← (==_iff s t).0 e) h)
  | inr e ↦ rw e (hs t e)
]

pub count-zero : (x : ℕ) (xs : List ℕ) → has x xs ≡ false → count x xs ≡ 0
count-zero x [] h = refl
count-zero x (y ∷ ys) h = ground (arith, h, count-zero x ys)

pub has-count : (x : ℕ) (xs : List ℕ) → has x xs ≡ true → 1 ≤ count x xs
has-count x [] h = cc
has-count x (y ∷ ys) h = ground (arith, h, has-count x ys)

module _ (e : Emitter) (g ps : List ℕ) (m : Listing) (r : Rel e g ps m) where
  -- A handler of one symbol is none of another.
  pub apart :
      (s t x y : ℕ)
      → (s == t) ≡ false
      → has x (m.lists s) ≡ true
      → has y (m.lists t) ≡ true
      → (x == y) ≡ false
  apart s t x y ne in_s in_t = elim (Bool-cases (x == y)) [
    | inr d ↦ d
    | inl d ↦
        let same : s ≡ t =
          sym ((r.at s).homes x in_s) ∙ (ap m.home ((==_iff x y).0 d) ∙ (r.at t).homes y in_t) in
        ground (arith, same, ne)
  ]

  pub elsewhere :
      (s t x : ℕ) → (s == t) ≡ false → has x (m.lists t) ≡ true → has x (m.lists s) ≡ false
  elsewhere s t x ne h = elim (Bool-cases (has x (m.lists s))) [
    | inr out ↦ out
    | inl h' ↦ ground (arith, apart s t x x ne h' h)
  ]

  pub listed-live : (s x : ℕ) → has x (m.lists s) ≡ true → e.live x ≡ true
  listed-live s x in_s = Linked-live e.live e.next x _ (m.lists s) in_s (r.at s).chain

  pub listed-home : (s x : ℕ) → has x (m.lists s) ≡ true → has x (m.lists (m.home x)) ≡ true
  listed-home s x in_s = rw ((r.at s).homes x in_s) in_s

  -- A handler that is not listed differs from one that is.
  pub unlisted-ne :
      (s x y : ℕ) → has x (m.lists s) ≡ true → has y (m.lists (m.home y)) ≡ false → (x == y) ≡ false
  unlisted-ne s x y in_s out = elim (Bool-cases (x == y)) [
    | inr d ↦ d
    | inl d ↦
        let same : has x (m.lists (m.home x)) ≡ has y (m.lists (m.home y)) =
          ap (λ z. has z (m.lists (m.home z))) ((==_iff x y).0 d) in
        ground (arith, same, out, listed-home s x in_s)
  ]

  pub fresh-unlisted : (s : ℕ) → has e.fresh (m.lists s) ≡ false
  fresh-unlisted s = elim (Bool-cases (has e.fresh (m.lists s))) [
    | inr d ↦ d
    | inl d ↦ ground (arith, listed-live s e.fresh d, r.unborn e.fresh (omega arith))
  ]

  pub live-below : (x : ℕ) → e.live x ≡ true → (e.fresh == x) ≡ false
  live-below x l = elim (Bool-cases (e.fresh == x)) [
    | inr d ↦ d
    | inl d ↦ ground (arith, l, r.unborn x (ground (arith, d)))
  ]

  pub unguarded : (x : ℕ) → e.live x ≡ false → has x g ≡ false
  unguarded x l = elim (Bool-cases (has x g)) [
    | inr d ↦ d
    | inl d ↦ let alive = r.guarded x d in cc
  ]
