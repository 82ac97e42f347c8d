-- ===== src/Object/Counts.antt =====
-- The count of an object, and the pointers to it.
use libnodecc.Prelude.{
  update, ℕ, zero, suc, ◌+◌, ◌^◌, ◌≤◌, ◌<◌, ◌≡◌, refl, arith, Bool, true, false, not, List, [], ◌∷◌,
  ◌++◌, Option, none, some, Bool-cases, inl, inr, ==_iff,
}
use libnodecc.Prelude.{◌==◌, if◌then◌else◌}
use libnodecc.Object.{
  Object, pointer_at, at, retain, begin_destroy, lower, finish, release, destroys, destroy,
  called_if,
}

abbrev pub points : ℕ → Option ℕ → ℕ
points o none = 0
points o (some p) = if p == o then 1 else 0

-- The number of pointers to an object.
unfoldable pub refs : ℕ → List (Option ℕ) → ℕ
refs o [] = 0
refs o (p ∷ ps) = points o p + refs o ps

pub refs-append : (o : ℕ) (ps qs : List (Option ℕ)) → refs o (ps ++ qs) ≡ refs o ps + refs o qs
unfolding refs
refs-append o [] qs = omega arith
refs-append o (p ∷ ps) qs = omega (arith, refs-append o ps qs)

-- A pointer that lets go.
pub refs-cleared :
    (o i : ℕ) (ps : List (Option ℕ))
    → refs o (update i (λ _. none) ps) + points o (pointer_at i ps) ≡ refs o ps
unfolding refs
refs-cleared o i [] = refl
refs-cleared o zero (p ∷ ps) = omega arith
refs-cleared o (suc i) (p ∷ ps) = omega (arith, refs-cleared o i ps)

pub refs-update :
    (o i : ℕ) (q : Option ℕ) (ps : List (Option ℕ))
    → refs o (update i (λ _. q) ps) ≤ refs o ps + points o q
unfolding refs
refs-update o i q [] = omega arith
refs-update o zero q (p ∷ ps) = omega arith
refs-update o (suc i) q (p ∷ ps) = omega (arith, refs-update o i q ps)

pub refs-pointer_at : (o i : ℕ) (ps : List (Option ℕ)) → points o (pointer_at i ps) ≤ refs o ps
unfolding refs
refs-pointer_at o i [] = omega arith
refs-pointer_at o zero (p ∷ ps) = omega arith
refs-pointer_at o (suc i) (p ∷ ps) = omega (arith, refs-pointer_at o i ps)

-- The number of calls of `_destroy` that are running on an object.
abbrev pub calls_on : ℕ → List (ℕ × Bool) → ℕ
calls_on o [] = 0
calls_on o ((p, by_release) ∷ calls) = (if p == o then 1 else 0) + calls_on o calls

-- An object with at most so many pointers to it, and so many calls of its `_destroy`.
pub record IsCounted (x : Object) (r f : ℕ) : Type 0 where
  pub counted : r ≤ x.use_count
  pub small : x.use_count < 2 ^ 31
  pub deleted : x.is_deleted ≡ true → x.use_count ≡ 0
  pub ended : x.is_deleted ≡ true → x.is_destroyed ≡ true
  pub calm : x.is_deleted ≡ true → f ≡ 0
  pub single : f ≤ (if x.is_destroyed then 1 else 0)
  pub times : x.destroy_count ≡ (if x.is_destroyed then 1 else 0)

pub fewer : {x : Object} {r s f : ℕ} → s ≤ r → IsCounted x r f → IsCounted x s f
fewer le c = record {
  counted = omega (arith, c.counted);
  small = c.small;
  deleted = c.deleted;
  ended = c.ended;
  calm = c.calm;
  single = c.single;
  times = c.times;
}

pub retain-IsCounted :
    (x : Object) (r f : ℕ)
    → 1 ≤ r + f
    → x.use_count + 1 < 2 ^ 31
    → IsCounted x r f
    → IsCounted (retain x) (r + 1) f
unfolding retain
retain-IsCounted x r f le fits c = record {
  counted = omega (arith, c.counted);
  small = omega (arith, fits);
  deleted = λ d. absurd (omega (arith, c.counted, c.deleted d, c.calm d));
  ended = c.ended;
  calm = c.calm;
  single = c.single;
  times = c.times;
}

-- The last reference is not released while `_destroy` runs.
pub release-IsCounted :
    (x : Object) (r f : ℕ)
    → (x.use_count ≡ 1 → x.is_destroyed ≡ true → f ≡ 0)
    → IsCounted x (r + 1) f
    → IsCounted (release x) r (f + (if destroys x then 1 else 0))
unfolding release destroys lower begin_destroy
release-IsCounted x r f last c = record {
  counted = ground (arith, c.counted, c.small);
  small = ground (arith, c.small);
  deleted = λ d. ground (arith, d, c.counted, c.deleted);
  ended = λ d. ground (arith, d, c.ended);
  calm = λ d. ground (arith, d, c.counted, c.small, c.deleted, c.ended, c.calm, c.single, last);
  single = ground (arith, c.single);
  times = ground (arith, c.times);
}

pub destroy-IsCounted :
    (x : Object) (r f : ℕ)
    → IsCounted x r f
    → IsCounted (destroy x) r (f + (if not x.is_destroyed then 1 else 0))
unfolding destroy begin_destroy
destroy-IsCounted x r f c = record {
  counted = ground (arith, c.counted, c.small);
  small = ground (arith, c.small);
  deleted = λ d. ground (arith, d, c.counted, c.deleted);
  ended = λ d. ground (arith, d, c.ended);
  calm = λ d. ground (arith, d, c.counted, c.small, c.deleted, c.ended, c.calm, c.single);
  single = ground (arith, c.single);
  times = ground (arith, c.times);
}

pub finish-IsCounted :
    (by_release : Bool) (x : Object) (r f : ℕ)
    → IsCounted x r (f + 1)
    → IsCounted (finish by_release x) r f
unfolding finish
finish-IsCounted by_release x r f c = record {
  counted = ground (arith, c.counted, c.small);
  small = ground (arith, c.small);
  deleted = λ d. ground (arith, d, c.counted, c.deleted);
  ended = λ d. ground (arith, d, c.ended);
  calm = λ d. ground (arith, d, c.counted, c.small, c.deleted, c.ended, c.calm, c.single);
  single = ground (arith, c.single);
  times = ground (arith, c.times);
}

pub at-IsCounted :
    (o p : ℕ) (f : Object → Object) (objects : ℕ → Object) (r n : ℕ)
    → (p ≡ o → IsCounted (f (objects o)) r n)
    → ((p == o) ≡ false → IsCounted (objects o) r n)
    → IsCounted (at p f objects o) r n
at-IsCounted o p f objects r n yes_case no_case = elim (Bool-cases (p == o)) [
  | inl e ↦ rw e (yes_case ((==_iff p o).0 e))
  | inr e ↦ rw e (no_case e)
]

-- A call that is made or not.
pub calls_on-called_if :
    (o p : ℕ) (made by_release : Bool) (calls : List (ℕ × Bool))
    → calls_on o (called_if made (p, by_release) calls)
      ≡ calls_on o calls + (if p == o then (if made then 1 else 0) else 0)
calls_on-called_if o p true by_release calls = ground arith
calls_on-called_if o p false by_release calls = ground arith
