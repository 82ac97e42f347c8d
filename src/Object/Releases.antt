-- ===== src/Object/Releases.antt =====
-- The invariant of objects and pointers, and that releases and calls of `_destroy` keep it.
use libnodecc.Prelude.{
  update, ℕ, suc, ◌+◌, ◌^◌, ◌≤◌, ◌<◌, ◌≡◌, sym, ap, ◌∙◌, arith, Bool, true, false, not, List, [],
  ◌∷◌, Option, none, some, Bool-cases, inl, inr, ltb→lt,
}
use libnodecc.Prelude.{ltb, ◌==◌, if◌then◌else◌}
use libnodecc.Object.{
  Object, World, unmade, pointer_at, at, retain, release, destroys, destroy, finish, let_go,
  destroy_object, end_calls, keep_calls,
}
use libnodecc.Object.Counts.{
  points, refs, refs-append, refs-cleared, refs-pointer_at, calls_on, IsCounted, fewer,
  retain-IsCounted, destroy-IsCounted, release-IsCounted, finish-IsCounted, at-IsCounted,
  calls_on-called_if,
}

pub record Inv (w : World) : Type 0 where
  pub all : (o : ℕ) → IsCounted (w.objects o) (refs o w.pointers) (calls_on o w.running)
  pub ahead : (o : ℕ) → w.next ≤ o → w.objects o ≡ unmade

points_self : (o : ℕ) → points o (some o) ≡ 1
points_self o = ground arith

pub add_zero : (r : ℕ) → r + 0 ≡ r
add_zero r = omega arith

self : (o : ℕ) → (o == o) ≡ true
self o = ground arith

-- What a pointer refers to was made, and so was what is being destroyed.
pub held : (w : World) (i p : ℕ) → pointer_at i w.pointers ≡ some p → 1 ≤ refs p w.pointers
held w i p e =
    let one : points p (pointer_at i w.pointers) ≡ 1 = rw e (points_self p) in
    omega (arith, one, refs-pointer_at p i w.pointers)

in_use-made :
    (w : World) (p : ℕ) → Inv w → 1 ≤ refs p w.pointers + calls_on p w.running → suc p ≤ w.next
in_use-made w p v h = elim (Bool-cases (ltb p w.next)) [
  | inl e ↦ ltb→lt p w.next e
  | inr e ↦
      let none_yet = v.ahead p (ground (arith, e)) in
      let c : IsCounted unmade (refs p w.pointers) (calls_on p w.running) =
        rw none_yet at (v.all p) in
      absurd (omega (arith, h, c.counted, c.single))
]

pub at-ahead :
    (w : World) (p : ℕ) (f : Object → Object)
    → Inv w
    → 1 ≤ refs p w.pointers + calls_on p w.running
    → (o : ℕ) → w.next ≤ o
    → at p f w.objects o ≡ unmade
at-ahead w p f v h o le =
    let ne : (p == o) ≡ false = ground (arith, in_use-made w p v h, le) in rw ne (v.ahead o le)

-- The last reference to an object is not released while its `_destroy` runs.
abbrev pub IsEarly : Option ℕ → World → Type 0
IsEarly none w = Unit
IsEarly (some o) w =
    (w.objects o).use_count ≡ 1 → (w.objects o).is_destroyed ≡ true → calls_on o w.running ≡ 0

pub let_go-Inv :
    (i : ℕ) (q : Option ℕ) (w : World)
    → pointer_at i w.pointers ≡ q
    → IsEarly q w
    → Inv w
    → Inv (let_go i q w)
unfolding let_go
let_go-Inv i none w e early v = v
let_go-Inv i (some p) w e early v = record {
  all = λ o.
      let cleared : refs o (update i (λ _. none) w.pointers) + points o (some p)
          ≡ refs o w.pointers =
        ap (λ q. refs o (update i (λ _. none) w.pointers) + points o q) (sym e)
        ∙ refs-cleared o i w.pointers in
      rw (calls_on-called_if o p (destroys (w.objects p)) true w.running) (
        at-IsCounted o p release w.objects _ _
          (λ eq.
            let one_less : refs o (update i (λ _. none) w.pointers) + 1 ≡ refs o w.pointers =
              ground (arith, cleared, eq) in
            rw (eq, self o)
              (release-IsCounted (w.objects o) _ _ (rw eq at early) (rw one_less (v.all o))))
          (λ ne. rw (ne, add_zero) (fewer (ground (arith, ne, cleared)) (v.all o))));
  ahead = at-ahead w p release v (omega (arith, held w i p e));
}

pub destroy_object-Inv :
    (i : ℕ) (q : Option ℕ) (w : World)
    → pointer_at i w.pointers ≡ q
    → Inv w
    → Inv (destroy_object q w)
unfolding destroy_object
destroy_object-Inv i none w e v = v
destroy_object-Inv i (some p) w e v = record {
  all = λ o. rw (calls_on-called_if o p (not (w.objects p).is_destroyed) false w.running) (
      at-IsCounted o p destroy w.objects _ _
        (λ eq. rw (eq, self o) (destroy-IsCounted (w.objects o) _ _ (v.all o)))
        (λ ne. rw (ne, add_zero) (v.all o)));
  ahead = at-ahead w p destroy v (omega (arith, held w i p e));
}

on_running :
    (p : ℕ) (by_release : Bool) (calls : List (ℕ × Bool)) (w : World)
    → w.running ≡ (p, by_release) ∷ calls
    → 1 ≤ refs p w.pointers + calls_on p w.running
on_running p by_release calls w e =
    let called : calls_on p w.running ≡ (if p == p then 1 else 0) + calls_on p calls =
      ap (calls_on p) e in
    ground (arith, called, self p)

-- One call less on the object, if it is the innermost one's.
pub end_calls-Inv :
    (calls : List (ℕ × Bool)) (w : World) → w.running ≡ calls → Inv w → Inv (end_calls calls w)
unfolding end_calls
end_calls-Inv [] w e v = v
end_calls-Inv ((p, by_release) ∷ calls) w e v = record {
  all = λ o.
      let called : calls_on o w.running ≡ (if p == o then 1 else 0) + calls_on o calls =
        ap (calls_on o) e in
      at-IsCounted o p (finish by_release) w.objects _ _
        (λ eq.
          let one_more : calls_on o w.running ≡ calls_on o calls + 1 = ground (arith, called, eq) in
          finish-IsCounted by_release (w.objects o) _ _ (rw (← one_more) (v.all o)))
        (λ ne.
          let same : calls_on o w.running ≡ calls_on o calls = ground (arith, called, ne) in
          rw (← same) (v.all o));
  ahead = at-ahead w p (finish by_release) v (on_running p by_release calls w e);
}

-- The references of an object that is retained by its `_destroy`.
abbrev pub IsSmall : List (ℕ × Bool) → World → Type 0
IsSmall [] w = Unit
IsSmall ((o, by_release) ∷ calls) w = (w.objects o).use_count + 1 < 2 ^ 31

pub keep_calls-Inv :
    (calls : List (ℕ × Bool)) (w : World)
    → w.running ≡ calls
    → IsSmall calls w
    → Inv w
    → Inv (keep_calls calls w)
unfolding keep_calls refs
keep_calls-Inv [] w e fits v = v
keep_calls-Inv ((p, by_release) ∷ calls) w e fits v = record {
  all = λ o. rw (refs-append o w.pointers (some p ∷ [])) (
      at-IsCounted o p retain w.objects _ _
        (λ eq. fewer (ground (arith, eq)) (
          retain-IsCounted (w.objects o) _ _ (rw eq at (on_running p by_release calls w e))
            (rw eq at fits) (v.all o)))
        (λ ne. fewer (ground (arith, ne)) (v.all o)));
  ahead = at-ahead w p retain v (on_running p by_release calls w e);
}
