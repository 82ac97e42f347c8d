-- ===== src/Object/Safety.antt =====
-- No pointer outlives its object.
use libnodecc.Prelude.{
  update, ℕ, zero, suc, ◌+◌, ◌^◌, ◌≤◌, ◌<◌, ◌≡◌, refl, ap, arith, true, false, List, [], ◌∷◌,
  Option, none, some, Bool-cases, inl, inr,
}
use libnodecc.Prelude.{◌==◌}
use libnodecc.Object.{
  World, unmade, made, start, pointer_at, retain, reset, destroy_at, end_destroy, keep, make_shared,
  retain_at, copy_construct, move_construct, assign, move_assign, Op, makes, copies_at, moves,
  assigns, move_assigns, resets, destroys_at, keeps, ends_destroy, step, run,
}
use libnodecc.Object.Counts.{
  points, refs, refs-append, refs-cleared, refs-update, refs-pointer_at, calls_on, IsCounted, fewer,
  retain-IsCounted, at-IsCounted,
}
use libnodecc.Object.Releases.{
  Inv, held, at-ahead, IsEarly, IsSmall, let_go-Inv, destroy_object-Inv, end_calls-Inv,
  keep_calls-Inv,
}

-- The count of what is copied does not wrap.
abbrev pub FitsCopy : Option ℕ → World → Type 0
FitsCopy none w = Unit
FitsCopy (some o) w = (w.objects o).use_count + 1 < 2 ^ 31

retain_at-Inv :
    (q : Option ℕ) (w : World) (ps : List (Option ℕ))
    → FitsCopy q w
    → Inv w
    → ((o : ℕ) → points o q ≤ refs o w.pointers)
    → ((o : ℕ) → refs o ps ≤ refs o w.pointers + points o q)
    → Inv (record w { objects = retain_at q w.objects; pointers = ps })
retain_at-Inv none w ps fits v held_by le = record {
  all = λ o. fewer (omega (arith, le o)) (v.all o);
  ahead = v.ahead;
}
retain_at-Inv (some p) w ps fits v held_by le = record {
  all = λ o.
      at-IsCounted o p retain w.objects _ _
        (λ eq. fewer (ground (arith, le o, eq)) (
          retain-IsCounted (w.objects o) _ _ (ground (arith, held_by o, eq)) (rw eq at fits)
            (v.all o)))
        (λ ne. fewer (ground (arith, le o, ne)) (v.all o));
  ahead = at-ahead w p retain v (ground (arith, held_by p));
}

copy_construct-Inv :
    (i : ℕ) (w : World) → FitsCopy (pointer_at i w.pointers) w → Inv w → Inv (copy_construct i w)
unfolding copy_construct refs
copy_construct-Inv i w fits v =
    retain_at-Inv (pointer_at i w.pointers) w _ fits v (λ o. refs-pointer_at o i w.pointers)
      (λ o. omega (arith, refs-append o w.pointers (pointer_at i w.pointers ∷ [])))

assign-Inv :
    (i j : ℕ) (w : World) → FitsCopy (pointer_at j w.pointers) w → Inv w → Inv (assign i j w)
unfolding assign
assign-Inv i j w fits v =
    retain_at-Inv (pointer_at j w.pointers) w _ fits v (λ o. refs-pointer_at o j w.pointers)
      (λ o. refs-update o i (pointer_at j w.pointers) w.pointers)

-- Pointers that are moved.
moved-Inv :
    (w : World) (ps : List (Option ℕ))
    → Inv w
    → ((o : ℕ) → refs o ps ≤ refs o w.pointers)
    → Inv (record w { pointers = ps })
moved-Inv w ps v le = record { all = λ o. fewer (le o) (v.all o); ahead = v.ahead }

move_construct-Inv : (i : ℕ) (w : World) → Inv w → Inv (move_construct i w)
unfolding move_construct refs
move_construct-Inv i w v = moved-Inv w _ v (λ o. omega (
  arith,
  refs-append o (update i (λ _. none) w.pointers) (pointer_at i w.pointers ∷ []),
  refs-cleared o i w.pointers,
))

pointer_at-update :
    (i j : ℕ) (ps : List (Option ℕ))
    → pointer_at j (update i (λ _. pointer_at j ps) ps) ≡ pointer_at j ps
pointer_at-update i j [] = refl
pointer_at-update zero zero (p ∷ ps) = refl
pointer_at-update zero (suc j) (p ∷ ps) = refl
pointer_at-update (suc i) zero (p ∷ ps) = refl
pointer_at-update (suc i) (suc j) (p ∷ ps) = pointer_at-update i j ps

move_assign-Inv : (i j : ℕ) (w : World) → Inv w → Inv (move_assign i j w)
unfolding move_assign
move_assign-Inv i j w v = moved-Inv w _ v (λ o.
    let moved : points o (pointer_at j (update i (λ _. pointer_at j w.pointers) w.pointers))
        ≡ points o (pointer_at j w.pointers) =
      ap (points o) (pointer_at-update i j w.pointers) in
    omega (
      arith,
      moved,
      refs-cleared o j (update i (λ _. pointer_at j w.pointers) w.pointers),
      refs-update o i (pointer_at j w.pointers) w.pointers,
    ))

refs_other : (o p : ℕ) → (p == o) ≡ false → refs o (some p ∷ []) ≡ 0
unfolding refs
refs_other o p ne = ground (arith, ne)

refs_one : (o p : ℕ) → refs o (some p ∷ []) ≤ 1
unfolding refs
refs_one o p = ground arith

-- Nothing refers to an object that is not made.
unused : (w : World) → Inv w → (refs w.next w.pointers ≡ 0) × (calls_on w.next w.running ≡ 0)
unused w v =
    let c : IsCounted unmade (refs w.next w.pointers) (calls_on w.next w.running) =
      rw (v.ahead w.next (omega arith)) at (v.all w.next) in
    (omega (arith, c.counted), omega (arith, c.single))

make_shared-Inv : (w : World) → Inv w → Inv (make_shared w)
unfolding make_shared
make_shared-Inv w v = record {
  all = λ o. rw (refs-append o w.pointers) (
      at-IsCounted o w.next (λ _. made) w.objects _ _
        (λ eq.
          let none_yet : refs o w.pointers ≡ 0 = rw eq at ((unused w v).0) in
          let no_calls : calls_on o w.running ≡ 0 = rw eq at ((unused w v).1) in
          record {
            counted = omega (arith, none_yet, refs_one o w.next);
            small = omega arith;
            deleted = λ d. ground (arith, d);
            ended = λ d. ground (arith, d);
            calm = λ d. no_calls;
            single = omega (arith, no_calls);
            times = refl;
          })
        (λ ne. fewer {r = refs o w.pointers} (omega (arith, refs_other o w.next ne)) (v.all o)));
  ahead = λ o le.
      let ne : (w.next == o) ≡ false = ground (arith, le) in rw ne (v.ahead o (omega (arith, le)));
}

-- What the safety of a step rests on: a count stays below 2 ^ 31, and the last reference to an
-- object is not released while its `_destroy` runs.
abbrev pub IsFine : Op → World → Type 0
IsFine makes w = Unit
IsFine (copies_at i) w = FitsCopy (pointer_at i w.pointers) w
IsFine (moves i) w = Unit
IsFine (assigns i j) w = FitsCopy (pointer_at j w.pointers) w
IsFine (move_assigns i j) w = Unit
IsFine (resets i) w = IsEarly (pointer_at i w.pointers) w
IsFine (destroys_at i) w = Unit
IsFine keeps w = IsSmall w.running w
IsFine ends_destroy w = Unit

abbrev pub AreFine : List Op → World → Type 0
AreFine [] w = Unit
AreFine (op ∷ ops) w = IsFine op w × AreFine ops (step op w)

step-Inv : (op : Op) (w : World) → IsFine op w → Inv w → Inv (step op w)
unfolding step reset destroy_at end_destroy keep
step-Inv makes w f v = make_shared-Inv w v
step-Inv (copies_at i) w f v = copy_construct-Inv i w f v
step-Inv (moves i) w f v = move_construct-Inv i w v
step-Inv (assigns i j) w f v = assign-Inv i j w f v
step-Inv (move_assigns i j) w f v = move_assign-Inv i j w v
step-Inv (resets i) w f v = let_go-Inv i (pointer_at i w.pointers) w refl f v
step-Inv (destroys_at i) w f v = destroy_object-Inv i (pointer_at i w.pointers) w refl v
step-Inv keeps w f v = keep_calls-Inv w.running w refl f v
step-Inv ends_destroy w f v = end_calls-Inv w.running w refl v

run-Inv : (ops : List Op) (w : World) → AreFine ops w → Inv w → Inv (run ops w)
run-Inv [] w f v = v
run-Inv (op ∷ ops) w f v = run-Inv ops (step op w) f.1 (step-Inv op w f.0 v)

start-Inv : Inv start
unfolding refs
start-Inv = record {
  all = λ o. record {
    counted = omega arith;
    small = omega arith;
    deleted = λ d. refl;
    ended = λ d. ground (arith, d);
    calm = λ d. refl;
    single = omega arith;
    times = refl;
  };
  ahead = λ o le. refl;
}

-- No object behind a pointer is deleted, and none whose `_destroy` runs; no object is deleted
-- before its `_destroy`, which is called at most once.
pub record IsSafe (w : World) : Type 0 where
  pub live : (i o : ℕ) → pointer_at i w.pointers ≡ some o → (w.objects o).is_deleted ≡ false
  pub busy : (o : ℕ) → 1 ≤ calls_on o w.running → (w.objects o).is_deleted ≡ false
  pub ended : (o : ℕ) → (w.objects o).is_deleted ≡ true → (w.objects o).destroy_count ≡ 1
  pub once : (o : ℕ) → (w.objects o).destroy_count ≤ 1

Inv-IsSafe : (w : World) → Inv w → IsSafe w
Inv-IsSafe w v = record {
  live = λ i o e. elim (Bool-cases (w.objects o).is_deleted) [
    | inr live ↦ live
    | inl d ↦ absurd (omega (arith, held w i o e, (v.all o).counted, (v.all o).deleted d))
  ];
  busy = λ o runs. elim (Bool-cases (w.objects o).is_deleted) [
    | inr live ↦ live
    | inl d ↦ absurd (omega (arith, runs, (v.all o).calm d))
  ];
  ended = λ o d. ground (arith, (v.all o).times, (v.all o).ended d);
  once = λ o. ground (arith, (v.all o).times);
}

-- Whatever a program does with shared_ptrs, shared_from_this apart, be it in a `_destroy` that runs
-- or outside: no pointer refers to a deleted object, no object is deleted while its _destroy runs or
-- before, and that is called at most once, however often destroy is. The counts stay below 2^31,
-- the last reference to an object is not released while its _destroy runs, and what runs in a
-- _destroy does not use the pointer whose reset has called it.
pub run-IsSafe : (ops : List Op) → AreFine ops start → IsSafe (run ops start)
run-IsSafe ops fine = Inv-IsSafe (run ops start) (run-Inv ops start fine start-Inv)
