-- ===== src/Events/Adding.antt =====
-- `on` puts a new handler behind those of its symbol.
use libnodecc.Prelude.{
  ℕ, ◌≡◌, refl, sym, ap, ◌∙◌, arith, true, false, List, [], ◌∷◌, ◌++◌, length-append, Option, none,
  some, Bool-cases, Option-cases, inl, inr, ==_iff,
}
use libnodecc.Prelude.{◌==◌}
use mathlib.Core.Path.{subst}
use libnodecc.Events.{Emitter, Root, root_of, set, done, allocated, push_back, on}
use libnodecc.Events.Spec.{Listing, added, added_as}
use libnodecc.Events.Chains.{
  has, last, last-none, Linked, Linked-frame, Linked-push, has-last, has_self, has-append_left,
  has-ne, NoDup-append_last, set-other, set-same, self,
}
use libnodecc.Events.Related.{
  is_nil, count-zero, unguarded, At, Rel, Sim, At-frame, set-all, elsewhere, listed-live,
  listed-home, fresh-unlisted, live-below,
}

last-append : (xs : List ℕ) (n : ℕ) → last (xs ++ n ∷ []) ≡ some n
last-append [] n = refl
last-append (x ∷ []) n = refl
last-append (x ∷ y ∷ ys) n = last-append (y ∷ ys) n

append-is_nil : (xs : List ℕ) (n : ℕ) → is_nil (xs ++ n ∷ []) ≡ false
append-is_nil [] n = refl
append-is_nil (x ∷ xs) n = refl

has-snoc :
    (x n : ℕ) (xs : List ℕ) → has x (xs ++ n ∷ []) ≡ true → (n == x) ≡ false → has x xs ≡ true
has-snoc x n [] h ne = ground (arith, h, ne)
has-snoc x n (y ∷ ys) h ne = ground (arith, h, has-snoc x n ys)

has-snoc_last : (n : ℕ) (xs : List ℕ) → has n (xs ++ n ∷ []) ≡ true
has-snoc_last n [] = has_self n []
has-snoc_last n (y ∷ ys) = ground (arith, has-snoc_last n ys)

module _ (e : Emitter) (g : List ℕ) (m : Listing) (r : Rel e g [] m) (s f : ℕ) where
  -- The emitter with the new handler, once its links and the root are set.
  abbrev pushed : Root → (ℕ → Option ℕ) → Emitter
  pushed root next' = record (allocated f e) { events = set s (some root) e.events; next = next' }

  abbrev xs : List ℕ
  xs = m.lists s

  abbrev xs' : List ℕ
  xs' = xs ++ e.fresh ∷ []

  module _ (root : Root) (next' : ℕ → Option ℕ)
      (chain : Linked (set e.fresh true e.live) next' root.head xs')
      (tail : root.tail ≡ some e.fresh)
      (keeps : (x : ℕ) → (e.fresh == x) ≡ false → has x xs ≡ false → next' x ≡ e.next x) where
    home' : ℕ → ℕ
    home' = set e.fresh s m.home

    here : At (pushed root next') home' s xs'
    unfolding home'
    here = record {
      chain = rw (self s) chain;
      tail = rw (self s) (tail ∙ sym (last-append xs e.fresh));
      present = rw (self s) (sym (append-is_nil xs e.fresh));
      nodup = NoDup-append_last xs e.fresh (r.at s).nodup (fresh-unlisted e g [] m r s);
      homes = λ x h. elim (Bool-cases (e.fresh == x)) [
        | inl eq ↦ rw eq refl
        | inr ne ↦ rw ne ((r.at s).homes x (has-snoc x e.fresh xs h ne))
      ];
      short = omega (arith, length-append xs (e.fresh ∷ []), (r.at s).short);
    }

    there : (t : ℕ) → (s == t) ≡ false → At (pushed root next') home' t (m.lists t)
    unfolding home'
    there t ne =
        At-frame e (pushed root next') m.home home' t (m.lists t)
          (set-other s t (some root) e.events ne)
          (λ x h.
            let old = live-below e g [] m r x (listed-live e g [] m r t x h) in
            let not_here = elsewhere e g [] m r s t x ne h in
            (
              set-other e.fresh x true e.live old,
              keeps x old not_here,
              set-other e.fresh x s m.home old,
            ))
          (omega arith) (r.at t)

    unlisted-before :
        (x : ℕ)
        → (e.fresh == x) ≡ false
        → has x (set s xs' m.lists (home' x)) ≡ false
        → has x (m.lists (m.home x)) ≡ false
    unfolding home'
    unlisted-before x ne out =
        let out' : has x (set s xs' m.lists (m.home x)) ≡ false =
          sym (ap (λ z. has x (set s xs' m.lists z)) (set-other e.fresh x s m.home ne)) ∙ out in
        elim (Bool-cases (s == m.home x)) [
          | inr d ↦ sym (ap (has x) (set-other s (m.home x) xs' m.lists d)) ∙ out'
          | inl d ↦
              let same : s ≡ m.home x = (==_iff s (m.home x)).0 d in
              let long : has x xs' ≡ false =
                sym (ap (has x) (set-same s xs' m.lists))
                ∙ (ap (λ z. has x (set s xs' m.lists z)) same ∙ out') in
              ap (λ z. has x (m.lists z)) (sym same) ∙ has-append_left x xs (e.fresh ∷ []) long
        ]

    new-listed : (x : ℕ) → (e.fresh == x) ≡ true → has x (set s xs' m.lists (home' x)) ≡ true
    unfolding home'
    new-listed x eq =
        let place : set e.fresh s m.home x ≡ s = rw eq refl in
        ap (λ z. has x (set s xs' m.lists z)) place
        ∙ (ap (has x) (set-same s xs' m.lists)
            ∙ ap (λ z. has z xs') (sym ((==_iff e.fresh x).0 eq))
            ∙ has-snoc_last e.fresh xs)

    loose' :
        (x : ℕ)
        → set e.fresh true e.live x ≡ true
        → has x (set s xs' m.lists (home' x)) ≡ false
        → next' x ≡ none
    loose' x l out = elim (Bool-cases (e.fresh == x)) [
      | inl eq ↦ let listed = new-listed x eq in cc
      | inr ne ↦
          let before = unlisted-before x ne out in
          let alive : e.live x ≡ true = sym (set-other e.fresh x true e.live ne) ∙ l in
          let not_here : has x xs ≡ false = elim (Bool-cases (has x xs)) [
            | inr d ↦ d
            | inl d ↦ let listed = listed-home e g [] m r s x d in cc
          ] in
          keeps x ne not_here ∙ r.loose x alive before refl
    ]

    pushed-Rel : Rel (pushed root next') g [] (added_as e.fresh s f m)
    unfolding home'
    pushed-Rel = record {
      at = set-all (At (pushed root next') home') s xs' m.lists here there;
      loose = λ x l out p. loose' x l out;
      counted = λ x. elim (Bool-cases (e.fresh == x)) [
        | inr ne ↦ rw ne (r.counted x)
        | inl eq ↦
            rw eq (sym (count-zero x g (unguarded e g [] m r x (r.unborn x (ground (arith, eq))))))
      ];
      guarded = λ x h. let l = r.guarded x h in rw (live-below e g [] m r x l) l;
      unborn = λ x le.
          let ne : (e.fresh == x) ≡ false = ground (arith, le) in
          rw ne (r.unborn x (omega (arith, le)));
      same_func = ap (set e.fresh f) r.same_func;
      same_fresh = refl;
      same_log = r.same_log;
    }

  unlinked : ℕ → Option ℕ
  unlinked = set e.fresh none e.next

  -- The symbol has no handlers.
  first-Rel :
      (root_of (e.events s)).tail ≡ none
      → Rel
          (pushed (record { head = some e.fresh; tail = some e.fresh }) unlinked)
          g
          []
          (added_as e.fresh s f m)
  unfolding unlinked
  first-Rel none_yet =
      let nil : xs ≡ [] = last-none xs (sym (r.at s).tail ∙ none_yet) in
      pushed-Rel (record { head = some e.fresh; tail = some e.fresh }) unlinked
        (subst (λ l. Linked (set e.fresh true e.live) unlinked (some e.fresh) (l ++ e.fresh ∷ []))
          (sym nil) (refl, set-same e.fresh true e.live, set-same e.fresh none e.next))
        refl (λ x ne out. set-other e.fresh x none e.next ne)

  module _ (t : ℕ) (behind : (root_of (e.events s)).tail ≡ some t) where
    is_last : last xs ≡ some t
    is_last = sym (r.at s).tail ∙ behind

    t-live : e.live t ≡ true
    t-live = listed-live e g [] m r s t (has-last t xs is_last)

    -- It has one.
    behind-Rel :
        Rel
          (pushed
            (record (root_of (e.events s)) { tail = some e.fresh })
            (set t (some e.fresh) unlinked))
          g
          []
          (added_as e.fresh s f m)
    unfolding unlinked
    behind-Rel =
        pushed-Rel _ _
          (Linked-push (set e.fresh true e.live) unlinked _ xs t e.fresh is_last (r.at s).nodup
            (fresh-unlisted e g [] m r s) (set-same e.fresh true e.live)
            (set-same e.fresh none e.next)
            (Linked-frame e.live (set e.fresh true e.live) e.next unlinked _ xs
              (λ x h.
                let old = live-below e g [] m r x (listed-live e g [] m r s x h) in
                (set-other e.fresh x true e.live old, set-other e.fresh x none e.next old))
              (r.at s).chain))
          refl
          (λ x ne out.
            set-other t x (some e.fresh) unlinked (has-ne t x xs (has-last t xs is_last) out)
            ∙ set-other e.fresh x none e.next ne)

  -- A handler is added behind those of its symbol, in an emitter that holds the handlers.
  pub on-Rel : Sim g (on s f e) (done (added s f m))
  unfolding on push_back unlinked
  on-Rel =
      subst (λ n. Sim g (on s f e) (done (added_as n s f m))) r.same_fresh
        (elim (Option-cases (root_of (e.events s)).tail) [
          | inl none_yet ↦ rw (push_back, none_yet) (first-Rel none_yet)
          | inr (t, behind) ↦
              let old = live-below e g [] m r t (t-live t behind) in
              rw (push_back, behind, old, t-live t behind) (behind-Rel t behind)
        ])
