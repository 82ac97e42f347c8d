-- ===== src/Events/Taking.antt =====
-- A list of handlers that is changed, and a handler that is disposed of.
use libnodecc.Prelude.{
  ℕ, ◌≤◌, ◌≡◌, refl, sym, ap, ◌∙◌, arith, true, false, List, [], ◌∷◌, length, Option, none,
  Bool-cases, inl, inr, ==_iff,
}
use libnodecc.Prelude.{◌==◌}
use libnodecc.Events.{Emitter, Root, root_of, is_none, set, dispose}
use libnodecc.Events.Spec.{Listing}
use libnodecc.Events.Chains.{has, last, NoDup, Linked, set-other, set-same}
use libnodecc.Events.Related.{
  is_nil, count, At, Rel, At-frame, set-all, elsewhere, has-count, unlisted-ne,
}

pub swap_eq : (x y : ℕ) → (x == y) ≡ false → (y == x) ≡ false
swap_eq x y h = ground (arith, h)

head-first : (x c : ℕ) (ps : List ℕ) → has x ps ≡ false → (c == x) ≡ false → has x (c ∷ ps) ≡ false
head-first x c ps h ne = ground (arith, h, ne)

module _ (e : Emitter) (g : List ℕ) (c : ℕ) (ps : List ℕ) (m : Listing) (r : Rel e g (c ∷ ps) m)
    (out : has c (m.lists (m.home c)) ≡ false) where
  listed-ne : (s x : ℕ) → has x (m.lists s) ≡ true → (c == x) ≡ false
  listed-ne s x h = swap_eq x c (unlisted-ne e g (c ∷ ps) m r s x c h out)

  guarded-ne : e.ref_count c ≡ 0 → (x : ℕ) → has x g ≡ true → (c == x) ≡ false
  guarded-ne zero_refs x h = elim (Bool-cases (c == x)) [
    | inr ne ↦ ne
    | inl eq ↦
        let same : count c g ≡ count x g = ap (λ z. count z g) ((==_iff c x).0 eq) in
        ground (arith, same, has-count x g h, r.counted c, zero_refs)
  ]

  freed-Rel : e.ref_count c ≡ 0 → Rel (record e { live = set c false e.live }) g ps m
  freed-Rel zero_refs = record {
    at = λ s.
        At-frame e _ m.home m.home s (m.lists s) refl
          (λ x h. (set-other c x false e.live (listed-ne s x h), refl, refl)) (omega arith)
          (r.at s);
    loose = λ x l o p. elim (Bool-cases (c == x)) [
      | inl eq ↦ let freed : set c false e.live x ≡ false = rw eq refl in cc
      | inr ne ↦ r.loose x (sym (set-other c x false e.live ne) ∙ l) o (head-first x c ps p ne)
    ];
    counted = r.counted;
    guarded = λ x h. set-other c x false e.live (guarded-ne zero_refs x h) ∙ r.guarded x h;
    unborn =
        λ x le. elim (Bool-cases (c == x)) [ inl eq ↦ rw eq refl | inr ne ↦ rw ne (r.unborn x le) ];
    same_func = r.same_func;
    same_fresh = r.same_fresh;
    same_log = r.same_log;
  }

  unlinked-Rel : Rel (record e { next = set c none e.next }) g ps m
  unlinked-Rel = record {
    at = λ s.
        At-frame e _ m.home m.home s (m.lists s) refl
          (λ x h. (refl, set-other c x none e.next (listed-ne s x h), refl)) (omega arith) (r.at s);
    loose = λ x l o p. elim (Bool-cases (c == x)) [
      | inl eq ↦ rw eq refl
      | inr ne ↦ rw ne (r.loose x l o (head-first x c ps p ne))
    ];
    counted = r.counted;
    guarded = r.guarded;
    unborn = r.unborn;
    same_func = r.same_func;
    same_fresh = r.same_fresh;
    same_log = r.same_log;
  }

  pub dispose-Rel : Rel (dispose c e) g ps m
  unfolding dispose
  dispose-Rel = elim (Bool-cases (e.ref_count c == 0)) [
    | inl eq ↦ rw (dispose, eq) (freed-Rel ((==_iff (e.ref_count c) 0).0 eq))
    | inr ne ↦ rw (dispose, ne) unlinked-Rel
  ]

-- The list of a symbol is changed, with its root and its links.
module _ (e : Emitter) (g : List ℕ) (m : Listing) (r : Rel e g [] m) (s : ℕ)
    (events' : ℕ → Option Root) (next' : ℕ → Option ℕ) (ys ps : List ℕ) where
  unlisted :
      (x : ℕ)
      → has x (m.lists s) ≡ false
      → has x (set s ys m.lists (m.home x)) ≡ false
      → has x (m.lists (m.home x)) ≡ false
  unlisted x h o = elim (Bool-cases (s == m.home x)) [
    | inl eq ↦ ap (λ z. has x (m.lists z)) (sym ((==_iff s (m.home x)).0 eq)) ∙ h
    | inr ne ↦ sym (ap (has x) (set-other s (m.home x) ys m.lists ne)) ∙ o
  ]

  pub relisted-Rel :
      Linked e.live next' (root_of (events' s)).head ys
      → (root_of (events' s)).tail ≡ last ys
      → is_none (events' s) ≡ is_nil ys
      → NoDup ys
      → length ys ≤ length (m.lists s)
      → ((x : ℕ) → has x ys ≡ true → has x (m.lists s) ≡ true)
      → ((x : ℕ) → has x (m.lists s) ≡ true → has x ps ≡ false → has x ys ≡ true)
      → ((x : ℕ) → has x (m.lists s) ≡ false → next' x ≡ e.next x)
      → ((t : ℕ) → (s == t) ≡ false → events' t ≡ e.events t)
      → Rel
          (record e { events = events'; next = next' })
          g
          ps
          (record m { lists = set s ys m.lists })
  relisted-Rel chain tail present nodup shorter sub split keeps others = record {
    at =
        set-all (At (record e { events = events'; next = next' }) m.home) s ys m.lists
          (record {
            chain = chain;
            tail = tail;
            present = present;
            nodup = nodup;
            homes = λ x h. (r.at s).homes x (sub x h);
            short = omega (arith, shorter, (r.at s).short);
          })
          (λ t ne.
            At-frame e _ m.home m.home t (m.lists t) (others t ne)
              (λ x h. (refl, keeps x (elsewhere e g [] m r s t x ne h), refl)) (omega arith)
              (r.at t));
    loose = λ x l o p. elim (Bool-cases (has x (m.lists s))) [
      | inl h ↦
          let hm : s ≡ m.home x = sym ((r.at s).homes x h) in
          let o' : has x ys ≡ false =
            sym (ap (has x) (set-same s ys m.lists))
            ∙ (ap (λ z. has x (set s ys m.lists z)) hm ∙ o) in
          let kept = split x h p in cc
      | inr h ↦ keeps x h ∙ r.loose x l (unlisted x h o) refl
    ];
    counted = r.counted;
    guarded = r.guarded;
    unborn = r.unborn;
    same_func = r.same_func;
    same_fresh = r.same_fresh;
    same_log = r.same_log;
  }
