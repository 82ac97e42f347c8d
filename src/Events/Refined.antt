-- ===== src/Events/Refined.antt =====
-- An emitter behaves as its specification, whatever the callbacks do.
use libnodecc.Prelude.{
  ℕ, zero, suc, ◌+◌, ◌-◌, ◌≤◌, ◌<◌, ◌≡◌, refl, sym, ap, ◌∙◌, arith, true, false, List, [], ◌∷◌,
  length, Option, none, some, Bool-cases, Option-cases, inl, inr, ==_iff,
}
use libnodecc.Prelude.{◌==◌}
use mathlib.Core.Path.{subst}
use libnodecc.Events.{
  Emitter, root_of, is_none, set, Run, entered, left, delete_flag, emit_loop, emit, Op, ons, offs,
  removes, emits, each, step,
}
use libnodecc.Events.Spec.{Listing, first, successor, logged, call_from, spec_emit, spec_step}
use libnodecc.Events.Chains.{has, has_self, Linked-first, next-successor, self}
use libnodecc.Events.Related.{count, Rel, Sim, Sim-and_then, At-frame, listed-live}
use libnodecc.Events.Adding.{on-Rel}
use libnodecc.Events.Clearing.{remove_all-Rel}
use libnodecc.Events.Unlinking.{off-Rel}
use libnodecc.Events.Middles.{is_nil-first}

successor-absent : (c : ℕ) (xs : List ℕ) → has c xs ≡ false → successor c xs ≡ none
successor-absent c [] h = refl
successor-absent c (x ∷ xs) h =
    let ne : (x == c) ≡ false = ground (arith, h) in
    rw ne (successor-absent c xs (ground (arith, h)))

first-has : (d : ℕ) (ys : List ℕ) → first ys ≡ some d → has d ys ≡ true
first-has d [] h = cc
first-has d (y ∷ ys) h = ground (arith, h)

has-successor : (c d : ℕ) (xs : List ℕ) → successor c xs ≡ some d → has d xs ≡ true
has-successor c d [] h = cc
has-successor c d (x ∷ xs) h = elim (Bool-cases (x == c)) [
  | inl e ↦ ground (arith, first-has d xs (sym (rw e refl) ∙ h))
  | inr e ↦ ground (arith, has-successor c d xs (sym (rw e refl) ∙ h))
]

count-le : (x : ℕ) (xs : List ℕ) → count x xs ≤ length xs
count-le x [] = omega arith
count-le x (y ∷ ys) = ground (arith, count-le x ys)

module _ (e : Emitter) (g : List ℕ) (m : Listing) where
  -- What is behind a handler that is there.
  behind : Rel e g [] m → (c : ℕ) → e.live c ≡ true → e.next c ≡ successor c (m.lists (m.home c))
  behind r c l = elim (Bool-cases (has c (m.lists (m.home c)))) [
    | inl h ↦ next-successor e.live e.next c _ _ h (r.at (m.home c)).chain
    | inr h ↦ r.loose c l h refl ∙ sym (successor-absent c _ h)
  ]

  behind-live :
      Rel e g [] m → (c : ℕ) → e.live c ≡ true → (d : ℕ) → e.next c ≡ some d → e.live d ≡ true
  behind-live r c l d h =
      listed-live e g [] m r (m.home c) d (has-successor c d _ (sym (behind r c l) ∙ h))

  entered-Rel : Rel e g [] m → (c : ℕ) → e.live c ≡ true → Rel (entered c e) (c ∷ g) [] (logged c m)
  entered-Rel r c l = record {
    at = λ s.
        At-frame e (entered c e) m.home m.home s (m.lists s) refl (λ x h. (refl, refl, refl))
          (omega arith) (r.at s);
    loose = r.loose;
    counted = λ x. elim (Bool-cases (c == x)) [
      | inr ne ↦ rw ne (r.counted x)
      | inl eq ↦ rw eq (omega (arith, r.counted c, ap (λ z. count z g) ((==_iff c x).0 eq)))
    ];
    guarded = λ x h. elim (Bool-cases (c == x)) [
      | inr ne ↦ r.guarded x (ground (arith, h, ne))
      | inl eq ↦ ap e.live (sym ((==_iff c x).0 eq)) ∙ l
    ];
    unborn = r.unborn;
    same_func = r.same_func;
    same_fresh = r.same_fresh;
    same_log = ap (λ t. c ∷ t) r.same_log;
  }

  guards_of : (c : ℕ) → Rel e (c ∷ g) [] m → e.ref_count c ≡ suc (count c g)
  guards_of c r = r.counted c ∙ rw (self c) refl

  abbrev lowered : ℕ → Emitter
  lowered c = record e { ref_count = set c (e.ref_count c - 1) e.ref_count }

  lowered-Rel : (c : ℕ) → Rel e (c ∷ g) [] m → Rel (lowered c) g [] m
  lowered-Rel c r = record {
    at = λ s.
        At-frame e (lowered c) m.home m.home s (m.lists s) refl (λ x h. (refl, refl, refl))
          (omega arith) (r.at s);
    loose = r.loose;
    counted = λ x. elim (Bool-cases (c == x)) [
      | inr ne ↦ rw ne (r.counted x ∙ rw ne refl)
      | inl eq ↦ rw eq (omega (arith, guards_of c r, ap (λ z. count z g) ((==_iff c x).0 eq)))
    ];
    guarded = λ x h. r.guarded x (ground (arith, h));
    unborn = r.unborn;
    same_func = r.same_func;
    same_fresh = r.same_fresh;
    same_log = r.same_log;
  }

  -- No handler is marked: the count stays below the mark.
  left-eq : (c : ℕ) → length g < delete_flag → Rel e (c ∷ g) [] m → left c e ≡ lowered c
  unfolding left
  left-eq c bound r =
      let below : ((e.ref_count c - 1) == delete_flag) ≡ false =
        ground (arith, guards_of c r, count-le c g, bound) in
      rw (left, self c, below) refl

-- The loop of `emit`, over callbacks that behave as specified one level deeper.
emit_loop-Rel :
    (call : ℕ → Emitter → Run Emitter) (spec_call : ℕ → Listing → Run Listing) (g : List ℕ)
    → length g < delete_flag
    → ((c f : ℕ) (e : Emitter) (m : Listing)
        → Rel e (c ∷ g) [] m
        → Sim (c ∷ g) (call f e) (spec_call f m))
    → (k : ℕ) (p : Option ℕ) (e : Emitter) (m : Listing) → ((c : ℕ) → p ≡ some c → e.live c ≡ true)
    → Rel e g [] m
    → Sim g (emit_loop call k p e) (call_from spec_call k p m)
unfolding emit_loop call_from
emit_loop-Rel call spec_call g bound calls zero p e m l r = record {}
emit_loop-Rel call spec_call g bound calls (suc k) none e m l r = r
emit_loop-Rel call spec_call g bound calls (suc k) (some c) e m l r =
    let alive = l c refl in
    rw alive (
      Sim-and_then (c ∷ g) g (call (e.func c) (entered c e)) (spec_call (m.func c) (logged c m)) _ _
        (subst (λ fn. Sim (c ∷ g) (call (e.func c) (entered c e)) (spec_call (fn c) (logged c m)))
          r.same_func (calls c (e.func c) (entered c e) (logged c m) (entered-Rel e g m r c alive)))
        (λ e' m' r'.
          let alive' = r'.guarded c (has_self c g) in
          rw alive' (
            subst
              (λ q.
                Sim g (emit_loop call k (e'.next c) q)
                  (call_from spec_call k (successor c (m'.lists (m'.home c))) m'))
              (sym (left-eq e' g m' c bound r'))
              (subst
                (λ q.
                  Sim g (emit_loop call k (e'.next c) (lowered e' g m' c))
                    (call_from spec_call k q m'))
                (behind e' (c ∷ g) m' r' c alive')
                (emit_loop-Rel call spec_call g bound calls k (e'.next c) (lowered e' g m' c) m'
                  (λ d h. behind-live e' (c ∷ g) m' r' c alive' d h) (lowered-Rel e' g m' c r'))))))

emit-Rel :
    (call : ℕ → Emitter → Run Emitter) (spec_call : ℕ → Listing → Run Listing) (g : List ℕ)
    → length g < delete_flag
    → ((c f : ℕ) (e : Emitter) (m : Listing)
        → Rel e (c ∷ g) [] m
        → Sim (c ∷ g) (call f e) (spec_call f m))
    → (k s : ℕ) (e : Emitter) (m : Listing) → Rel e g [] m
    → Sim g (emit call k s e) (spec_emit spec_call k s m)
unfolding emit spec_emit
emit-Rel call spec_call g bound calls k s e m r =
    let top = Linked-first e.live e.next _ (m.lists s) (r.at s).chain in
    elim (Option-cases (e.events s)) [
      | inl no_root ↦
          let nothing : first (m.lists s) ≡ none = sym top ∙ ap (λ q. (root_of q).head) no_root in
          rw (no_root, emit, nothing, spec_emit) r
      | inr (root, there) ↦ elim (Option-cases (first (m.lists s))) [
        | inl nothing ↦
            let root_none = (r.at s).present ∙ (is_nil-first (m.lists s) ∙ ap is_none nothing) in
            let root_some = ap is_none there in cc
        | inr (x, one) ↦
            let head_x : root.head ≡ some x =
              sym (ap (λ q. (root_of q).head) there) ∙ (top ∙ one) in
            rw (there, emit, one, spec_emit, head_x)
              (emit_loop-Rel call spec_call g bound calls k (some x) e m
                (λ c h. listed-live e g [] m r s c (first-has c (m.lists s) (one ∙ h))) r)
      ]
    ]

pub each-Rel :
    (g : List ℕ) (do_op : Op → Emitter → Run Emitter) (do_spec : Op → Listing → Run Listing)
    → ((op : Op) (e : Emitter) (m : Listing) → Rel e g [] m → Sim g (do_op op e) (do_spec op m))
    → (ops : List Op) (e : Emitter) (m : Listing) → Rel e g [] m
    → Sim g (each do_op ops e) (each do_spec ops m)
each-Rel g do_op do_spec h [] e m r = r
each-Rel g do_op do_spec h (op ∷ ops) e m r =
    Sim-and_then g g (do_op op e) (do_spec op m) _ _ (h op e m r)
      (λ e' m' r'. each-Rel g do_op do_spec h ops e' m' r')

module _ (programs : ℕ → List Op) (rounds : ℕ) where
  pub step-Rel :
      (depth : ℕ) (g : List ℕ) (op : Op) (e : Emitter) (m : Listing)
      → length g + depth < delete_flag
      → Rel e g [] m
      → Sim g (step programs rounds depth op e) (spec_step programs rounds depth op m)
  unfolding step spec_step
  step-Rel zero g op e m bound r = record {}
  step-Rel (suc depth) g (ons s f) e m bound r = on-Rel e g m r s f
  step-Rel (suc depth) g (offs s iter) e m bound r = off-Rel e g m r s iter
  step-Rel (suc depth) g (removes s) e m bound r = remove_all-Rel e g m r s
  step-Rel (suc depth) g (emits s) e m bound r =
      emit-Rel _ _ g (omega (arith, bound))
        (λ c f e' m' r'.
          each-Rel (c ∷ g) _ _
            (λ op e'' m'' r''. step-Rel depth (c ∷ g) op e'' m'' (omega (arith, bound)) r'')
            (programs f) e' m' r')
        rounds s e m r
