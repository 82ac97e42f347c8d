-- ===== src/Events/Unlinking.antt =====
-- `off` takes one handler out of the list of its symbol.
use libnodecc.Prelude.{
  ℕ, zero, suc, ◌+◌, ◌≤◌, ◌≡◌, refl, sym, ap, ◌∙◌, arith, true, false, List, [], ◌∷◌, ◌++◌,
  append_assoc, append-nil, length, length-append, Option, none, some, Bool-cases, Option-cases,
  inl, inr, ==_iff,
}
use libnodecc.Prelude.{◌==◌, if◌then◌else◌}
use mathlib.Core.Path.{subst, fun_ext}
use libnodecc.Events.{
  Emitter, Root, root_of, is_none, set, done, and_then, dispose, drop_empty, unlink, erase,
  off_loop, off,
}
use libnodecc.Events.Spec.{Listing, taken, remove}
use libnodecc.Events.Chains.{
  has, has-ne, has-last, has-prefix, has-append, last, last-none, NoDup, Linked, Linked-first,
  Linked-unlink, set-other, set-same, self,
}
use libnodecc.Events.Middles.{
  is_nil-first, nil_of, none_of, has-insert, has-delete, has-middle, NoDup-delete, remove-middle,
  remove-absent, last-append_cons, last-delete,
}
use libnodecc.Events.Related.{is_nil, Rel, Sim, listed-live}
use libnodecc.Events.Taking.{dispose-Rel, relisted-Rel}

dispose-drop_empty :
    (s c : ℕ) (e : Emitter) → drop_empty s (dispose c e) ≡ dispose c (drop_empty s e)
unfolding dispose drop_empty
dispose-drop_empty s c e = elim (Bool-cases (e.ref_count c == 0)) [
  | inl a ↦ elim (Bool-cases (is_none (root_of (e.events s)).head)) [
    | inl b ↦ rw (dispose, drop_empty, a, b) (rw a refl)
    | inr b ↦ rw (dispose, drop_empty, a, b) (rw a refl)
  ]
  | inr a ↦ elim (Bool-cases (is_none (root_of (e.events s)).head)) [
    | inl b ↦ rw (dispose, drop_empty, a, b) (rw a refl)
    | inr b ↦ rw (dispose, drop_empty, a, b) (rw a refl)
  ]
]

unchanged : (s : ℕ) (f : ℕ → List ℕ) → set s (f s) f ≡ f
unchanged s f = fun_ext (λ t. elim (Bool-cases (s == t)) [
  | inl eq ↦ rw eq (ap f ((==_iff s t).0 eq))
  | inr ne ↦ rw ne refl
])

-- A handler that is not in the list is taken from it.
absent-Rel :
    (e : Emitter) (g : List ℕ) (m : Listing) (s iter : ℕ)
    → Rel e g [] m
    → has iter (m.lists s) ≡ false
    → Rel e g [] (taken s iter m)
absent-Rel e g m s iter r out =
    subst (λ l. Rel e g [] (record m { lists = l }))
      (sym (ap (λ l. set s l m.lists) (remove-absent iter (m.lists s) out) ∙ unchanged s m.lists)) r

module _ (e : Emitter) (g : List ℕ) (m : Listing) (r : Rel e g [] m) (s c : ℕ) (root : Root)
    (next' : ℕ → Option ℕ) (ys : List ℕ) where
  abbrev relinked : Emitter
  relinked = record e { events = set s (some root) e.events; next = next' }

  -- The new root and links of a list without `c`; a root without handlers goes.
  relinked-Rel :
      Linked e.live next' root.head ys
      → root.tail ≡ last ys
      → NoDup ys
      → length ys ≤ length (m.lists s)
      → ((x : ℕ) → has x ys ≡ true → has x (m.lists s) ≡ true)
      → ((x : ℕ) → has x (m.lists s) ≡ true → has x (c ∷ []) ≡ false → has x ys ≡ true)
      → ((x : ℕ) → has x (m.lists s) ≡ false → next' x ≡ e.next x)
      → Rel (drop_empty s relinked) g (c ∷ []) (record m { lists = set s ys m.lists })
  unfolding drop_empty
  relinked-Rel chain tail nodup shorter sub split keeps = elim (Bool-cases (is_none root.head)) [
    | inl z ↦
        rw (self s, drop_empty, z)
          (let gone : is_nil ys ≡ true =
              is_nil-first ys ∙ (ap is_none (sym (Linked-first e.live next' _ ys chain)) ∙ z) in
            let at_s = set-same s none (set s (some root) e.events) in
            relisted-Rel e g m r s (set s none (set s (some root) e.events)) next' ys (c ∷ [])
              (subst (λ q. Linked e.live next' (root_of q).head ys) (sym at_s)
                (subst (λ q. Linked e.live next' q ys) (none_of root.head z) chain))
              (ap (λ q. (root_of q).tail) at_s ∙ sym (ap last (nil_of ys gone)))
              (ap is_none at_s ∙ sym gone) nodup shorter sub split keeps
              (λ t ne.
                set-other s t none (set s (some root) e.events) ne
                ∙ set-other s t (some root) e.events ne))
    | inr z ↦
        rw (self s, drop_empty, z)
          (let at_s = set-same s (some root) e.events in
            relisted-Rel e g m r s (set s (some root) e.events) next' ys (c ∷ [])
              (subst (λ q. Linked e.live next' (root_of q).head ys) (sym at_s) chain)
              (ap (λ q. (root_of q).tail) at_s ∙ tail)
              (ap is_none at_s
                ∙ sym (
                    is_nil-first ys
                    ∙ (ap is_none (sym (Linked-first e.live next' _ ys chain)) ∙ z)))
              nodup shorter sub split keeps (λ t ne. set-other s t (some root) e.events ne))
  ]

module _ (e : Emitter) (g : List ℕ) (m : Listing) (r : Rel e g [] m) (s : ℕ) (root : Root)
    (there : e.events s ≡ some root) where
  root_chain : Linked e.live e.next root.head (m.lists s)
  root_chain = subst (λ q. Linked e.live e.next (root_of q).head (m.lists s)) there (r.at s).chain

  root_tail : root.tail ≡ last (m.lists s)
  root_tail = subst (λ q. (root_of q).tail ≡ last (m.lists s)) there (r.at s).tail

  module _ (c : ℕ) (pre post : List ℕ) (eq : m.lists s ≡ pre ++ c ∷ post) where
    -- The list without its middle.
    abbrev shorter_by : Listing
    shorter_by = record m { lists = set s (pre ++ post) m.lists }

    whole_chain : Linked e.live e.next root.head (pre ++ c ∷ post)
    whole_chain = subst (Linked e.live e.next root.head) eq root_chain

    whole_nodup : NoDup (pre ++ c ∷ post)
    whole_nodup = subst NoDup eq (r.at s).nodup

    c-listed : has c (m.lists s) ≡ true
    c-listed = ap (has c) eq ∙ has-middle c pre post

    unlinked-Rel :
        (root' : Root) (next' : ℕ → Option ℕ)
        → Linked e.live next' root'.head (pre ++ post)
        → root'.tail ≡ last (pre ++ post)
        → ((x : ℕ) → has x (m.lists s) ≡ false → next' x ≡ e.next x)
        → Rel
            (drop_empty s
              (dispose c (record e { events = set s (some root') e.events; next = next' })))
            g
            []
            shorter_by
    unlinked-Rel root' next' chain tail keeps =
        subst (λ q. Rel q g [] shorter_by) (sym (dispose-drop_empty s c _))
          (dispose-Rel _ g c [] shorter_by
            (relinked-Rel e g m r s c root' next' (pre ++ post) chain tail
              (NoDup-delete c pre post whole_nodup).0
              (omega (arith, ap length eq, length-append pre (c ∷ post), length-append pre post))
              (λ x h. ap (has x) eq ∙ has-insert x c pre post h)
              (λ x h ne. has-delete x c pre post (sym (ap (has x) eq) ∙ h) ne) keeps)
            (ap (has c) (
                ap (set s (pre ++ post) m.lists) ((r.at s).homes c c-listed)
                ∙ set-same s (pre ++ post) m.lists)
              ∙ (NoDup-delete c pre post whole_nodup).1))

    c-live : e.live c ≡ true
    c-live = listed-live e g [] m r s c c-listed

    -- What is behind the handler is the rest of the list.
    chain_from :
        (p : Option ℕ) (xs : List ℕ)
        → Linked e.live e.next p (xs ++ c ∷ post)
        → Linked e.live e.next (e.next c) post
    chain_from p [] h = h.2
    chain_from p (x ∷ xs) h = chain_from (e.next x) xs h.2

    new_tail : (if is_none (e.next c) then last pre else root.tail) ≡ last (pre ++ post)
    new_tail =
        rw (Linked-first e.live e.next _ post (chain_from root.head pre whole_chain), root_tail, eq)
          (last-delete c pre post)

  -- The handler `c` is erased, whatever stands before it.
  erase-Rel :
      (c : ℕ) (pre post : List ℕ) (eq : m.lists s ≡ pre ++ c ∷ post)
      → Sim g
          (and_then (erase s c (last pre) root e) (λ e'. done (drop_empty s e')))
          (done (shorter_by c pre post eq))
  unfolding erase unlink
  erase-Rel c [] post eq = rw (c-live c [] post eq) (
      unlinked-Rel c [] post eq _ e.next (whole_chain c [] post eq).2 (new_tail c [] post eq)
        (λ x h. refl))
  erase-Rel c (z ∷ zs) post eq = elim (Option-cases (last (z ∷ zs))) [
    | inl nothing ↦ let empty_pre = last-none (z ∷ zs) nothing in cc
    | inr (q, before) ↦
        let q_in : has q (m.lists s) ≡ true =
          ap (has q) eq ∙ has-prefix q (z ∷ zs) (c ∷ post) (has-last q (z ∷ zs) before) in
        rw (before, erase, c-live c (z ∷ zs) post eq, unlink, listed-live e g [] m r s q q_in)
          (unlinked-Rel c (z ∷ zs) post eq _ (set q (e.next c) e.next)
            (Linked-unlink e.live e.next _ (z ∷ zs) post q c before (whole_nodup c (z ∷ zs) post eq)
              (whole_chain c (z ∷ zs) post eq))
            (ap (λ t. if is_none (e.next c) then t else root.tail) (sym before)
              ∙ new_tail c (z ∷ zs) post eq)
            (λ x h. set-other q x (e.next c) e.next (has-ne q x (m.lists s) q_in h)))
  ]

  -- The loop finds the handler behind those that it has passed.
  off_loop-Rel :
      (k iter : ℕ) (pre rest : List ℕ) (curr : Option ℕ)
      → m.lists s ≡ pre ++ rest
      → has iter pre ≡ false
      → Linked e.live e.next curr rest
      → suc (length rest) ≤ k
      → Sim g (off_loop k s iter root (last pre) curr e) (done (taken s iter m))
  unfolding off_loop
  off_loop-Rel zero iter pre rest curr eq out chain le = absurd (omega (arith, le))
  off_loop-Rel (suc k) iter pre [] curr eq out chain le =
      rw (chain, off_loop) (absent-Rel e g m s iter r (ap (has iter) (eq ∙ append-nil pre) ∙ out))
  off_loop-Rel (suc k) iter pre (c ∷ post) curr eq out chain le = elim (Bool-cases (c == iter)) [
    | inl found ↦
        rw (chain.0, off_loop, found)
          (let same : c ≡ iter = (==_iff c iter).0 found in
            let rest : remove iter (m.lists s) ≡ pre ++ post =
              ap (remove iter) eq
              ∙ (ap (λ z. remove z (pre ++ c ∷ post)) (sym same)
                  ∙ remove-middle c pre post (ap (λ z. has z pre) same ∙ out)) in
            subst
              (λ l.
                Sim g (and_then (erase s c (last pre) root e) (λ e'. done (drop_empty s e')))
                  (done (record m { lists = set s l m.lists })))
              (sym rest) (erase-Rel c pre post eq))
    | inr ne ↦
        rw (chain.0, off_loop, ne, chain.1)
          (subst (λ q. Sim g (off_loop k s iter root q (e.next c) e) (done (taken s iter m)))
            (last-append_cons pre [] c)
            (off_loop-Rel k iter (pre ++ c ∷ []) post (e.next c)
              (eq ∙ sym (append_assoc pre (c ∷ []) post))
              (has-append iter pre (c ∷ []) out ∙ (rw ne refl)) chain.2 (omega (arith, le))))
  ]

-- `off` takes the handler from the list of the symbol, if it is there.
pub off-Rel :
    (e : Emitter) (g : List ℕ) (m : Listing) (r : Rel e g [] m) (s iter : ℕ)
    → Sim g (off s iter e) (done (taken s iter m))
unfolding off
off-Rel e g m r s iter = elim (Option-cases (e.events s)) [
  | inl no_root ↦
      rw (no_root, off)
        (absent-Rel e g m s iter r
          (ap (has iter) (nil_of (m.lists s) (sym (r.at s).present ∙ ap is_none no_root))))
  | inr (root, there) ↦
      rw (there, off)
        (off_loop-Rel e g m r s root there (e.fresh + 1) iter [] (m.lists s) root.head refl refl
          (root_chain e g m r s root there) (omega (arith, (r.at s).short)))
]
