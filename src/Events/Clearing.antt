-- ===== src/Events/Clearing.antt =====
-- `removeAllListeners` of a symbol takes all of its handlers.
use libnodecc.Prelude.{
  ℕ, zero, suc, ◌+◌, ◌≤◌, ◌≡◌, refl, sym, ap, ◌∙◌, arith, true, false, List, [], ◌∷◌, length,
  Option, none, Bool-cases, Option-cases, inl, inr,
}
use libnodecc.Prelude.{◌==◌}
use mathlib.Core.Path.{subst}
use libnodecc.Events.{
  Emitter, root_of, is_none, set, done, dispose, clear_loop, remove_all_listeners,
}
use libnodecc.Events.Spec.{Listing, removed}
use libnodecc.Events.Chains.{
  has, has-ne, has_self, NoDup, Linked, Linked-frame, set-other, set-same,
}
use libnodecc.Events.Related.{is_nil, Rel, Sim}
use libnodecc.Events.Taking.{dispose-Rel, relisted-Rel, swap_eq}

pub dispose-other :
    (c x : ℕ) (e : Emitter)
    → (c == x) ≡ false
    → ((dispose c e).live x ≡ e.live x) × ((dispose c e).next x ≡ e.next x)
unfolding dispose
dispose-other c x e ne = elim (Bool-cases (e.ref_count c == 0)) [
  | inl z ↦ rw (dispose, z) (set-other c x false e.live ne, refl)
  | inr z ↦ rw (dispose, z) (refl, set-other c x none e.next ne)
]

-- The destructor disposes of all handlers, each of them once.
pub clear_loop-Rel :
    (k : ℕ) (rest : List ℕ) (p : Option ℕ) (e : Emitter) (g : List ℕ) (m : Listing)
    → suc (length rest) ≤ k
    → Rel e g rest m
    → Linked e.live e.next p rest
    → NoDup rest
    → ((x : ℕ) → has x rest ≡ true → has x (m.lists (m.home x)) ≡ false)
    → Sim g (clear_loop k p e) (done m)
unfolding clear_loop
clear_loop-Rel zero rest p e g m le r chain d out = absurd (omega (arith, le))
clear_loop-Rel (suc k) [] p e g m le r chain d out = rw (chain, clear_loop) r
clear_loop-Rel (suc k) (c ∷ rest) p e g m le r chain d out =
    rw (chain.0, clear_loop, chain.1)
      (clear_loop-Rel k rest (e.next c) (dispose c e) g m (omega (arith, le))
        (dispose-Rel e g c rest m r (out c (has_self c rest)))
        (Linked-frame e.live (dispose c e).live e.next (dispose c e).next _ rest
          (λ x h. dispose-other c x e (swap_eq x c (has-ne x c rest h d.0))) chain.2)
        d.1 (λ x h. out x (ground (arith, h))))

module _ (e : Emitter) (g : List ℕ) (m : Listing) (r : Rel e g [] m) (s : ℕ) where
  nil_of : is_none (e.events s) ≡ true → m.lists s ≡ []
  nil_of h = go (m.lists s) (sym (r.at s).present ∙ h)
    where
      go : (xs : List ℕ) → is_nil xs ≡ true → xs ≡ []
      go [] h = refl
      go (x ∷ xs) h = cc

  nothing-Rel : (e.events s ≡ none) → Rel e g [] (removed s m)
  nothing-Rel no_root =
      let nil : m.lists s ≡ [] = nil_of (ap is_none no_root) in
      relisted-Rel e g m r s e.events e.next [] [] (ap (λ q. (root_of q).head) no_root)
        (ap (λ q. (root_of q).tail) no_root) (ap is_none no_root) (record {}) (omega arith)
        (λ x h. cc) (λ x h p. sym (ap (has x) nil) ∙ h) (λ x h. refl) (λ t ne. refl)

  emptied : Emitter
  emptied = record e { events = set s none e.events }

  emptied-Rel : Rel emptied g (m.lists s) (removed s m)
  unfolding emptied
  emptied-Rel =
      relisted-Rel e g m r s (set s none e.events) e.next [] (m.lists s)
        (ap (λ q. (root_of q).head) (set-same s none e.events))
        (ap (λ q. (root_of q).tail) (set-same s none e.events))
        (ap is_none (set-same s none e.events)) (record {}) (omega arith) (λ x h. cc) (λ x h p. cc)
        (λ x h. refl) (λ t ne. set-other s t none e.events ne)

  pub remove_all-Rel : Sim g (remove_all_listeners s e) (done (removed s m))
  unfolding remove_all_listeners emptied
  remove_all-Rel = elim (Option-cases (e.events s)) [
    | inl no_root ↦ rw (no_root, remove_all_listeners) (nothing-Rel no_root)
    | inr (root, there) ↦
        rw (there, remove_all_listeners)
          (clear_loop-Rel (e.fresh + 1) (m.lists s) root.head emptied g (removed s m)
            (omega (arith, (r.at s).short)) emptied-Rel
            (subst (λ q. Linked e.live e.next (root_of q).head (m.lists s)) there (r.at s).chain)
            (r.at s).nodup
            (λ x h.
              ap (has x) (ap (set s [] m.lists) ((r.at s).homes x h) ∙ set-same s [] m.lists)))
  ]
