-- ===== src/Events/Calls.antt =====
-- What is called, and what is counted.
use libnodecc.Prelude.{
  ℕ, zero, suc, ◌+◌, ◌<◌, ◌≡◌, refl, sym, ap, ◌∙◌, arith, true, false, List, [], ◌∷◌, ◌++◌,
  append_assoc, length, some, Option-cases, inl, inr,
}
use libnodecc.Prelude.{◌==◌}
use mathlib.Core.Path.{subst}
use libnodecc.Events.{
  Emitter, emitter, root_of, is_none, Run, done, fault, spent, has_listener, count_loop,
  listener_count, delete_flag, Op, emits, each, step,
}
use libnodecc.Events.Spec.{
  Listing, no_handlers, first, successor, logged, call_from, spec_emit, spec_step,
}
use libnodecc.Events.Chains.{has, has-append_left, NoDup, Linked-first, self}
use libnodecc.Events.Middles.{is_nil-first, has-middle, NoDup-delete}
use libnodecc.Events.Related.{Rel, Sim}
use libnodecc.Events.Agreement.{run-Sim}
use libnodecc.Events.Refined.{step-Rel}

Sim-done :
    (g : List ℕ) (e : Emitter) (q : Run Listing)
    → Sim g (done e) q
    → (m : Listing) × (q ≡ done m) × Rel e g [] m
Sim-done g e (done m) h = (m, refl, h)
Sim-done g e fault h = elim h [ ]
Sim-done g e spent h = elim h [ ]

done-Sim :
    (g : List ℕ) (r : Run Emitter) (m : Listing)
    → Sim g r (done m)
    → (e : Emitter) × (r ≡ done e) × Rel e g [] m
done-Sim g (done e) m h = (e, refl, h)
done-Sim g spent m h = elim h [ ]
done-Sim g fault m h = elim h [ ]

count_loop-spent : (fuel c count : ℕ) → count_loop fuel (some c) count ≡ spent
unfolding count_loop
count_loop-spent zero c count = refl
count_loop-spent (suc fuel) c count = count_loop-spent fuel c (count + 1)

Rel-count :
    (e : Emitter) (m : Listing) (s fuel : ℕ)
    → Rel e [] [] m
    → has_listener s e ≡ true
    → listener_count fuel s e ≡ spent
unfolding has_listener listener_count
Rel-count e m s fuel r h = elim (Option-cases (e.events s)) [
  | inl no_root ↦ let without = ap is_none no_root in ground (arith, h, without)
  | inr (root, there) ↦
      let top = Linked-first e.live e.next _ (m.lists s) (r.at s).chain in
      elim (Option-cases (first (m.lists s))) [
        | inl nothing ↦
            let root_none = (r.at s).present ∙ (is_nil-first (m.lists s) ∙ ap is_none nothing) in
            let root_some = ap is_none there in cc
        | inr (x, one) ↦
            let head_x : root.head ≡ some x =
              sym (ap (λ q. (root_of q).head) there) ∙ (top ∙ one) in
            rw (there, listener_count, head_x) (count_loop-spent fuel x 0)
      ]
]

module _ (programs : ℕ → List Op) (rounds : ℕ) where
  -- Whatever a program has done with an emitter: listener_count comes to no end, in any number of
  -- rounds, for a symbol that has a listener.
  pub listener_count-spent :
      (depth : ℕ) (ops : List Op) (e : Emitter) (s fuel : ℕ)
      → depth < delete_flag
      → each (step programs rounds depth) ops emitter ≡ done e
      → has_listener s e ≡ true
      → listener_count fuel s e ≡ spent
  listener_count-spent depth ops e s fuel bound run h =
      let same =
        subst (λ q. Sim [] q (each (spec_step programs rounds depth) ops no_handlers)) run
          (run-Sim programs rounds depth ops bound) in
      let related = Sim-done [] e _ same in Rel-count e related.0 s fuel related.2 h

-- The handlers of a list, the last one first, before those that were called already.
abbrev pub rev_onto : List ℕ → List ℕ → List ℕ
rev_onto [] ys = ys
rev_onto (x ∷ xs) ys = rev_onto xs (x ∷ ys)

successor-middle :
    (c : ℕ) (pre rest : List ℕ) → has c pre ≡ false → successor c (pre ++ c ∷ rest) ≡ first rest
successor-middle c [] rest h = rw (self c) refl
successor-middle c (y ∷ ys) rest h =
    let ne : (y == c) ≡ false = ground (arith, h) in
    rw ne (successor-middle c ys rest (ground (arith, h)))

-- Callbacks of the list that do nothing.
call_from-all :
    (call : ℕ → Listing → Run Listing) (s k : ℕ) (pre rest : List ℕ) (m : Listing)
    → ((x : ℕ) (m' : Listing) → has x (m.lists s) ≡ true → call (m.func x) m' ≡ done m')
    → length rest < k
    → m.lists s ≡ pre ++ rest
    → ((x : ℕ) → has x (m.lists s) ≡ true → m.home x ≡ s)
    → NoDup (pre ++ rest)
    → call_from call k (first rest) m ≡ done (record m { log = rev_onto rest m.log })
unfolding call_from
call_from-all call s zero pre rest m idle le eq homes d = absurd (omega arith)
call_from-all call s (suc k) pre [] m idle le eq homes d = refl
call_from-all call s (suc k) pre (c ∷ rest) m idle le eq homes d =
    let listed : has c (m.lists s) ≡ true = ap (has c) eq ∙ has-middle c pre rest in
    let out = has-append_left c pre rest (NoDup-delete c pre rest d).1 in
    let behind : successor c (m.lists (m.home c)) ≡ first rest =
      ap (λ z. successor c (m.lists z)) (homes c listed)
      ∙ (ap (successor c) eq ∙ successor-middle c pre rest out) in
    rw (idle c (logged c m) listed, behind)
      (call_from-all call s k (pre ++ c ∷ []) rest (logged c m) idle (omega (arith, le))
        (eq ∙ sym (append_assoc pre (c ∷ []) rest)) homes
        (subst NoDup (sym (append_assoc pre (c ∷ []) rest)) d))

spec_emit-all :
    (call : ℕ → Listing → Run Listing) (s k : ℕ) (e : Emitter) (m : Listing)
    → Rel e [] [] m
    → ((x : ℕ) (m' : Listing) → has x (m.lists s) ≡ true → call (m.func x) m' ≡ done m')
    → length (m.lists s) < k
    → spec_emit call k s m ≡ done (record m { log = rev_onto (m.lists s) m.log })
unfolding spec_emit
spec_emit-all call s k e m r idle le = go (m.lists s) refl
  where
    go :
        (xs : List ℕ)
        → m.lists s ≡ xs
        → spec_emit call k s m ≡ done (record m { log = rev_onto (m.lists s) m.log })
    go [] eq = rw (eq, spec_emit) refl
    go (x ∷ xs) eq =
        rw (spec_emit, eq)
          (call_from-all call s k [] (x ∷ xs) m idle (omega (arith, ap length eq, le)) eq
            (r.at s).homes (subst NoDup eq (r.at s).nodup))

module _ (programs : ℕ → List Op) (rounds : ℕ) where
  -- After anything that a program has done with an emitter: if the callbacks of the handlers of a
  -- symbol leave the emitter alone, and the loop has more rounds than these handlers are, an emit
  -- calls all of them, each once, in the order in which they stand in the specification.
  pub emit-calls_all :
      (depth : ℕ) (ops : List Op) (e : Emitter) (m : Listing) (s : ℕ)
      → suc depth < delete_flag
      → each (step programs rounds (suc depth)) ops emitter ≡ done e
      → each (spec_step programs rounds (suc depth)) ops no_handlers ≡ done m
      → ((x : ℕ) → has x (m.lists s) ≡ true → programs (m.func x) ≡ [])
      → length (m.lists s) < rounds
      → (e' : Emitter) × (step programs rounds (suc depth) (emits s) e ≡ done e')
        × (e'.log ≡ rev_onto (m.lists s) e.log)
  unfolding spec_step
  emit-calls_all depth ops e m s bound run spec_run idle le =
      let spec_call = λ (f : ℕ). each (spec_step programs rounds depth) (programs f) in
      let same : Sim [] (each (step programs rounds (suc depth)) ops emitter) (done m) =
        subst (Sim [] (each (step programs rounds (suc depth)) ops emitter)) spec_run
          (run-Sim programs rounds (suc depth) ops bound) in
      let r : Rel e [] [] m = subst (λ q. Sim [] q (done m)) run same in
      let all =
        spec_emit-all spec_call s rounds e m r
          (λ x m' h. ap (λ t. each (spec_step programs rounds depth) t m') (idle x h)) le in
      let emitted = done-Sim [] _ _ (
        subst (Sim [] (step programs rounds (suc depth) (emits s) e)) all
          (step-Rel programs rounds (suc depth) [] (emits s) e m (omega (arith, bound)) r)) in
      (emitted.0, emitted.1, emitted.2.same_log ∙ ap (rev_onto (m.lists s)) (sym r.same_log))
