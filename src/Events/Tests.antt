-- ===== src/Events/Tests.antt =====
-- Runs of emitters, and the theorems at some of them.
use libnodecc.Prelude.{
  ℕ, ◌<◌, ◌≡◌, refl, arith, true, false, List, [], ◌∷◌, none, some, Bool-cases, inl, inr,
}
use libnodecc.Prelude.{◌==◌, if◌then◌else◌}
use libnodecc.Events.{
  Emitter, emitter, Run, done, spent, has_listener, listener_count, delete_flag, push_back, on,
  unlink, dispose, erase, drop_empty, off_loop, off, clear_loop, remove_all_listeners, left,
  emit_loop, emit, Op, ons, offs, removes, emits, each, step,
}
use libnodecc.Events.Spec.{Listing, no_handlers, spec_step}
use libnodecc.Events.Agreement.{Agrees, run-Agrees}
use libnodecc.Events.Calls.{listener_count-spent, emit-calls_all, rev_onto}

-- The function 1 takes the handler 0 off the symbol 0, the function 2 emits the symbol 1, and the
-- function 3 removes all handlers of the symbol 0.
abbrev programs : ℕ → List Op
programs f =
    if f == 1
    then offs 0 0 ∷ []
    else if f == 2
    then emits 1 ∷ []
    else if f == 3
    then removes 0 ∷ []
    else []

abbrev ops : List Op
ops = ons 0 2 ∷ ons 1 4 ∷ ons 0 3 ∷ ons 0 4 ∷ emits 0 ∷ ons 0 4 ∷ []

five : 5 < delete_flag
unfolding delete_flag
five = omega arith

run-Agrees_example :
    Agrees (each (step programs 9 5) ops emitter) (each (spec_step programs 9 5) ops no_handlers)
run-Agrees_example = run-Agrees programs 9 5 ops five

abbrev log_of : Run Emitter → List ℕ
log_of (done e) = e.log
log_of r = []

-- The third handler of the symbol 0 is removed by the second one, before it is called.
calls_made : log_of (each (step programs 9 5) ops emitter) ≡ 2 ∷ 1 ∷ 0 ∷ []
unfolding step on push_back emit emit_loop remove_all_listeners clear_loop dispose left delete_flag
calls_made = refl

-- A handler that takes itself off ends the emission: the one behind it is not called.
cut_short : log_of (each (step programs 9 5) (ons 0 1 ∷ ons 0 4 ∷ emits 0 ∷ []) emitter) ≡ 0 ∷ []
unfolding step on push_back emit emit_loop off off_loop erase unlink drop_empty dispose left
    delete_flag
cut_short = refl

abbrev left_over : Run Emitter → Run (ℕ × ℕ)
left_over (done e) = done (if e.live 0 then 1 else 0, e.ref_count 0)
left_over r = spent

-- It is never freed: nothing marks it.
leaked :
    left_over (each (step programs 9 5) (ons 0 1 ∷ emits 0 ∷ removes 0 ∷ []) emitter) ≡ done (1, 0)
unfolding step on push_back emit emit_loop off off_loop erase unlink drop_empty dispose left
    delete_flag remove_all_listeners clear_loop
leaked = refl

abbrev one_handler : Emitter
one_handler = record {
  events = λ y. if 0 == y then some (record { head = some 0; tail = some 0 }) else none;
  live = λ y. if 0 == y then true else false;
  next = λ y. if 0 == y then none else none;
  ref_count = λ y. if 0 == y then 0 else 0;
  func = λ y. if 0 == y then 4 else 0;
  fresh = 1;
  log = [];
}

one_run : each (step programs 9 5) (ons 0 4 ∷ []) emitter ≡ done one_handler
unfolding step on push_back
one_run = refl

one_listens : has_listener 0 one_handler ≡ true
unfolding has_listener
one_listens = refl

listener_count-spent_example : listener_count 1000 0 one_handler ≡ spent
listener_count-spent_example =
    listener_count-spent programs 9 5 (ons 0 4 ∷ []) one_handler 0 1000 five one_run one_listens

abbrev one_listing : Listing
one_listing = record {
  lists = λ y. if 0 == y then 0 ∷ [] else [];
  home = λ y. if 0 == y then 0 else 0;
  func = λ y. if 0 == y then 4 else 0;
  fresh = 1;
  log = [];
}

one_spec_run : each (spec_step programs 9 5) (ons 0 4 ∷ []) no_handlers ≡ done one_listing
unfolding spec_step
one_spec_run = refl

emit-calls_all_example :
    (e' : Emitter) × (step programs 9 5 (emits 0) one_handler ≡ done e')
    × (e'.log ≡ rev_onto (one_listing.lists 0) one_handler.log)
emit-calls_all_example =
    emit-calls_all programs 9 4 (ons 0 4 ∷ []) one_handler one_listing 0 five one_run one_spec_run
      (λ x h. elim (Bool-cases (0 == x)) [ inl e ↦ rw e refl | inr e ↦ rw e refl ]) (omega arith)
