-- ===== src/Events/Agreement.antt =====
-- What can be seen of an emitter is what its specification says.
use libnodecc.Prelude.{ℕ, ◌<◌, ◌≡◌, refl, ap, arith, true, not, List, []}
use libnodecc.Events.{
  Emitter, emitter, Run, done, fault, spent, delete_flag, has_listener, Op, each, step,
}
use libnodecc.Events.Spec.{Listing, no_handlers, spec_step}
use libnodecc.Events.Chains.{has}
use libnodecc.Events.Related.{is_nil, Rel, Sim, listed-live}
use libnodecc.Events.Refined.{each-Rel, step-Rel}

pub start-Rel : Rel emitter [] [] no_handlers
start-Rel = record {
  at = λ s. record {
    chain = refl;
    tail = refl;
    present = refl;
    nodup = record {};
    homes = λ x h. cc;
    short = omega arith;
  };
  loose = λ x l o p. refl;
  counted = λ x. refl;
  guarded = λ x h. cc;
  unborn = λ x le. refl;
  same_func = refl;
  same_fresh = refl;
  same_log = refl;
}

-- What can be seen of an emitter and of its specification is the same.
pub record IsSame (e : Emitter) (m : Listing) : Type 0 where
  pub calls : e.log ≡ m.log
  pub listeners : (s : ℕ) → has_listener s e ≡ not (is_nil (m.lists s))
  pub present : (s x : ℕ) → has x (m.lists s) ≡ true → e.live x ≡ true

abbrev pub Agrees : Run Emitter → Run Listing → Type 0
Agrees (done e) (done m) = IsSame e m
Agrees spent spent = Unit {0}
Agrees (done e) fault = ⊥
Agrees (done e) spent = ⊥
Agrees spent (done m) = ⊥
Agrees spent fault = ⊥
Agrees fault r = ⊥

Rel-IsSame : (e : Emitter) (m : Listing) → Rel e [] [] m → IsSame e m
unfolding has_listener
Rel-IsSame e m r = record {
  calls = r.same_log;
  listeners = λ s. ap not (r.at s).present;
  present = listed-live e [] [] m r;
}

Sim-Agrees : (r : Run Emitter) (q : Run Listing) → Sim [] r q → Agrees r q
Sim-Agrees (done e) (done m) h = Rel-IsSame e m h
Sim-Agrees spent spent h = record {}
Sim-Agrees (done e) fault h = elim h [ ]
Sim-Agrees (done e) spent h = elim h [ ]
Sim-Agrees spent (done m) h = elim h [ ]
Sim-Agrees spent fault h = elim h [ ]
Sim-Agrees fault q h = elim h [ ]

pub run-Sim :
    (programs : ℕ → List Op) (rounds depth : ℕ) (ops : List Op)
    → depth < delete_flag
    → Sim []
        (each (step programs rounds depth) ops emitter)
        (each (spec_step programs rounds depth) ops no_handlers)
run-Sim programs rounds depth ops bound =
    each-Rel [] _ _ (λ op e m r. step-Rel programs rounds depth [] op e m (omega (arith, bound)) r)
      ops emitter no_handlers start-Rel

-- Whatever a program does with an emitter and whatever its callbacks do with it while they are
-- called, nested in each other less than 2 ^ 63 deep: no handler is used after its deletion, the
-- same handlers are called in the same order as by the specification, which calls a handler and
-- then the one that stands behind it by then, and a symbol has a listener exactly if its list is
-- not empty. Either both come to their end or neither does.
pub run-Agrees :
    (programs : ℕ → List Op) (rounds depth : ℕ) (ops : List Op)
    → depth < delete_flag
    → Agrees
        (each (step programs rounds depth) ops emitter)
        (each (spec_step programs rounds depth) ops no_handlers)
run-Agrees programs rounds depth ops bound =
    Sim-Agrees _ _ (run-Sim programs rounds depth ops bound)
