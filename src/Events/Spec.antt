-- ===== src/Events/Spec.antt =====
-- What an emitter promises: for each symbol the handlers in the order in which they were added.
use libnodecc.Prelude.{ℕ, zero, suc, ◌+◌, List, [], ◌∷◌, ◌++◌, Option, none, some}
use libnodecc.Prelude.{◌==◌, if◌then◌else◌}
use libnodecc.Events.{Run, done, spent, and_then, set, Op, ons, offs, removes, emits, each}

-- The handlers of each symbol; the symbol and the function that each was made with; and the number
-- of handlers that were made, and the calls.
pub record Listing : Type 0 where
  pub lists : ℕ → List ℕ
  pub home : ℕ → ℕ
  pub func : ℕ → ℕ
  pub fresh : ℕ
  pub log : List ℕ

abbrev pub no_handlers : Listing
no_handlers = record { lists = λ _. []; home = λ _. 0; func = λ _. 0; fresh = 0; log = [] }

abbrev pub remove : ℕ → List ℕ → List ℕ
remove x [] = []
remove x (y ∷ ys) = if y == x then ys else y ∷ remove x ys

abbrev pub first : List ℕ → Option ℕ
first [] = none
first (x ∷ xs) = some x

-- The handler behind one, if that is still in the list.
abbrev pub successor : ℕ → List ℕ → Option ℕ
successor x [] = none
successor x (y ∷ ys) = if y == x then first ys else successor x ys

-- The handler `n` with the function `f`, behind those of the symbol `s`.
abbrev pub added_as : ℕ → ℕ → ℕ → Listing → Listing
added_as n s f m = record {
  lists = set s (m.lists s ++ n ∷ []) m.lists;
  home = set n s m.home;
  func = set n f m.func;
  fresh = n + 1;
  log = m.log;
}

abbrev pub added : ℕ → ℕ → Listing → Listing
added s f m = added_as m.fresh s f m

abbrev pub taken : ℕ → ℕ → Listing → Listing
taken s x m = record m { lists = set s (remove x (m.lists s)) m.lists }

abbrev pub removed : ℕ → Listing → Listing
removed s m = record m { lists = set s [] m.lists }

abbrev pub logged : ℕ → Listing → Listing
logged c m = record m { log = c ∷ m.log }

-- Each handler is called, and then the one that is behind it by then.
unfoldable pub call_from : (ℕ → Listing → Run Listing) → ℕ → Option ℕ → Listing → Run Listing
call_from call zero rit m = spent
call_from call (suc k) none m = done m
call_from call (suc k) (some c) m =
    and_then (call (m.func c) (logged c m))
      (λ m'. call_from call k (successor c (m'.lists (m'.home c))) m')

unfoldable pub spec_emit : (ℕ → Listing → Run Listing) → ℕ → ℕ → Listing → Run Listing
spec_emit call rounds s m = elim (first (m.lists s)) [
  | none ↦ done m
  | some x ↦ call_from call rounds (some x) m
]

module _ (programs : ℕ → List Op) (rounds : ℕ) where
  unfoldable pub spec_step : ℕ → Op → Listing → Run Listing
  spec_step zero op m = spent
  spec_step (suc depth) (ons s f) m = done (added s f m)
  spec_step (suc depth) (offs s x) m = done (taken s x m)
  spec_step (suc depth) (removes s) m = done (removed s m)
  spec_step (suc depth) (emits s) m =
      spec_emit (λ f. each (spec_step depth) (programs f)) rounds s m
