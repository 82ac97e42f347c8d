-- ===== src/Events.antt =====
-- `emitter` of src/events/emitter.cc and include/libnodecc/events/emitter.h: lists of handlers that
-- are linked by pointers and freed by hand, and callbacks that may change them while they are called.
pub mod Spec
pub mod Chains
pub mod Related
pub mod Adding
pub mod Taking
pub mod Clearing
pub mod Middles
pub mod Unlinking
pub mod Refined
pub mod Agreement
pub mod Calls
mod Tests
use libnodecc.Prelude.{
  ℕ, zero, suc, ◌+◌, ◌-◌, ◌^◌, Bool, true, false, not, List, [], ◌∷◌, Option, none, some,
}
use libnodecc.Prelude.{◌==◌, if◌then◌else◌}

-- How a call ends: with a value, with the use of a deleted handler, or with the fuel used up.
pub data Run {ℓ} (A : Type ℓ) : Type ℓ where
  done : A → Run A
  fault : Run A
  spent : Run A

abbrev pub and_then {ℓ κ} : {A : Type ℓ} {B : Type κ} → Run A → (A → Run B) → Run B
and_then (done a) f = f a
and_then fault f = fault
and_then spent f = spent

-- `event_handler_root`.
pub record Root : Type 0 where
  pub head : Option ℕ
  pub tail : Option ℕ

-- The roots by symbol; the handlers by address, with the members of each and whether it is there;
-- the next address; and the handlers that were called, the last one first.
pub record Emitter : Type 0 where
  pub events : ℕ → Option Root
  pub live : ℕ → Bool
  pub next : ℕ → Option ℕ
  pub ref_count : ℕ → ℕ
  pub func : ℕ → ℕ
  pub fresh : ℕ
  pub log : List ℕ

abbrev pub set {ℓ} : {A : Type ℓ} → ℕ → A → (ℕ → A) → ℕ → A
set x v f y = if x == y then v else f y

abbrev pub emitter : Emitter
emitter = record {
  events = λ _. none;
  live = λ _. false;
  next = λ _. none;
  ref_count = λ _. 0;
  func = λ _. 0;
  fresh = 0;
  log = [];
}

abbrev pub root_of : Option Root → Root
root_of none = record { head = none; tail = none }
root_of (some r) = r

abbrev pub is_none {ℓ} : {A : Type ℓ} → Option A → Bool
is_none none = true
is_none (some a) = false

-- `push_back`, on the root of a symbol.
unfoldable pub push_back : ℕ → ℕ → Root → Emitter → Run Emitter
push_back s ptr r e = elim r.tail [
  | none ↦
      done
        (record e { events = set s (some (record { head = some ptr; tail = some ptr })) e.events })
  | some t ↦
      if e.live t
      then done (record e {
        events = set s (some (record r { tail = some ptr })) e.events;
        next = set t (some ptr) e.next;
      })
      else fault
]

-- A new handler.
abbrev pub allocated : ℕ → Emitter → Emitter
allocated f e = record e {
  live = set e.fresh true e.live;
  next = set e.fresh none e.next;
  ref_count = set e.fresh 0 e.ref_count;
  func = set e.fresh f e.func;
  fresh = e.fresh + 1;
}

unfoldable pub on : ℕ → ℕ → Emitter → Run Emitter
on s f e = push_back s e.fresh (root_of (e.events s)) (allocated f e)

-- `erase`, up to the deletion: the root and the links around the handler.
unfoldable pub unlink : ℕ → ℕ → Option ℕ → Root → Emitter → Run Emitter
unlink s curr none r e = done (record e {
  events =
      set s
        (some
          (record { head = e.next curr; tail = if is_none (e.next curr) then none else r.tail }))
        e.events;
})
unlink s curr (some p) r e =
    if e.live p
    then done (record e {
      events =
          set s (some (record r { tail = if is_none (e.next curr) then some p else r.tail }))
            e.events;
      next = set p (e.next curr) e.next;
    })
    else fault

-- `delete` of a handler that no call of `emit` is at; for another one the end of its `emit`.
unfoldable pub dispose : ℕ → Emitter → Emitter
dispose curr e =
    if e.ref_count curr == 0
    then record e { live = set curr false e.live }
    else record e { next = set curr none e.next }

unfoldable pub erase : ℕ → ℕ → Option ℕ → Root → Emitter → Run Emitter
erase s curr prev r e =
    if e.live curr then and_then (unlink s curr prev r e) (λ e'. done (dispose curr e')) else fault

-- A root without handlers is taken out of the map.
unfoldable pub drop_empty : ℕ → Emitter → Emitter
drop_empty s e =
    if is_none (root_of (e.events s)).head then record e { events = set s none e.events } else e

-- The loop of `off`.
unfoldable pub off_loop : ℕ → ℕ → ℕ → Root → Option ℕ → Option ℕ → Emitter → Run Emitter
off_loop zero s iter r prev curr e = spent
off_loop (suc k) s iter r prev none e = done e
off_loop (suc k) s iter r prev (some c) e =
    let rest = off_loop k s iter r (some c) (e.next c) e in
    if c == iter
    then and_then (erase s c prev r e) (λ e'. done (drop_empty s e'))
    else if e.live c
    then rest
    else fault

-- No list is longer than the number of handlers ever made.
unfoldable pub off : ℕ → ℕ → Emitter → Run Emitter
off s iter e = elim (e.events s) [
  | none ↦ done e
  | some r ↦ off_loop (e.fresh + 1) s iter r none r.head e
]

unfoldable pub has_listener : ℕ → Emitter → Bool
has_listener s e = not (is_none (e.events s))

-- The loop of `listener_count`, which does not advance.
unfoldable pub count_loop : ℕ → Option ℕ → ℕ → Run ℕ
count_loop zero rit count = spent
count_loop (suc k) none count = done count
count_loop (suc k) (some c) count = count_loop k (some c) (count + 1)

unfoldable pub listener_count : ℕ → ℕ → Emitter → Run ℕ
listener_count fuel s e = elim (e.events s) [ none ↦ done 0 | some r ↦ count_loop fuel r.head 0 ]

-- `~event_handler_root`.
unfoldable pub clear_loop : ℕ → Option ℕ → Emitter → Run Emitter
clear_loop zero ptr e = spent
clear_loop (suc k) none e = done e
clear_loop (suc k) (some c) e =
    let rest = clear_loop k (e.next c) (dispose c e) in if e.live c then rest else fault

unfoldable pub remove_all_listeners : ℕ → Emitter → Run Emitter
remove_all_listeners s e = elim (e.events s) [
  | none ↦ done e
  | some r ↦ clear_loop (e.fresh + 1) r.head (record e { events = set s none e.events })
]

unfoldable pub delete_flag : ℕ
delete_flag = 2 ^ 63

-- `++handler.ref_count`, and the call.
abbrev pub entered : ℕ → Emitter → Emitter
entered c e = record e { ref_count = set c (e.ref_count c + 1) e.ref_count; log = c ∷ e.log }

-- `--handler.ref_count`, and the deletion if that is `delete_flag`.
unfoldable pub left : ℕ → Emitter → Emitter
left c e =
    let e' = record e { ref_count = set c (e.ref_count c - 1) e.ref_count } in
    if e'.ref_count c == delete_flag then record e' { live = set c false e'.live } else e'

-- The loop of `emit`, over what the callbacks do.
unfoldable pub emit_loop : (ℕ → Emitter → Run Emitter) → ℕ → Option ℕ → Emitter → Run Emitter
emit_loop call zero rit e = spent
emit_loop call (suc k) none e = done e
emit_loop call (suc k) (some c) e =
    if e.live c
    then and_then (call (e.func c) (entered c e))
        (λ e'. if e'.live c then emit_loop call k (e'.next c) (left c e') else fault)
    else fault

unfoldable pub emit : (ℕ → Emitter → Run Emitter) → ℕ → ℕ → Emitter → Run Emitter
emit call rounds s e = elim (e.events s) [ none ↦ done e | some r ↦ emit_loop call rounds r.head e ]

-- What programs and callbacks do with an emitter.
pub data Op : Type 0 where
  ons : ℕ → ℕ → Op
  offs : ℕ → ℕ → Op
  removes : ℕ → Op
  emits : ℕ → Op

abbrev pub each {ℓ} : {A : Type ℓ} → (Op → A → Run A) → List Op → A → Run A
each do_op [] a = done a
each do_op (op ∷ ops) a = and_then (do_op op a) (each do_op ops)

-- `programs` has what each function does when it is called, `rounds` bounds each loop of `emit`, and
-- the last number the nesting of the calls.
module _ (programs : ℕ → List Op) (rounds : ℕ) where
  unfoldable pub step : ℕ → Op → Emitter → Run Emitter
  step zero op e = spent
  step (suc depth) (ons s f) e = on s f e
  step (suc depth) (offs s iter) e = off s iter e
  step (suc depth) (removes s) e = remove_all_listeners s e
  step (suc depth) (emits s) e = emit (λ f. each (step depth) (programs f)) rounds s e
