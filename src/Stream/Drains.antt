-- ===== src/Stream/Drains.antt =====
-- Drain events against the results of `write` and `end`.
use libnodecc.Prelude.{ℕ, ◌+◌, ◌≤◌, ◌≡◌, refl, arith, List, [], ◌∷◌, ◌++◌}
use libnodecc.Prelude.{if◌then◌else◌}
use libnodecc.Stream.{
  Writable, writable, Event, drain, returned, thrown, increase_watermark, decrease_watermark,
  set_writing_ended, reset, set_highwatermark, set_lowwatermark, Change, increases, decreases,
  ends_writing, change, changes, measured, write, end_with,
}
use libnodecc.Stream.Calls.{Call, writes, ends, resets, changes_by, sets_high, sets_low, call, run}

-- The number of drain events, and of times that the stream asked to wait.
unfoldable pub drains : List Event → ℕ
drains [] = 0
drains (drain ∷ es) = 1 + drains es
drains (returned b ∷ es) = drains es
drains (thrown ∷ es) = drains es

unfoldable pub refusals : List Event → ℕ
refusals [] = 0
refusals (drain ∷ es) = refusals es
refusals (returned b ∷ es) = (if b then 0 else 1) + refusals es
refusals (thrown ∷ es) = refusals es

drains-append : (xs ys : List Event) → drains (xs ++ ys) ≡ drains xs + drains ys
unfolding drains
drains-append [] ys = omega arith
drains-append (drain ∷ xs) ys = omega (arith, drains-append xs ys)
drains-append (returned b ∷ xs) ys = drains-append xs ys
drains-append (thrown ∷ xs) ys = drains-append xs ys

refusals-append : (xs ys : List Event) → refusals (xs ++ ys) ≡ refusals xs + refusals ys
unfolding refusals
refusals-append [] ys = omega arith
refusals-append (drain ∷ xs) ys = refusals-append xs ys
refusals-append (returned b ∷ xs) ys = omega (arith, refusals-append xs ys)
refusals-append (thrown ∷ xs) ys = refusals-append xs ys

abbrev flooded : Writable → ℕ
flooded s = if s.is_regular_level then 0 else 1

change-drains :
    (c : Change) (s : Writable)
    → (drains (change c s).1 + flooded (change c s).0 ≤ flooded s) × (refusals (change c s).1 ≡ 0)
unfolding change increase_watermark decrease_watermark set_writing_ended drains refusals
change-drains (increases n) s = (ground arith, refl)
change-drains (decreases n) s = (ground arith, ground arith)
change-drains ends_writing s = (ground arith, refl)

changes-drains :
    (cs : List Change) (s : Writable)
    → drains (changes cs s).1 + flooded (changes cs s).0 ≤ flooded s
unfolding changes drains
changes-drains [] s = ground arith
changes-drains (c ∷ cs) s = omega (
  arith,
  drains-append (change c s).1 (changes cs (change c s).0).1,
  (change-drains c s).0,
  changes-drains cs (change c s).0,
)

call-drains :
    (c : Call) (s : Writable)
    → drains (call c s).1 + flooded (call c s).0 ≤ refusals (call c s).1 + flooded s
unfolding call write end_with reset set_highwatermark set_lowwatermark measured drains refusals
call-drains (writes cs) s = ground (
  arith,
  changes-drains cs s,
  drains-append (changes cs s).1 (returned (measured (changes cs s).0).is_regular_level ∷ []),
  refusals-append (changes cs s).1 (returned (measured (changes cs s).0).is_regular_level ∷ []),
)
call-drains (ends cs) s = ground (
  arith,
  changes-drains cs s,
  drains-append (changes cs s).1 (returned (measured (changes cs s).0).is_regular_level ∷ []),
  refusals-append (changes cs s).1 (returned (measured (changes cs s).0).is_regular_level ∷ []),
)
call-drains resets s = ground arith
call-drains (changes_by c) s = ground (arith, change-drains c s)
call-drains (sets_high n) s = ground arith
call-drains (sets_low n) s = ground arith

run-drains :
    (cs : List Call) (s : Writable)
    → drains (run cs s).1 + flooded (run cs s).0 ≤ refusals (run cs s).1 + flooded s
unfolding run drains refusals
run-drains [] s = omega arith
run-drains (c ∷ cs) s = omega (
  arith,
  drains-append (call c s).1 (run cs (call c s).0).1,
  refusals-append (call c s).1 (run cs (call c s).0).1,
  call-drains c s,
  run-drains cs (call c s).0,
)

-- Whatever happens to a stream from its making on, it drains at most as often as it asked a
-- writer to wait.
pub drains-run :
    (hwm lwm : ℕ) (cs : List Call)
    → drains (run cs (writable hwm lwm)).1 ≤ refusals (run cs (writable hwm lwm)).1
drains-run hwm lwm cs = omega (arith, run-drains cs (writable hwm lwm))
