-- ===== src/Stream/Marks.antt =====
-- Back pressure: a stream is flooded only above its low mark.
use libnodecc.Prelude.{ℕ, ◌+◌, ◌^◌, ◌<◌, ◌≤◌, ◌≡◌, arith, true, false, List, [], ◌∷◌}
use libnodecc.Stream.{
  Writable, writable, set_highwatermark, set_lowwatermark, increase_watermark, decrease_watermark,
  set_writing_ended, reset, Change, increases, decreases, ends_writing, change, changes, measured,
  write, end_with,
}
use libnodecc.Stream.Calls.{Call, writes, ends, resets, changes_by, sets_high, sets_low, call, run}

-- A flooded stream is above its low mark, which is below the high one.
pub record IsConsistent (s : Writable) : Type 0 where
  pub marks : s.lwm < s.hwm
  pub level : s.is_regular_level ≡ false → s.lwm < s.wm

-- The level does not wrap.
abbrev pub Fits : Change → Writable → Type 0
Fits (increases n) s = s.wm + n < 2 ^ 64
Fits (decreases n) s = Unit
Fits ends_writing s = Unit

abbrev pub AllFit : List Change → Writable → Type 0
AllFit [] s = Unit
AllFit (c ∷ cs) s = Fits c s × AllFit cs (change c s).0

-- A mark that is set leaves the low one below the high one and, if the stream is flooded, below
-- the level.
abbrev pub IsApt : Call → Writable → Type 0
IsApt (writes cs) s = AllFit cs s
IsApt (ends cs) s = AllFit cs s
IsApt resets s = Unit
IsApt (changes_by c) s = Fits c s
IsApt (sets_high n) s = s.lwm < n
IsApt (sets_low n) s = (n < s.hwm) × (s.is_regular_level ≡ false → n < s.wm)

abbrev pub AreApt : List Call → Writable → Type 0
AreApt [] s = Unit
AreApt (c ∷ cs) s = IsApt c s × AreApt cs (call c s).0

change-IsConsistent :
    (c : Change) (s : Writable) → Fits c s → IsConsistent s → IsConsistent (change c s).0
unfolding change increase_watermark decrease_watermark set_writing_ended
change-IsConsistent (increases n) s f h = record {
  marks = h.marks;
  level = λ e. ground (arith, f, h.level);
}
change-IsConsistent (decreases n) s f h = record {
  marks = ground (arith, h.marks);
  level = λ e. ground (arith, h.level);
}
change-IsConsistent ends_writing s f h = record { marks = h.marks; level = h.level }

changes-IsConsistent :
    (cs : List Change) (s : Writable) → AllFit cs s → IsConsistent s → IsConsistent (changes cs s).0
unfolding changes
changes-IsConsistent [] s f h = h
changes-IsConsistent (c ∷ cs) s f h =
    changes-IsConsistent cs (change c s).0 f.1 (change-IsConsistent c s f.0 h)

measured-IsConsistent : (s : Writable) → IsConsistent s → IsConsistent (measured s)
unfolding measured
measured-IsConsistent s h = record { marks = h.marks; level = λ e. ground (arith, h.marks) }

call-IsConsistent :
    (c : Call) (s : Writable) → IsApt c s → IsConsistent s → IsConsistent (call c s).0
unfolding call write end_with reset set_highwatermark set_lowwatermark
call-IsConsistent (writes cs) s f h = record {
  marks = ground (arith, h.marks, after.marks);
  level = λ e. ground (arith, h.level, after.level);
}
  where
    after : IsConsistent (measured (changes cs s).0)
    after = measured-IsConsistent (changes cs s).0 (changes-IsConsistent cs s f h)
call-IsConsistent (ends cs) s f h = record {
  marks = ground (arith, h.marks, after.marks);
  level = λ e. ground (arith, h.level, after.level);
}
  where
    after : IsConsistent (measured (changes cs s).0)
    after = measured-IsConsistent (changes cs s).0 (changes-IsConsistent cs s f h)
call-IsConsistent resets s f h = record { marks = h.marks; level = λ e. ground arith }
call-IsConsistent (changes_by c) s f h = change-IsConsistent c s f h
call-IsConsistent (sets_high n) s f h = record { marks = f; level = h.level }
call-IsConsistent (sets_low n) s f h = record { marks = f.0; level = f.1 }

run-IsConsistent :
    (cs : List Call) (s : Writable) → AreApt cs s → IsConsistent s → IsConsistent (run cs s).0
unfolding run
run-IsConsistent [] s f h = h
run-IsConsistent (c ∷ cs) s f h = run-IsConsistent cs (call c s).0 f.1 (call-IsConsistent c s f.0 h)

-- A stream never stays flooded: whatever calls were made of it since it was made, if the level is
-- at or below the low mark, the stream is at its regular level. The low mark is below the high one
-- at first and after each setting of a mark, a low mark that is set while the stream is flooded is
-- below the level, and the level does not wrap.
pub run-regular :
    (hwm lwm : ℕ) (cs : List Call)
    → lwm < hwm
    → AreApt cs (writable hwm lwm)
    → (run cs (writable hwm lwm)).0.wm ≤ (run cs (writable hwm lwm)).0.lwm
    → (run cs (writable hwm lwm)).0.is_regular_level ≡ true
run-regular hwm lwm cs lt apt low = ground (arith, low, h.level)
  where
    fresh : IsConsistent (writable hwm lwm)
    fresh = record { marks = lt; level = λ e. ground arith }

    h : IsConsistent (run cs (writable hwm lwm)).0
    h = run-IsConsistent cs (writable hwm lwm) apt fresh
