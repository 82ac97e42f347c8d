-- ===== src/Stream/Ends.antt =====
-- Writes after the end.
use libnodecc.Prelude.{◌≡◌, ◌≢◌, refl, arith, false, List, [], ◌∷◌, All}
use libnodecc.Stream.{
  Writable, thrown, increase_watermark, decrease_watermark, set_writing_ended, set_highwatermark,
  set_lowwatermark, Change, increases, decreases, ends_writing, change, write, end_with,
}
use libnodecc.Stream.Calls.{Call, writes, ends, resets, changes_by, sets_high, sets_low, call, run}

-- The calls that do not open the stream again.
abbrev pub IsKeeping : Call → Type 0
IsKeeping c = c ≢ resets

change-closed :
    (c : Change) (s : Writable) → s.is_writable ≡ false → (change c s).0.is_writable ≡ false
unfolding change increase_watermark decrease_watermark set_writing_ended
change-closed (increases n) s h = h
change-closed (decreases n) s h = ground (arith, h)
change-closed ends_writing s h = refl

call-closed :
    (c : Call) (s : Writable)
    → IsKeeping c
    → s.is_writable ≡ false
    → (call c s).0.is_writable ≡ false
unfolding call write end_with set_highwatermark set_lowwatermark
call-closed (writes cs) s k h = ground (arith, h)
call-closed (ends cs) s k h = ground (arith, h)
call-closed resets s k h = absurd (k refl)
call-closed (changes_by c) s k h = change-closed c s h
call-closed (sets_high n) s k h = h
call-closed (sets_low n) s k h = h

run-closed :
    (cs : List Call) (s : Writable)
    → All IsKeeping cs
    → s.is_writable ≡ false
    → (run cs s).0.is_writable ≡ false
unfolding run
run-closed [] s k h = h
run-closed (c ∷ cs) s k h = run-closed cs (call c s).0 k.1 (call-closed c s k.0 h)

end_with-closes : (ds : List Change) (s : Writable) → (end_with ds s).0.is_writable ≡ false
unfolding end_with
end_with-closes ds s = ground arith

-- After `end`, and whatever calls but a reset, a write throws and changes nothing.
pub write-end_with :
    (ds : List Change) (s : Writable) (cs : List Call) (es : List Change)
    → All IsKeeping cs
    → write es (run cs (end_with ds s).0).0 ≡ ((run cs (end_with ds s).0).0, thrown ∷ [])
unfolding write
write-end_with ds s cs es k =
    ground (arith, run-closed cs (end_with ds s).0 k (end_with-closes ds s))
