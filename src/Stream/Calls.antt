-- ===== src/Stream/Calls.antt =====
-- Any sequence of calls of a writable stream.
use libnodecc.Prelude.{ℕ, List, [], ◌∷◌, ◌++◌}
use libnodecc.Stream.{
  Writable, Event, reset, set_highwatermark, set_lowwatermark, Change, change, write, end_with,
}

-- What happens to a stream: calls from outside, and changes by the implementation in between.
pub data Call : Type 0 where
  writes : List Change → Call
  ends : List Change → Call
  resets : Call
  changes_by : Change → Call
  sets_high sets_low : ℕ → Call

unfoldable pub call : Call → Writable → Writable × List Event
call (writes cs) s = write cs s
call (ends cs) s = end_with cs s
call resets s = (reset s, [])
call (changes_by c) s = change c s
call (sets_high n) s = (set_highwatermark n s, [])
call (sets_low n) s = (set_lowwatermark n s, [])

unfoldable pub run : List Call → Writable → Writable × List Event
run [] s = (s, [])
run (c ∷ cs) s = let r = call c s in let q = run cs r.0 in (q.0, r.1 ++ q.1)
