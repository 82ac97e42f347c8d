-- ===== src/Stream/Reading.antt =====
-- The calls that a readable stream makes of its implementation.
use libnodecc.Prelude.{◌≡◌, refl, arith, Bool, true, false, not, ◌&&◌, List, [], ◌∷◌, ◌++◌}
use libnodecc.Stream.{Readable, Notice, starts, stops, end_event, resume, pause, set_reading_ended}

pub data Use : Type 0 where
  resumes : Use
  pauses : Use
  ends_reading : Use

unfoldable pub use_by : Use → Readable → Readable × List Notice
use_by resumes s = resume s
use_by pauses s = pause s
use_by ends_reading s = set_reading_ended s

unfoldable pub use_all : List Use → Readable → Readable × List Notice
use_all [] s = (s, [])
use_all (u ∷ us) s = let r = use_by u s in let q = use_all us r.0 in (q.0, r.1 ++ q.1)

-- Starts and stops that alternate, the first one being a stop if reading has begun, and at most
-- one end event, none if there was one.
unfoldable pub alternates : Bool → Bool → List Notice → Bool
alternates reading ended [] = true
alternates reading ended (starts ∷ ns) = not reading && alternates true ended ns
alternates reading ended (stops ∷ ns) = reading && alternates false ended ns
alternates reading ended (end_event ∷ ns) = not ended && alternates reading true ns

use_by-alternates :
    (u : Use) (s : Readable) (ns : List Notice)
    → alternates (use_by u s).0.is_consuming (use_by u s).0.has_ended ns ≡ true
    → alternates s.is_consuming s.has_ended ((use_by u s).1 ++ ns) ≡ true
unfolding use_by resume pause set_reading_ended alternates
use_by-alternates resumes s ns h = ground (arith, h)
use_by-alternates pauses s ns h = ground (arith, h)
use_by-alternates ends_reading s ns h = ground (arith, h)

-- However a stream is resumed, paused and ended, and in whatever state it is at first, the
-- implementation is told to start and to stop in turns, and the end event comes at most once, and
-- never again once the stream has ended.
pub use_all-alternates :
    (us : List Use) (s : Readable) → alternates s.is_consuming s.has_ended (use_all us s).1 ≡ true
unfolding use_all alternates
use_all-alternates [] s = refl
use_all-alternates (u ∷ us) s =
    use_by-alternates u s (use_all us (use_by u s).0).1 (use_all-alternates us (use_by u s).0)
