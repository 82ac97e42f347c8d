-- ===== src/Stream.antt =====
-- include/libnodecc/stream.h: the state of a writable stream, with its water marks, and of a
-- readable one. What an implementation does inside the virtual `_write` and `_end` is an argument.
pub mod Calls
pub mod Marks
pub mod Drains
pub mod Ends
pub mod Reading
pub mod Uv
mod Tests
use libnodecc.Prelude.{ℕ, ◌+◌, ◌-◌, ◌%◌, ◌^◌, Bool, true, false, not, ◌&&◌, List, [], ◌∷◌, ◌++◌}
use libnodecc.Prelude.{ltb, leb, if◌then◌else◌}

pub record Writable : Type 0 where
  pub hwm : ℕ
  pub lwm : ℕ
  pub wm : ℕ
  pub is_regular_level : Bool
  pub is_writable : Bool
  pub has_ended : Bool

-- The state that the constructor leaves.
abbrev pub writable : ℕ → ℕ → Writable
writable hwm lwm = record {
  hwm = hwm;
  lwm = lwm;
  wm = 0;
  is_regular_level = true;
  is_writable = true;
  has_ended = false;
}

-- What the users of a stream see: the drain event, the result of `write` and `end`, and the
-- exception of `write`.
pub data Event : Type 0 where
  drain : Event
  returned : Bool → Event
  thrown : Event

unfoldable pub set_highwatermark : ℕ → Writable → Writable
set_highwatermark n s = record s { hwm = n }

unfoldable pub set_lowwatermark : ℕ → Writable → Writable
set_lowwatermark n s = record s { lwm = n }

unfoldable pub increase_watermark : ℕ → Writable → Writable
increase_watermark n s = record s { wm = (s.wm + n) % 2 ^ 64 }

unfoldable pub decrease_watermark : ℕ → Writable → Writable × List Event
decrease_watermark n s =
    let s' = record s { wm = if ltb n s.wm then s.wm - n else 0 } in
    if not s'.is_regular_level && leb s'.wm s'.lwm
    then (record s' { is_regular_level = true }, drain ∷ [])
    else (s', [])

unfoldable pub set_writing_ended : Writable → Writable
set_writing_ended s = record s { is_writable = false; has_ended = true }

unfoldable pub reset : Writable → Writable
reset s = record s { is_regular_level = true; is_writable = true; has_ended = false }

-- The calls that an implementation makes.
pub data Change : Type 0 where
  increases : ℕ → Change
  decreases : ℕ → Change
  ends_writing : Change

unfoldable pub change : Change → Writable → Writable × List Event
change (increases n) s = (increase_watermark n s, [])
change (decreases n) s = decrease_watermark n s
change ends_writing s = (set_writing_ended s, [])

unfoldable pub changes : List Change → Writable → Writable × List Event
changes [] s = (s, [])
changes (c ∷ cs) s = let r = change c s in let q = changes cs r.0 in (q.0, r.1 ++ q.1)

-- `this->_is_regular_level = this->_wm < this->_hwm`.
unfoldable pub measured : Writable → Writable
measured s = record s { is_regular_level = ltb s.wm s.hwm }

-- `write`, in which `_write` makes the changes `cs`.
unfoldable pub write : List Change → Writable → Writable × List Event
write cs s =
    if not s.is_writable
    then (s, thrown ∷ [])
    else let r = changes cs s in
      let s' = measured r.0 in (s', r.1 ++ returned s'.is_regular_level ∷ [])

-- `end`, in which `_end` makes the changes `cs`.
unfoldable pub end_with : List Change → Writable → Writable × List Event
end_with cs s =
    if s.is_writable
    then (let r = changes cs s in
        let s' = record (measured r.0) { is_writable = false } in
        (s', r.1 ++ returned s'.is_regular_level ∷ []))
    else (s, returned s.is_regular_level ∷ [])

pub record Readable : Type 0 where
  pub is_consuming : Bool
  pub has_ended : Bool

-- The calls of the virtual `_resume` and `_pause`, and the end event.
pub data Notice : Type 0 where
  starts : Notice
  stops : Notice
  end_event : Notice

unfoldable pub resume : Readable → Readable × List Notice
resume s = if not s.is_consuming then (record s { is_consuming = true }, starts ∷ []) else (s, [])

unfoldable pub pause : Readable → Readable × List Notice
pause s = if s.is_consuming then (record s { is_consuming = false }, stops ∷ []) else (s, [])

unfoldable pub set_reading_ended : Readable → Readable × List Notice
set_reading_ended s =
    if not s.has_ended then (record s { has_ended = true }, end_event ∷ []) else (s, [])

unfoldable pub reset_reading : Readable → Readable
reset_reading s = record s { is_consuming = false; has_ended = false }
