-- ===== src/Stream/Uv.antt =====
-- include/libnodecc/uv/stream.h: `_write` and `_end` of a stream over libuv, with the requests that
-- are under way. What `uv_try_write` returns is an argument, `none` for an error.
pub mod Trim
pub mod Requests
pub mod Order
use libnodecc.Prelude.{
  ℕ, ◌+◌, ◌-◌, Bytes, concat, Bool, true, false, not, List, [], ◌∷◌, ◌++◌, length, take, drop,
  Option, none, some,
}
use libnodecc.Prelude.{◌==◌, ltb, if◌then◌else◌}
use libnodecc.Stream.{
  Writable, Event, thrown, Change, increases, decreases, ends_writing, change, write, end_with,
}

-- `sent` is what the kernel has taken. Each request has its buffers and `total`.
pub record UvStream : Type 0 where
  pub sent : Bytes
  pub queue : List (List Bytes × ℕ)
  pub is_closing : Bool
  pub marks : Writable

-- The buffers without their first `wu` bytes.
unfoldable pub trim : ℕ → List Bytes → List Bytes
trim wu [] = []
trim wu (b ∷ bs) = if ltb wu (length b) then drop wu b ∷ bs else trim (wu - length b) bs

abbrev pub enqueue : List Bytes → ℕ → UvStream → UvStream × List Change
enqueue bufs total s = (record s { queue = s.queue ++ (bufs, total) ∷ [] }, increases total ∷ [])

-- `_write` behind the test of `bufcnt`, and the change that it makes of the water mark.
unfoldable pub write_some : List Bytes → Option ℕ → UvStream → UvStream × List Change
write_some bufs none s = enqueue bufs (length (concat bufs)) s
write_some bufs (some wi) s =
    let total = length (concat bufs) in
    if ltb 0 wi
    then (if wi == total
        then (record s { sent = s.sent ++ concat bufs }, [])
        else if ltb total wi
        then (s, [])
        else enqueue (trim wi bufs) total (record s { sent = s.sent ++ take wi (concat bufs) }))
    else enqueue bufs total s

unfoldable pub uv_write : List Bytes → Option ℕ → UvStream → UvStream × List Change
uv_write [] wi s = (s, [])
uv_write (b ∷ bs) wi s = write_some (b ∷ bs) wi s

-- `write` of the stream.
unfoldable pub send : List Bytes → Option ℕ → UvStream → UvStream × List Event
send bufs wi s =
    let r = if s.marks.is_writable then uv_write bufs wi s else (s, []) in
    let q = write r.1 s.marks in (record (r.0) { marks = q.0 }, q.1)

-- `_end`, without the shutdown request.
unfoldable pub uv_end : List Bytes → Option ℕ → UvStream → UvStream × List Change
uv_end bufs wi s = if not s.is_closing then uv_write bufs wi s else (s, [])

-- `end` of the stream.
unfoldable pub send_last : List Bytes → Option ℕ → UvStream → UvStream × List Event
send_last bufs wi s =
    let r = if s.marks.is_writable then uv_end bufs wi s else (s, []) in
    let q = end_with r.1 s.marks in (record (r.0) { marks = q.0 }, q.1)

-- The callback of the oldest request, which succeeded.
unfoldable pub complete : UvStream → UvStream × List Event
complete s = elim s.queue [
  | [] ↦ (s, [])
  | (bufs, total) ∷ rs ↦
      let q = change (decreases total) s.marks in
      (record s { sent = s.sent ++ concat bufs; queue = rs; marks = q.0 }, q.1)
]

-- The callback of the shutdown request, which succeeded while reading goes on.
unfoldable pub shut_down : UvStream → UvStream × List Event
shut_down s = let q = change ends_writing s.marks in (record s { marks = q.0 }, q.1)
