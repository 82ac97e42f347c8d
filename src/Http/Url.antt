-- ===== src/Http/Url.antt =====
-- `url::_parse_params` of src/http/incoming_message.cc: the parameters of a query string.
pub mod Scan
pub mod Params
pub mod Object
pub mod Lookup
pub mod Faults
mod Tests
use libnodecc.Prelude.{
  ℕ, ◌+◌, ◌-◌, ◌%◌, Bytes, is_empty, Bool, true, false, not, ◌&&◌, List, [], ◌∷◌, ◌++◌, length,
}
use libnodecc.Prelude.{◌==◌, ltb, if◌then◌else◌}
use libnodecc.Util.Power.{size_mod}
use libnodecc.Buffer.Mutable.{slice}
use libnodecc.Http.Headers.{Headers, emplace}

-- `size_t` subtraction.
abbrev pub distance : ℕ → ℕ → ℕ
distance a b = (a + size_mod - b) % size_mod

-- The local variables of the loop: `current_amp_pos`, `current_eq_pos`, `field`, and the map.
-- `field` keeps its bytes after `emplace`, since a key is copied out of it.
pub record State : Type 0 where
  pub amp : ℕ
  pub eq : ℕ
  pub field : Bytes
  pub params : Headers

abbrev pub start : State
start = record { amp = size_mod - 1; eq = 0; field = []; params = [] }

module _ (query : Bytes) where
  -- The insertion before an `&` at `i`, and of the leftovers at the end.
  unfoldable pub insert_at : ℕ → State → State
  insert_at i s =
      if ltb 1 (distance i s.eq) && not (is_empty s.field)
      then record s { params = emplace s.field (slice query ((s.eq + 1) % size_mod) i) s.params }
      else s

  -- The first `=` of a parameter at `i`.
  unfoldable pub take_field : ℕ → State → State
  take_field i s =
      let s' =
        if ltb 1 (distance i s.amp)
        then record s { field = slice query ((s.amp + 1) % size_mod) i }
        else s in
      record s' { amp = 0; eq = i }

  unfoldable pub step : ℕ → ℕ → State → State
  step i ch s =
      if ch == b'&'
      then record (insert_at i s) { amp = i; eq = 0 }
      else if ch == b'=' && s.eq == 0
      then take_field i s
      else s

  -- The loop from position `i` on, and what follows it.
  unfoldable pub scan : Bytes → ℕ → State → State
  scan [] i s = insert_at i s
  scan (c ∷ cs) i s = scan cs (i + 1) (step i c s)

unfoldable pub parse_params : Bytes → Headers
parse_params query = (scan query query 0 start).params
