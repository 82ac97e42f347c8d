-- ===== src/Http/DateBuffer.antt =====
-- `http_date_buffer` of src/http/_http_date_buffer.cc: the date header that the responses share,
-- and when it is made anew.
pub mod RoundTrip
pub mod Races
mod Tests
use libnodecc.Prelude.{
  ℕ, zero, suc, ◌+◌, ◌-◌, ◌*◌, ◌/◌, ◌%◌, ◌^◌, Bytes, codes, Bool, List, [], ◌∷◌, ◌++◌, Option, none,
  some,
}
use libnodecc.Prelude.{◌==◌, ltb, leb, if◌then◌else◌}

-- The fields of `struct tm` that the code reads, for a year from 1900 on. `gmtime_r` fills them.
pub record Tm : Type 0 where
  pub tm_wday : ℕ
  pub tm_mday : ℕ
  pub tm_mon : ℕ
  pub tm_year : ℕ
  pub tm_hour : ℕ
  pub tm_min : ℕ
  pub tm_sec : ℕ

abbrev pub wday : List Bytes
wday =
    codes "Sun"
    ∷ codes "Mon"
    ∷ codes "Tue"
    ∷ codes "Wed"
    ∷ codes "Thu"
    ∷ codes "Fri"
    ∷ codes "Sat"
    ∷ []

abbrev pub mon : List Bytes
mon =
    codes "Jan"
    ∷ codes "Feb"
    ∷ codes "Mar"
    ∷ codes "Apr"
    ∷ codes "May"
    ∷ codes "Jun"
    ∷ codes "Jul"
    ∷ codes "Aug"
    ∷ codes "Sep"
    ∷ codes "Oct"
    ∷ codes "Nov"
    ∷ codes "Dec"
    ∷ []

-- A row of a table; `none` is a read behind its end.
abbrev pub row : List Bytes → ℕ → Option Bytes
row [] n = none
row (name ∷ names) zero = some name
row (name ∷ names) (suc n) = row names n

-- Stored in a `char`.
abbrev pub to_char : ℕ → ℕ
to_char x = (48 + x) % 256

abbrev pub two_digits : ℕ → Bytes
two_digits x = to_char (x / 10) ∷ to_char (x % 10) ∷ []

abbrev pub four_digits : ℕ → Bytes
four_digits x =
    to_char (x / 1000) ∷ to_char (x / 100 % 10) ∷ to_char (x / 10 % 10) ∷ to_char (x % 10) ∷ []

-- The 37 bytes, in the order of their places, if the memory for them is there.
unfoldable pub update_buffer : Bool → Tm → Option Bytes
update_buffer allocated t =
    if allocated
    then elim (row wday t.tm_wday) [
      | none ↦ none
      | some day ↦ elim (row mon t.tm_mon) [
        | none ↦ none
        | some month ↦ some (
            codes "date: "
            ++ day
            ++ codes ", "
            ++ two_digits t.tm_mday
            ++ codes " "
            ++ month
            ++ codes " "
            ++ four_digits (t.tm_year + 1900)
            ++ codes " "
            ++ two_digits t.tm_hour
            ++ codes ":"
            ++ two_digits t.tm_min
            ++ codes ":"
            ++ two_digits t.tm_sec
            ++ codes " GMT\r\n")
      ]
    ]
    else some []

abbrev pub uint64_mod : ℕ
uint64_mod = 2 ^ 64

-- `now - last_update` in uint64_t, for values of that type.
abbrev pub elapsed : ℕ → ℕ → ℕ
elapsed now last_update = (now + uint64_mod - last_update) % uint64_mod

-- The test of `update` with atomics.
unfoldable pub is_stale : ℕ → ℕ → Bool
is_stale now last_update = ltb 500 (elapsed now last_update)

-- `compare_exchange_strong`: the new value of `_last_update`, if the exchange is made.
unfoldable pub compare_exchange : ℕ → ℕ → ℕ → Option ℕ
compare_exchange current expected now = if current == expected then some now else none

-- `update` without atomics, in a lock: whether `update_buffer` is called, and `_last_update`.
unfoldable pub locked_update : ℕ → ℕ → Bool × ℕ
locked_update now last_update = (leb 500 (elapsed now last_update), last_update)
