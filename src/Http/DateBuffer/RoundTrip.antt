-- ===== src/Http/DateBuffer/RoundTrip.antt =====
-- The date line as its readers understand it: the format of RFC 822 and 1123.
use libnodecc.Prelude.{
  ℕ, zero, suc, ◌+◌, ◌-◌, ◌*◌, ◌/◌, ◌%◌, ◌≤◌, ◌<◌, ◌≡◌, refl, arith, Bytes, bytes_eq, codes, true,
  List, [], ◌∷◌, Option, none, some, ◌>>=◌, is_empty,
}
use libnodecc.Prelude.{◌==◌, if◌then◌else◌}
use libnodecc.Http.DateBuffer.{Tm, wday, mon, row, to_char, update_buffer}

-- What `gmtime_r` gives for the years up to 9999.
pub record IsTm (t : Tm) : Type 0 where
  pub wday_lt : t.tm_wday < 7
  pub mday_le : t.tm_mday ≤ 31
  pub mon_lt : t.tm_mon < 12
  pub year_le : t.tm_year ≤ 8099
  pub hour_lt : t.tm_hour < 24
  pub min_lt : t.tm_min < 60
  pub sec_le : t.tm_sec ≤ 60

-- The place of a name in a table.
abbrev pub place : Bytes → List Bytes → Option ℕ
place name [] = none
place name (n ∷ ns) = if bytes_eq name n then some zero else (place name ns >>= λ n. some (suc n))

abbrev pub digit : ℕ → ℕ
digit c = c - 48

abbrev pub two : ℕ → ℕ → ℕ
two a b = digit a * 10 + digit b

abbrev pub expect : Bytes → Bytes → Option Bytes
expect [] bs = some bs
expect (e ∷ es) [] = none
expect (e ∷ es) (b ∷ bs) = if e == b then expect es bs else none

abbrev pub read_name : List Bytes → Bytes → Option (ℕ × Bytes)
read_name names (x ∷ y ∷ z ∷ rest) = place (x ∷ y ∷ z ∷ []) names >>= λ n. some (n, rest)
read_name names bs = none

abbrev pub read_two : Bytes → Option (ℕ × Bytes)
read_two (a ∷ b ∷ rest) = some (two a b, rest)
read_two bs = none

abbrev pub read_four : Bytes → Option (ℕ × Bytes)
read_four (a ∷ b ∷ c ∷ d ∷ rest) = some (two a b * 100 + two c d, rest)
read_four bs = none

-- `date: Tue, 15 Nov 1994 12:45:26 GMT`.
unfoldable pub read_date : Bytes → Option Tm
read_date bs = expect (codes "date: ") bs >>= λ bs. read_name wday bs >>= λ w.
    expect (codes ", ") (w.1) >>= λ bs. read_two bs >>= λ d. expect (codes " ") (d.1) >>= λ bs.
    read_name mon bs >>= λ m. expect (codes " ") (m.1) >>= λ bs. read_four bs >>= λ y.
    expect (codes " ") (y.1) >>= λ bs. read_two bs >>= λ h. expect (codes ":") (h.1) >>= λ bs.
    read_two bs >>= λ n. expect (codes ":") (n.1) >>= λ bs. read_two bs >>= λ s.
    expect (codes " GMT\r\n") (s.1) >>= λ bs.
    if is_empty bs
    then some (record {
      tm_wday = w.0;
      tm_mday = d.0;
      tm_mon = m.0;
      tm_year = y.0 - 1900;
      tm_hour = h.0;
      tm_min = n.0;
      tm_sec = s.0;
    })
    else none

-- A name of three letters that its table gives the place of.
record Name (names : List Bytes) (n : ℕ) : Type 0 where
  x : ℕ
  y : ℕ
  z : ℕ
  named : row names n ≡ some (x ∷ y ∷ z ∷ [])
  placed : place (x ∷ y ∷ z ∷ []) names ≡ some n

name :
    {names : List Bytes} {n : ℕ} (x y z : ℕ)
    → row names n ≡ some (x ∷ y ∷ z ∷ [])
    → place (x ∷ y ∷ z ∷ []) names ≡ some n
    → Name names n
name x y z r p = record { x = x; y = y; z = z; named = r; placed = p }

wday_name : (n : ℕ) → n < 7 → Name wday n
wday_name zero h = name _ _ _ refl refl
wday_name (suc zero) h = name _ _ _ refl refl
wday_name (suc (suc zero)) h = name _ _ _ refl refl
wday_name (suc (suc (suc zero))) h = name _ _ _ refl refl
wday_name (suc (suc (suc (suc zero)))) h = name _ _ _ refl refl
wday_name (suc (suc (suc (suc (suc zero))))) h = name _ _ _ refl refl
wday_name (suc (suc (suc (suc (suc (suc zero)))))) h = name _ _ _ refl refl
wday_name (suc (suc (suc (suc (suc (suc (suc n))))))) h = absurd (omega arith)

mon_name : (n : ℕ) → n < 12 → Name mon n
mon_name zero h = name _ _ _ refl refl
mon_name (suc zero) h = name _ _ _ refl refl
mon_name (suc (suc zero)) h = name _ _ _ refl refl
mon_name (suc (suc (suc zero))) h = name _ _ _ refl refl
mon_name (suc (suc (suc (suc zero)))) h = name _ _ _ refl refl
mon_name (suc (suc (suc (suc (suc zero))))) h = name _ _ _ refl refl
mon_name (suc (suc (suc (suc (suc (suc zero)))))) h = name _ _ _ refl refl
mon_name (suc (suc (suc (suc (suc (suc (suc zero))))))) h = name _ _ _ refl refl
mon_name (suc (suc (suc (suc (suc (suc (suc (suc zero)))))))) h = name _ _ _ refl refl
mon_name (suc (suc (suc (suc (suc (suc (suc (suc (suc zero))))))))) h = name _ _ _ refl refl
mon_name (suc (suc (suc (suc (suc (suc (suc (suc (suc (suc zero)))))))))) h = name _ _ _ refl refl
mon_name (suc (suc (suc (suc (suc (suc (suc (suc (suc (suc (suc zero))))))))))) h =
    name _ _ _ refl refl
mon_name (suc (suc (suc (suc (suc (suc (suc (suc (suc (suc (suc (suc n)))))))))))) h =
    absurd (omega arith)

two-digits : (x : ℕ) → x < 100 → two (to_char (x / 10)) (to_char (x % 10)) ≡ x
two-digits x h = omega arith

four-digits :
    (x : ℕ)
    → x < 10000
    → two (to_char (x / 1000)) (to_char (x / 100 % 10)) * 100
        + two (to_char (x / 10 % 10)) (to_char (x % 10))
      ≡ x
four-digits x h = omega arith

year-1900 : (y : ℕ) → y + 1900 - 1900 ≡ y
year-1900 y = omega arith

-- Up to the year 9999 the date header is a line that a reader of the format reads back as the
-- same day and time, if the memory for it is there.
pub read_date-update_buffer : (t : Tm) → IsTm t → (update_buffer true t >>= read_date) ≡ some t
unfolding update_buffer read_date
read_date-update_buffer t h =
    let w = wday_name t.tm_wday h.wday_lt in
    let m = mon_name t.tm_mon h.mon_lt in
    simp (
      w.named,
      m.named,
      w.placed,
      m.placed,
      two-digits t.tm_mday (omega (arith, h.mday_le)),
      two-digits t.tm_hour (omega (arith, h.hour_lt)),
      two-digits t.tm_min (omega (arith, h.min_lt)),
      two-digits t.tm_sec (omega (arith, h.sec_le)),
      four-digits (t.tm_year + 1900) (omega (arith, h.year_le)),
      year-1900 t.tm_year,
    )
