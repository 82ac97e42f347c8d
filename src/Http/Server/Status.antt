-- ===== src/Http/Server/Status.antt =====
-- The status line: what the table of src/http/_status_codes.h makes of a code.
use libnodecc.Prelude.{
  ℕ, ◌≡◌, refl, ap, arith, Bytes, codes, Bool, true, false, not, ◌&&◌, List, [], ◌∷◌, take, length,
  Option, none, some, Bool-cases, inl, inr, ==_iff,
}
use libnodecc.Prelude.{◌==◌, if◌then◌else◌}
use libnodecc.Buffer.Number.{read_number, char_value}
use libnodecc.Http.Server.{status_text, text_or}
use libnodecc.Http.Server.StatusCodes.{Entry, status_codes, find_status, str_status_code}

-- A line of its own can hold these bytes.
unfoldable pub no_break : Bytes → Bool
no_break [] = true
no_break (c ∷ cs) = not (c == 13) && no_break cs

-- The number of three digits that a text starts with.
unfoldable pub read_code : Bytes → Option ℕ
read_code text = read_number 10 0 (take 3 text)

abbrev is_number : Option ℕ → ℕ → Bool
is_number none n = false
is_number (some m) n = m == n

abbrev text_ok : ℕ → ℕ → Bytes → Bool
text_ok code len base =
    (len == length base) && (is_number (read_code (take len base)) code && no_break (take len base))

result_ok : ℕ → ℕ × Option Bytes → Bool
result_ok code (len, none) = true
result_ok code (len, some base) = text_ok code len base

all_ok : List Entry → Bool
all_ok [] = true
all_ok ((s, len, base) ∷ es) = result_ok s (len, base) && all_ok es

table_ok : all_ok status_codes ≡ true
unfolding all_ok result_ok status_codes read_code read_number no_break char_value
table_ok = refl

find_status-ok :
    (code : ℕ) (es : List Entry) → all_ok es ≡ true → result_ok code (find_status code es) ≡ true
unfolding all_ok find_status
find_status-ok code [] h = unfold result_ok in refl
find_status-ok code ((s, len, base) ∷ es) h = elim (Bool-cases (s == code)) [
  | inr e ↦ rw e (find_status-ok code es (ground (arith, h)))
  | inl e ↦ rw (e, ← (==_iff s code).0 e) (ground (arith, h))
]

-- What a reader has to find for a code: a code of the table, and a text that fits a line.
pub record IsText (code : ℕ) (text : Bytes) : Type 0 where
  pub reads : read_code text ≡ some code
  pub unbroken : no_break text ≡ true

is_number-eq : (o : Option ℕ) (n : ℕ) → is_number o n ≡ true → o ≡ some n
is_number-eq none n h = ground (arith, h)
is_number-eq (some m) n h = ap some ((==_iff m n).0 h)

text_ok-IsText :
    (code len : ℕ) (base : Bytes) → text_ok code len base ≡ true → IsText code (take len base)
text_ok-IsText code len base h = record {
  reads = is_number-eq (read_code (take len base)) code (ground (arith, h));
  unbroken = ground (arith, h);
}

abbrev pub has_base : ℕ × Option Bytes → Bool
has_base (len, none) = false
has_base (len, some base) = true

-- The code of the text that a response with this code gets.
unfoldable pub sent_code : ℕ → ℕ
sent_code code = if has_base (str_status_code code) then code else 500

str_status_code-ok : (code : ℕ) → result_ok code (str_status_code code) ≡ true
unfolding str_status_code
str_status_code-ok code = find_status-ok code status_codes table_ok

internal_error-IsText : IsText 500 (codes "500 Internal Server Error")
unfolding read_code read_number char_value no_break
internal_error-IsText = record { reads = refl; unbroken = refl }

text_or-IsText :
    (code : ℕ) (r : ℕ × Option Bytes)
    → result_ok code r ≡ true
    → IsText (if has_base r then code else 500) (text_or (codes "500 Internal Server Error") r)
unfolding result_ok
text_or-IsText code (len, none) h = internal_error-IsText
text_or-IsText code (len, some base) h = text_ok-IsText code len base h

text_of_500 : text_or [] (str_status_code 500) ≡ codes "500 Internal Server Error"
unfolding str_status_code find_status status_codes
text_of_500 = refl

-- The text of a code that the table has, and that of 500 for the others.
pub status_text-IsText : (code : ℕ) → IsText (sent_code code) (status_text code)
unfolding sent_code status_text
status_text-IsText code =
    rw text_of_500 (text_or-IsText code (str_status_code code) (str_status_code-ok code))
