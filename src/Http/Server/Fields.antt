-- ===== src/Http/Server/Fields.antt =====
-- A reader of the head of an HTTP response, and what it reads in the head that the server sends.
use libnodecc.Prelude.{
  ℕ, zero, suc, ◌≡◌, refl, arith, Bytes, codes, Bool, true, not, ◌&&◌, [], ◌∷◌, ◌++◌, length,
  Option, none, some, ◌>>=◌, is_empty,
}
use libnodecc.Prelude.{◌==◌, if◌then◌else◌}
use libnodecc.Http.Headers.{Headers}
use libnodecc.Http.Chunked.{crlf}
use libnodecc.Http.Server.Status.{no_break, read_code}

-- Behind the carriage return of a line.
abbrev pub after_cr : Bytes → Option (Bytes × Bytes)
after_cr [] = none
after_cr (c ∷ cs) = if c == 10 then some ([], cs) else none

-- A line, and what is behind its end.
unfoldable pub split_line : Bytes → Option (Bytes × Bytes)
split_line [] = none
split_line (c ∷ cs) =
    let rest = split_line cs in if c == 13 then after_cr cs else (rest >>= λ r. some (c ∷ r.0, r.1))

abbrev pub after_colon : Bytes → Option (Bytes × Bytes)
after_colon [] = none
after_colon (c ∷ cs) = if c == 32 then some ([], cs) else none

-- The name and the value in a line.
unfoldable pub split_field : Bytes → Option (Bytes × Bytes)
split_field [] = none
split_field (c ∷ cs) =
    let rest = split_field cs in
    if c == 58 then after_colon cs else (rest >>= λ r. some (c ∷ r.0, r.1))

-- At most `n` lines up to the empty one, and what is behind it.
unfoldable pub read_fields : ℕ → Bytes → Option (Headers × Bytes)
read_fields zero bs = none
read_fields (suc n) bs = split_line bs >>= λ r.
    let rest = read_fields n r.1 in
    if is_empty r.0
    then some ([], r.1)
    else (split_field r.0 >>= λ f. rest >>= λ q. some (f ∷ q.0, q.1))

abbrev pub strip : Bytes → Bytes → Option Bytes
strip [] bs = some bs
strip (e ∷ es) [] = none
strip (e ∷ es) (b ∷ bs) = if e == b then strip es bs else none

-- The code, the header fields and the body.
unfoldable pub read_response : Bytes → Option (ℕ × Headers × Bytes)
read_response bs = split_line bs >>= λ r. strip (codes "HTTP/1.1 ") r.0 >>= λ text.
    read_code text >>= λ code. read_fields (length bs) r.1 >>= λ q. some (code, q.0, q.1)

pub split-line :
    (l rest : Bytes) → no_break l ≡ true → split_line (l ++ (crlf ++ rest)) ≡ some (l, rest)
unfolding split_line no_break
split-line [] rest h = refl
split-line (c ∷ cs) rest h = ground (arith, h, split-line cs rest)

unfoldable pub no_colon : Bytes → Bool
no_colon [] = true
no_colon (c ∷ cs) = not (c == 58) && no_colon cs

pub split-field :
    (k v : Bytes) → no_colon k ≡ true → split_field (k ++ (codes ": " ++ v)) ≡ some (k, v)
unfolding split_field no_colon
split-field [] v h = refl
split-field (c ∷ cs) v h = ground (arith, h, split-field cs v)
