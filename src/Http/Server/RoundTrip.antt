-- ===== src/Http/Server/RoundTrip.antt =====
-- The head of a response and the reader of it.
use libnodecc.Prelude.{
  ℕ, zero, suc, ◌≤◌, ◌≡◌, refl, sym, ap, arith, Bytes, codes, Bool, true, false, ◌&&◌, [], ◌∷◌,
  ◌++◌, append_assoc, take, length, length-append, some, is_empty, All, All-append,
}
use libnodecc.Prelude.{if◌then◌else◌}
use libnodecc.Http.Headers.{Headers}
use libnodecc.Http.Chunked.{crlf}
use libnodecc.Http.Request.{whole, header_lines}
use libnodecc.Buffer.View.{npos}
use libnodecc.Buffer.Mutable.{MutableBuffer, IsValid}
use libnodecc.Http.Server.Head.{compile_headers-Holds}
use libnodecc.Http.Server.{Response, compile_headers, status_text, is_missing, response_head}
use libnodecc.Http.Server.Status.{no_break, sent_code, status_text-IsText}
use libnodecc.Http.Server.Fields.{read_fields, read_response, split-line, split-field, no_colon}

-- A name and a value that a header field can hold.
pub record IsField (f : Bytes × Bytes) : Type 0 where
  pub name_unbroken : no_break (f.0) ≡ true
  pub name_plain : no_colon (f.0) ≡ true
  pub value_unbroken : no_break (f.1) ≡ true
  pub name_le : length (f.0) ≤ npos
  pub value_le : length (f.1) ≤ npos

abbrev line_of : Bytes × Bytes → Bytes
line_of f = f.0 ++ (codes ": " ++ f.1)

-- The lines of the fields.
field_lines : Headers → Bytes
field_lines [] = []
field_lines (f ∷ fs) = line_of f ++ (crlf ++ field_lines fs)

take-all : (n : ℕ) (bs : Bytes) → length bs ≤ n → take n bs ≡ bs
take-all zero [] h = refl
take-all (suc n) [] h = refl
take-all zero (b ∷ bs) h = absurd (omega arith)
take-all (suc n) (b ∷ bs) h = ap (λ t. b ∷ t) (take-all n bs (omega arith))

header-lines : (hs : Headers) → All IsField hs → header_lines hs ≡ field_lines hs
unfolding header_lines field_lines whole
header-lines [] h = refl
header-lines ((k, v) ∷ hs) h =
    rw (take-all npos k h.0.name_le, take-all npos v h.0.value_le, header-lines hs h.1)
      (sym (append_assoc k (codes ": " ++ v) (crlf ++ field_lines hs)))

no_break-append :
    (xs ys : Bytes) → no_break xs ≡ true → no_break ys ≡ true → no_break (xs ++ ys) ≡ true
unfolding no_break
no_break-append [] ys h k = k
no_break-append (c ∷ cs) ys h k = ground (arith, h, no_break-append cs ys)

no_break-line : (f : Bytes × Bytes) → IsField f → no_break (line_of f) ≡ true
no_break-line f h = no_break-append (f.0) _ h.name_unbroken (unfold no_break in h.value_unbroken)

nonempty_line : (f : Bytes × Bytes) → is_empty (line_of f) ≡ false
nonempty_line ([], v) = refl
nonempty_line (c ∷ cs, v) = refl

read-field_lines :
    (n : ℕ) (fs : Headers) (body : Bytes)
    → length fs ≤ n
    → All IsField fs
    → read_fields (suc n) (field_lines fs ++ (crlf ++ body)) ≡ some (fs, body)
unfolding read_fields field_lines
read-field_lines n [] body h k = rw (split-line [] body (unfold no_break in refl)) refl
read-field_lines zero (f ∷ fs) body h k = absurd (omega arith)
read-field_lines (suc n) (f ∷ fs) body h k =
    rw
      (
        append_assoc (line_of f) (crlf ++ field_lines fs) (crlf ++ body),
        split-line (line_of f) (field_lines fs ++ (crlf ++ body)) (no_break-line f k.0),
        nonempty_line f,
        split-field (f.0) (f.1) k.0.name_plain,
        read-field_lines n fs body (omega arith) k.1,
      )
      refl

length-field_lines : (fs : Headers) → length fs ≤ length (field_lines fs)
unfolding field_lines
length-field_lines [] = omega arith
length-field_lines (f ∷ fs) =
    rw (length-append (line_of f) (crlf ++ field_lines fs)) (omega (arith, length-field_lines fs))

field_lines-append : (fs gs : Headers) → field_lines (fs ++ gs) ≡ field_lines fs ++ field_lines gs
unfolding field_lines
field_lines-append [] gs = refl
field_lines-append (f ∷ fs) gs =
    rw (field_lines-append fs gs)
      (sym (append_assoc (line_of f) (crlf ++ field_lines fs) (field_lines gs)))

read-enough :
    (n : ℕ) (fs : Headers) (body : Bytes)
    → suc (length fs) ≤ n
    → All IsField fs
    → read_fields n (field_lines fs ++ (crlf ++ body)) ≡ some (fs, body)
read-enough zero fs body h k = absurd (omega arith)
read-enough (suc n) fs body h k = read-field_lines n fs body (omega arith) k

abbrev pub optional : Bool → Bytes × Bytes → Headers
optional present f = if present then f ∷ [] else []

optional_lines :
    (present : Bool) (f : Bytes × Bytes) (bs : Bytes)
    → bs ≡ field_lines (f ∷ [])
    → (if present then bs else []) ≡ field_lines (optional present f)
unfolding field_lines
optional_lines true f bs h = h
optional_lines false f bs h = refl

optional-IsField :
    (present : Bool) (f : Bytes × Bytes) → IsField f → All IsField (optional present f)
optional-IsField true f h = (h, record {})
optional-IsField false f h = record {}

abbrev pub closing : Bytes × Bytes
closing = (codes "connection", codes "close")

closing-IsField : IsField closing
unfolding no_break no_colon
closing-IsField = record {
  name_unbroken = refl;
  name_plain = refl;
  value_unbroken = refl;
  name_le = omega arith;
  value_le = omega arith;
}

-- The fields of a response: the date, those that were set, and the closing of the connection.
unfoldable pub sent_fields : Bytes → Response → Headers → Headers
sent_fields v r hs =
    optional (is_missing (codes "date") hs) (codes "date", v)
    ++ (hs ++ optional (r.shutdown_on_end && is_missing (codes "connection") hs) closing)

module _ (v : Bytes) (r : Response) (hs : Headers) (v_field : IsField (codes "date", v))
    (hs_fields : All IsField hs) where
  sent-IsField : All IsField (sent_fields v r hs)
  unfolding sent_fields
  sent-IsField =
      All-append IsField (optional (is_missing (codes "date") hs) _) _
        (optional-IsField _ _ v_field)
        (All-append IsField hs _ hs_fields (optional-IsField _ _ closing-IsField))

  head_lines :
      (date : Bytes)
      → date ≡ codes "date: " ++ (v ++ crlf)
      → length date ≤ npos
      → response_head date r hs
        ≡ (codes "HTTP/1.1 " ++ status_text r.status_code)
          ++ (crlf ++ (field_lines (sent_fields v r hs) ++ crlf))
  unfolding response_head whole sent_fields field_lines
  head_lines date e le =
      let dated =
        optional_lines (is_missing (codes "date") hs) (codes "date", v)
          (codes "date: " ++ (v ++ crlf)) refl in
      let closed =
        optional_lines (r.shutdown_on_end && is_missing (codes "connection") hs) closing
          (codes "connection: close\r\n") refl in
      rw
        (
          take-all npos date le,
          e,
          dated,
          header-lines hs hs_fields,
          closed,
          field_lines-append,
          field_lines-append,
        )
        (simp append_assoc)

read_response-head :
    (date v : Bytes) (r : Response) (hs : Headers) (body : Bytes)
    → date ≡ codes "date: " ++ (v ++ crlf)
    → length date ≤ npos
    → IsField (codes "date", v)
    → All IsField hs
    → read_response (response_head date r hs ++ body)
      ≡ some (sent_code r.status_code, sent_fields v r hs, body)
unfolding read_response
read_response-head date v r hs body e le v_field hs_fields =
    let fs = sent_fields v r hs in
    let text = status_text-IsText r.status_code in
    let all =
      (codes "HTTP/1.1 " ++ status_text r.status_code)
      ++ (crlf ++ (field_lines fs ++ (crlf ++ body))) in
    let whole_message : response_head date r hs ++ body ≡ all =
      rw (head_lines v r hs v_field hs_fields date e le) (simp append_assoc) in
    let enough : suc (length fs) ≤ length all = omega (
      arith,
      length-append (status_text r.status_code) (crlf ++ (field_lines fs ++ (crlf ++ body))),
      length-append (field_lines fs) (crlf ++ body),
      length-field_lines fs,
    ) in
    rw
      (
        whole_message,
        split-line (codes "HTTP/1.1 " ++ status_text r.status_code)
            (field_lines fs ++ (crlf ++ body)) (unfold no_break in text.unbroken),
        text.reads,
        read-enough (length all) fs body enough (sent-IsField v r hs v_field hs_fields),
      )
      refl

-- What compile_headers appends to a valid buffer without bytes, with a body behind it, is read
-- back: the status code if the table has a text for it and 500 if not, then the date that the
-- date buffer gives unless a date was set, the fields that were set, and the closing of the
-- connection if the response shuts it down and sets no connection, and the body. The fields can
-- stand in lines of their own, and nothing is longer than SIZE_MAX.
pub read_response-compile_headers :
    (date v : Bytes) (r : Response) (hs : Headers) (b : MutableBuffer) (body : Bytes)
    → IsValid b
    → b.bytes ≡ []
    → date ≡ codes "date: " ++ (v ++ crlf)
    → length date ≤ npos
    → IsField (codes "date", v)
    → All IsField hs
    → read_response ((compile_headers date r hs b).bytes ++ body)
      ≡ some (sent_code r.status_code, sent_fields v r hs, body)
read_response-compile_headers date v r hs b body valid none_yet e le v_field hs_fields =
    rw ((compile_headers-Holds date r hs b valid).bytes, none_yet)
      (read_response-head date v r hs body e le v_field hs_fields)
