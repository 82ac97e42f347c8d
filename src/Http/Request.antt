-- ===== src/Http/Request.antt =====
-- `client::detail::request::compile_headers` of src/http/request.cc: the head of a request.
use libnodecc.Buffer.View.{npos}
use libnodecc.Prelude.{
  ◌≡◌, refl, ap, ◌∙◌, Bytes, codes, [], ◌∷◌, ◌++◌, append_assoc, append-nil, take,
}
use libnodecc.Buffer.Mutable.{MutableBuffer, IsValid, append, append_buffer, push_back}
use libnodecc.Buffer.Mutable.Contents.{bytes-append, append_buffer_start}
use libnodecc.Buffer.Mutable.Validity.{append-IsValid, append_buffer-IsValid}
use libnodecc.Http.Headers.{Headers}
use libnodecc.Http.Chunked.{crlf}
use libnodecc.Http.Outgoing.{HeaderCompiler}

-- `append(const node::buffer&)`, with `count` left at `npos`.
unfoldable pub append_whole : MutableBuffer → Bytes → MutableBuffer
append_whole b src = append_buffer b src 0 npos

-- What `npos` lets through: all of a buffer that fits in memory.
unfoldable pub whole : Bytes → Bytes
whole src = take npos src

pub record Request : Type 0 where
  pub host : Bytes
  pub method : Bytes
  pub path : Bytes

unfoldable pub append_headers : Headers → MutableBuffer → MutableBuffer
append_headers [] b = b
append_headers ((k, v) ∷ hs) b =
    append_headers hs (append (append_whole (append (append_whole b k) (codes ": ")) v) crlf)

unfoldable pub compile_headers : Request → Headers → MutableBuffer → MutableBuffer
compile_headers r hs b =
    let b₁ = append_whole (push_back (append_whole b r.method) b' ') r.path in
    let b₂ =
      append (append_whole (append b₁ (codes " HTTP/1.1" ++ crlf ++ codes "host: ")) r.host) crlf in
    append (append_headers hs b₂) crlf

-- The text of the head.
unfoldable pub header_lines : Headers → Bytes
header_lines [] = []
header_lines ((k, v) ∷ hs) = whole k ++ (codes ": " ++ (whole v ++ (crlf ++ header_lines hs)))

unfoldable pub request_head : Request → Headers → Bytes
request_head r hs =
    whole r.method
    ++ (b' ' ∷ whole r.path
        ++ (codes " HTTP/1.1"
            ++ crlf
            ++ codes "host: "
            ++ (whole r.host ++ (crlf ++ (header_lines hs ++ crlf)))))

-- A buffer that is valid and holds these bytes.
pub record Holds (b : MutableBuffer) (bs : Bytes) : Type 0 where
  pub valid : IsValid b
  pub bytes : b.bytes ≡ bs

pub append_whole-Holds :
    {b : MutableBuffer} {bs : Bytes} (src : Bytes)
    → Holds b bs
    → Holds (append_whole b src) (bs ++ whole src)
unfolding append_whole whole
append_whole-Holds {b} src h = record {
  valid = append_buffer-IsValid b src 0 npos h.valid;
  bytes = append_buffer_start b src npos h.valid ∙ ap (λ t. t ++ take npos src) h.bytes;
}

pub append-Holds :
    {b : MutableBuffer} {bs : Bytes} (src : Bytes) → Holds b bs → Holds (append b src) (bs ++ src)
append-Holds {b} src h = record {
  valid = append-IsValid b src h.valid;
  bytes = bytes-append b src h.valid ∙ ap (λ t. t ++ src) h.bytes;
}

pub Holds-eq : {b : MutableBuffer} {xs ys : Bytes} → xs ≡ ys → Holds b xs → Holds b ys
Holds-eq e h = record { valid = h.valid; bytes = h.bytes ∙ e }

pub append_headers-Holds :
    (hs : Headers) {b : MutableBuffer} {bs : Bytes}
    → Holds b bs
    → Holds (append_headers hs b) (bs ++ header_lines hs)
unfolding append_headers header_lines
append_headers-Holds [] h = rw append-nil h
append_headers-Holds ((k, v) ∷ hs) h = Holds-eq (simp append_assoc) (
    append_headers-Holds hs (
      append-Holds crlf
        (append_whole-Holds v (append-Holds (codes ": ") (append_whole-Holds k h)))))

pub compile_headers-Holds :
    (r : Request) (hs : Headers) (b : MutableBuffer)
    → IsValid b
    → Holds (compile_headers r hs b) (b.bytes ++ request_head r hs)
unfolding compile_headers request_head push_back
compile_headers-Holds r hs b v = Holds-eq (simp append_assoc) (
    append-Holds crlf (
      append_headers-Holds hs (
        append-Holds crlf (
          append_whole-Holds r.host (
            append-Holds (codes " HTTP/1.1" ++ crlf ++ codes "host: ") (
              append_whole-Holds r.path (
                append-Holds (b' ' ∷ [])
                  (append_whole-Holds r.method (record { valid = v; bytes = refl })))))))))

-- A request implements what an outgoing message asks of its subclass.
unfoldable pub request_compiler : Request → HeaderCompiler
request_compiler r = record {
  compile_headers = compile_headers r;
  head = request_head r;
  compile_headers-IsValid = λ hs b v. (compile_headers-Holds r hs b v).valid;
  bytes-compile_headers = λ hs b v. (compile_headers-Holds r hs b v).bytes;
}
