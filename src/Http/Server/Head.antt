-- ===== src/Http/Server/Head.antt =====
-- The head of a response, as the bytes that `compile_headers` appends.
use libnodecc.Prelude.{
  refl, Bytes, codes, Bool, true, false, ◌&&◌, [], ◌++◌, append_assoc, append-nil,
}
use libnodecc.Prelude.{if◌then◌else◌}
use libnodecc.Buffer.Mutable.{MutableBuffer, IsValid}
use libnodecc.Http.Headers.{Headers}
use libnodecc.Http.Chunked.{crlf}
use libnodecc.Http.Outgoing.{HeaderCompiler}
use libnodecc.Http.Request.{
  Holds, Holds-eq, append-Holds, append_whole-Holds, append_headers-Holds, whole,
}
use libnodecc.Http.Server.{Response, status_text, is_missing, compile_headers, response_head}

optional-Holds :
    (present : Bool) {b c : MutableBuffer} {bs : Bytes} (more : Bytes)
    → Holds b bs
    → Holds c (bs ++ more)
    → Holds (if present then c else b) (bs ++ (if present then more else []))
optional-Holds true more h k = k
optional-Holds false {b} {c} {bs} more h k = rw append-nil h

pub compile_headers-Holds :
    (date : Bytes) (r : Response) (hs : Headers) (b : MutableBuffer)
    → IsValid b
    → Holds (compile_headers date r hs b) (b.bytes ++ response_head date r hs)
unfolding compile_headers response_head
compile_headers-Holds date r hs b v =
    let line = append-Holds crlf (
      append-Holds (status_text r.status_code)
        (append-Holds (codes "HTTP/1.1 ") (record { valid = v; bytes = refl }))) in
    let dated =
      optional-Holds (is_missing (codes "date") hs) (whole date) line
        (append_whole-Holds date line) in
    let filled = append_headers-Holds hs dated in
    let closed =
      optional-Holds (r.shutdown_on_end && is_missing (codes "connection") hs)
        (codes "connection: close\r\n") filled
        (append-Holds (codes "connection: close\r\n") filled) in
    Holds-eq (simp append_assoc) (append-Holds crlf closed)

-- A response implements what an outgoing message asks of its subclass.
unfoldable pub response_compiler : Bytes → Response → HeaderCompiler
response_compiler date r = record {
  compile_headers = compile_headers date r;
  head = response_head date r;
  compile_headers-IsValid = λ hs b v. (compile_headers-Holds date r hs b v).valid;
  bytes-compile_headers = λ hs b v. (compile_headers-Holds date r hs b v).bytes;
}
