-- ===== src/Http/Server.antt =====
-- src/http/server.cc: the responses of an HTTP server, and what it does with a request.
pub mod StatusCodes
pub mod Status
pub mod Head
pub mod Fields
pub mod RoundTrip
pub mod Handler
pub mod Refusals
mod Tests
use libnodecc.Prelude.{
  ℕ, ◌+◌, ◌%◌, ◌^◌, Bytes, codes, Bool, true, false, not, ◌&&◌, List, [], ◌∷◌, ◌++◌, take, Option,
  none, some, ◌>>=◌,
}
use libnodecc.Prelude.{if◌then◌else◌}
use libnodecc.Util.Digits.{Platform}
use libnodecc.Buffer.Mutable.{MutableBuffer, append}
use libnodecc.Stream.{Writable, writable, end_with}
use libnodecc.Http.Headers.{Headers, find}
use libnodecc.Http.Chunked.{crlf}
use libnodecc.Http.Outgoing.{Outgoing, HeaderCompiler, finish}
use libnodecc.Http.Request.{append_whole, append_headers, whole, header_lines}
use libnodecc.Http.Incoming.{Message, has_header}
use libnodecc.Http.Server.StatusCodes.{str_status_code}

pub record Response : Type 0 where
  pub message : Outgoing
  pub stream : Writable
  pub status_code : ℕ
  pub shutdown_on_end : Bool

unfoldable pub set_status_code : ℕ → Response → Response
set_status_code code r = record r { status_code = code % 2 ^ 16 }

-- What `append(status.base, status.len)` appends, or `other` without a base.
abbrev pub text_or : Bytes → ℕ × Option Bytes → Bytes
text_or other (len, none) = other
text_or other (len, some base) = take len base

-- The text of the status, or that of 500.
unfoldable pub status_text : ℕ → Bytes
status_text code = text_or (text_or [] (str_status_code 500)) (str_status_code code)

abbrev pub is_missing : Bytes → Headers → Bool
is_missing key hs = elim (find key hs) [ none ↦ true | some v ↦ false ]

-- The text of the head.
unfoldable pub response_head : Bytes → Response → Headers → Bytes
response_head date r hs =
    codes "HTTP/1.1 "
    ++ (status_text r.status_code
        ++ (crlf
            ++ ((if is_missing (codes "date") hs then whole date else [])
                ++ (header_lines hs
                    ++ ((if r.shutdown_on_end && is_missing (codes "connection") hs
                          then codes "connection: close\r\n"
                          else [])
                        ++ crlf)))))

-- `date` is what the date buffer holds after its `update`.
unfoldable pub compile_headers : Bytes → Response → Headers → MutableBuffer → MutableBuffer
compile_headers date r hs b =
    let b₁ = append (append (append b (codes "HTTP/1.1 ")) (status_text r.status_code)) crlf in
    let b₂ = if is_missing (codes "date") hs then append_whole b₁ date else b₁ in
    let b₃ = append_headers hs b₂ in
    let b₄ =
      if r.shutdown_on_end && is_missing (codes "connection") hs
      then append b₃ (codes "connection: close\r\n")
      else b₃ in
    append b₄ crlf
