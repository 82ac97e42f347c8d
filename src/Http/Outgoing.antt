-- ===== src/Http/Outgoing.antt =====
-- `outgoing_message` of src/http/outgoing_message.cc. The socket is what is written to it: a call
-- of `http_write` makes at most one `_socket->write`, of a list of buffers.
pub mod Chunks
pub mod Message
pub mod Length
pub mod Bounds
pub mod Faults
mod Tests
use libnodecc.Prelude.{
  ℕ, suc, ◌+◌, ◌-◌, ◌*◌, ◌≡◌, Bytes, codes, bytes_eq, Bool, true, false, not, ◌&&◌, List, [], ◌∷◌,
  ◌++◌, length, Option, none, some,
}
use libnodecc.Prelude.{◌==◌, ltb, ◌>>=◌, if◌then◌else◌}
use libnodecc.Util.Power.{size_mod}
use libnodecc.Util.Digits.{Platform}
use libnodecc.Buffer.Mutable.{
  MutableBuffer, IsValid, empty, append, append_number, set_capacity, reset,
}
use libnodecc.Http.Headers.{Headers, find, emplace}
use libnodecc.Http.Chunked.{crlf}

pub record Outgoing : Type 0 where
  pub connected : Bool
  pub headers : Headers
  pub headers_sent : Bool
  pub is_chunked : Bool

-- `compile_headers`, which a subclass implements: it appends the head of the message.
pub record HeaderCompiler : Type 0 where
  pub compile_headers : Headers → MutableBuffer → MutableBuffer
  pub head : Headers → Bytes
  pub compile_headers-IsValid :
      (hs : Headers) (b : MutableBuffer) → IsValid b → IsValid (compile_headers hs b)
  pub bytes-compile_headers :
      (hs : Headers) (b : MutableBuffer)
      → IsValid b
      → (compile_headers hs b).bytes ≡ b.bytes ++ head hs

unfoldable pub set_header : Bytes → Bytes → Outgoing → Outgoing
set_header key value o = record o { headers = emplace key value o.headers }

-- The sum of the sizes, unless it leaves the range of `size_t`.
unfoldable pub content_length : ℕ → List Bytes → Option ℕ
content_length sum [] = some sum
content_length sum (b ∷ bs) =
    let rest = content_length (sum + length b) bs in
    if ltb (size_mod - 1 - sum) (length b) then none else rest

-- Without a length: the chunked coding.
unfoldable pub choose_chunked : Outgoing → Outgoing
choose_chunked o = record o {
  headers = emplace (codes "transfer-encoding") (codes "chunked") o.headers;
  is_chunked = true;
}

module _ ⦃p : Platform⦄ where
  -- The last write is the first one: the length is known.
  unfoldable pub choose_length : Outgoing → List Bytes → Option Outgoing
  choose_length o bufs = elim (content_length 0 bufs) [
    | none ↦ some (choose_chunked o)
    | some sum ↦ append_number empty sum 10 >>= λ buf. some (
        if buf.null
        then choose_chunked o
        else record (set_header (codes "content-length") buf.bytes o) { is_chunked = false })
  ]

  -- How the body is delimited, settled by the write that sends the headers.
  unfoldable pub choose_encoding : Outgoing → List Bytes → Bool → Option Outgoing
  choose_encoding o bufs end = elim (find (codes "content-length") o.headers) [
    | some _ ↦ some (record o { is_chunked = false })
    | none ↦ elim (find (codes "transfer-encoding") o.headers) [
      | some value ↦ some (record o { is_chunked = bytes_eq value (codes "chunked") })
      | none ↦ if end then choose_length o bufs else some (choose_chunked o)
    ]
  ]

  -- The chunked loop over the buffers; `first` is `i == 0`.
  unfoldable pub chunk_bufs : MutableBuffer → Bool → List Bytes → Option (List Bytes)
  chunk_bufs buf first [] = some []
  chunk_bufs buf first (c ∷ cs) =
      let rest = chunk_bufs (reset buf) false cs in
      append_number (if first then buf else append buf crlf) (length c) 16 >>= λ b.
      rest >>= λ ws. some ((append b crlf).bytes ∷ c ∷ ws)

-- What closes a chunked write.
unfoldable pub chunk_end : Bool → List Bytes → Bytes
chunk_end false bufs = crlf
chunk_end true [] = codes "0" ++ crlf ++ crlf
chunk_end true (b ∷ bufs) = crlf ++ codes "0" ++ crlf ++ crlf

-- `compiledBufcnt`: how many buffers the array that is written has room for.
unfoldable pub compiled_count : Outgoing → ℕ → Bool → ℕ
compiled_count o bufcnt end =
    (if not o.headers_sent && not o.is_chunked then 1 else 0)
    + (if ltb 0 bufcnt
        then (if o.is_chunked then 2 * bufcnt + 1 else bufcnt)
        else if end
        then 1
        else 0)

-- `writeEnd`: after the last write the next message has headers again.
unfoldable pub write_end : Bool → Outgoing → Outgoing
write_end end o = if end then record o { headers_sent = false } else o

-- Sending the compiled headers uses them up.
unfoldable pub after_headers : Outgoing → Outgoing
after_headers o = if o.headers_sent then o else record o { headers = []; headers_sent = true }

module _ ⦃p : Platform⦄ (compiler : HeaderCompiler) where
  -- The headers, if they are still to be sent.
  unfoldable pub header_buffer : Outgoing → MutableBuffer
  header_buffer o =
      if o.headers_sent
      then empty
      else compiler.compile_headers o.headers (set_capacity [] empty 800)

  -- The buffers of `compiledBufs`.
  unfoldable pub compiled : Outgoing → List Bytes → Bool → Option (List Bytes)
  compiled o bufs end =
      if o.is_chunked
      then (chunk_bufs (header_buffer o) true bufs >>= λ ws. some (ws ++ (chunk_end end bufs ∷ [])))
      else some (if o.headers_sent then bufs else (header_buffer o).bytes ∷ bufs)

  unfoldable pub send : Outgoing → List Bytes → Bool → Option (Outgoing × List (List Bytes))
  send o bufs end =
      let count = compiled_count o (length bufs) end in
      if count == 0
      then some (write_end end o, [])
      else if count == length bufs
      then some (write_end end o, bufs ∷ [])
      else compiled o bufs end >>= λ ws. some (write_end end (after_headers o), ws ∷ [])

  -- `none` is a fault of `append_number`.
  unfoldable pub http_write : Outgoing → List Bytes → Bool → Option (Outgoing × List (List Bytes))
  http_write o bufs end =
      if not o.connected
      then some (o, [])
      else (if o.headers_sent then some o else choose_encoding o bufs end) >>= λ o'.
          send o' bufs end

  -- `_write` and `_end`, which the stream calls.
  unfoldable pub write : Outgoing → List Bytes → Option (Outgoing × List (List Bytes))
  write o bufs = http_write o bufs false

  unfoldable pub finish : Outgoing → List Bytes → Option (Outgoing × List (List Bytes))
  finish o bufs = http_write o bufs true >>= λ r. some (record (r.0) { headers = [] }, r.1)
