-- ===== src/Http/Outgoing/Faults.antt =====
-- Calls that do not do what the interface promises.
use libnodecc.Prelude.{◌≡◌, ◌≢◌, refl, arith, Bytes, codes, true, false, List, [], ◌∷◌, none, some}
use libnodecc.Util.Digits.{Platform}
use libnodecc.Buffer.Mutable.Numbers.{append_number-hex_zero}
use libnodecc.Http.Headers.{find}
use libnodecc.Http.Chunked.{last_chunk}
use libnodecc.Http.Outgoing.{
  Outgoing, HeaderCompiler, choose_chunked, choose_encoding, chunk_bufs, chunk_end, after_headers,
  compiled_count, header_buffer, compiled, write_end, send, http_write, write, finish,
}
use libnodecc.Http.Outgoing.Message.{header_buffer_lem}

module _ ⦃p : Platform⦄ (compiler : HeaderCompiler) where
  -- `send_headers` is a write of no buffers. Where no length is set it settles on the chunked coding
  -- and sends nothing.
  pub write-no_chunks :
      (o : Outgoing)
      → o.connected ≡ true
      → o.headers_sent ≡ false
      → find (codes "content-length") o.headers ≡ none
      → find (codes "transfer-encoding") o.headers ≡ none
      → write compiler o [] ≡ some (choose_chunked o, [])
  unfolding write http_write send choose_encoding compiled_count write_end choose_chunked
  write-no_chunks o up unsent no_length no_coding = ground arith

  -- A message with the coding set to "chunked" by the program, and no body: the end marker is sent
  -- without the headers, which are dropped.
  pub finish-drops_headers :
      (o : Outgoing)
      → o.connected ≡ true
      → o.headers_sent ≡ false
      → find (codes "content-length") o.headers ≡ none
      → find (codes "transfer-encoding") o.headers ≡ some (codes "chunked")
      → (final : Outgoing) × (finish compiler o [] ≡ some (final, (last_chunk ∷ []) ∷ []))
        × (final.headers ≡ [])
  unfolding finish http_write send choose_encoding compiled_count compiled chunk_bufs chunk_end
      after_headers write_end
  finish-drops_headers o up unsent no_length coding =
      (record o { headers = []; headers_sent = false; is_chunked = true }, ground arith, refl)

  first_header_buffer :
      (o : Outgoing)
      → o.headers_sent ≡ false
      → compiler.head (choose_chunked o).headers ≢ []
      → (header_buffer compiler (choose_chunked o)).null ≡ false
  unfolding choose_chunked
  first_header_buffer o unsent head = ground (
    arith,
    (header_buffer_lem compiler (choose_chunked o)).0.of_null,
    (header_buffer_lem compiler (choose_chunked o)).1,
  )

  -- A first write whose first buffer is empty divides by zero.
  pub write-empty_chunk :
      (o : Outgoing) (cs : List Bytes)
      → o.connected ≡ true
      → o.headers_sent ≡ false
      → find (codes "content-length") o.headers ≡ none
      → find (codes "transfer-encoding") o.headers ≡ none
      → compiler.head (choose_chunked o).headers ≢ []
      → write compiler o ([] ∷ cs) ≡ none
  unfolding write http_write send choose_encoding compiled_count compiled chunk_bufs choose_chunked
  write-empty_chunk o cs up unsent no_length no_coding head = ground (
    arith,
    first_header_buffer o unsent head,
    append_number-hex_zero (header_buffer compiler (choose_chunked o)),
  )
