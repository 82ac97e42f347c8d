-- ===== src/Http/Outgoing/Tests.antt =====
-- Runs of the outgoing message, and its theorems at a request to a host.
use libnodecc.Prelude.{
  ℕ, ◌<◌, ◌≤◌, ◌≡◌, ◌≢◌, refl, arith, Bytes, codes, true, false, List, [], ◌∷◌, ◌++◌, length, none,
  some,
}
use libnodecc.Util.Sample.{sample_platform, clz_by_halving}
use libnodecc.Buffer.Number.{read_number}
use libnodecc.Http.Headers.{find, emplace}
use libnodecc.Http.Chunked.{decode, last_chunk}
use libnodecc.Http.Request.{Request, request_head, request_compiler, whole}
use libnodecc.Util.Sample.{bit_size}
use libnodecc.Util.Power.{ipow}
use libnodecc.Util.Digits.{digits}
use libnodecc.Buffer.Number.{emit}
use libnodecc.Buffer.Mutable.{
  append_buffer, append, push_back, append_number, expand_size, grown, fill, slice, of_slice, reset,
  set_capacity, set_size,
}
use libnodecc.Http.Request.{compile_headers, append_headers, append_whole}
use libnodecc.Http.Outgoing.{
  Outgoing, choose_chunked, choose_encoding, chunk_bufs, chunk_end, header_buffer, compiled_count,
  compiled, write, finish, http_write, send, write_end, after_headers,
}
use libnodecc.Http.Outgoing.Message.{message, message-decode, wire}
use libnodecc.Http.Outgoing.Length.{finish-length}
use libnodecc.Http.Outgoing.Bounds.{length-compiled}
use libnodecc.Http.Outgoing.Faults.{write-no_chunks, finish-drops_headers, write-empty_chunk}

abbrev get_index : Request
get_index = record { host = codes "a.org"; method = codes "GET"; path = codes "/" }

abbrev start : Outgoing
start = record { connected = true; headers = []; headers_sent = false; is_chunked = false }

abbrev chunked_start : Outgoing
chunked_start = record start { headers = (codes "transfer-encoding", codes "chunked") ∷ [] }

abbrev hello : Bytes
hello = codes "hello world, hello"

whole_message :
    message (request_compiler get_index) start ((hello ∷ []) ∷ []) (codes "!" ∷ [])
    ≡ some (
      record { connected = true; headers = []; headers_sent = false; is_chunked = true },
      codes
          "GET / HTTP/1.1\r\nhost: a.org\r\ntransfer-encoding: chunked\r\n\r\n12\r\nhello world, hello\r\n1\r\n!\r\n0\r\n\r\n",
    )
unfolding message write finish http_write send choose_encoding choose_chunked write_end
    after_headers compiled compiled_count chunk_bufs chunk_end header_buffer find emplace
    request_compiler compile_headers append_headers append_whole append_buffer append push_back
    append_number expand_size grown fill slice of_slice reset set_capacity set_size digits ipow emit
    clz_by_halving bit_size
whole_message = refl

message-decode_example :
    (final : Outgoing) × (body : Bytes) × (message
        (request_compiler get_index)
        start
        ((hello ∷ []) ∷ [])
        (codes "!" ∷ [])
      ≡ some (
        final,
        (request_compiler get_index).head (emplace (codes "transfer-encoding") (codes "chunked") [])
            ++ body,
      ))
    × ((fuel : ℕ) → 2 < fuel → decode fuel body ≡ some (codes "hello world, hello!"))
    × (final.headers_sent ≡ false)
    × (final.headers ≡ [])
message-decode_example =
    message-decode (request_compiler get_index) start hello [] [] (codes "!" ∷ []) refl refl
      (unfold find in refl) (unfold find in refl) (omega arith) (omega arith)

finish-length_example :
    (final : Outgoing) × (writes : List (List Bytes)) × (ds : Bytes) × (finish
        (request_compiler get_index)
        start
        (hello ∷ codes "!" ∷ [])
      ≡ some (final, writes))
    × (wire writes
        ≡ (request_compiler get_index).head (emplace (codes "content-length") ds [])
          ++ codes "hello world, hello!")
    × (read_number 10 0 ds ≡ some 19)
    × (final.headers_sent ≡ false)
    × (final.headers ≡ [])
finish-length_example =
    finish-length (request_compiler get_index) start (hello ∷ codes "!" ∷ []) refl refl
      (unfold find in refl) (unfold find in refl) (omega arith)

three_places :
    compiled
      (request_compiler get_index)
      (record start { headers_sent = true; is_chunked = true })
      (hello ∷ [])
      true
    ≡ some (codes "12\r\n" ∷ hello ∷ codes "\r\n0\r\n\r\n" ∷ [])
unfolding compiled chunk_bufs chunk_end header_buffer append_number append expand_size grown fill
    reset digits ipow emit clz_by_halving bit_size
three_places = refl

room : 0 < compiled_count (record start { headers_sent = true; is_chunked = true }) 1 true
unfolding compiled_count
room = omega arith

length-compiled_example :
    length {A = Bytes} (codes "12\r\n" ∷ hello ∷ codes "\r\n0\r\n\r\n" ∷ [])
    ≤ compiled_count (record start { headers_sent = true; is_chunked = true }) 1 true
length-compiled_example =
    length-compiled (request_compiler get_index)
      (record start { headers_sent = true; is_chunked = true }) (hello ∷ []) true room three_places

write-no_chunks_example :
    write (request_compiler get_index) start [] ≡ some (choose_chunked start, [])
write-no_chunks_example =
    write-no_chunks (request_compiler get_index) start refl refl (unfold find in refl)
      (unfold find in refl)

finish-drops_headers_example :
    (final : Outgoing) × (finish (request_compiler get_index) chunked_start []
      ≡ some (final, (last_chunk ∷ []) ∷ []))
    × (final.headers ≡ [])
finish-drops_headers_example =
    finish-drops_headers (request_compiler get_index) chunked_start refl refl (unfold find in refl)
      (unfold find in refl)

get_index_head : (request_compiler get_index).head (choose_chunked start).headers ≢ []
unfolding request_compiler request_head whole
get_index_head = ground arith

write-empty_chunk_example : write (request_compiler get_index) start ([] ∷ hello ∷ []) ≡ none
write-empty_chunk_example =
    write-empty_chunk (request_compiler get_index) start (hello ∷ []) refl refl
      (unfold find in refl) (unfold find in refl) get_index_head
