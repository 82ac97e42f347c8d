-- ===== src/Http/Outgoing/Length.antt =====
-- A message that is written at once, with its length in a header.
use libnodecc.Prelude.{
  ℕ, ◌+◌, ◌<◌, ◌≡◌, refl, ap, arith, Bytes, codes, concat, true, false, List, [], ◌∷◌, ◌++◌,
  append-nil, length, length-append, none, some,
}
use libnodecc.Util.Power.{size_mod}
use libnodecc.Util.Digits.{Platform, digits, decimal_limit, decimal_limit_le}
use libnodecc.Buffer.Number.{read_number}
use libnodecc.Buffer.Mutable.{empty, append_number}
use libnodecc.Buffer.Mutable.Validity.{empty-IsValid}
use libnodecc.Buffer.Mutable.Numbers.{Written, append_number-decimal}
use libnodecc.Http.Headers.{find, emplace}
use libnodecc.Http.Outgoing.{
  Outgoing, HeaderCompiler, set_header, content_length, choose_length, choose_encoding,
  after_headers, compiled_count, header_buffer, compiled, write_end, send, http_write, finish,
}
use libnodecc.Http.Outgoing.Message.{wire, header_buffer_lem}

content_length_lem :
    (sum : ℕ) (bufs : List Bytes)
    → sum + length (concat bufs) < size_mod
    → content_length sum bufs ≡ some (sum + length (concat bufs))
unfolding content_length
content_length_lem sum [] h = ap some (omega arith)
content_length_lem sum (b ∷ bs) h =
    ground (arith, length-append b (concat bs), content_length_lem (sum + length b) bs)

add_zero_left : (n : ℕ) → 0 + n ≡ n
add_zero_left n = omega arith

module _ ⦃p : Platform⦄ where
  -- The header that gives the length of the body.
  abbrev pub with_length : Bytes → Outgoing → Outgoing
  with_length ds o = record o {
    headers = emplace (codes "content-length") ds o.headers;
    is_chunked = false;
  }

  pub number :
      (bufs : List Bytes)
      → length (concat bufs) < decimal_limit
      → Written 10
          (length (concat bufs))
          (digits (length (concat bufs)) 10)
          empty
          (append_number empty (length (concat bufs)) 10)
  number bufs h = append_number-decimal empty (length (concat bufs)) empty-IsValid h

  choose_length_lem :
      (o : Outgoing) (bufs : List Bytes) (h : length (concat bufs) < decimal_limit)
      → choose_length o bufs ≡ some (with_length (number bufs h).digits o)
  unfolding choose_length set_header
  choose_length_lem o bufs h = ground (
    arith,
    content_length_lem 0 bufs (omega (arith, decimal_limit_le)),
    (number bufs h).returns,
    (number bufs h).bytes,
    (number bufs h).valid.of_null,
    (number bufs h).nonempty,
    add_zero_left (length (concat bufs)),
  )

  module _ (compiler : HeaderCompiler) where
    -- What a write with a length sends.
    pub send-length :
        (o : Outgoing) (bufs : List Bytes)
        → o.headers_sent ≡ false
        → o.is_chunked ≡ false
        → send compiler o bufs true
          ≡ some (write_end true (after_headers o), ((header_buffer compiler o).bytes ∷ bufs) ∷ [])
    unfolding send compiled compiled_count
    send-length o bufs unsent plain = ground arith

    pub fresh-choose_encoding :
        (o : Outgoing) (bufs : List Bytes) (h : length (concat bufs) < decimal_limit)
        → find (codes "content-length") o.headers ≡ none
        → find (codes "transfer-encoding") o.headers ≡ none
        → choose_encoding o bufs true ≡ some (with_length (number bufs h).digits o)
    unfolding choose_encoding
    fresh-choose_encoding o bufs h no_length no_coding = ground (arith, choose_length_lem o bufs h)

    -- A message that is ended by its first write: the headers get a content-length that reads back as
    -- the number of body bytes, and behind the headers stand these bytes alone.
    pub finish-length :
        (o : Outgoing) (bufs : List Bytes)
        → o.connected ≡ true
        → o.headers_sent ≡ false
        → find (codes "content-length") o.headers ≡ none
        → find (codes "transfer-encoding") o.headers ≡ none
        → length (concat bufs) < decimal_limit
        → (final : Outgoing) × (writes : List (List Bytes)) × (ds : Bytes) × (finish compiler o bufs
            ≡ some (final, writes))
          × (wire writes
              ≡ compiler.head (emplace (codes "content-length") ds o.headers) ++ concat bufs)
          × (read_number 10 0 ds ≡ some (length (concat bufs)))
          × (final.headers_sent ≡ false)
          × (final.headers ≡ [])
    unfolding finish http_write
    finish-length o bufs up unsent no_length no_coding h =
        let ds = (number bufs h).digits in
        let o' = with_length ds o in
        (
          record (write_end true (after_headers o')) { headers = [] },
          ((header_buffer compiler o').bytes ∷ bufs) ∷ [],
          ds,
          ground (
            arith,
            fresh-choose_encoding o bufs h no_length no_coding,
            send-length o' bufs unsent refl,
          ),
          ground (
            arith,
            (header_buffer_lem compiler o').1,
            append-nil ((header_buffer compiler o').bytes ++ concat bufs),
          ),
          (number bufs h).reads,
          unfold write_end in refl,
          refl,
        )
