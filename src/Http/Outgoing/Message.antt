-- ===== src/Http/Outgoing/Message.antt =====
-- A chunked message from its first write to its end, as the peer reads it.
use libnodecc.Prelude.{
  ℕ, suc, ◌+◌, ◌*◌, ◌<◌, ◌≡◌, refl, ◌∙◌, sym, arith, Bytes, codes, concat, concat-append, Bool,
  true, false, List, [], ◌∷◌, ◌++◌, append_assoc, append-nil, length, All, All-append, Option, none,
  some, ◌>>=◌, if◌then◌else◌, ◌==◌, inl, inr, Bool-cases,
}
use libnodecc.Util.Digits.{Platform}
use libnodecc.Buffer.Mutable.{MutableBuffer, IsValid, empty, set_capacity}
use libnodecc.Buffer.Mutable.Contents.{set_capacity_lem}
use libnodecc.Buffer.Mutable.Validity.{empty-IsValid, set_capacity-IsValid}
use libnodecc.Http.Headers.{find, emplace}
use libnodecc.Http.Chunked.{crlf, frames, last_chunk, IsChunk, decode, decode-frames, frames-append}
use libnodecc.Http.Outgoing.{
  Outgoing, HeaderCompiler, choose_chunked, choose_encoding, after_headers, compiled_count,
  chunk_end, chunk_bufs, header_buffer, compiled, write_end, send, http_write, write, finish,
}
use libnodecc.Http.Outgoing.Chunks.{Looped, loop-Looped}

-- The bytes that the writes put on the wire.
abbrev pub wire : List (List Bytes) → Bytes
wire [] = []
wire (ws ∷ more) = concat ws ++ wire more

chunk_end_lem :
    (end : Bool) (c : Bytes) (cs : List Bytes)
    → chunk_end end (c ∷ cs) ≡ crlf ++ (if end then last_chunk else [])
unfolding chunk_end
chunk_end_lem true c cs = refl
chunk_end_lem false c cs = refl

close-wire :
    (out : List Bytes) (start more tail : Bytes)
    → concat out ++ crlf ≡ start ++ more
    → concat (out ++ ((crlf ++ tail) ∷ [])) ++ [] ≡ start ++ more ++ tail
close-wire out start more tail e =
    rw (append-nil, concat-append, append-nil, ← append_assoc (concat out) crlf tail, e)

compiled_count-chunked :
    (o : Outgoing) (c : Bytes) (cs : List Bytes) (end : Bool)
    → o.is_chunked ≡ true
    → compiled_count o (length (c ∷ cs)) end ≡ 2 * suc (length cs) + 1
unfolding compiled_count
compiled_count-chunked o c cs end e = ground arith

ne_zero : (n : ℕ) → (2 * suc n + 1 == 0) ≡ false
ne_zero n = ground arith

ne_length : (n : ℕ) → (2 * suc n + 1 == suc n) ≡ false
ne_length n = ground arith

module _ ⦃p : Platform⦄ (compiler : HeaderCompiler) where
  -- The writes of a message, the last of them with `end`, and what reaches the socket.
  unfoldable pub message : Outgoing → List (List Bytes) → List Bytes → Option (Outgoing × Bytes)
  message o [] last = finish compiler o last >>= λ r. some (r.0, wire r.1)
  message o (bufs ∷ more) last =
      write compiler o bufs >>= λ r. message r.0 more last >>= λ s. some (s.0, wire r.1 ++ s.1)

  -- The bytes that a message has before its next chunk: its head, while the headers are not sent.
  abbrev pub pending : Outgoing → Bytes
  pending o = if o.headers_sent then [] else compiler.head o.headers

  pub header_buffer_lem :
      (o : Outgoing)
      → IsValid (header_buffer compiler o) × ((header_buffer compiler o).bytes ≡ pending o)
  unfolding header_buffer
  header_buffer_lem o = elim (Bool-cases o.headers_sent) [
    | inl sent ↦ rw sent (empty-IsValid, refl)
    | inr unsent ↦ rw unsent (
      compiler.compile_headers-IsValid o.headers reserved reserved-IsValid,
      compiler.bytes-compile_headers o.headers reserved reserved-IsValid
          ∙ rw (set_capacity_lem [] empty 800 empty-IsValid (omega arith)).0,
    )
  ]
    where
      reserved : MutableBuffer
      reserved = set_capacity [] empty 800

      reserved-IsValid : IsValid reserved
      reserved-IsValid = set_capacity-IsValid [] empty 800 empty-IsValid

  -- Chunks that are written in the chunked coding.
  record Sent (o : Outgoing) (bufs : List Bytes) (end : Bool) : Type 0 where
    writes : List (List Bytes)
    returns : send compiler o bufs end ≡ some (write_end end (after_headers o), writes)
    bytes : wire writes ≡ pending o ++ frames bufs ++ (if end then last_chunk else [])

  send-Sent :
      (o : Outgoing) (c : Bytes) (cs : List Bytes) (end : Bool)
      → o.is_chunked ≡ true
      → All IsChunk (c ∷ cs)
      → Sent o (c ∷ cs) end
  unfolding send compiled
  send-Sent o c cs end chunked h = record {
    writes = (loop.out ++ (chunk_end end (c ∷ cs) ∷ [])) ∷ [];
    returns = simp (
      compiled_count-chunked o c cs end chunked,
      ne_zero (length cs),
      ne_length (length cs),
      chunked,
      loop.returns,
    );
    bytes =
        rw (← (header_buffer_lem o).1, chunk_end_lem end c cs)
          (close-wire loop.out (header_buffer compiler o).bytes (frames (c ∷ cs))
            (if end then last_chunk else []) loop.wire);
  }
    where
      loop : Looped (header_buffer compiler o) true (header_buffer compiler o).bytes (c ∷ cs)
      loop = loop-Looped (header_buffer compiler o) c cs (header_buffer_lem o).0 h

  send_none-Sent :
      (o : Outgoing) (end : Bool) → o.is_chunked ≡ true → o.headers_sent ≡ true → Sent o [] end
  unfolding send compiled compiled_count chunk_bufs header_buffer after_headers chunk_end frames
  send_none-Sent o true chunked sent = record {
    writes = (last_chunk ∷ []) ∷ [];
    returns = rw (chunked, sent);
    bytes = rw sent;
  }
  send_none-Sent o false chunked sent = record {
    writes = [];
    returns = rw (chunked, sent);
    bytes = rw sent;
  }

  -- A state that goes on with a chunked body.
  pub record IsOpen (o : Outgoing) : Type 0 where
    pub connected : o.connected ≡ true
    pub sent : o.headers_sent ≡ true
    pub chunked : o.is_chunked ≡ true

  open-Sent :
      (o : Outgoing) (bufs : List Bytes) (end : Bool)
      → IsOpen o
      → All IsChunk bufs
      → Sent o bufs end
  open-Sent o [] end s h = send_none-Sent o end s.chunked s.sent
  open-Sent o (c ∷ cs) end s h = send-Sent o c cs end s.chunked h

  -- How a message ends: the headers are used up, and the next message has its own.
  pub record Read (o : Outgoing) (start : Bytes) (chunks : List Bytes)
      (result : Option (Outgoing × Bytes)) : Type 0 where
    pub final : Outgoing
    pub body : Bytes
    pub returns : result ≡ some (final, start ++ body)
    pub is_frames : body ≡ frames chunks ++ last_chunk
    pub unsent : final.headers_sent ≡ false
    pub no_headers : final.headers ≡ []

  abbrev pub all_chunks : List (List Bytes) → List Bytes → List Bytes
  all_chunks [] last = last
  all_chunks (bufs ∷ more) last = bufs ++ all_chunks more last

  open-http_write :
      (o : Outgoing) (bufs : List Bytes) (end : Bool)
      → IsOpen o
      → http_write compiler o bufs end ≡ send compiler o bufs end
  unfolding http_write
  open-http_write o bufs end s = simp (s.connected, s.sent)

  open-pending : (o : Outgoing) → IsOpen o → pending o ≡ []
  open-pending o s = simp s.sent

  open-after_headers : (o : Outgoing) → IsOpen o → after_headers o ≡ o
  unfolding after_headers
  open-after_headers o s = simp s.sent

  All-chunks :
      (more : List (List Bytes)) (last : List Bytes)
      → All (All IsChunk) more
      → All IsChunk last
      → All IsChunk (all_chunks more last)
  All-chunks [] last h hl = hl
  All-chunks (bufs ∷ more) last h hl = All-append IsChunk bufs _ h.0 (All-chunks more last h.1 hl)

  -- The writes after the first one, and the end.
  open-Read :
      (o : Outgoing) (more : List (List Bytes)) (last : List Bytes)
      → IsOpen o
      → All (All IsChunk) more
      → All IsChunk last
      → Read o [] (all_chunks more last) (message o more last)
  unfolding message write_end write finish
  open-Read o [] last s h hl =
      let call = open-Sent o last true s hl in
      record {
        final = record o { headers = []; headers_sent = false };
        body = frames last ++ last_chunk;
        returns = simp (
          open-http_write o last true s,
          call.returns,
          call.bytes,
          open-after_headers o s,
          open-pending o s,
        );
        is_frames = refl;
        unsent = refl;
        no_headers = refl;
      }
  open-Read o (bufs ∷ more) last s h hl =
      let call = open-Sent o bufs false s h.0 in
      let rest = open-Read o more last s h.1 hl in
      record {
        final = rest.final;
        body = frames bufs ++ rest.body;
        returns = simp (
          open-http_write o bufs false s,
          call.returns,
          call.bytes,
          open-after_headers o s,
          open-pending o s,
          rest.returns,
          append-nil,
        );
        is_frames = rw (rest.is_frames, frames-append) (sym (append_assoc (frames bufs) _ _));
        unsent = rest.unsent;
        no_headers = rest.no_headers;
      }

  -- The state after the first write of a message with no length and no coding of its own.
  abbrev opened : Outgoing → Outgoing
  opened o = record o { headers = []; headers_sent = true; is_chunked = true }

  fresh-choose_encoding :
      (o : Outgoing) (bufs : List Bytes)
      → find (codes "content-length") o.headers ≡ none
      → find (codes "transfer-encoding") o.headers ≡ none
      → choose_encoding o bufs false ≡ some (choose_chunked o)
  unfolding choose_encoding
  fresh-choose_encoding o bufs no_length no_coding = ground arith

  first-write :
      (o : Outgoing) (c : Bytes) (cs : List Bytes)
      → o.connected ≡ true
      → o.headers_sent ≡ false
      → find (codes "content-length") o.headers ≡ none
      → find (codes "transfer-encoding") o.headers ≡ none
      → write compiler o (c ∷ cs) ≡ send compiler (choose_chunked o) (c ∷ cs) false
  unfolding write http_write
  first-write o c cs up unsent no_length no_coding =
      simp (up, unsent, fresh-choose_encoding o (c ∷ cs) no_length no_coding)

  after_first :
      (o : Outgoing) → o.headers_sent ≡ false → after_headers (choose_chunked o) ≡ opened o
  unfolding after_headers choose_chunked
  after_first o unsent = simp unsent

  first_pending :
      (o : Outgoing)
      → o.headers_sent ≡ false
      → pending (choose_chunked o)
        ≡ compiler.head (emplace (codes "transfer-encoding") (codes "chunked") o.headers)
  unfolding choose_chunked
  first_pending o unsent = simp unsent

  -- A message of chunks that starts with a write: the peer reads, behind the headers, the contents of
  -- all chunks in order and nothing else, and the next message starts afresh.
  pub message-decode :
      (o : Outgoing) (c : Bytes) (cs : List Bytes) (more : List (List Bytes)) (last : List Bytes)
      → o.connected ≡ true
      → o.headers_sent ≡ false
      → find (codes "content-length") o.headers ≡ none
      → find (codes "transfer-encoding") o.headers ≡ none
      → All (All IsChunk) ((c ∷ cs) ∷ more)
      → All IsChunk last
      → (final : Outgoing) × (body : Bytes) × (message o ((c ∷ cs) ∷ more) last
          ≡ some (
            final,
            compiler.head (emplace (codes "transfer-encoding") (codes "chunked") o.headers) ++ body,
          ))
        × ((fuel : ℕ)
            → length (all_chunks ((c ∷ cs) ∷ more) last) < fuel
            → decode fuel body ≡ some (concat (all_chunks ((c ∷ cs) ∷ more) last)))
        × (final.headers_sent ≡ false)
        × (final.headers ≡ [])
  unfolding message write_end
  message-decode o c cs more last up unsent no_length no_coding h hl =
      let call = send-Sent (choose_chunked o) c cs false (unfold choose_chunked in refl) h.0 in
      let rest =
        open-Read (opened o) more last (record { connected = up; sent = refl; chunked = refl }) h.1
          hl in
      (
        rest.final,
        frames (c ∷ cs) ++ rest.body,
        simp (
          first-write o c cs up unsent no_length no_coding,
          call.returns,
          call.bytes,
          after_first o unsent,
          first_pending o unsent,
          rest.returns,
          append-nil,
          append_assoc,
        ),
        λ fuel enough.
            rw (rest.is_frames, ← append_assoc (frames (c ∷ cs)) _ _, ← frames-append)
              (decode-frames (all_chunks ((c ∷ cs) ∷ more) last) fuel
                (All-chunks ((c ∷ cs) ∷ more) last h hl) enough),
        rest.unsent,
        rest.no_headers,
      )
