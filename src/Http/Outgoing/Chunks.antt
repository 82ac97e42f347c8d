-- ===== src/Http/Outgoing/Chunks.antt =====
-- What a chunked write puts on the wire is the frames of its buffers.
use libnodecc.Prelude.{
  ◌+◌, ◌≡◌, refl, arith, Bytes, concat, Bool, true, false, List, [], ◌∷◌, ◌++◌, append_assoc,
  length, All, some, if◌then◌else◌,
}
use mathlib.Core.Path.{subst}
use libnodecc.Util.Digits.{Platform, digits}
use libnodecc.Buffer.Mutable.{MutableBuffer, IsValid, empty, append, append_number, reset}
use libnodecc.Buffer.Mutable.Contents.{bytes-append}
use libnodecc.Buffer.Mutable.Validity.{append-IsValid, empty-IsValid}
use libnodecc.Buffer.Mutable.Numbers.{Written, append_number-hex}
use libnodecc.Http.Chunked.{crlf, hex, frames, IsChunk}
use libnodecc.Http.Outgoing.{chunk_bufs}

module _ ⦃p : Platform⦄ where
  -- The buffers of a chunked loop, and the bytes that they amount to behind `start`.
  pub record Looped (b : MutableBuffer) (first : Bool) (start : Bytes) (cs : List Bytes)
      : Type 0 where
    pub out : List Bytes
    pub returns : chunk_bufs b first cs ≡ some out
    pub wire : concat out ++ crlf ≡ start ++ frames cs
    pub count : length out ≡ length cs + length cs

  chunk-wire :
      (start h c ws more : Bytes)
      → ws ++ crlf ≡ crlf ++ more
      → start ++ h ++ crlf ++ (c ++ ws) ++ crlf ≡ start ++ (h ++ crlf ++ (c ++ (crlf ++ more)))
  chunk-wire start h c ws more e = simp (append_assoc, e)

  loop_step :
      (b : MutableBuffer) (first : Bool) (c : Bytes) (cs : List Bytes)
      → let b₀ = if first then b else append b crlf in
        IsValid b₀ → IsChunk c → Looped empty false crlf cs → Looped b first b₀.bytes (c ∷ cs)
  unfolding chunk_bufs reset frames hex
  loop_step b first c cs v h rest = record {
    out = (append number.target crlf).bytes ∷ c ∷ rest.out;
    returns = rw (number.returns, rest.returns);
    wire =
        rw (bytes-append number.target crlf number.valid, number.bytes, number.of_positions)
          (chunk-wire _ _ c (concat rest.out) (frames cs) rest.wire);
    count = omega (arith, rest.count);
  }
    where
      start : MutableBuffer
      start = if first then b else append b crlf

      number :
          Written 16 (length c) (digits (length c) 16) start (append_number start (length c) 16)
      number = append_number-hex start (length c) v h.0 h.1

  tail-Looped : (cs : List Bytes) → All IsChunk cs → Looped empty false crlf cs
  tail-Looped [] h = record {
    out = [];
    returns = unfold chunk_bufs in refl;
    wire = unfold frames in refl;
    count = omega arith;
  }
  tail-Looped (c ∷ cs) h =
      subst (λ t. Looped empty false t (c ∷ cs)) (bytes-append empty crlf empty-IsValid)
        (loop_step empty false c cs (append-IsValid empty crlf empty-IsValid) h.0
          (tail-Looped cs h.1))

  -- The first buffer starts with what stands in `b`, the headers.
  pub loop-Looped :
      (b : MutableBuffer) (c : Bytes) (cs : List Bytes)
      → IsValid b
      → All IsChunk (c ∷ cs)
      → Looped b true b.bytes (c ∷ cs)
  loop-Looped b c cs v h = loop_step b true c cs v h.0 (tail-Looped cs h.1)
