-- ===== src/Http/Outgoing/Bounds.antt =====
-- The array `compiledBufs`, which `alloca` gives `compiled_count` places.
use libnodecc.Prelude.{
  suc, ◌+◌, ◌*◌, ◌≤◌, ◌<◌, ◌≡◌, arith, Bytes, Bool, true, false, List, [], ◌∷◌, ◌++◌, length,
  length-append, Option, none, some, Bool-cases, inl, inr, ◌>>=◌, if◌then◌else◌,
}
use libnodecc.Util.Digits.{Platform}
use libnodecc.Buffer.Mutable.{MutableBuffer, append, append_number, reset}
use libnodecc.Http.Chunked.{crlf}
use libnodecc.Http.Outgoing.{
  Outgoing, HeaderCompiler, chunk_bufs, chunk_end, compiled_count, header_buffer, compiled,
}

none-ne-some {ℓ} : {A : Type ℓ} {a : A} → none ≡ some a → ⊥
none-ne-some e = cc

module _ ⦃p : Platform⦄ where
  -- Two places for each chunk.
  length-chunk_bufs :
      (b : MutableBuffer) (first : Bool) (cs : List Bytes) {out : List Bytes}
      → chunk_bufs b first cs ≡ some out
      → length out ≡ 2 * length cs
  unfolding chunk_bufs
  length-chunk_bufs b first [] e = ground arith
  length-chunk_bufs b first (c ∷ cs) e =
      step (append_number (if first then b else append b crlf) (length c) 16)
        (chunk_bufs (reset b) false cs) (λ ws. length-chunk_bufs (reset b) false cs) e
    where
      step :
          (number : Option MutableBuffer) (rest : Option (List Bytes)) {out : List Bytes}
          → ((ws : List Bytes) → rest ≡ some ws → length ws ≡ 2 * length cs)
          → (number >>= λ b'. rest >>= λ ws. some ((append b' crlf).bytes ∷ c ∷ ws)) ≡ some out
          → length out ≡ 2 * suc (length cs)
      step none rest h e = absurd (none-ne-some e)
      step (some b') none h e = absurd (none-ne-some e)
      step (some b') (some ws) h e = ground (arith, h ws)

  chunked_room :
      (o : Outgoing) (bufs : List Bytes) (end : Bool)
      → o.is_chunked ≡ true
      → 0 < compiled_count o (length bufs) end
      → 2 * length bufs + 1 ≤ compiled_count o (length bufs) end
  unfolding compiled_count
  chunked_room o bufs end chunked pos = ground arith

  module _ (compiler : HeaderCompiler) where
    -- No write goes past the array, whatever the state and the buffers, if there is anything to write.
    pub length-compiled :
        (o : Outgoing) (bufs : List Bytes) (end : Bool) {out : List Bytes}
        → 0 < compiled_count o (length bufs) end
        → compiled compiler o bufs end ≡ some out
        → length out ≤ compiled_count o (length bufs) end
    unfolding compiled compiled_count
    length-compiled o bufs end pos e = elim (Bool-cases o.is_chunked) [
      | inr plain ↦ ground arith
      | inl chunked ↦ omega (
        arith,
        closed (chunk_bufs (header_buffer compiler o) true bufs)
            (λ ws. length-chunk_bufs (header_buffer compiler o) true bufs) (simp chunked at e),
        chunked_room o bufs end chunked pos,
      )
    ]
      where
        closed :
            (r : Option (List Bytes)) {out : List Bytes}
            → ((ws : List Bytes) → r ≡ some ws → length ws ≡ 2 * length bufs)
            → (r >>= λ ws. some (ws ++ (chunk_end end bufs ∷ []))) ≡ some out
            → length out ≡ 2 * length bufs + 1
        closed none h e = absurd (none-ne-some e)
        closed (some ws) h e = ground (arith, h ws, length-append ws (chunk_end end bufs ∷ []))
