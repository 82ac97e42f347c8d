-- ===== src/Util/Base64/RoundTrip.antt =====
-- Decoding what was encoded.
use libnodecc.Prelude.{
  ℕ, ◌+◌, ◌*◌, ◌/◌, ◌%◌, ◌^◌, ◌≤◌, ◌<◌, ◌≡◌, refl, ap, ◌∙◌, sym, arith, Bytes, IsByte, IsBytes,
  Bool, [], ◌∷◌, ◌++◌, append_assoc, append-nil, length, some, ◌>>=◌, ◌⊎◌,
}
use libnodecc.Buffer.Mutable.{grown}
use libnodecc.Util.Base64.{table_of, decoded, Decoder, unpacked, group, decode_loop, decode, encode}
use libnodecc.Util.Base64.Reference.{digit, reference}
use libnodecc.Util.Base64.Encode.{encode-reference, reach}
use libnodecc.Util.Base64.Groups.{
  decoded-letter, pushed, fresh, Group, group_four, group_three, group_two,
}

-- A decoder that has written `bs` and has nothing more to write.
record Done (bs : Bytes) (s : Decoder) : Type 0 where
  written : s.written ≡ bs
  unpacked : unpacked s ≡ []

decoded-pad : decoded b'=' ≡ 255
unfolding decoded
decoded-pad = refl

module _ (base64url : Bool) where
  abbrev table : Bytes
  table = table_of base64url

  -- The digit of a number at a place.
  abbrev sextet : ℕ → ℕ → ℕ
  sextet n k = n / 64 ^ k % 64

  digits-Group :
      (n : ℕ) (c : ℕ) (y : ℕ)
      → decoded c ≡ y
      → (d : ℕ) → Group (digit table n 3) (digit table n 2) c d (sextet n 3) (sextet n 2) y
  digits-Group n c y e d = record {
    first = decoded-letter base64url (sextet n 3) (omega arith);
    second = decoded-letter base64url (sextet n 2) (omega arith);
    third = e;
    first-lt = omega arith;
    second-lt = omega arith;
  }

  group-digits :
      (r : ℕ) (out : Bytes) (a b c : ℕ)
      → IsByte a
      → IsByte b
      → IsByte c
      → (r' : ℕ) × (group
            (digit table (a * 2 ^ 16 + b * 2 ^ 8 + c) 3)
            (digit table (a * 2 ^ 16 + b * 2 ^ 8 + c) 2)
            (digit table (a * 2 ^ 16 + b * 2 ^ 8 + c) 1)
            (digit table (a * 2 ^ 16 + b * 2 ^ 8 + c) 0)
            (fresh r out)
          ≡ fresh r' (out ++ (a ∷ b ∷ c ∷ [])))
  group-digits r out a b c ha hb hc = (
    bits,
    group_four r out (digit table n 3) (digit table n 2) (digit table n 1) (digit table n 0)
          (sextet n 3) (sextet n 2) (sextet n 1)
          (digits-Group n (digit table n 1) (sextet n 1)
            (decoded-letter base64url (sextet n 1) (omega arith)) (digit table n 0))
          (sextet n 0) (omega arith) (decoded-letter base64url (sextet n 0) (omega arith))
          (omega arith)
        ∙ ap (λ t. fresh bits (out ++ t)) bytes,
  )
    where
      n : ℕ
      n = a * 2 ^ 16 + b * 2 ^ 8 + c

      bits : ℕ
      bits = pushed (pushed (pushed (pushed r (sextet n 3)) (sextet n 2)) (sextet n 1)) (sextet n 0)

      e1 : sextet n 3 * 4 + sextet n 2 / 16 ≡ a
      e1 = omega arith

      e2 : sextet n 2 % 16 * 16 + sextet n 1 / 4 ≡ b
      e2 = omega arith

      e3 : sextet n 1 % 4 * 64 + sextet n 0 ≡ c
      e3 = omega arith

      bytes :
          (sextet n 3 * 4 + sextet n 2 / 16)
            ∷ (sextet n 2 % 16 * 16 + sextet n 1 / 4)
            ∷ (sextet n 1 % 4 * 64 + sextet n 0)
            ∷ []
          ≡ a ∷ b ∷ c ∷ []
      bytes = rw (e1, e2, e3) refl

  -- The last group, behind one byte and behind two.
  last_two :
      (r : ℕ) (out : Bytes) (a : ℕ)
      → IsByte a
      → Done
          (out ++ a ∷ [])
          (group (digit table (a * 2 ^ 16) 3) (digit table (a * 2 ^ 16) 2) b'=' b'=' (fresh r out))
  unfolding unpacked
  last_two r out a ha =
      rw
        (
          group_two r out (digit table n 3) (digit table n 2) b'=' b'=' (sextet n 3) (sextet n 2)
              255 (digits-Group n b'=' 255 decoded-pad b'=') (omega arith)
              (omega (arith, decoded-pad)),
          e1,
        )
        (record { written = refl; unpacked = refl })
    where
      n : ℕ
      n = a * 2 ^ 16

      e1 : sextet n 3 * 4 + sextet n 2 / 16 ≡ a
      e1 = omega arith

  last_three :
      (r : ℕ) (out : Bytes) (a b : ℕ)
      → IsByte a
      → IsByte b
      → Done (out ++ a ∷ b ∷ []) (
          group
            (digit table (a * 2 ^ 16 + b * 2 ^ 8) 3)
            (digit table (a * 2 ^ 16 + b * 2 ^ 8) 2)
            (digit table (a * 2 ^ 16 + b * 2 ^ 8) 1)
            b'='
            (fresh r out))
  unfolding unpacked
  last_three r out a b ha hb =
      rw
        (
          group_three r out (digit table n 3) (digit table n 2) (digit table n 1) b'=' (sextet n 3)
              (sextet n 2) (sextet n 1)
              (digits-Group n (digit table n 1) (sextet n 1)
                (decoded-letter base64url (sextet n 1) (omega arith)) b'=')
              (omega arith) (omega (arith, decoded-pad)),
          e1,
          e2,
        )
        (record { written = refl; unpacked = refl })
    where
      n : ℕ
      n = a * 2 ^ 16 + b * 2 ^ 8

      e1 : sextet n 3 * 4 + sextet n 2 / 16 ≡ a
      e1 = omega arith

      e2 : sextet n 2 % 16 * 16 + sextet n 1 / 4 ≡ b
      e2 = omega arith

  decode_loop-reference :
      (bs : Bytes) (r : ℕ) (out : Bytes)
      → IsBytes bs
      → Done (out ++ bs) (decode_loop (reference table bs) (fresh r out))
  unfolding reference decode_loop
  decode_loop-reference [] r out h = record {
    written = sym (append-nil out);
    unpacked = unfold unpacked in refl;
  }
  decode_loop-reference (a ∷ []) r out h = last_two r out a h.0
  decode_loop-reference (a ∷ b ∷ []) r out h = last_three r out a b h.0 h.1.0
  decode_loop-reference (a ∷ b ∷ c ∷ bs) r out h =
      let g = group-digits r out a b c h.0 h.1.0 h.1.1.0 in
      rw (g.1, ← append_assoc out (a ∷ b ∷ c ∷ []) bs)
        (decode_loop-reference bs g.0 (out ++ (a ∷ b ∷ c ∷ [])) h.1.1.1)

  length-reference : (bs : Bytes) → length (reference table bs) ≡ (length bs + 2) / 3 * 4
  unfolding reference
  length-reference [] = omega arith
  length-reference (a ∷ []) = omega arith
  length-reference (a ∷ b ∷ []) = omega arith
  length-reference (a ∷ b ∷ c ∷ bs) = omega (arith, length-reference bs)

  room : (bs : Bytes) → length bs ≤ grown 0 (length (reference table bs) / 4 * 3)
  unfolding grown
  room bs = omega (arith, length-reference bs)

  decode-reference :
      (address : ℕ) (bs : Bytes)
      → IsBytes bs
      → 3 ≤ address
      → decode address (reference table bs) ≡ some bs
  unfolding decode
  decode-reference address bs h far =
      let done = decode_loop-reference bs 0 [] h in
      ground (
        arith,
        far,
        room bs,
        done.written,
        done.unpacked,
        ap length done.written,
        ap length done.unpacked,
      )

-- What the encoder gives, in either alphabet, decodes to the bytes that were encoded, unless the
-- encoder reads out of bounds. Neither buffer is at null or at an address below 3.
pub decode-encode :
    (base64url : Bool) (address address' : ℕ) (bs : Bytes)
    → IsBytes bs
    → 3 ≤ address
    → 3 ≤ address'
    → (length bs < 12) ⊎ (reach (address % 4) (length bs) ≤ length bs)
    → (encode base64url address bs >>= decode address') ≡ some bs
decode-encode base64url address address' bs h far far' fits =
    ground (
      arith,
      fits,
      encode-reference base64url address bs h,
      decode-reference base64url address' bs h,
    )
