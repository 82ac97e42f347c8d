-- ===== src/Util/Uri/Escapes.antt =====
-- Plain text and percent-encoded bytes in the decoder.
use libnodecc.Prelude.{
  ℕ, zero, suc, ◌+◌, ◌*◌, ◌/◌, ◌%◌, ◌<◌, ◌≤◌, ◌≡◌, ◌≢◌, ap, ◌∙◌, sym, arith, Bytes, IsBytes, Bool,
  true, ◌&&◌, ◌||◌, [], ◌∷◌, ◌++◌, append_assoc, append-nil, length, length-append, All, none, some,
  Bool-cases, Option-cases, inl, inr, ◌⊎◌,
}
use libnodecc.Prelude.{◌==◌, ltb, leb, if◌then◌else◌}
use libnodecc.Util.Uri.{hex_to_int, escape, decoded, decode_loop, component_decode}

-- Text without controls, bytes from 0x7F on and escapes.
abbrev pub IsText : ℕ → Type 0
IsText c = (32 ≤ c) × (c < 127) × (c ≢ b'%')

abbrev pub unplussed : Bool → Bytes → Bytes
unplussed urlencoded [] = []
unplussed urlencoded (c ∷ cs) =
    (if urlencoded && c == b'+' then b' ' else c) ∷ unplussed urlencoded cs

decoded-text :
    (u : Bool) (c : ℕ) (rest : Bytes)
    → IsText c
    → decoded u c rest ≡ some (if u && c == b'+' then b' ' else c, 0)
unfolding decoded
decoded-text u c rest h = ground arith

loop-decoded :
    (u : Bool) (c b skip : ℕ) (rest result : Bytes)
    → decoded u c rest ≡ some (b, skip)
    → decode_loop u 0 (c ∷ rest) result ≡ decode_loop u skip rest (result ++ b ∷ [])
unfolding decode_loop
loop-decoded u c b skip rest result h = ground (arith, h)

decode_loop-text :
    (u : Bool) (bs rest result : Bytes)
    → All IsText bs
    → decode_loop u 0 (bs ++ rest) result ≡ decode_loop u 0 rest (result ++ unplussed u bs)
decode_loop-text u [] rest result h = ap (decode_loop u 0 rest) (sym (append-nil result))
decode_loop-text u (c ∷ cs) rest result h =
    loop-decoded u c (if u && c == b'+' then b' ' else c) 0 (cs ++ rest) result
      (decoded-text u c (cs ++ rest) h.0)
    ∙ (decode_loop-text u cs rest (result ++ (if u && c == b'+' then b' ' else c) ∷ []) h.1
        ∙ ap (decode_loop u 0 rest)
            (append_assoc result ((if u && c == b'+' then b' ' else c) ∷ []) (unplussed u cs)))

-- Text without escapes decodes to itself, with spaces for its plus signs in a form.
pub component_decode-text :
    (u : Bool) (bs : Bytes) → All IsText bs → component_decode u bs ≡ unplussed u bs
unfolding component_decode decode_loop
component_decode-text u bs h =
    ap (component_decode u) (sym (append-nil bs)) ∙ ground (arith, decode_loop-text u bs [] [] h)

-- A control character or a byte from 0x7F on, behind text without escapes, empties the result,
-- whatever follows.
pub component_decode-control :
    (u : Bool) (bs : Bytes) (c : ℕ) (rest : Bytes)
    → All IsText bs
    → (c < 32) ⊎ (127 ≤ c)
    → component_decode u (bs ++ c ∷ rest) ≡ []
unfolding component_decode decode_loop decoded
component_decode-control u bs c rest h out =
    ground (arith, decode_loop-text u bs (c ∷ rest) [] h, out)

abbrev pub hex_digit : ℕ → ℕ
hex_digit d = if ltb d 10 then b'0' + d else 55 + d

hex_to_int-hex_digit : (d : ℕ) → d < 16 → hex_to_int (hex_digit d) ≡ some d
unfolding hex_to_int
hex_to_int-hex_digit d h = ground arith

-- The characters that RFC 3986 leaves as they are.
abbrev pub is_unreserved : ℕ → Bool
is_unreserved c =
    (leb b'a' c && leb c b'z')
    || (leb b'A' c && leb c b'Z')
    || (leb b'0' c && leb c b'9')
    || c == b'-'
    || c == b'.'
    || c == b'_'
    || c == b'~'

-- Percent-encoding as in RFC 3986, the high digit first.
unfoldable pub percent_encode : Bytes → Bytes
percent_encode [] = []
percent_encode (b ∷ bs) =
    let rest = percent_encode bs in
    if is_unreserved b then b ∷ rest else b'%' ∷ hex_digit (b / 16) ∷ hex_digit (b % 16) ∷ rest

-- The bytes with the digits of what was escaped swapped.
unfoldable pub swapped : Bytes → Bytes
swapped [] = []
swapped (b ∷ bs) = (if is_unreserved b then b else b % 16 * 16 + b / 16) ∷ swapped bs

decoded-escape :
    (u : Bool) (b : ℕ) (rest : Bytes)
    → b < 256
    → decoded u b'%' (hex_digit (b / 16) ∷ hex_digit (b % 16) ∷ rest)
      ≡ some (b % 16 * 16 + b / 16, 2)
unfolding decoded escape
decoded-escape u b rest h = ground (
  arith,
  hex_to_int-hex_digit (b / 16) (omega arith),
  hex_to_int-hex_digit (b % 16) (omega arith),
)

decoded-unreserved :
    (u : Bool) (b : ℕ) (rest : Bytes) → is_unreserved b ≡ true → decoded u b rest ≡ some (b, 0)
unfolding decoded
decoded-unreserved u b rest h = ground (arith, h)

-- One byte of an encoded text.
loop-encoded :
    (u : Bool) (b : ℕ) (bs result : Bytes)
    → b < 256
    → decode_loop u 0 (percent_encode (b ∷ bs)) result
      ≡ decode_loop u 0
          (percent_encode bs)
          (result ++ (if is_unreserved b then b else b % 16 * 16 + b / 16) ∷ [])
unfolding percent_encode decode_loop
loop-encoded u b bs result h = elim (Bool-cases (is_unreserved b)) [
  | inl kept ↦ ground (arith, kept, decoded-unreserved u b (percent_encode bs) kept)
  | inr not_kept ↦ ground (arith, not_kept, decoded-escape u b (percent_encode bs) h)
]

decode_loop-percent_encode :
    (u : Bool) (bs result : Bytes)
    → IsBytes bs
    → decode_loop u 0 (percent_encode bs) result ≡ some (result ++ swapped bs)
unfolding decode_loop percent_encode swapped
decode_loop-percent_encode u [] result h = ap some (sym (append-nil result))
decode_loop-percent_encode u (b ∷ bs) result h =
    loop-encoded u b bs result h.0
    ∙ (decode_loop-percent_encode u bs
          (result ++ (if is_unreserved b then b else b % 16 * 16 + b / 16) ∷ []) h.1
        ∙ ap some (
            append_assoc result ((if is_unreserved b then b else b % 16 * 16 + b / 16) ∷ [])
              (swapped bs)))

-- Percent-encoded bytes decode to the bytes with the two hexadecimal digits of each escaped byte
-- swapped.
pub component_decode-percent_encode :
    (u : Bool) (bs : Bytes) → IsBytes bs → component_decode u (percent_encode bs) ≡ swapped bs
unfolding component_decode
component_decode-percent_encode u bs h = ground (arith, decode_loop-percent_encode u bs [] h)

-- What the loop adds.
length-decode_loop :
    (u : Bool) (skip : ℕ) (bs result : Bytes)
    → elim (decode_loop u skip bs result) [ none ↦ 0 | some out ↦ length out ]
      ≤ length result + length bs
unfolding decode_loop
length-decode_loop u skip [] result = omega arith
length-decode_loop u (suc skip) (c ∷ cs) result =
    ground (arith, length-decode_loop u skip cs result)
length-decode_loop u zero (c ∷ cs) result = elim (Option-cases (decoded u c cs)) [
  | inl none_left ↦ ground (arith, none_left)
  | inr (p, e) ↦
      ground (
        arith,
        e,
        length-append result (p.0 ∷ []),
        length-decode_loop u p.1 cs (result ++ p.0 ∷ []),
      )
]

-- The result is never longer than what it is decoded from.
pub length-component_decode : (u : Bool) (bs : Bytes) → length (component_decode u bs) ≤ length bs
unfolding component_decode
length-component_decode u bs = ground (arith, length-decode_loop u 0 bs [])
