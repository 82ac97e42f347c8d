-- ===== src/Util/Base64/Encode.antt =====
-- The encoder against the reference.
use libnodecc.Prelude.{
  ℕ, zero, suc, ◌+◌, ◌-◌, ◌*◌, ◌/◌, ◌%◌, ◌^◌, ◌≤◌, ◌<◌, ◌≡◌, refl, ap, ◌∙◌, arith, Bytes, IsBytes,
  Bool, ◌&&◌, ◌||◌, [], ◌∷◌, ◌++◌, append_assoc, length, none, some, ◌>>=◌, inl, inr, ◌⊎◌,
}
use libnodecc.Prelude.{ltb, leb, if◌then◌else◌}
use libnodecc.Util.Base64.{
  word, quad, quads, align, load, load_three, by_words, triples, by_bytes, in_bulk, encode_with,
  table_of, encode,
}
use libnodecc.Util.Base64.Reference.{digits_of, reference}
use libnodecc.Util.Base64.Quads.{low_then, quad-digits, quads-digits}
use Prim.Native.Nat.{bit_and, bit_or}

module _ (table : Bytes) where
  pub triples-reference : (bs : Bytes) → IsBytes bs → triples table bs ≡ reference table bs
  unfolding triples reference
  triples-reference [] h = refl
  triples-reference (a ∷ []) h = rw (e0, e1) refl
    where
      e0 : a / 4 ≡ a * 2 ^ 16 / 64 ^ 3 % 64
      e0 = omega (arith, h.0)

      e1 : bit_or (bit_and a 3 * 16) 0 ≡ a * 2 ^ 16 / 64 ^ 2 % 64
      e1 = omega (arith, low_then 2 4 a 0 (omega arith), h.0)
  triples-reference (a ∷ b ∷ []) h = rw (e0, e1, e2) refl
    where
      n : ℕ
      n = a * 2 ^ 16 + b * 2 ^ 8

      e0 : a / 4 ≡ n / 64 ^ 3 % 64
      e0 = omega (arith, h.0, h.1.0)

      e1 : bit_or (bit_and a 3 * 16) (b / 16) ≡ n / 64 ^ 2 % 64
      e1 = omega (arith, low_then 2 4 a (b / 16) (omega (arith, h.1.0)), h.0, h.1.0)

      e2 : bit_or (bit_and b 15 * 4) 0 ≡ n / 64 ^ 1 % 64
      e2 = omega (arith, low_then 4 2 b 0 (omega arith), h.0, h.1.0)
  triples-reference (a ∷ b ∷ c ∷ bs) h =
      ap (λ t. t ++ triples table bs) (quad-digits table a b c h.0 h.1.0 h.1.1.0)
      ∙ ap (λ t. digits_of table a b c ++ t) (triples-reference bs h.1.1.1)

  -- A loop that has read `n` of the bytes, and what is left to it.
  record Reads (n : ℕ) (bs : Bytes) (r : Bytes × Bytes) : Type 0 where
    text : r.0 ++ reference table r.1 ≡ reference table bs
    bytes : IsBytes r.1
    size : length r.1 + n ≡ length bs

  nothing-Reads : (bs : Bytes) → IsBytes bs → Reads 0 bs ([], bs)
  nothing-Reads bs h = record { text = refl; bytes = h; size = omega arith }

  recount : (n m : ℕ) {bs : Bytes} {r : Bytes × Bytes} → n ≡ m → Reads n bs r → Reads m bs r
  recount n m e s = record { text = s.text; bytes = s.bytes; size = omega (arith, s.size, e) }

  quad-Reads :
      (a b c n : ℕ) (bs : Bytes) (r : Bytes × Bytes)
      → IsBytes (a ∷ b ∷ c ∷ bs)
      → Reads n bs r
      → Reads (n + 3) (a ∷ b ∷ c ∷ bs) (quad table a b c ++ r.0, r.1)
  unfolding reference
  quad-Reads a b c n bs r h s = record {
    text =
        ap (λ t. (t ++ r.0) ++ reference table r.1) (quad-digits table a b c h.0 h.1.0 h.1.1.0)
        ∙ ap (λ t. digits_of table a b c ++ t) s.text;
    bytes = s.bytes;
    size = omega (arith, s.size);
  }

  align-Reads :
      (k : ℕ) (bs : Bytes)
      → IsBytes bs
      → 3 * k ≤ length bs
      → (r : Bytes × Bytes) × (align table k bs ≡ some r) × Reads (3 * k) bs r
  unfolding align
  align-Reads zero bs h le = (([], bs), refl, nothing-Reads bs h)
  align-Reads (suc k) [] h le = absurd (omega arith)
  align-Reads (suc k) (a ∷ []) h le = absurd (omega arith)
  align-Reads (suc k) (a ∷ b ∷ []) h le = absurd (omega arith)
  align-Reads (suc k) (a ∷ b ∷ c ∷ bs) h le =
      let ih = align-Reads k bs h.1.1.1 (omega arith) in
      (
        (quad table a b c ++ ih.0.0, ih.0.1),
        rw ih.1 refl,
        recount (3 * k + 3) (3 * suc k) (omega arith) (quad-Reads a b c (3 * k) bs ih.0 h ih.2),
      )

  twelve-Reads :
      (a b c d e f g h i j k l n : ℕ) (bs : Bytes) (r : Bytes × Bytes)
      → IsBytes (a ∷ b ∷ c ∷ d ∷ e ∷ f ∷ g ∷ h ∷ i ∷ j ∷ k ∷ l ∷ bs)
      → Reads n bs r
      → Reads
          (n + 12)
          (a ∷ b ∷ c ∷ d ∷ e ∷ f ∷ g ∷ h ∷ i ∷ j ∷ k ∷ l ∷ bs)
          (quads table (word a b c d) (word e f g h) (word i j k l) ++ r.0, r.1)
  unfolding reference
  twelve-Reads a b c d e f g h i j k l n bs r below s = record {
    text =
        ap (λ t. (t ++ r.0) ++ reference table r.1)
          (quads-digits table a b c d e f g h i j k l (omega arith))
        ∙ ap
            (λ t.
              digits_of table a b c
              ++ (digits_of table d e f ++ (digits_of table g h i ++ (digits_of table j k l ++ t))))
            s.text;
    bytes = s.bytes;
    size = omega (arith, s.size);
  }

  -- Twelve bytes are there, or the words cannot be read.
  by_words-twelve :
      (a b c d e f g h i j k l n : ℕ) (bs : Bytes)
      → by_words table (suc n) (a ∷ b ∷ c ∷ d ∷ e ∷ f ∷ g ∷ h ∷ i ∷ j ∷ k ∷ l ∷ bs) ≡ (
          by_words table n bs >>= λ s.
          some (quads table (word a b c d) (word e f g h) (word i j k l) ++ s.0, s.1))
  unfolding by_words
  by_words-twelve a b c d e f g h i j k l n bs = refl

load_cases :
    (bs : Bytes)
    → ((load bs ≡ none) × (length bs < 4))
      ⊎ ((a b c d : ℕ) × (rest : Bytes) × (bs ≡ a ∷ b ∷ c ∷ d ∷ rest))
load_cases [] = inl (refl, omega arith)
load_cases (a ∷ []) = inl (refl, omega arith)
load_cases (a ∷ b ∷ []) = inl (refl, omega arith)
load_cases (a ∷ b ∷ c ∷ []) = inl (refl, omega arith)
load_cases (a ∷ b ∷ c ∷ d ∷ rest) = inr (a, b, c, d, rest, refl)

twelve_cases :
    (bs : Bytes)
    → ((load_three bs ≡ none) × (length bs < 12))
      ⊎ ((a b c d e f g h i j k l : ℕ) × (more : Bytes) × (bs
            ≡ a ∷ b ∷ c ∷ d ∷ e ∷ f ∷ g ∷ h ∷ i ∷ j ∷ k ∷ l ∷ more))
twelve_cases bs = elim (load_cases bs) [
  | inl (fails, short) ↦ inl (rw fails refl, omega arith)
  | inr (a, b, c, d, rest, e1) ↦ elim (load_cases rest) [
    | inl (fails, short) ↦ inl (rw (e1, fails) refl, omega (arith, ap length e1))
    | inr (e, f, g, h, rest', e2) ↦ elim (load_cases rest') [
      | inl (fails, short) ↦
          inl (rw (e1, e2, fails) refl, omega (arith, ap length e1, ap length e2))
      | inr (i, j, k, l, more, e3) ↦
          inr (a, b, c, d, e, f, g, h, i, j, k, l, more, rw (e1, e2, e3) refl)
    ]
  ]
]

cast-IsBytes : (xs ys : Bytes) → xs ≡ ys → IsBytes xs → IsBytes ys
cast-IsBytes xs ys e h = rw (← e) h

-- How far the first two loops read.
abbrev pub reach : ℕ → ℕ → ℕ
reach offset size = 3 * offset + 12 * (size / 12)

module _ (table : Bytes) where
  -- What the second loop makes of the bytes that it reads.
  abbrev Loops : ℕ → Bytes → Type 0
  Loops k bs = (r : Bytes × Bytes) × (by_words table k bs ≡ some r) × Reads table (12 * k) bs r

  twelve-Loops :
      (a b c d e f g h i j k l n : ℕ) (bs : Bytes)
      → IsBytes (a ∷ b ∷ c ∷ d ∷ e ∷ f ∷ g ∷ h ∷ i ∷ j ∷ k ∷ l ∷ bs)
      → Loops n bs
      → Loops (suc n) (a ∷ b ∷ c ∷ d ∷ e ∷ f ∷ g ∷ h ∷ i ∷ j ∷ k ∷ l ∷ bs)
  twelve-Loops a b c d e f g h i j k l n bs below ih = (
    (quads table (word a b c d) (word e f g h) (word i j k l) ++ ih.0.0, ih.0.1),
    by_words-twelve table a b c d e f g h i j k l n bs ∙ rw ih.1 refl,
    recount table (12 * n + 12) (12 * suc n) (omega arith)
        (twelve-Reads table a b c d e f g h i j k l (12 * n) bs ih.0 below ih.2),
  )

  by_words-Loops : (k : ℕ) (bs : Bytes) → IsBytes bs → 12 * k ≤ length bs → Loops k bs
  by_words-Loops zero bs h le = unfold by_words in (([], bs), refl, nothing-Reads table bs h)
  by_words-Loops (suc n) bs below le = elim (twelve_cases bs) [
    | inl (fails, short) ↦ absurd (omega (arith, le, short))
    | inr (a, b, c, d, e, f, g, h, i, j, k, l, more, all) ↦
        let below' =
          cast-IsBytes bs (a ∷ b ∷ c ∷ d ∷ e ∷ f ∷ g ∷ h ∷ i ∷ j ∷ k ∷ l ∷ more) all below in
        rw all (
          twelve-Loops a b c d e f g h i j k l n more below' (
            by_words-Loops n more below'.1.1.1.1.1.1.1.1.1.1.1.1
              (omega (arith, le, ap length all))))
  ]

  by_words-short : (k : ℕ) (bs : Bytes) → length bs < 12 * k → by_words table k bs ≡ none
  unfolding by_words
  by_words-short zero bs h = absurd (omega arith)
  by_words-short (suc n) bs short = elim (twelve_cases bs) [
    | inl (fails, few) ↦ rw fails refl
    | inr (a, b, c, d, e, f, g, h, i, j, k, l, more, all) ↦
        rw (all, by_words-short n more (omega (arith, short, ap length all))) refl
  ]

  in_bulk-reads :
      (offset : ℕ) (bs : Bytes)
      → IsBytes bs
      → offset ≤ 3
      → 12 ≤ length bs
      → reach offset (length bs) ≤ length bs
      → (r : Bytes × Bytes) × (in_bulk table offset bs ≡ some r)
        × (r.0 ++ reference table r.1 ≡ reference table bs)
        × IsBytes r.1
  unfolding in_bulk
  in_bulk-reads offset bs h le large fits =
      let p = align-Reads table offset bs h (omega (arith, fits)) in
      let q =
        by_words-Loops ((length bs - 11 + 11) / 12) p.0.1 p.2.bytes
          (omega (arith, fits, p.2.size, large)) in
      (
        (p.0.0 ++ q.0.0, q.0.1),
        rw (p.1, q.1) refl,
        append_assoc p.0.0 q.0.0 (reference table q.0.1)
            ∙ (ap (λ t. p.0.0 ++ t) q.2.text ∙ p.2.text),
        q.2.bytes,
      )

  in_bulk-beyond :
      (offset : ℕ) (bs : Bytes)
      → IsBytes bs
      → offset ≤ 3
      → 12 ≤ length bs
      → length bs < reach offset (length bs)
      → in_bulk table offset bs ≡ none
  unfolding in_bulk
  in_bulk-beyond offset bs h le large beyond =
      let p = align-Reads table offset bs h (omega (arith, le, large)) in
      rw
        (
          p.1,
          by_words-short ((length bs - 11 + 11) / 12) p.0.1
              (omega (arith, beyond, p.2.size, large)),
        )
        refl

  -- The end of the buffer is no address below 2.
  encode_with-small :
      (address : ℕ) (bs : Bytes)
      → IsBytes bs
      → 2 ≤ address + length bs
      → length bs < 12
      → encode_with table address bs ≡ some (reference table bs)
  unfolding encode_with by_bytes
  encode_with-small address bs h far small =
      ground (arith, far, small, triples-reference table bs h)

  encode_with-large :
      (address : ℕ) (bs : Bytes)
      → IsBytes bs
      → 12 ≤ length bs
      → reach (address % 4) (length bs) ≤ length bs
      → encode_with table address bs ≡ some (reference table bs)
  unfolding encode_with by_bytes
  encode_with-large address bs h large fits =
      let r = in_bulk-reads (address % 4) bs h (omega arith) large fits in
      ground (arith, large, r.1, r.2, triples-reference table r.0.1 r.3)

  encode_with-beyond :
      (address : ℕ) (bs : Bytes)
      → IsBytes bs
      → 12 ≤ length bs
      → length bs < reach (address % 4) (length bs)
      → encode_with table address bs ≡ none
  unfolding encode_with
  encode_with-beyond address bs h large beyond =
      ground (arith, large, in_bulk-beyond (address % 4) bs h (omega arith) large beyond)

  encode_with-wrap :
      (address : ℕ) (bs : Bytes) → address + length bs < 2 → encode_with table address bs ≡ none
  unfolding encode_with by_bytes
  encode_with-wrap address bs near = ground (arith, near)

-- Whether the encoder reads out of bounds: the buffer ends at an address below 2, as a buffer at
-- null does, or the loop over words goes too far.
abbrev pub overruns : ℕ → ℕ → Bool
overruns address size =
    ltb (address + size) 2 || (leb 12 size && ltb size (reach (address % 4) size))

-- The encoder gives the base64 of RFC 4648, in either alphabet, unless it reads out of bounds. It
-- does so in two cases: for a buffer that ends at an address below 2, such as the buffer without
-- bytes at null, since its `end - 2` wraps; and where there are at least twelve bytes and the three
-- bytes for each step to an aligned address, followed by all twelves of the size, do not fit the
-- buffer.
pub encode-reference :
    (base64url : Bool) (address : ℕ) (bs : Bytes)
    → IsBytes bs
    → encode base64url address bs
      ≡ (if overruns address (length bs) then none else some (reference (table_of base64url) bs))
unfolding encode
encode-reference base64url address bs h = ground (
  arith,
  encode_with-small (table_of base64url) address bs h,
  encode_with-large (table_of base64url) address bs h,
  encode_with-beyond (table_of base64url) address bs h,
  encode_with-wrap (table_of base64url) address bs,
)
