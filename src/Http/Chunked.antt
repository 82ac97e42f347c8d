-- ===== src/Http/Chunked.antt =====
-- The chunked transfer coding as RFC 7230, section 4.1, has it, with no extensions and no trailer:
-- the reader that a peer runs, and the frames that it accepts.
use libnodecc.Prelude.{
  ℕ, zero, suc, ◌+◌, ◌*◌, ◌<◌, ◌≡◌, refl, ap, ◌∙◌, arith, Bytes, codes, concat, is_empty, true,
  false, List, [], ◌∷◌, ◌++◌, append_assoc, length, take, drop, length-append, take-append,
  drop-append, Option, none, some,
}
use libnodecc.Prelude.{
  ◌==◌, ltb, leb, ◌>>=◌, if◌then◌else◌, All, Bool-cases, Option-cases, inl, inr,
}
use libnodecc.Util.Digits.{Platform, digits}
use libnodecc.Buffer.Number.{char_value, positions, read_number}
use libnodecc.Buffer.Mutable.Numbers.{hex-reads}
use libnodecc.Util.Power.{size_mod}

abbrev pub crlf : Bytes
crlf = 13 ∷ 10 ∷ []

-- What follows a line break, if there is one.
unfoldable pub after_break : Bytes → Option Bytes
after_break [] = none
after_break (a ∷ []) = none
after_break (a ∷ b ∷ bs) = if a == 13 then (if b == 10 then some bs else none) else none

-- The size at the head of a chunk, in hexadecimal up to a line break, and what follows it.
unfoldable pub read_size : ℕ → Bytes → Option (ℕ × Bytes)
read_size acc [] = none
read_size acc (c ∷ cs) =
    let more = char_value c >>= λ v. if ltb v 16 then read_size (acc * 16 + v) cs else none in
    if c == 13 then (after_break (c ∷ cs) >>= λ rest. some (acc, rest)) else more

-- The body of a chunked message. Each chunk takes one unit of fuel.
unfoldable pub decode : ℕ → Bytes → Option Bytes
decode zero bs = none
decode (suc fuel) bs = read_size 0 bs >>= λ head.
    let rest = after_break (drop head.0 head.1) >>= λ more.
    decode fuel more >>= λ body. some (take head.0 head.1 ++ body) in
    if head.0 == 0
    then (after_break head.1 >>= λ left. if is_empty left then some [] else none)
    else if leb head.0 (length head.1)
    then rest
    else none

abbrev pub last_chunk : Bytes
last_chunk = codes "0" ++ crlf ++ crlf

-- One chunk, and a chunk for each buffer.
module _ ⦃p : Platform⦄ where
  unfoldable pub hex : ℕ → Bytes
  hex n = positions n 16 (digits n 16)

  unfoldable pub frames : List Bytes → Bytes
  frames [] = []
  frames (c ∷ cs) = hex (length c) ++ crlf ++ (c ++ (crlf ++ frames cs))

none-ne-some {ℓ} : {A : Type ℓ} {a : A} → none ≡ some a → ⊥
none-ne-some e = cc

not_break : (c : ℕ) {v : ℕ} → char_value c ≡ some v → (c == 13) ≡ false
unfolding char_value
not_break c e = ground arith

module _ ⦃p : Platform⦄ where
  pub frames-append : (xs bs : List Bytes) → frames (xs ++ bs) ≡ frames xs ++ frames bs
  unfolding frames
  frames-append [] bs = refl
  frames-append (c ∷ cs) bs = rw (frames-append cs bs) (simp append_assoc)

read_size-digits :
    (ds : Bytes) (acc n : ℕ) (rest : Bytes)
    → read_number 16 acc ds ≡ some n
    → read_size acc (ds ++ crlf ++ rest) ≡ some (n, rest)
unfolding read_size read_number
read_size-digits [] acc n rest h = unfold after_break in ground arith
read_size-digits (c ∷ ds) acc n rest h = elim (Option-cases (char_value c)) [
  | inl z ↦ absurd (none-ne-some (rw z at h))
  | inr (v, e) ↦ elim (Bool-cases (ltb v 16)) [
    | inr big ↦ absurd (none-ne-some (rw (e, big) at h))
    | inl fits ↦
        let other : (c == 13) ≡ false = not_break c e in
        rw (other, e, fits) (read_size-digits ds (acc * 16 + v) n rest (rw (e, fits) at h))
  ]
]

module _ ⦃p : Platform⦄ where
  -- A chunk that the coding can carry.
  abbrev pub IsChunk : Bytes → Type 0
  IsChunk c = (0 < length c) × (length c < size_mod)

  read_size-hex :
      (c more : Bytes)
      → IsChunk c
      → read_size 0 (hex (length c) ++ crlf ++ (c ++ more)) ≡ some (length c, c ++ more)
  unfolding hex
  read_size-hex c more h =
      read_size-digits (hex (length c)) 0 (length c) (c ++ more) (hex-reads (length c) h.0 h.1)

  decode-frame :
      (fuel : ℕ) (c rest : Bytes)
      → IsChunk c
      → decode (suc fuel) (hex (length c) ++ crlf ++ (c ++ (crlf ++ rest)))
        ≡ (decode fuel rest >>= λ body. some (c ++ body))
  unfolding decode hex
  decode-frame fuel c rest h =
      rw
        (
          read_size-hex c (crlf ++ rest) h,
          drop-append c (crlf ++ rest),
          take-append c (crlf ++ rest),
          nonzero,
          enough,
        )
        (unfold after_break in refl)
    where
      nonzero : (length c == 0) ≡ false
      nonzero = ground arith

      enough : leb (length c) (length (c ++ (crlf ++ rest))) ≡ true
      enough = ground (arith, length-append c (crlf ++ rest))

  decode-last_chunk : (fuel : ℕ) → decode (suc fuel) last_chunk ≡ some []
  unfolding decode read_size after_break char_value
  decode-last_chunk fuel = refl

  -- A peer that is given one unit of fuel for each chunk reads the contents of the chunks.
  pub decode-frames :
      (cs : List Bytes) (fuel : ℕ)
      → All IsChunk cs
      → length cs < fuel
      → decode fuel (frames cs ++ last_chunk) ≡ some (concat cs)
  unfolding frames
  decode-frames [] (suc fuel) h lt = decode-last_chunk fuel
  decode-frames [] zero h lt = absurd (omega arith)
  decode-frames (c ∷ cs) zero h lt = absurd (omega arith)
  decode-frames (c ∷ cs) (suc fuel) h lt =
      ap (decode (suc fuel))
        (append_assoc (hex (length c) ++ crlf) (c ++ (crlf ++ frames cs)) last_chunk)
      ∙ (ap (λ t. decode (suc fuel) (hex (length c) ++ crlf ++ t))
            (append_assoc c (crlf ++ frames cs) last_chunk)
          ∙ (decode-frame fuel c (frames cs ++ last_chunk) h.0
              ∙ rw (decode-frames cs fuel h.1 (omega arith))))
