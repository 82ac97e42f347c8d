-- ===== src/Util/Base64/Groups.antt =====
-- The decoder on one group of four characters.
use libnodecc.Prelude.{
  ℕ, ◌+◌, ◌*◌, ◌/◌, ◌%◌, ◌^◌, ◌≤◌, ◌<◌, ◌≡◌, refl, ap, ◌∙◌, arith, Bytes, Bool, true, false, [],
  ◌∷◌, ◌++◌, passes_to, passes_to-holds, ==_iff,
}
use libnodecc.Prelude.{◌==◌}
use libnodecc.Util.Bits.{bit_or-fields}
use libnodecc.Util.Base64.{
  letter, encode_table_def, encode_table_url, table_of, decoded, Decoder, shift6, unpacked, carried,
  group,
}
use libnodecc.Util.Base64.Quads.{field}
use Prim.Native.Nat.{bit_and, bit_or}

letters_def : passes_to (λ i. decoded (letter encode_table_def i) == i) 64 ≡ true
unfolding passes_to decoded
letters_def = refl

letters_url : passes_to (λ i. decoded (letter encode_table_url i) == i) 64 ≡ true
unfolding passes_to decoded
letters_url = refl

pub decoded-letter :
    (base64url : Bool) (i : ℕ) → i < 64 → decoded (letter (table_of base64url) i) ≡ i
decoded-letter true i h = (==_iff _ i).0 (passes_to-holds _ 64 letters_url h)
decoded-letter false i h = (==_iff _ i).0 (passes_to-holds _ 64 letters_def h)

-- A sextet behind the bits that are there.
pub shift6-sextet :
    (n : ℕ) (s : Decoder)
    → n < 64
    → shift6 n s ≡ record s { r = s.r * 64 % 2 ^ 32 + n; ri = (s.ri + 1) % 256 }
unfolding shift6
shift6-sextet n s h = ground (arith, shifted)
  where
    shifted : bit_or (s.r * 64 % 2 ^ 32) n ≡ s.r * 64 % 2 ^ 32 + n
    shifted =
        let e : s.r * 64 % 2 ^ 32 ≡ s.r % 2 ^ 26 * 2 ^ 6 = omega arith in
        rw e (bit_or-fields 6 (s.r % 2 ^ 26) n h)

pub shift6-ignored : (n : ℕ) (s : Decoder) → 64 ≤ n → shift6 n s ≡ s
unfolding shift6
shift6-ignored n s h = ground arith

-- The bits behind two, three and four sextets.
abbrev pub pushed : ℕ → ℕ → ℕ
pushed r n = r * 64 % 2 ^ 32 + n

unpacked_two :
    (r x y : ℕ) (out : Bytes)
    → x < 64
    → y < 64
    → unpacked (record { r = pushed (pushed r x) y; ri = 2; written = out }) ≡ (x * 4 + y / 16) ∷ []
unfolding unpacked
unpacked_two r x y out hx hy = rw e refl
  where
    e : bit_and (pushed (pushed r x) y) 0xff0 / 2 ^ 4 ≡ x * 4 + y / 16
    e = omega (arith, field 8 4 (pushed (pushed r x) y))

unpacked_three :
    (r x y z : ℕ) (out : Bytes)
    → x < 64
    → y < 64
    → z < 64
    → unpacked (record { r = pushed (pushed (pushed r x) y) z; ri = 3; written = out })
      ≡ (x * 4 + y / 16) ∷ (y % 16 * 16 + z / 4) ∷ []
unfolding unpacked
unpacked_three r x y z out hx hy hz = rw (e1, e2) refl
  where
    bits : ℕ
    bits = pushed (pushed (pushed r x) y) z

    e1 : bit_and bits 0x3fc00 / 2 ^ 10 ≡ x * 4 + y / 16
    e1 = omega (arith, field 8 10 bits)

    e2 : bit_and bits 0x3fc / 2 ^ 2 ≡ y % 16 * 16 + z / 4
    e2 = omega (arith, field 8 2 bits)

unpacked_four :
    (r w x y z : ℕ) (out : Bytes)
    → w < 64
    → x < 64
    → y < 64
    → z < 64
    → unpacked (record { r = pushed (pushed (pushed (pushed r w) x) y) z; ri = 4; written = out })
      ≡ (w * 4 + x / 16) ∷ (x % 16 * 16 + y / 4) ∷ (y % 4 * 64 + z) ∷ []
unfolding unpacked
unpacked_four r w x y z out hw hx hy hz = rw (e1, e2, e3) refl
  where
    bits : ℕ
    bits = pushed (pushed (pushed (pushed r w) x) y) z

    e1 : bit_and bits 0xff0000 / 2 ^ 16 ≡ w * 4 + x / 16
    e1 = omega (arith, field 8 16 bits)

    e2 : bit_and bits 0xff00 / 2 ^ 8 ≡ x % 16 * 16 + y / 4
    e2 = omega (arith, field 8 8 bits)

    e3 : bit_and bits 0xff / 2 ^ 0 ≡ y % 4 * 64 + z
    e3 = omega (arith, field 8 0 bits)

-- The switch of the first loop.
abbrev pub switched : Decoder → Decoder
switched s = record s { written = s.written ++ unpacked s; ri = carried s.ri }

-- A decoder with no sextet pending.
abbrev pub fresh : ℕ → Bytes → Decoder
fresh r out = record { r = r; ri = 0; written = out }

-- A group as it was written, and one with one and two characters that are none.
pub record Group (a b c d : ℕ) (w x y : ℕ) : Type 0 where
  pub first : decoded a ≡ w
  pub second : decoded b ≡ x
  pub third : decoded c ≡ y
  pub first-lt : w < 64
  pub second-lt : x < 64

module _ (r : ℕ) (out : Bytes) (a b c d : ℕ) (w x y : ℕ) (g : Group a b c d w x y) where
  two_shifted :
      shift6 (decoded b) (shift6 (decoded a) (fresh r out))
      ≡ record { r = pushed (pushed r w) x; ri = 2; written = out }
  two_shifted =
      ap (λ n. shift6 (decoded b) (shift6 n (fresh r out))) g.first
      ∙ (ap (shift6 (decoded b)) (shift6-sextet w (fresh r out) g.first-lt)
          ∙ (ap (λ n. shift6 n (record { r = pushed r w; ri = 1; written = out })) g.second
              ∙ shift6-sextet x (record { r = pushed r w; ri = 1; written = out }) g.second-lt))

  three_shifted :
      y < 64
      → shift6 (decoded c) (shift6 (decoded b) (shift6 (decoded a) (fresh r out)))
        ≡ record { r = pushed (pushed (pushed r w) x) y; ri = 3; written = out }
  three_shifted hy =
      ap (shift6 (decoded c)) two_shifted
      ∙ (ap (λ n. shift6 n (record { r = pushed (pushed r w) x; ri = 2; written = out })) g.third
          ∙ shift6-sextet y (record { r = pushed (pushed r w) x; ri = 2; written = out }) hy)

  pub group_four :
      (z : ℕ)
      → y < 64
      → decoded d ≡ z
      → z < 64
      → group a b c d (fresh r out)
        ≡ fresh
            (pushed (pushed (pushed (pushed r w) x) y) z)
            (out ++ ((w * 4 + x / 16) ∷ (x % 16 * 16 + y / 4) ∷ (y % 4 * 64 + z) ∷ []))
  unfolding group carried
  group_four z hy ed hz =
      ap (λ s. switched (shift6 (decoded d) s)) (three_shifted hy)
      ∙ (ap (λ n. switched (shift6 n (record { r = r'; ri = 3; written = out }))) ed
          ∙ (ap switched (shift6-sextet z (record { r = r'; ri = 3; written = out }) hz)
              ∙ ap (λ t. fresh (pushed r' z) (out ++ t))
                  (unpacked_four r w x y z out g.first-lt g.second-lt hy hz)))
    where
      r' : ℕ
      r' = pushed (pushed (pushed r w) x) y

  pub group_three :
      y < 64
      → 64 ≤ decoded d
      → group a b c d (fresh r out) ≡ record {
        r = pushed (pushed (pushed r w) x) y;
        ri = 1;
        written = out ++ ((w * 4 + x / 16) ∷ (x % 16 * 16 + y / 4) ∷ []);
      }
  unfolding group carried
  group_three hy ed =
      ap (λ s. switched (shift6 (decoded d) s)) (three_shifted hy)
      ∙ (ap switched (shift6-ignored (decoded d) (record { r = r'; ri = 3; written = out }) ed)
          ∙ ap (λ t. record { r = r'; ri = 1; written = out ++ t })
              (unpacked_three r w x y out g.first-lt g.second-lt hy))
    where
      r' : ℕ
      r' = pushed (pushed (pushed r w) x) y

  pub group_two :
      64 ≤ y
      → 64 ≤ decoded d
      → group a b c d (fresh r out)
        ≡ record { r = pushed (pushed r w) x; ri = 1; written = out ++ ((w * 4 + x / 16) ∷ []) }
  unfolding group carried
  group_two hy ed =
      ap (λ s. switched (shift6 (decoded d) (shift6 (decoded c) s))) two_shifted
      ∙ (ap (λ n. switched (shift6 (decoded d) (shift6 n s2))) g.third
          ∙ (ap (λ s. switched (shift6 (decoded d) s)) (shift6-ignored y s2 hy)
              ∙ (ap switched (shift6-ignored (decoded d) s2 ed)
                  ∙ ap (λ t. record { r = pushed (pushed r w) x; ri = 1; written = out ++ t })
                      (unpacked_two r w x out g.first-lt g.second-lt))))
    where
      s2 : Decoder
      s2 = record { r = pushed (pushed r w) x; ri = 2; written = out }
