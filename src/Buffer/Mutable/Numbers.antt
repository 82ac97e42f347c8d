-- ===== src/Buffer/Mutable/Numbers.antt =====
-- `append_number` writes a number that reads back as itself.
use native.Mathlib.Nat.{mod-eq_of_lt, le_trans, pow-le-pow_right, pow-le-pow_left}
use native.Mathlib.Decide.{dec_le}
use Prim.Native.Nat.{suc-le-suc}
use libnodecc.Prelude.{
  ℕ, zero, suc, ◌+◌, ◌-◌, ◌%◌, ◌^◌, ◌≤◌, ◌<◌, ◌≡◌, refl, ap, ◌∙◌, Bytes, Option, some, none, false,
  ◌++◌, length, arith,
}
use libnodecc.Util.Power.{size_mod, ipow, ipow_lem}
use libnodecc.Util.Digits.{
  Platform, digits, digits-hex, digits-decimal, digits_zero_decimal, digits_zero_hex, decimal_limit,
  IsLength,
}
use libnodecc.Buffer.Number.{
  emit, positions, emit-eq-positions, read_number, read-positions, length-positions,
}
use libnodecc.Buffer.Mutable.{MutableBuffer, IsValid, expand_size, fill, append_number}
use libnodecc.Buffer.Mutable.Validity.{expand_size_room, fill-IsValid}

-- `size` digits hold `n`, and the divisor of the first one does not wrap.
record Fits (base n size : ℕ) : Type 0 where
  pos : 1 ≤ size
  few : size ≤ 64
  divisor : base ^ (size - 1) < size_mod
  holds : n < base ^ size

divisor-lem :
    (base n size : ℕ)
    → Fits base n size
    → ipow base ((size + size_mod - 1) % size_mod) ≡ base ^ (size - 1)
divisor-lem base n size f =
    let e : (size + size_mod - 1) % size_mod ≡ size - 1 = omega (arith, f.pos, f.few) in
    rw e (ipow_lem base (size - 1) (omega (arith, f.few)) ∙ mod-eq_of_lt f.divisor)

emit_lem :
    (base n size : ℕ)
    → 2 ≤ base
    → Fits base n size
    → emit 64 n (ipow base ((size + size_mod - 1) % size_mod)) base ≡ some (positions n base size)
emit_lem base n size h f =
    let e : suc (size - 1) ≡ size = omega (arith, f.pos) in
    rw (divisor-lem base n size f)
      (emit-eq-positions 64 n base (size - 1) h (omega (arith, f.few, f.pos)) ∙ rw e)

IsLength-Fits :
    (base n size : ℕ) → 2 ≤ base → n < size_mod → IsLength base n size → Fits base n size
IsLength-Fits base n size h lt l = record {
  pos = l.0;
  few = elim (dec_le size 64) [
    | yes fits ↦ fits
    | no much ↦ absurd (
        omega (
          arith,
          l.1,
          lt,
          pow-le-pow_right {n = 2} (omega arith) {i = 64} {j = size - 1} (omega arith),
          pow-le-pow_left h (size - 1),
        ))
  ];
  divisor = le_trans (suc-le-suc l.1) lt;
  holds = l.2;
}

-- The buffer ends in digits that read back as `n`.
pub record Written (base n size : ℕ) (b : MutableBuffer) (result : Option MutableBuffer)
    : Type 0 where
  pub target : MutableBuffer
  pub digits : Bytes
  pub valid : IsValid target
  pub returns : result ≡ some target
  pub bytes : target.bytes ≡ b.bytes ++ digits
  pub of_positions : digits ≡ positions n base size
  pub nonempty : 1 ≤ length digits
  pub reads : read_number base 0 digits ≡ some n

wrapped_divisor : ipow 16 (size_mod - 1) ≡ 0
unfolding ipow
wrapped_divisor = refl

no_divisor : emit 64 0 0 16 ≡ none
unfolding emit
no_divisor = refl

positions-read :
    (base n size : ℕ)
    → 2 ≤ base
    → base ≤ 36
    → Fits base n size
    → read_number base 0 (positions n base size) ≡ some n
positions-read base n size h le f =
    read-positions n base size 0 h le ∙ ap some (omega (arith, mod-eq_of_lt f.holds))

module _ ⦃p : Platform⦄ where
  append_number_lem :
      (b : MutableBuffer) (n base : ℕ)
      → IsValid b
      → 2 ≤ base
      → base ≤ 36
      → Fits base n (digits n base)
      → Written base n (digits n base) b (append_number b n base)
  unfolding append_number fill
  append_number_lem b n base v h le f = record {
    target = fill (expand_size b size) (positions n base size);
    digits = positions n base size;
    valid = fill-IsValid b size (positions n base size) v (rw length-positions (omega arith));
    returns =
        ground (
          arith,
          emit_lem base n size h f,
          length-positions n base size,
          expand_size_room b size v,
        );
    bytes = ground (arith, expand_size_room b size v, f.pos);
    of_positions = refl;
    nonempty = rw (length-positions n base size) (f.pos);
    reads = positions-read base n size h le f;
  }
    where
      size : ℕ
      size = digits n base

  pub hex-reads :
      (n : ℕ) → 0 < n → n < size_mod → read_number 16 0 (positions n 16 (digits n 16)) ≡ some n
  hex-reads n pos lt =
      positions-read 16 n (digits n 16) (omega arith) (omega arith)
        (IsLength-Fits 16 n (digits n 16) (omega arith) lt (digits-hex n pos lt))

  -- In base 16 every number but 0 is written.
  pub append_number-hex :
      (b : MutableBuffer) (n : ℕ)
      → IsValid b
      → 0 < n
      → n < size_mod
      → Written 16 n (digits n 16) b (append_number b n 16)
  append_number-hex b n v pos lt =
      append_number_lem b n 16 v (omega arith) (omega arith)
        (IsLength-Fits 16 n (digits n 16) (omega arith) lt (digits-hex n pos lt))

  zero-Fits : Fits 10 0 (digits 0 10)
  zero-Fits = rw digits_zero_decimal (omega arith)

  -- In base 10 every number below the bound is written, 0 too.
  pub append_number-decimal :
      (b : MutableBuffer) (n : ℕ)
      → IsValid b
      → n < decimal_limit
      → Written 10 n (digits n 10) b (append_number b n 10)
  append_number-decimal b zero v lt =
      append_number_lem b 0 10 v (omega arith) (omega arith) zero-Fits
  append_number-decimal b (suc n) v lt =
      append_number_lem b (suc n) 10 v (omega arith) (omega arith) (
        IsLength-Fits 10 (suc n) (digits (suc n) 10) (omega arith) below
          (digits-decimal (suc n) (omega arith) lt))
    where
      below : suc n < size_mod
      below = ground arith

  -- 0 in base 16 has no digit by `digits`, so the divisor wraps to 0 and is divided by.
  pub append_number-hex_zero : (b : MutableBuffer) → b.null ≡ false → append_number b 0 16 ≡ none
  unfolding append_number
  append_number-hex_zero b h =
      let kept : (expand_size b 0).null ≡ false = unfold expand_size in ground arith in
      rw (digits_zero_hex, kept) (rw (wrapped_divisor, no_divisor))
