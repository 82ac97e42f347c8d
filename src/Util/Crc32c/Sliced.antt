-- ===== src/Util/Crc32c/Sliced.antt =====
-- `push` and the checksums against the reference.
use libnodecc.Prelude.{
  ℕ, zero, suc, ◌+◌, ◌-◌, ◌*◌, ◌/◌, ◌%◌, ◌^◌, ◌≤◌, ◌<◌, ◌≡◌, refl, sym, ap, ◌∙◌, arith, Bytes,
  IsBytes, false, [], ◌∷◌, ◌++◌, length, length-append, append-nil, Option, some, ◌>>=◌,
}
use libnodecc.Prelude.{◌==◌}
use libnodecc.Util.Bits.{bit_and-ones, bit_and-high}
use libnodecc.Util.Crc32c.{push_to, push_bytes, push_words, head_count, word_count, aligned_down}
use libnodecc.Util.Crc32c.Reference.{remainder}
use libnodecc.Util.Crc32c.Loops.{
  remainder-append, remainder-below, push_bytes-append, push_words-append,
}

-- A list cut in two.
abbrev Cut : ℕ → Bytes → Type 0
Cut n bs = (xs : Bytes) × (ys : Bytes) × (bs ≡ xs ++ ys) × (length xs ≡ n) × IsBytes xs × IsBytes ys

cut : (n : ℕ) (bs : Bytes) → n ≤ length bs → IsBytes bs → Cut n bs
cut zero bs h ok = ([], bs, refl, refl, tt, ok)
cut (suc n) [] h ok = absurd (omega arith)
cut (suc n) (b ∷ bs) h ok =
    let r = cut n bs (omega arith) ok.1 in
    (b ∷ r.0, r.1, ap (λ t. b ∷ t) r.2, ap suc r.3, (ok.0, r.4), r.5)

pub aligned_down-eight : (a : ℕ) → a < 2 ^ 64 → aligned_down a ≡ a / 8 * 8
aligned_down-eight a h =
    bit_and-high 3 a (2 ^ 61 - 1) ∙ ap (λ t. t * 8) (bit_and-ones 61 (a / 8) ∙ below)
  where
    below : a / 8 % 2 ^ 61 ≡ a / 8
    below = omega arith

-- The three counts make up the buffer.
counts :
    (address count : ℕ)
    → address + count + 7 < 2 ^ 64
    → head_count address count
        + (word_count (address + head_count address count) (address + count) * 8)
      ≤ count
unfolding head_count word_count
counts address count h = omega (
  arith,
  aligned_down-eight ((address + 7) % 2 ^ 64) (omega arith),
  aligned_down-eight (address + count) (omega arith),
)

push_bytes-all :
    (c : ℕ) (zs : Bytes) → IsBytes zs → push_bytes (length zs) c zs ≡ some (remainder c zs, [])
push_bytes-all c zs ok =
    ap (λ t. push_bytes (length zs) c t) (sym (append-nil zs)) ∙ push_bytes-append c zs [] ok

-- The three loops, over `n` bytes, `m` rounds and what is left.
abbrev loops : ℕ → ℕ → ℕ → Bytes → Option ℕ
loops n m c bs = push_bytes n c bs >>= λ r.
    push_words m r.0 r.1 >>= λ s. push_bytes (length s.1) s.0 s.1 >>= λ t. some t.0

loops-pieces :
    (c m n : ℕ) (bs xs ys zs : Bytes)
    → bs ≡ xs ++ (ys ++ zs)
    → n ≡ length xs
    → length ys ≡ m * 8
    → c < 2 ^ 32
    → IsBytes xs
    → IsBytes ys
    → IsBytes zs
    → loops n m c bs ≡ some (remainder c bs)
loops-pieces c m n bs xs ys zs e l k small p q r =
    rw
      (
        e,
        l,
        push_bytes-append c xs (ys ++ zs) p,
        push_words-append m (remainder c xs) ys zs k (remainder-below c xs small p) q,
        push_bytes-all (remainder (remainder c xs) ys) zs r,
        remainder-append c xs (ys ++ zs),
        remainder-append (remainder c xs) ys zs,
      )
      refl

loops-remainder :
    (c m n : ℕ) (bs : Bytes)
    → n + m * 8 ≤ length bs
    → c < 2 ^ 32
    → IsBytes bs
    → loops n m c bs ≡ some (remainder c bs)
loops-remainder c m n bs fits small ok =
    loops-pieces c m n bs (r.0) (s.0) (s.1) (r.2 ∙ ap (λ t. r.0 ++ t) (s.2)) (sym (r.3)) (s.3) small
      (r.4) (s.4) (s.5)
  where
    r : Cut n bs
    r = cut n bs (omega arith) ok

    s : Cut (m * 8) (r.1)
    s = cut (m * 8) (r.1) (omega (arith, length-append (r.0) (r.1), ap length (r.2), r.3)) (r.5)

-- `push` of a buffer that is not empty, whatever its address, is the reference, byte for byte. No
-- read leaves the buffer or a table. The address is not null and the buffer ends before the last 7
-- addresses, and the sum so far is a number of 32 bits.
pub push_to-remainder :
    (c address : ℕ) (bs : Bytes)
    → 0 < address
    → 0 < length bs
    → address + length bs + 7 < 2 ^ 64
    → c < 2 ^ 32
    → IsBytes bs
    → push_to c address bs ≡ some (remainder c bs)
unfolding push_to
push_to-remainder c address [] a l h small ok = absurd (omega arith)
push_to-remainder c address (b ∷ bs) a l h small ok = rw (not_null) (
    loops-remainder c (word_count (address + n) (address + length (b ∷ bs))) n (b ∷ bs)
      (counts address (length (b ∷ bs)) h) small ok)
  where
    not_null : (address == 0) ≡ false
    not_null = ground arith

    n : ℕ
    n = head_count address (length (b ∷ bs))
