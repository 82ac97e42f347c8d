-- ===== src/Util/Crc32c/Entries.antt =====
-- The entries of the tables are runs of the reference.
use libnodecc.Prelude.{
  ℕ, zero, suc, ◌+◌, ◌%◌, ◌^◌, ◌<◌, ◌≡◌, refl, ap, ◌∙◌, arith, List, [], ◌∷◌, map, get_elem?, some,
}
use libnodecc.Util.Bits.{bit_and-ones}
use libnodecc.Util.Crc32c.{entry}
use libnodecc.Util.Crc32c.Reference.{step, steps}
use libnodecc.Util.Crc32c.Tables.Low.{
  crc_tableil8_o32, crc_tableil8_o40, crc_tableil8_o48, crc_tableil8_o56,
}
use libnodecc.Util.Crc32c.Tables.High.{
  crc_tableil8_o64, crc_tableil8_o72, crc_tableil8_o80, crc_tableil8_o88,
}

abbrev range : ℕ → ℕ → List ℕ
range i zero = []
range i (suc n) = i ∷ range (i + 1) n

get_elem?-range :
    (f : ℕ → ℕ) (n i j : ℕ) → j < n → get_elem? (map f (range i n)) j ≡ some (f (j + i))
get_elem?-range f zero i j h = absurd (omega arith)
get_elem?-range f (suc n) i zero h = ap (λ t. some (f t)) (omega arith)
get_elem?-range f (suc n) i (suc j) h =
    get_elem?-range f n (i + 1) j (omega arith) ∙ ap (λ t. some (f t)) (omega arith)

-- A table of `k` steps.
abbrev IsRun : List ℕ → ℕ → Type 0
IsRun table k = table ≡ map (steps k) (range 0 256)

o32-IsRun : IsRun crc_tableil8_o32 8
unfolding steps step
o32-IsRun = refl

o40-IsRun : IsRun crc_tableil8_o40 16
unfolding steps step
o40-IsRun = refl

o48-IsRun : IsRun crc_tableil8_o48 24
unfolding steps step
o48-IsRun = refl

o56-IsRun : IsRun crc_tableil8_o56 32
unfolding steps step
o56-IsRun = refl

o64-IsRun : IsRun crc_tableil8_o64 40
unfolding steps step
o64-IsRun = refl

o72-IsRun : IsRun crc_tableil8_o72 48
unfolding steps step
o72-IsRun = refl

o80-IsRun : IsRun crc_tableil8_o80 56
unfolding steps step
o80-IsRun = refl

o88-IsRun : IsRun crc_tableil8_o88 64
unfolding steps step
o88-IsRun = refl

-- A table at a masked index.
entry-run : (table : List ℕ) (k x : ℕ) → IsRun table k → entry table x ≡ some (steps k (x % 2 ^ 8))
unfolding entry
entry-run table k x run =
    rw (run, bit_and-ones 8 x) (get_elem?-range (steps k) 256 0 (x % 2 ^ 8) below)
    ∙ ap (λ t. some (steps k t)) no_offset
  where
    below : x % 2 ^ 8 < 256
    below = omega arith

    no_offset : x % 2 ^ 8 + 0 ≡ x % 2 ^ 8
    no_offset = omega arith

pub entry-o32 : (x : ℕ) → entry crc_tableil8_o32 x ≡ some (steps 8 (x % 2 ^ 8))
entry-o32 x = entry-run crc_tableil8_o32 8 x o32-IsRun

pub entry-o40 : (x : ℕ) → entry crc_tableil8_o40 x ≡ some (steps 16 (x % 2 ^ 8))
entry-o40 x = entry-run crc_tableil8_o40 16 x o40-IsRun

pub entry-o48 : (x : ℕ) → entry crc_tableil8_o48 x ≡ some (steps 24 (x % 2 ^ 8))
entry-o48 x = entry-run crc_tableil8_o48 24 x o48-IsRun

pub entry-o56 : (x : ℕ) → entry crc_tableil8_o56 x ≡ some (steps 32 (x % 2 ^ 8))
entry-o56 x = entry-run crc_tableil8_o56 32 x o56-IsRun

pub entry-o64 : (x : ℕ) → entry crc_tableil8_o64 x ≡ some (steps 40 (x % 2 ^ 8))
entry-o64 x = entry-run crc_tableil8_o64 40 x o64-IsRun

pub entry-o72 : (x : ℕ) → entry crc_tableil8_o72 x ≡ some (steps 48 (x % 2 ^ 8))
entry-o72 x = entry-run crc_tableil8_o72 48 x o72-IsRun

pub entry-o80 : (x : ℕ) → entry crc_tableil8_o80 x ≡ some (steps 56 (x % 2 ^ 8))
entry-o80 x = entry-run crc_tableil8_o80 56 x o80-IsRun

pub entry-o88 : (x : ℕ) → entry crc_tableil8_o88 x ≡ some (steps 64 (x % 2 ^ 8))
entry-o88 x = entry-run crc_tableil8_o88 64 x o88-IsRun
