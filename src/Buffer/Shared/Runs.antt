-- ===== src/Buffer/Shared/Runs.antt =====
-- Any sequence of operations on buffers, and the same on plain byte strings.
use libnodecc.Prelude.{update, ℕ, zero, suc, ◌+◌, ◌<◌, Bytes, List, [], ◌∷◌, ◌++◌, length, take}
use libnodecc.Prelude.{◌==◌, if◌then◌else◌}
use libnodecc.Buffer.Mutable.{slice}
use libnodecc.Buffer.Shared.{
  Store, weak, reset, push, copy_construct, assign, swap, move_assign, move_construct, allocate,
  slice_construct, copy,
}

-- Buffers go by their number. `constructs` and the like make a further one.
pub data Operation : Type 0 where
  allocates : Bytes → Operation
  weakens : Bytes → Operation
  constructs : ℕ → Operation
  assigns : ℕ → ℕ → Operation
  moves : ℕ → Operation
  moves_to : ℕ → ℕ → Operation
  swaps : ℕ → ℕ → Operation
  resets : ℕ → Operation
  slices : ℕ → ℕ → ℕ → Operation
  copies : Bytes → ℕ → ℕ → Operation

unfoldable pub apply : Operation → Store → Store
apply (allocates bs) s = allocate bs s
apply (weakens bs) s = push (weak bs) s
apply (constructs j) s = copy_construct j s
apply (assigns i j) s = assign i j s
apply (moves j) s = move_construct j s
apply (moves_to i j) s = move_assign i j s
apply (swaps i j) s = swap i j s
apply (resets i) s = reset i s
apply (slices j beg end) s = slice_construct j beg end s
apply (copies rest j size) s = copy rest j size s

unfoldable pub run : List Operation → Store → Store
run [] s = s
run (o ∷ os) s = run os (apply o s)

abbrev pub nothing : Store
nothing = record { blocks = []; handles = [] }

-- The buffers that an operation names are there, `count` being their number.
abbrev pub IsInRange : ℕ → Operation → Type 0
IsInRange count (allocates bs) = Unit
IsInRange count (weakens bs) = Unit
IsInRange count (constructs j) = j < count
IsInRange count (assigns i j) = (i < count) × (j < count)
IsInRange count (moves j) = j < count
IsInRange count (moves_to i j) = (i < count) × (j < count)
IsInRange count (swaps i j) = (i < count) × (j < count)
IsInRange count (resets i) = i < count
IsInRange count (slices j beg end) = j < count
IsInRange count (copies rest j size) = j < count

-- The number of buffers behind an operation.
abbrev pub count_after : ℕ → Operation → ℕ
count_after count (assigns i j) = count
count_after count (moves_to i j) = count
count_after count (swaps i j) = count
count_after count (resets i) = count
count_after count (allocates bs) = count + 1
count_after count (weakens bs) = count + 1
count_after count (constructs j) = count + 1
count_after count (moves j) = count + 1
count_after count (slices j beg end) = count + 1
count_after count (copies rest j size) = count + 1

unfoldable pub AreInRange : ℕ → List Operation → Type 0
AreInRange count [] = Unit
AreInRange count (o ∷ os) = IsInRange count o × AreInRange (count_after count o) os

-- The same operations on byte strings. An assignment of a buffer to itself empties it.
abbrev pub string_at : ℕ → List Bytes → Bytes
string_at i [] = []
string_at zero (v ∷ vs) = v
string_at (suc i) (v ∷ vs) = string_at i vs

abbrev pub with_string : ℕ → Bytes → List Bytes → List Bytes
with_string i v vs = update i (λ _. v) vs

unfoldable pub spec : Operation → List Bytes → List Bytes
spec (allocates bs) vs = vs ++ bs ∷ []
spec (weakens bs) vs = vs ++ bs ∷ []
spec (constructs j) vs = vs ++ string_at j vs ∷ []
spec (assigns i j) vs = with_string i (if j == i then [] else string_at j vs) vs
spec (moves j) vs = with_string j [] vs ++ string_at j vs ∷ []
spec (moves_to i j) vs = with_string j [] (with_string i (if j == i then [] else string_at j vs) vs)
spec (swaps i j) vs = with_string j (string_at i vs) (with_string i (string_at j vs) vs)
spec (resets i) vs = with_string i [] vs
spec (slices j beg end) vs = vs ++ slice (string_at j vs) beg end ∷ []
spec (copies rest j size) vs =
    let v = string_at j vs in vs ++ take (if size == 0 then length v else size) (v ++ rest) ∷ []

unfoldable pub spec_run : List Operation → List Bytes → List Bytes
spec_run [] vs = vs
spec_run (o ∷ os) vs = spec_run os (spec o vs)
