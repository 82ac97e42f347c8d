-- ===== src/Buffer/View/Tests.antt =====
-- Concrete views.
use libnodecc.Prelude.{ℕ, ◌-◌, ◌≡◌, ◌↔◌, true, refl, arith, codes, get_or, some}
use libnodecc.Buffer.View.{BufferView, view, starts_with, search_bytes, bytes, index_of, equals}
use libnodecc.Buffer.View.Equality.{equals_iff}
use libnodecc.Buffer.View.Search.{IsView, IsFirst, index_of-IsFirst}
use libnodecc.Buffer.View.Slices.{view-bytes}

-- A text at address 100.
abbrev memory : ℕ → ℕ
memory a = get_or (codes "a banana") (a - 100) 0

abbrev text : BufferView
text = record { at = some 100; size = 8 }

-- Its last two bytes.
abbrev ending : BufferView
ending = record { at = some 106; size = 2 }

index_of-IsFirst_example : IsFirst (codes "a banana") (codes "na") (index_of memory text ending)
index_of-IsFirst_example =
    index_of-IsFirst memory text ending (λ h. cc, λ h. absurd (omega arith)) (omega arith)

first_na : index_of memory text ending ≡ 4
unfolding index_of search_bytes starts_with
first_na = refl

view-bytes_example : IsView (view 2 6 text) × (bytes memory (view 2 6 text) ≡ codes "bana")
view-bytes_example = view-bytes memory 2 6 text

-- The same two letters at another address.
abbrev middle : BufferView
middle = record { at = some 104; size = 2 }

equals_iff_example : (equals memory middle ending ≡ true) ↔ (codes "na" ≡ codes "na")
equals_iff_example =
    equals_iff memory middle ending (λ h. cc, λ h. absurd (omega arith))
      (λ h. cc, λ h. absurd (omega arith))
