-- ===== src/Buffer/Mutable/Tests.antt =====
-- The theorems on `mutable_buffer` at small buffers.
use libnodecc.Prelude.{◌≤◌, ◌≡◌, refl, arith, codes, false, List, [], ◌∷◌, some}
use libnodecc.Util.Sample.{sample_platform, clz_by_halving, bit_size}
use libnodecc.Util.Power.{ipow}
use libnodecc.Util.Digits.{digits}
use libnodecc.Buffer.Number.{emit}
use libnodecc.Buffer.Mutable.{
  MutableBuffer, IsValid, empty, grown, expand_size, fill, append, append_buffer, append_number,
  set_size, set_capacity,
}
use libnodecc.Buffer.Mutable.Validity.{
  run, apply, run-IsValid, empty-IsValid, Operation, appends, appends_number, sets_size,
}
use libnodecc.Buffer.Mutable.Numbers.{Written, append_number-hex, append_number-decimal}
use libnodecc.Buffer.Mutable.Contents.{append_buffer_start, set_size_lem, set_capacity_lem}

abbrev calls : List Operation
calls = appends (codes "size ") ∷ appends_number 255 16 ∷ sets_size [] 6 ∷ []

abbrev written : MutableBuffer
written = record { null = false; bytes = codes "size f"; capacity = 16 }

run-calls : run calls empty ≡ some written
unfolding run apply append append_number set_size expand_size fill grown ipow digits emit
    clz_by_halving bit_size
run-calls = refl

run-IsValid_example : IsValid written
run-IsValid_example = run-IsValid calls empty empty-IsValid run-calls

written-IsValid : IsValid written
written-IsValid = ground arith

append_number-hex_example : Written 16 4096 (digits 4096 16) written (append_number written 4096 16)
append_number-hex_example =
    append_number-hex written 4096 written-IsValid (omega arith) (omega arith)

append_number-decimal_example : Written 10 0 (digits 0 10) written (append_number written 0 10)
append_number-decimal_example = append_number-decimal written 0 written-IsValid (omega arith)

append_buffer_start_example : (append_buffer written (codes "oo, bar") 0 2).bytes ≡ codes "size foo"
append_buffer_start_example = append_buffer_start written (codes "oo, bar") 2 written-IsValid

set_size_lem_example :
    ((set_size (codes "....") written 4).bytes ≡ codes "size")
    × (4 ≤ (set_size (codes "....") written 4).capacity)
set_size_lem_example = set_size_lem (codes "....") written 4 written-IsValid

set_capacity_lem_example :
    ((set_capacity [] written 800).bytes ≡ codes "size f")
    × (800 ≤ (set_capacity [] written 800).capacity)
set_capacity_lem_example = set_capacity_lem [] written 800 written-IsValid (omega arith)
