-- ===== src/Buffer/Shared/Tests.antt =====
-- A program with three buffers on one block.
use libnodecc.Prelude.{◌≡◌, arith, codes, List, [], ◌∷◌, some, map}
use libnodecc.Buffer.Mutable.{slice}
use libnodecc.Buffer.Shared.{value}
use libnodecc.Buffer.Shared.Counts.{count_of, owners}
use libnodecc.Buffer.Shared.Runs.{
  Operation, allocates, constructs, assigns, slices, resets, run, nothing, AreInRange, spec,
  spec_run,
}
use libnodecc.Buffer.Shared.Spec.{run-spec_run, count_of-run}

-- A block, a part of it, and the block's first buffer reset and assigned to itself.
abbrev sharing : List Operation
sharing = allocates (codes "hello") ∷ slices 0 1 3 ∷ constructs 1 ∷ resets 0 ∷ assigns 2 2 ∷ []

sharing-in_range : AreInRange 0 sharing
unfolding AreInRange
sharing-in_range = omega arith

run-spec_run_example :
    map (value (run sharing nothing).blocks) (run sharing nothing).handles
    ≡ some [] ∷ some (codes "el") ∷ some [] ∷ []
unfolding spec_run spec slice
run-spec_run_example = run-spec_run sharing sharing-in_range

count_of-run_example :
    count_of 0 (run sharing nothing).blocks ≡ owners 0 (run sharing nothing).handles
count_of-run_example = count_of-run sharing 0 sharing-in_range
