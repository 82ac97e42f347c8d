-- ===== src/Stream/Tests.antt =====
-- Concrete runs of streams.
use libnodecc.Prelude.{◌≡◌, ◌≤◌, arith, codes, true, false, List, [], ◌∷◌, none, some}
use libnodecc.Stream.{
  writable, Readable, thrown, increases, decreases, increase_watermark, decrease_watermark, change,
  changes, measured, write, end_with, set_lowwatermark, set_highwatermark,
}
use libnodecc.Stream.Calls.{Call, writes, changes_by, sets_high, sets_low, run, call}
use libnodecc.Stream.Marks.{run-regular}
use libnodecc.Stream.Drains.{drains, refusals, drains-run}
use libnodecc.Stream.Ends.{write-end_with}
use libnodecc.Stream.Reading.{
  resumes, pauses, ends_reading, use_all, alternates, use_all-alternates,
}
use libnodecc.Stream.Uv.Requests.{contents}
use libnodecc.Stream.Uv.Order.{
  Step, sends, sends_last, completes, steps, accepted, HaveAnswers, opened, steps-order,
}

-- A write that floods the stream, and two decreases.
abbrev flood : List Call
flood =
    writes (increases 20 ∷ [])
    ∷ sets_low 5
    ∷ changes_by (decreases 10)
    ∷ changes_by (decreases 8)
    ∷ sets_high 32
    ∷ []

run-regular_example : (run flood (writable 16 4)).0.is_regular_level ≡ true
unfolding run call write changes change measured increase_watermark decrease_watermark
    set_lowwatermark set_highwatermark
run-regular_example = run-regular 16 4 flood (omega arith) (ground arith) (omega arith)

drains-run_example : drains (run flood (writable 16 4)).1 ≤ refusals (run flood (writable 16 4)).1
drains-run_example = drains-run 16 4 flood

write-end_with_example :
    write [] (run flood (end_with [] (writable 16 4)).0).0
    ≡ ((run flood (end_with [] (writable 16 4)).0).0, thrown ∷ [])
write-end_with_example = write-end_with [] (writable 16 4) flood [] (ground arith)

abbrev idle : Readable
idle = record { is_consuming = false; has_ended = false }

use_all-alternates_example :
    alternates false false
      (use_all (pauses ∷ resumes ∷ resumes ∷ ends_reading ∷ pauses ∷ ends_reading ∷ []) idle).1
    ≡ true
use_all-alternates_example =
    use_all-alternates (pauses ∷ resumes ∷ resumes ∷ ends_reading ∷ pauses ∷ ends_reading ∷ []) idle

-- The kernel takes three of five bytes, and then refuses.
abbrev three_writes : List Step
three_writes =
    sends (codes "ab" ∷ codes "cde" ∷ []) (some 3)
    ∷ sends (codes "f" ∷ []) none
    ∷ completes
    ∷ sends_last (codes "g" ∷ []) none
    ∷ []

steps-order_example : contents (steps three_writes (opened 16 4)).0 ≡ codes "abcdefg"
unfolding accepted HaveAnswers
steps-order_example = steps-order 16 4 three_writes (ground arith)
