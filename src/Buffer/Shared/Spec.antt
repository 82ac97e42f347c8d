-- ===== src/Buffer/Shared/Spec.antt =====
-- Buffers with shared and counted blocks behave as byte strings, and free what nobody holds.
use libnodecc.Prelude.{
  update, ℕ, ◌+◌, ◌≡◌, refl, ap, ◌∙◌, sym, arith, Bytes, List, [], ◌∷◌, ◌++◌, length, take, some,
  map,
}
use libnodecc.Prelude.{◌==◌, if◌then◌else◌}
use libnodecc.Buffer.Mutable.{slice}
use libnodecc.Buffer.Shared.{
  Handle, null, weak, strong, Store, handle_at, reset, push, copy_construct, assign, swap,
  move_assign, move_construct, allocate, part, slice_construct, value, or_empty, copy,
}
use libnodecc.Buffer.Shared.Counts.{count_of, owns, owners}
use libnodecc.Buffer.Shared.Values.{seen, IsSound, handle_at-IsLive, value-live, values_lem}
use libnodecc.Buffer.Shared.Parts.{seen-part, part-IsLive, part-Fits}
use libnodecc.Buffer.Shared.Sound.{
  handle_at-Fits, length-update, length-reset, further-IsSound, reset-IsSound, assign-IsSound,
  swap-IsSound, move_assign-IsSound, move_construct-IsSound, push-IsSound, allocate-IsSound,
}
use libnodecc.Buffer.Shared.Runs.{
  Operation, allocates, weakens, constructs, assigns, moves, moves_to, swaps, resets, slices,
  copies, apply, run, nothing, IsInRange, count_after, AreInRange, string_at, spec, spec_run,
}
use libnodecc.Buffer.Shared.Views.{
  views, map-further, string_at-map, further-views, reset-views, assign-views, swap-views,
  move_assign-views, move_construct-views, allocate-views,
}

owns-weak : (bs : Bytes) (b : ℕ) → owns b (weak bs) ≡ 0
unfolding owns
owns-weak bs b = refl

apply-IsSound :
    (o : Operation) (s : Store) → IsInRange (length s.handles) o → IsSound s → IsSound (apply o s)
unfolding apply copy_construct slice_construct copy
apply-IsSound (allocates bs) s r k = allocate-IsSound bs s k
apply-IsSound (weakens bs) s r k = push-IsSound (weak bs) s (owns-weak bs) tt k
apply-IsSound (constructs j) s r k =
    further-IsSound (handle_at j s.handles) s (handle_at-IsLive s j k)
      (handle_at-Fits s.blocks j s.handles k.fits) k
apply-IsSound (assigns i j) s r k = assign-IsSound i j s r.0 k
apply-IsSound (moves j) s r k = move_construct-IsSound j s r k
apply-IsSound (moves_to i j) s r k = move_assign-IsSound i j s r.0 r.1 k
apply-IsSound (swaps i j) s r k = swap-IsSound i j s r.0 r.1 k
apply-IsSound (resets i) s r k = reset-IsSound i s r k
apply-IsSound (slices j beg end) s r k =
    further-IsSound (part (handle_at j s.handles) beg end) s
      (part-IsLive s.blocks (handle_at j s.handles) beg end (handle_at-IsLive s j k))
      (part-Fits s.blocks (handle_at j s.handles) beg end
        (handle_at-Fits s.blocks j s.handles k.fits))
      k
apply-IsSound (copies rest j size) s r k = allocate-IsSound _ s k

copy_construct-views :
    (j : ℕ) (s : Store) → views (copy_construct j s) ≡ views s ++ string_at j (views s) ∷ []
unfolding copy_construct
copy_construct-views j s =
    further-views (handle_at j s.handles) s
    ∙ ap (λ v. views s ++ v ∷ []) (sym (string_at-map s.blocks j s.handles))

slice_construct-views :
    (j beg end : ℕ) (s : Store)
    → IsSound s
    → views (slice_construct j beg end s) ≡ views s ++ slice (string_at j (views s)) beg end ∷ []
unfolding slice_construct
slice_construct-views j beg end s k =
    further-views (part (handle_at j s.handles) beg end) s
    ∙ ap (λ v. views s ++ v ∷ [])
        (seen-part s.blocks (handle_at j s.handles) beg end
            (handle_at-Fits s.blocks j s.handles k.fits)
          ∙ ap (λ v. slice v beg end) (sym (string_at-map s.blocks j s.handles)))

copy-views :
    (rest : Bytes) (j size : ℕ) (s : Store)
    → IsSound s
    → views (copy rest j size s)
      ≡ views s
        ++ take
            (if size == 0 then length (string_at j (views s)) else size)
            (string_at j (views s) ++ rest)
          ∷ []
unfolding copy
copy-views rest j size s k =
    allocate-views _ s k
    ∙ ap (λ v. views s ++ take (if size == 0 then length v else size) (v ++ rest) ∷ [])
        (ap or_empty (value-live s.blocks (handle_at j s.handles) (handle_at-IsLive s j k))
          ∙ sym (string_at-map s.blocks j s.handles))

weak-views : (bs : Bytes) (s : Store) → views (push (weak bs) s) ≡ views s ++ bs ∷ []
unfolding push
weak-views bs s = map-further s.blocks s.handles (weak bs) ∙ (unfold seen in refl)

apply-views :
    (o : Operation) (s : Store)
    → IsInRange (length s.handles) o
    → IsSound s
    → views (apply o s) ≡ spec o (views s)
unfolding apply spec
apply-views (allocates bs) s r k = allocate-views bs s k
apply-views (weakens bs) s r k = weak-views bs s
apply-views (constructs j) s r k = copy_construct-views j s
apply-views (assigns i j) s r k = assign-views i j s r.0
apply-views (moves j) s r k = move_construct-views j s
apply-views (moves_to i j) s r k = move_assign-views i j s r.0
apply-views (swaps i j) s r k = swap-views i j s
apply-views (resets i) s r k = reset-views i s
apply-views (slices j beg end) s r k = slice_construct-views j beg end s k
apply-views (copies rest j size) s r k = copy-views rest j size s k

length-further : (hs : List Handle) (h : Handle) → length (hs ++ h ∷ []) ≡ length hs + 1
length-further [] h = refl
length-further (x ∷ hs) h = omega (arith, length-further hs h)

length-allocate : (bs : Bytes) (s : Store) → length (allocate bs s).handles ≡ length s.handles + 1
unfolding allocate push
length-allocate [] s = length-further s.handles null
length-allocate (c ∷ bs) s = length-further s.handles (strong (length s.blocks) 0 (length (c ∷ bs)))

length-apply :
    (o : Operation) (s : Store) → length (apply o s).handles ≡ count_after (length s.handles) o
unfolding apply push copy_construct slice_construct move_construct assign move_assign swap copy
length-apply (allocates bs) s = length-allocate bs s
length-apply (weakens bs) s = length-further s.handles (weak bs)
length-apply (constructs j) s = length-further s.handles (handle_at j s.handles)
length-apply (assigns i j) s =
    length-update i (handle_at j (reset i s).handles) (reset i s).handles ∙ length-reset i s
length-apply (moves j) s =
    length-further (update j (λ _. null) s.handles) (handle_at j s.handles)
    ∙ ap (λ n. n + 1) (length-update j null s.handles)
length-apply (moves_to i j) s =
    length-update j (handle_at i (reset i s).handles)
      (update i (λ _. handle_at j (reset i s).handles) (reset i s).handles)
    ∙ (length-update i (handle_at j (reset i s).handles) (reset i s).handles ∙ length-reset i s)
length-apply (swaps i j) s =
    length-update j (handle_at i s.handles) (update i (λ _. handle_at j s.handles) s.handles)
    ∙ length-update i (handle_at j s.handles) s.handles
length-apply (resets i) s = length-reset i s
length-apply (slices j beg end) s = length-further s.handles (part (handle_at j s.handles) beg end)
length-apply (copies rest j size) s = length-allocate _ s

run-IsSound :
    (os : List Operation) (s : Store)
    → AreInRange (length s.handles) os
    → IsSound s
    → IsSound (run os s)
unfolding run AreInRange
run-IsSound [] s r k = k
run-IsSound (o ∷ os) s r k =
    run-IsSound os (apply o s) (rw (length-apply o s) r.1) (apply-IsSound o s r.0 k)

run-views :
    (os : List Operation) (s : Store)
    → AreInRange (length s.handles) os
    → IsSound s
    → views (run os s) ≡ spec_run os (views s)
unfolding run spec_run AreInRange
run-views [] s r k = refl
run-views (o ∷ os) s r k =
    run-views os (apply o s) (rw (length-apply o s) r.1) (apply-IsSound o s r.0 k)
    ∙ ap (spec_run os) (apply-views o s r.0 k)

nothing-IsSound : IsSound nothing
unfolding count_of owners
nothing-IsSound = record { counts = λ b. refl; fits = tt }

-- From a program without buffers, and through any operations on buffers that are there, every
-- buffer can be read, no memory that it refers to being freed, and the buffers read as byte strings
-- on which the same operations were made, whatever they share. Assigning a buffer to itself
-- empties it.
pub run-spec_run :
    (os : List Operation)
    → AreInRange 0 os
    → map (value (run os nothing).blocks) (run os nothing).handles ≡ map some (spec_run os [])
run-spec_run os r =
    values_lem (run os nothing) (run-IsSound os nothing r nothing-IsSound)
    ∙ ap (map some) (run-views os nothing r nothing-IsSound)

-- After the same, the count of every block is the number of buffers that hold it, so that
-- a block that no buffer holds is freed.
pub count_of-run :
    (os : List Operation) (b : ℕ)
    → AreInRange 0 os
    → count_of b (run os nothing).blocks ≡ owners b (run os nothing).handles
count_of-run os b r = (run-IsSound os nothing r nothing-IsSound).counts b
