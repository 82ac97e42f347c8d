-- ===== src/Object/Tests.antt =====
-- Runs of objects and pointers, and the theorem at one of them.
use libnodecc.Prelude.{◌≡◌, refl, arith, true, false, List, [], ◌∷◌, none, some}
use libnodecc.Object.{
  World, start, retain, lower, begin_destroy, finish, release, destroys, destroy, let_go, reset,
  destroy_object, destroy_at, end_destroy, end_calls, keep, keep_calls, make_shared, copy_construct,
  assign, shared_from_this, Op, makes, copies_at, assigns, resets, destroys_at, keeps, ends_destroy,
  step, run,
}
use libnodecc.Object.Safety.{IsSafe, run-IsSafe}

-- An object that is destroyed twice, keeps a reference of its own for a while and is let go.
abbrev story : List Op
story =
    makes
    ∷ copies_at 0
    ∷ destroys_at 1
    ∷ keeps
    ∷ ends_destroy
    ∷ destroys_at 0
    ∷ resets 0
    ∷ resets 1
    ∷ resets 2
    ∷ []

abbrev after_story : World
after_story = run story start

story_end :
    after_story.objects 0
    ≡ record { use_count = 0; is_destroyed = true; is_deleted = true; destroy_count = 1 }
unfolding step make_shared copy_construct retain destroy_at destroy_object destroy begin_destroy
    keep keep_calls end_destroy end_calls finish reset let_go release lower destroys
story_end = refl

run-IsSafe_example : IsSafe after_story
unfolding step make_shared copy_construct retain destroy_at destroy_object destroy begin_destroy
    keep keep_calls end_destroy end_calls finish reset let_go release lower destroys
run-IsSafe_example = run-IsSafe story (ground arith)

-- An object whose last pointer is reset by a handler of its destroy event is deleted while its
-- `_destroy` runs.
abbrev too_early : World
too_early = run (makes ∷ destroys_at 0 ∷ resets 0 ∷ []) start

too_early_deleted : (too_early.objects 0).is_deleted ≡ true
unfolding step make_shared destroy_at destroy_object destroy begin_destroy reset let_go release
    lower destroys
too_early_deleted = refl

too_early_running : too_early.running ≡ (0, false) ∷ []
unfolding step make_shared destroy_at destroy_object destroy begin_destroy reset let_go release
    lower destroys
too_early_running = refl

-- An assignment leaves the object that the pointer had with a count of 1 and no pointer.
assign_leaks : (run (makes ∷ makes ∷ assigns 0 1 ∷ []) start).pointers ≡ some 1 ∷ some 1 ∷ []
unfolding step make_shared assign
assign_leaks = refl

leaked_count : ((run (makes ∷ makes ∷ assigns 0 1 ∷ []) start).objects 0).use_count ≡ 1
unfolding step make_shared assign retain
leaked_count = refl

-- With shared_from_this the object goes while the first pointer still refers to it.
abbrev stolen : World
stolen = end_destroy (reset 1 (shared_from_this 0 (make_shared start)))

stolen_deleted : (stolen.objects 0).is_deleted ≡ true
unfolding make_shared shared_from_this reset let_go release lower begin_destroy destroys end_destroy
    end_calls finish
stolen_deleted = refl

stolen_pointer : stolen.pointers ≡ some 0 ∷ none ∷ []
unfolding make_shared shared_from_this reset let_go release lower begin_destroy destroys end_destroy
    end_calls finish
stolen_pointer = refl
