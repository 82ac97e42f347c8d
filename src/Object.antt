-- ===== src/Object.antt =====
-- include/libnodecc/object.h: objects with a count of references, and `shared_ptr`.
pub mod Counts
pub mod Releases
pub mod Safety
mod Tests
use libnodecc.Prelude.{
  update, ℕ, zero, suc, ◌+◌, ◌-◌, ◌%◌, ◌^◌, Bool, true, false, not, ◌&&◌, List, [], ◌∷◌, ◌++◌,
  Option, none, some,
}
use libnodecc.Prelude.{◌==◌, if◌then◌else◌}

-- The bits of an object without a responsible object, whether its memory was freed, and how often
-- the virtual `_destroy` was called.
pub record Object : Type 0 where
  pub use_count : ℕ
  pub is_destroyed : Bool
  pub is_deleted : Bool
  pub destroy_count : ℕ

-- All objects by number, those from `next` on not made yet; the shared_ptrs of the program, and the
-- references that asynchronous operations hold; and the calls of `_destroy` that are running, the
-- innermost first, each with its object and whether `release` made it. What the program does while
-- one runs, in the handlers of events and in the destructors of closures, comes before its end.
pub record World : Type 0 where
  pub objects : ℕ → Object
  pub next : ℕ
  pub pointers : List (Option ℕ)
  pub running : List (ℕ × Bool)

abbrev pub unmade : Object
unmade = record { use_count = 0; is_destroyed = false; is_deleted = false; destroy_count = 0 }

abbrev pub made : Object
made = record { use_count = 1; is_destroyed = false; is_deleted = false; destroy_count = 0 }

abbrev pub start : World
start = record { objects = λ _. unmade; next = 0; pointers = []; running = [] }

abbrev pub pointer_at : ℕ → List (Option ℕ) → Option ℕ
pointer_at i [] = none
pointer_at zero (p ∷ ps) = p
pointer_at (suc i) (p ∷ ps) = pointer_at i ps

abbrev pub at : ℕ → (Object → Object) → (ℕ → Object) → ℕ → Object
at i f objects o = if i == o then f (objects o) else objects o

-- The count has 31 bits.
unfoldable pub retain : Object → Object
retain x = record x { use_count = (x.use_count + 1) % 2 ^ 31 }

unfoldable pub lower : Object → Object
lower x = record x { use_count = (x.use_count + (2 ^ 31 - 1)) % 2 ^ 31 }

-- The call of `_destroy`, whose body is what follows.
unfoldable pub begin_destroy : Object → Object
begin_destroy x = record x { is_destroyed = true; destroy_count = x.destroy_count + 1 }

-- `release` up to a call of `_destroy`; `delete this` if that was called before.
unfoldable pub release : Object → Object
release x =
    if (lower x).use_count == 0
    then (if x.is_destroyed
        then record (lower x) { is_deleted = true }
        else begin_destroy (lower x))
    else lower x

-- Whether `release` calls `_destroy`.
unfoldable pub destroys : Object → Bool
destroys x = (lower x).use_count == 0 && not x.is_destroyed

-- The rest of `release` behind `_destroy`; there is none of `destroy`.
unfoldable pub finish : Bool → Object → Object
finish by_release x = if by_release && (x.use_count == 0) then record x { is_deleted = true } else x

abbrev pub called_if : Bool → ℕ × Bool → List (ℕ × Bool) → List (ℕ × Bool)
called_if true call calls = call ∷ calls
called_if false call calls = calls

-- The pointer `i`, which is null or refers to the object, is released and set to null; the source
-- sets it after a `_destroy`, in which nothing uses this very pointer.
unfoldable pub let_go : ℕ → Option ℕ → World → World
let_go i none w = w
let_go i (some o) w = record w {
  objects = at o release w.objects;
  pointers = update i (λ _. none) w.pointers;
  running = called_if (destroys (w.objects o)) (o, true) w.running;
}

-- `shared_ptr::reset`, and the destructor of a shared_ptr.
unfoldable pub reset : ℕ → World → World
reset i w = let_go i (pointer_at i w.pointers) w

unfoldable pub destroy : Object → Object
destroy x = if not x.is_destroyed then begin_destroy x else x

unfoldable pub destroy_object : Option ℕ → World → World
destroy_object none w = w
destroy_object (some o) w = record w {
  objects = at o destroy w.objects;
  running = called_if (not (w.objects o).is_destroyed) (o, false) w.running;
}

-- `destroy` of the object that a pointer refers to.
unfoldable pub destroy_at : ℕ → World → World
destroy_at i w = destroy_object (pointer_at i w.pointers) w

-- The innermost `_destroy` returns.
unfoldable pub end_calls : List (ℕ × Bool) → World → World
end_calls [] w = w
end_calls ((o, by_release) ∷ calls) w = record w {
  objects = at o (finish by_release) w.objects;
  running = calls;
}

unfoldable pub end_destroy : World → World
end_destroy w = end_calls w.running w

-- The innermost `_destroy` starts an asynchronous operation that holds a reference to the object.
unfoldable pub keep_calls : List (ℕ × Bool) → World → World
keep_calls [] w = w
keep_calls ((o, by_release) ∷ calls) w = record w {
  objects = at o retain w.objects;
  pointers = w.pointers ++ some o ∷ [];
}

unfoldable pub keep : World → World
keep w = keep_calls w.running w

-- `make_shared`.
unfoldable pub make_shared : World → World
make_shared w = record w {
  objects = at w.next (λ _. made) w.objects;
  next = w.next + 1;
  pointers = w.pointers ++ some w.next ∷ [];
}

abbrev pub retain_at : Option ℕ → (ℕ → Object) → ℕ → Object
retain_at none objects = objects
retain_at (some o) objects = at o retain objects

unfoldable pub copy_construct : ℕ → World → World
copy_construct i w = record w {
  objects = retain_at (pointer_at i w.pointers) w.objects;
  pointers = w.pointers ++ pointer_at i w.pointers ∷ [];
}

unfoldable pub move_construct : ℕ → World → World
move_construct i w = record w {
  pointers = update i (λ _. none) w.pointers ++ pointer_at i w.pointers ∷ [];
}

-- `operator=(const shared_ptr&)`: the object that the pointer had is not released.
unfoldable pub assign : ℕ → ℕ → World → World
assign i j w = record w {
  objects = retain_at (pointer_at j w.pointers) w.objects;
  pointers = update i (λ _. pointer_at j w.pointers) w.pointers;
}

-- `operator=(shared_ptr&&)`, which does not release it either.
unfoldable pub move_assign : ℕ → ℕ → World → World
move_assign i j w = record w {
  pointers = update j (λ _. none) (update i (λ _. pointer_at j w.pointers) w.pointers);
}

-- `shared_from_this` of the object behind a pointer: a pointer that is not counted.
unfoldable pub shared_from_this : ℕ → World → World
shared_from_this i w = record w { pointers = w.pointers ++ pointer_at i w.pointers ∷ [] }

-- What a program does with its pointers, apart from shared_from_this.
pub data Op : Type 0 where
  makes : Op
  copies_at : ℕ → Op
  moves : ℕ → Op
  assigns : ℕ → ℕ → Op
  move_assigns : ℕ → ℕ → Op
  resets : ℕ → Op
  destroys_at : ℕ → Op
  keeps : Op
  ends_destroy : Op

unfoldable pub step : Op → World → World
step makes w = make_shared w
step (copies_at i) w = copy_construct i w
step (moves i) w = move_construct i w
step (assigns i j) w = assign i j w
step (move_assigns i j) w = move_assign i j w
step (resets i) w = reset i w
step (destroys_at i) w = destroy_at i w
step keeps w = keep w
step ends_destroy w = end_destroy w

abbrev pub run : List Op → World → World
run [] w = w
run (op ∷ ops) w = run ops (step op w)
