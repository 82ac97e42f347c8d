-- ===== src/Channel/Delivery.antt =====
-- What is sent arrives, whatever the interleaving of the threads.
use mathlib.Core.Path.{subst}
use libnodecc.Prelude.{
  ℕ, ◌≡◌, refl, sym, ap, ◌∙◌, ◌⊎◌, inl, inr, Bool, true, false, List, [], ◌∷◌, ◌++◌, append-nil,
  append_assoc, none, some,
}
use libnodecc.Prelude.{if◌then◌else◌, Bool-cases, ==_iff}
use libnodecc.Channel.{channel, send, recv}
use libnodecc.Channel.Async.{
  Sender, outside, pushed, running, announcing, woken, AsyncChannel, set_sender, async_channel,
  push_value, mark, notify, init, announce, wake, emitted, on_async, destroy, Step, pushes,
  notifies, inits, announces, wakes, receives, destroys, Steps, done, after,
}

unless_some {ℓ} : {B : Type ℓ} (b : Bool) (x y : B) → (if b then none else some x) ≡ some y → x ≡ y
unless_some true x y e = cc
unless_some false x y e = cc

set_sender_self : (i : ℕ) (t : Sender) (senders : ℕ → Sender) → set_sender i t senders i ≡ t
set_sender_self i t senders = rw ((==_iff i i).1 refl) refl

module _ {ℓ} {A : Type ℓ} where
  abbrev pub flatten : List (List A) → List A
  flatten [] = []
  flatten (xs ∷ batches) = xs ++ flatten batches

  flatten-emitted :
      (batches : List (List A)) (xs : List A)
      → flatten (batches ++ emitted xs) ≡ flatten batches ++ xs
  unfolding emitted
  flatten-emitted [] [] = refl
  flatten-emitted [] (x ∷ xs) = append-nil (x ∷ xs)
  flatten-emitted (b ∷ batches) xs =
      ap (λ t. b ++ t) (flatten-emitted batches xs) ∙ sym (append_assoc b (flatten batches) xs)

  -- What has arrived, and then what is in the queue.
  abbrev IsKept : AsyncChannel A → Type ℓ
  IsKept w = flatten w.received ++ w.inner.q ≡ w.sent

  mark-IsKept : (w : AsyncChannel A) → IsKept w → IsKept (mark w)
  unfolding mark
  mark-IsKept w kept = elim (Bool-cases w.has_async) [ inl e ↦ rw e kept | inr e ↦ rw e kept ]

  init-IsKept : (w v : AsyncChannel A) → init w ≡ some v → IsKept w → IsKept v
  unfolding init
  init-IsKept w v e kept =
      subst IsKept
        (unless_some w.has_async
          (record w { has_async = true; is_marked = false; phase = announcing }) v e)
        kept

  Step-IsKept : {v w : AsyncChannel A} → Step v w → IsKept v → IsKept w
  unfolding push_value notify announce wake on_async destroy send recv
  Step-IsKept {v = w} (pushes i value e) kept =
      sym (append_assoc (flatten w.received) w.inner.q (value ∷ []))
      ∙ ap (λ t. t ++ value ∷ []) kept
  Step-IsKept {v = w} (notifies i e) kept =
      mark-IsKept (record w { senders = set_sender i outside w.senders }) kept
  Step-IsKept (inits r e) kept = init-IsKept _ _ e kept
  Step-IsKept {v = w} (announces e) kept = mark-IsKept (record w { phase = running }) kept
  Step-IsKept (wakes r e) kept = kept
  Step-IsKept {v = w} (receives e) kept =
      append-nil (flatten (w.received ++ emitted w.inner.q))
      ∙ flatten-emitted w.received w.inner.q
      ∙ kept
  Step-IsKept (destroys r) kept = kept

  -- From a new channel on, and however the threads interleave: the events that were emitted, and
  -- then the queue, are what was sent, in the order of the pushes, so that no value is lost and
  -- none arrives twice.
  pub Steps-sent :
      {w : AsyncChannel A} → Steps async_channel w → flatten w.received ++ w.inner.q ≡ w.sent
  unfolding async_channel channel
  Steps-sent done = refl
  Steps-sent (after steps s) = Step-IsKept s (Steps-sent steps)

  -- Somebody will see to the queue: the loop, or a thread that is in `send`.
  abbrev pub IsAwaited : AsyncChannel A → Type 0
  IsAwaited w =
      (w.is_marked ≡ true)
      ⊎ ((w.phase ≡ announcing) ⊎ ((w.phase ≡ woken) ⊎ ((i : ℕ) × (w.senders i ≡ pushed))))

  -- The queue is empty or awaited, while the handle is there.
  abbrev pub IsWatched : AsyncChannel A → Type ℓ
  IsWatched w = w.has_async ≡ true → (w.inner.q ≡ []) ⊎ IsAwaited w

  mark-IsWatched : (w : AsyncChannel A) → IsWatched (mark w)
  unfolding mark
  mark-IsWatched w = elim (Bool-cases w.has_async) [
    | inl e ↦ rw e (λ h. inr (inl refl))
    | inr e ↦ rw e (λ h. cc)
  ]

  init-IsWatched : (w v : AsyncChannel A) → init w ≡ some v → IsWatched v
  unfolding init
  init-IsWatched w v e =
      subst IsWatched
        (unless_some w.has_async
          (record w { has_async = true; is_marked = false; phase = announcing }) v e)
        (λ h. inr (inr (inl refl)))

  Step-IsWatched : {v w : AsyncChannel A} → Step v w → IsWatched w
  unfolding push_value notify announce wake on_async destroy recv
  Step-IsWatched {v = w} (pushes i value e) =
      λ h. inr (inr (inr (inr (i, set_sender_self i pushed w.senders))))
  Step-IsWatched {v = w} (notifies i e) =
      mark-IsWatched (record w { senders = set_sender i outside w.senders })
  Step-IsWatched (inits r e) = init-IsWatched _ _ e
  Step-IsWatched {v = w} (announces e) = mark-IsWatched (record w { phase = running })
  Step-IsWatched (wakes r e) = λ h. inr (inr (inr (inl refl)))
  Step-IsWatched (receives e) = λ h. inl refl
  Step-IsWatched (destroys r) = λ h. cc

  Steps-IsWatched : {w : AsyncChannel A} → Steps async_channel w → IsWatched w
  unfolding async_channel channel
  Steps-IsWatched done = λ h. inl refl
  Steps-IsWatched (after steps s) = Step-IsWatched s

  -- The next turn of the loop, which calls back if the handle is marked.
  unfoldable pub turn : AsyncChannel A → AsyncChannel A
  turn w = if w.is_marked then on_async (wake w) else w

  -- It is steps of the program.
  Steps-turn : (w : AsyncChannel A) → w.phase ≡ running → Steps w (turn w)
  unfolding turn wake
  Steps-turn w r = elim (Bool-cases w.is_marked) [
    | inl e ↦ simp e (after (after done (wakes r e)) (receives refl))
    | inr e ↦ simp e done
  ]

  nobody :
      (w : AsyncChannel A)
      → w.phase ≡ running
      → ((i : ℕ) → w.senders i ≡ outside)
      → w.is_marked ≡ false
      → IsAwaited w
      → w.inner.q ≡ []
  nobody w idle quiet e (inl marked) = cc
  nobody w idle quiet e (inr (inl phase)) = cc
  nobody w idle quiet e (inr (inr (inl phase))) = cc
  nobody w idle quiet e (inr (inr (inr (i, busy)))) = let h = quiet i in cc

  -- From a new channel on, and however the threads interleaved: once the handle is there, no
  -- thread is in `send` and the loop is not in the midst of `init` or of a callback, the next turn
  -- of the loop, which is steps of the program, leaves all values that were ever sent emitted, in
  -- the order of the pushes.
  pub turn-sent :
      {w : AsyncChannel A}
      → Steps async_channel w
      → w.has_async ≡ true
      → w.phase ≡ running
      → ((i : ℕ) → w.senders i ≡ outside)
      → Steps w (turn w) × (flatten (turn w).received ≡ w.sent)
  unfolding turn wake on_async recv
  turn-sent {w = w} steps there idle quiet = (
    Steps-turn w idle,
    elim (Bool-cases w.is_marked) [
      | inl e ↦ simp e (flatten-emitted w.received w.inner.q ∙ Steps-sent steps)
      | inr e ↦ simp e (
          sym (append-nil (flatten w.received))
          ∙ ap (λ t. flatten w.received ++ t) (sym (drained e))
          ∙ Steps-sent steps)
    ],
  )
    where
      drained : w.is_marked ≡ false → w.inner.q ≡ []
      drained e = elim (Steps-IsWatched steps there) [
        | inl empty ↦ empty
        | inr awaited ↦ nobody w idle quiet e awaited
      ]
