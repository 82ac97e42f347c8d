-- ===== src/Channel/Tests.antt =====
-- A run with two threads, the first of which sends before there is a handle.
use libnodecc.Prelude.{ℕ, ◌≡◌, refl, true, false, inl, inr, [], ◌∷◌, ◌++◌}
use libnodecc.Prelude.{◌==◌, Bool-cases}
use libnodecc.Channel.{channel}
use libnodecc.Channel.Async.{
  outside, announcing, AsyncChannel, async_channel, push_value, mark, notify, init, announce, wake,
  on_async, pushes, notifies, inits, announces, wakes, receives, Steps, done, after,
}
use libnodecc.Channel.Delivery.{flatten, turn, Steps-sent, turn-sent}

-- Both threads have pushed.
abbrev both_pushed : AsyncChannel ℕ
both_pushed = push_value 2 70 (push_value 1 50 async_channel)

abbrev in_init : AsyncChannel ℕ
in_init = record both_pushed { has_async = true; is_marked = false; phase = announcing }

abbrev all_sent : AsyncChannel ℕ
all_sent = notify 2 (notify 1 (announce in_init))

all_sent-Steps : Steps async_channel all_sent
unfolding async_channel push_value notify announce mark init
all_sent-Steps =
    after
      (after
        (after (after (after (after done (pushes 1 50 refl)) (pushes 2 70 refl)) (inits refl refl))
          (announces refl))
        (notifies 1 refl))
      (notifies 2 refl)

-- The loop is called back, and the first thread sends again before it reads the queue.
abbrev read_all : AsyncChannel ℕ
read_all = on_async (push_value 1 51 (wake all_sent))

read_all-Steps : Steps async_channel read_all
unfolding async_channel push_value notify announce mark init wake
read_all-Steps =
    after (after (after all_sent-Steps (wakes refl refl)) (pushes 1 51 refl)) (receives refl)

Steps-sent_example : flatten read_all.received ++ read_all.inner.q ≡ 50 ∷ 70 ∷ 51 ∷ []
unfolding async_channel push_value notify announce mark init wake on_async channel
Steps-sent_example = Steps-sent read_all-Steps

all_outside : (i : ℕ) → all_sent.senders i ≡ outside
unfolding async_channel push_value notify announce mark init
all_outside i = elim (Bool-cases (2 == i)) [
  | inl e ↦ rw e refl
  | inr e ↦ rw e (elim (Bool-cases (1 == i)) [ inl d ↦ rw d refl | inr d ↦ rw d refl ])
]

turn-sent_example :
    Steps all_sent (turn all_sent) × (flatten (turn all_sent).received ≡ 50 ∷ 70 ∷ [])
unfolding async_channel push_value notify announce mark
turn-sent_example = turn-sent all_sent-Steps refl refl all_outside
