-- ===== src/Channel/Async.antt =====
-- include/libnodecc/util/async_channel.h and src/uv/async.cc: values that any thread sends, for
-- the thread of one loop. libuv's part is its documented behaviour: `uv_async_send` marks the
-- handle, further calls are one with it, and the loop takes the mark away before it calls back.
use libnodecc.Prelude.{ℕ, ◌≡◌, Bool, true, false, List, [], ◌∷◌, ◌++◌, Option, none, some}
use libnodecc.Prelude.{◌==◌, if◌then◌else◌}
use libnodecc.Channel.{Channel, channel, send, recv}

-- A thread is outside `send`, or in it between the push and the call of the async handle.
pub data Sender : Type 0 where
  outside : Sender
  pushed : Sender

-- The thread of the loop: in `init` before its last statement, or called back and before `recv`.
pub data Phase : Type 0 where
  running : Phase
  announcing : Phase
  woken : Phase

pub record AsyncChannel {ℓ} (A : Type ℓ) : Type ℓ where
  pub inner : Channel A
  -- Whether `_async` is set, and whether its handle is marked.
  pub has_async : Bool
  pub is_marked : Bool
  pub phase : Phase
  pub senders : ℕ → Sender
  -- The arguments of the pushes and of the events, in order.
  pub sent : List A
  pub received : List (List A)

abbrev pub set_sender : ℕ → Sender → (ℕ → Sender) → ℕ → Sender
set_sender i s senders j = if i == j then s else senders j

module _ {ℓ} {A : Type ℓ} where
  unfoldable pub async_channel : AsyncChannel A
  async_channel = record {
    inner = channel;
    has_async = false;
    is_marked = false;
    phase = running;
    senders = λ _. outside;
    sent = [];
    received = [];
  }

  -- The first statement of `send`, in thread `i`.
  unfoldable pub push_value : ℕ → A → AsyncChannel A → AsyncChannel A
  push_value i value w = record w {
    inner = send w.inner value;
    senders = set_sender i pushed w.senders;
    sent = w.sent ++ value ∷ [];
  }

  -- `uv_async_send` of `_async`, if it is set.
  unfoldable pub mark : AsyncChannel A → AsyncChannel A
  mark w = if w.has_async then record w { is_marked = true } else w

  -- The rest of `send`.
  unfoldable pub notify : ℕ → AsyncChannel A → AsyncChannel A
  notify i w = mark (record w { senders = set_sender i outside w.senders })

  -- `init` up to its last statement; `none` is the exception.
  unfoldable pub init : AsyncChannel A → Option (AsyncChannel A)
  init w =
      if w.has_async
      then none
      else some (record w { has_async = true; is_marked = false; phase = announcing })

  unfoldable pub announce : AsyncChannel A → AsyncChannel A
  announce w = mark (record w { phase = running })

  -- The loop finds the mark.
  unfoldable pub wake : AsyncChannel A → AsyncChannel A
  wake w = record w { is_marked = false; phase = woken }

  -- The events of a queue.
  unfoldable pub emitted : List A → List (List A)
  emitted [] = []
  emitted (x ∷ xs) = (x ∷ xs) ∷ []

  -- The listener of `async_event`.
  unfoldable pub on_async : AsyncChannel A → AsyncChannel A
  on_async w = record w {
    inner = (recv w.inner).1;
    phase = running;
    received = w.received ++ emitted ((recv w.inner).0);
  }

  -- `destroy`: the handle is closed, and is not called back any more.
  unfoldable pub destroy : AsyncChannel A → AsyncChannel A
  destroy w = record w { has_async = false; is_marked = false }

pub data Step {ℓ} {A : Type ℓ} : AsyncChannel A → AsyncChannel A → Type ℓ where
  pushes :
      {w : AsyncChannel A} (i : ℕ) (value : A)
      → w.senders i ≡ outside
      → Step w (push_value i value w)
  notifies : {w : AsyncChannel A} (i : ℕ) → w.senders i ≡ pushed → Step w (notify i w)
  inits : {w v : AsyncChannel A} → w.phase ≡ running → init w ≡ some v → Step w v
  announces : {w : AsyncChannel A} → w.phase ≡ announcing → Step w (announce w)
  wakes : {w : AsyncChannel A} → w.phase ≡ running → w.is_marked ≡ true → Step w (wake w)
  receives : {w : AsyncChannel A} → w.phase ≡ woken → Step w (on_async w)
  destroys : {w : AsyncChannel A} → w.phase ≡ running → Step w (destroy w)

pub data Steps {ℓ} {A : Type ℓ} : AsyncChannel A → AsyncChannel A → Type ℓ where
  done : {w : AsyncChannel A} → Steps w w
  after : {u v w : AsyncChannel A} → Steps u v → Step v w → Steps u w
