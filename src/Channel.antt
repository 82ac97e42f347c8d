-- ===== src/Channel.antt =====
-- include/libnodecc/channel.h: a queue behind a mutex, so that each method is one step.
pub mod Async
pub mod Delivery
mod Tests
use libnodecc.Prelude.{List, [], ◌∷◌, ◌++◌}

pub record Channel {ℓ} (A : Type ℓ) : Type ℓ where
  pub q : List A

module _ {ℓ} {A : Type ℓ} where
  unfoldable pub channel : Channel A
  channel = record { q = [] }

  unfoldable pub send : Channel A → A → Channel A
  send c value = record { q = c.q ++ value ∷ [] }

  -- What was in the queue, and the channel after it.
  unfoldable pub recv : Channel A → List A × Channel A
  recv c = (c.q, record { q = [] })
