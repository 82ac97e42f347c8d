-- ===== src/Http/DateBuffer/Races.antt =====
-- `update` as the threads of several loops run it on one date buffer: each loads `_last_update`
-- and then exchanges it, in any interleaving.
use libnodecc.Prelude.{
  ℕ, ◌<◌, ◌≡◌, refl, List, [], ◌∷◌, some, none, ltb→lt, Bool-cases, inl, inr, ==_iff,
}
use libnodecc.Prelude.{◌==◌, if◌then◌else◌}
use libnodecc.Http.DateBuffer.{elapsed, is_stale, compare_exchange}

-- A thread is between its calls, or in a call at the time `now` with what it has loaded.
pub data Thread : Type 0 where
  idle : Thread
  stale : ℕ → ℕ → Thread

pub record World : Type 0 where
  pub last_update : ℕ
  pub threads : ℕ → Thread
  -- The times of the exchanges that were made, each with an `update_buffer`, the last one first.
  pub updates : List ℕ

-- Thread `i` in place of the one that is there.
abbrev pub set_thread : ℕ → Thread → (ℕ → Thread) → ℕ → Thread
set_thread i t threads j = if i == j then t else threads j

-- `load`: a call at the time `now` that finds a fresh date returns.
unfoldable pub load : ℕ → ℕ → World → World
load i now w =
    if is_stale now w.last_update
    then record w { threads = set_thread i (stale now w.last_update) w.threads }
    else w

-- The second half of a call, by thread `i` from what it holds.
unfoldable pub exchange_from : ℕ → Thread → World → World
exchange_from i idle w = w
exchange_from i (stale now loaded) w = elim (compare_exchange w.last_update loaded now) [
  | none ↦ record w { threads = set_thread i idle w.threads }
  | some last ↦ record w {
    last_update = last;
    threads = set_thread i idle w.threads;
    updates = now ∷ w.updates;
  }
]

unfoldable pub exchange : ℕ → World → World
exchange i w = exchange_from i (w.threads i) w

pub data Step : World → World → Type 0 where
  loads : {w : World} (i now : ℕ) → w.threads i ≡ idle → Step w (load i now w)
  exchanges : {w : World} (i : ℕ) → Step w (exchange i w)

pub data Steps : World → World → Type 0 where
  done : {w : World} → Steps w w
  after : {u v w : World} → Steps u v → Step v w → Steps u w

-- The time of the last exchange, 0 before the first one.
abbrev pub latest : List ℕ → ℕ
latest [] = 0
latest (now ∷ before) = now

-- Each update is more than 500 ms behind the one before it, in the arithmetic of uint64_t.
abbrev pub Spaced : List ℕ → Type 0
Spaced [] = Unit
Spaced (now ∷ before) = (500 < elapsed now (latest before)) × Spaced before

abbrev pub IsStale : Thread → Type 0
IsStale idle = Unit
IsStale (stale now loaded) = 500 < elapsed now loaded

record Inv (w : World) : Type 0 where
  is_latest : w.last_update ≡ latest w.updates
  spaced : Spaced w.updates
  stales : (i : ℕ) → IsStale (w.threads i)

set_thread-IsStale :
    (i : ℕ) (t : Thread) (threads : ℕ → Thread)
    → IsStale t
    → ((j : ℕ) → IsStale (threads j))
    → (j : ℕ) → IsStale (set_thread i t threads j)
set_thread-IsStale i t threads h hs j = elim (Bool-cases (i == j)) [
  | inl e ↦ rw e h
  | inr e ↦ rw e (hs j)
]

load-Inv : (i now : ℕ) (w : World) → Inv w → Inv (load i now w)
unfolding load is_stale
load-Inv i now w v = elim (Bool-cases (is_stale now w.last_update)) [
  | inr e ↦ rw e v
  | inl e ↦ rw e record {
    is_latest = v.is_latest;
    spaced = v.spaced;
    stales = set_thread-IsStale i (stale now w.last_update) w.threads (ltb→lt _ _ e) v.stales;
  }
]

exchange_from-Inv : (i : ℕ) (t : Thread) (w : World) → IsStale t → Inv w → Inv (exchange_from i t w)
unfolding exchange_from compare_exchange
exchange_from-Inv i idle w h v = v
exchange_from-Inv i (stale now loaded) w h v = elim (Bool-cases (w.last_update == loaded)) [
  | inr ne ↦
      rw (exchange_from, compare_exchange, ne)
        record {
          is_latest = v.is_latest;
          spaced = v.spaced;
          stales = set_thread-IsStale i idle w.threads record {} v.stales;
        }
  | inl eq ↦
      rw (exchange_from, compare_exchange, eq)
        record {
          is_latest = refl;
          spaced = (rw (← v.is_latest, (==_iff w.last_update loaded).0 eq) h, v.spaced);
          stales = set_thread-IsStale i idle w.threads record {} v.stales;
        }
]

exchange-Inv : (i : ℕ) (w : World) → Inv w → Inv (exchange i w)
unfolding exchange
exchange-Inv i w v = exchange_from-Inv i (w.threads i) w (v.stales i) v

pub record Updated (w : World) : Type 0 where
  pub is_latest : w.last_update ≡ latest w.updates
  pub spaced : Spaced w.updates

abbrev pub new : World
new = record { last_update = 0; threads = λ _. idle; updates = [] }

Steps-Inv : {u w : World} → Steps u w → Inv u → Inv w
Steps-Inv done v = v
Steps-Inv (after steps (loads i now e)) v = load-Inv i now _ (Steps-Inv steps v)
Steps-Inv (after steps (exchanges i)) v = exchange-Inv i _ (Steps-Inv steps v)

-- However the threads that call update interleave, the date is made anew only more than 500 ms
-- after it was last made anew, by differences of uint64_t, and the time of the last such call is
-- the one that is kept.
pub Steps-Updated : {w : World} → Steps new w → Updated w
Steps-Updated steps =
    let v =
      Steps-Inv steps record { is_latest = refl; spaced = record {}; stales = λ i. record {} } in
    record { is_latest = v.is_latest; spaced = v.spaced }
