-- ===== src/Stream/Uv/Order.antt =====
-- What reaches the kernel through a stream.
use libnodecc.Prelude.{
  ℕ, ◌≡◌, refl, ap, ◌∙◌, sym, arith, Bytes, concat, Bool, true, false, List, [], ◌∷◌, ◌++◌,
  append_assoc, append-nil, Option, inl, inr, ◌⊎◌,
}
use libnodecc.Prelude.{if◌then◌else◌}
use libnodecc.Stream.{
  writable, Event, change, changes, decrease_watermark, set_writing_ended, measured, write,
  end_with,
}
use libnodecc.Stream.Uv.{UvStream, uv_write, send, uv_end, send_last, complete, shut_down}
use libnodecc.Stream.Uv.Requests.{
  pending, contents, IsAnswer, Queues, uv_write-contents, uv_write-Queues,
}

-- What happens to a stream over libuv.
pub data Step : Type 0 where
  sends : List Bytes → Option ℕ → Step
  sends_last : List Bytes → Option ℕ → Step
  completes : Step
  shuts_down : Step

unfoldable pub step : Step → UvStream → UvStream × List Event
step (sends bs wi) s = send bs wi s
step (sends_last bs wi) s = send_last bs wi s
step completes s = complete s
step shuts_down s = shut_down s

unfoldable pub steps : List Step → UvStream → UvStream × List Event
steps [] s = (s, [])
steps (c ∷ cs) s = let r = step c s in let q = steps cs r.0 in (q.0, r.1 ++ q.1)

-- What the user of a stream has handed over: all writes up to the end.
unfoldable pub accepted : Bool → List Step → Bytes
accepted still [] = []
accepted still (sends bs wi ∷ cs) = (if still then concat bs else []) ++ accepted still cs
accepted still (sends_last bs wi ∷ cs) = (if still then concat bs else []) ++ accepted false cs
accepted still (completes ∷ cs) = accepted still cs
accepted still (shuts_down ∷ cs) = accepted false cs

abbrev pub HasAnswer : Step → UvStream → Type 0
HasAnswer (sends bs wi) s = IsAnswer bs wi s
HasAnswer (sends_last bs wi) s = IsAnswer bs wi s
HasAnswer completes s = Unit
HasAnswer shuts_down s = Unit

-- Every write has an answer that libuv may give at its time.
unfoldable pub HaveAnswers : List Step → UvStream → Type 0
HaveAnswers [] s = Unit
HaveAnswers (c ∷ cs) s = HasAnswer c s × HaveAnswers cs (step c s).0

-- Whether the stream still takes writes; it is not being destroyed.
pub record IsAccounted (still : Bool) (s : UvStream) : Type 0 where
  pub is_writable : s.marks.is_writable ≡ still
  pub is_closing : s.is_closing ≡ false

send-contents :
    (still : Bool) (bs : List Bytes) (wi : Option ℕ) (s : UvStream)
    → IsAccounted still s
    → IsAnswer bs wi s
    → contents (send bs wi s).0 ≡ contents s ++ (if still then concat bs else [])
unfolding send
send-contents still bs wi s h k =
    ground (arith, h.is_writable, uv_write-contents bs wi s k, append-nil (contents s))

send_last-contents :
    (still : Bool) (bs : List Bytes) (wi : Option ℕ) (s : UvStream)
    → IsAccounted still s
    → IsAnswer bs wi s
    → contents (send_last bs wi s).0 ≡ contents s ++ (if still then concat bs else [])
unfolding send_last uv_end
send_last-contents still bs wi s h k =
    ground
      (arith, h.is_writable, h.is_closing, uv_write-contents bs wi s k, append-nil (contents s))

queue-cases :
    (qs : List (List Bytes × ℕ))
    → (qs ≡ []) ⊎ ((q : List Bytes × ℕ) × (rs : List (List Bytes × ℕ)) × (qs ≡ q ∷ rs))
queue-cases [] = inl refl
queue-cases (q ∷ rs) = inr (q, rs, refl)

complete-contents : (s : UvStream) → contents (complete s).0 ≡ contents s
unfolding complete pending
complete-contents s = elim (queue-cases s.queue) [
  | inl e ↦ ground (arith, e)
  | inr (q, rs, e) ↦ ground (arith, e, append_assoc s.sent (concat q.0) (pending rs))
]

send-IsAccounted :
    (still : Bool) (bs : List Bytes) (wi : Option ℕ) (s : UvStream)
    → IsAccounted still s
    → IsAccounted still (send bs wi s).0
unfolding send write measured changes
send-IsAccounted still bs wi s h = record {
  is_writable = ground (arith, h.is_writable, q.is_writable s.marks);
  is_closing = ground (arith, h.is_closing, q.is_closing);
}
  where
    q : Queues s (uv_write bs wi s)
    q = uv_write-Queues bs wi s

send_last-IsAccounted :
    (still : Bool) (bs : List Bytes) (wi : Option ℕ) (s : UvStream)
    → IsAccounted still s
    → IsAccounted false (send_last bs wi s).0
unfolding send_last uv_end end_with measured changes
send_last-IsAccounted still bs wi s h = record {
  is_writable = ground (arith, h.is_writable);
  is_closing = ground (arith, h.is_closing, q.is_closing);
}
  where
    q : Queues s (uv_write bs wi s)
    q = uv_write-Queues bs wi s

complete-IsAccounted :
    (still : Bool) (s : UvStream) → IsAccounted still s → IsAccounted still (complete s).0
unfolding complete change decrease_watermark
complete-IsAccounted still s h = elim (queue-cases s.queue) [
  | inl e ↦ record {
    is_writable = ground (arith, e, h.is_writable);
    is_closing = ground (arith, e, h.is_closing);
  }
  | inr (q, rs, e) ↦ record {
    is_writable = ground (arith, e, h.is_writable);
    is_closing = ground (arith, e, h.is_closing);
  }
]

shut_down-IsAccounted :
    (still : Bool) (s : UvStream) → IsAccounted still s → IsAccounted false (shut_down s).0
unfolding shut_down change set_writing_ended
shut_down-IsAccounted still s h = record { is_writable = refl; is_closing = h.is_closing }

shut_down-contents : (s : UvStream) → contents (shut_down s).0 ≡ contents s
unfolding shut_down
shut_down-contents s = refl

-- The steps from any accounted state.
steps-contents :
    (still : Bool) (cs : List Step) (s : UvStream)
    → IsAccounted still s
    → HaveAnswers cs s
    → contents (steps cs s).0 ≡ contents s ++ accepted still cs
unfolding steps step accepted HaveAnswers
steps-contents still [] s h k = sym (append-nil (contents s))
steps-contents still (sends bs wi ∷ cs) s h k =
    steps-contents still cs (send bs wi s).0 (send-IsAccounted still bs wi s h) k.1
    ∙ (ap (λ t. t ++ accepted still cs) (send-contents still bs wi s h k.0)
        ∙ append_assoc (contents s) (if still then concat bs else []) (accepted still cs))
steps-contents still (sends_last bs wi ∷ cs) s h k =
    steps-contents false cs (send_last bs wi s).0 (send_last-IsAccounted still bs wi s h) k.1
    ∙ (ap (λ t. t ++ accepted false cs) (send_last-contents still bs wi s h k.0)
        ∙ append_assoc (contents s) (if still then concat bs else []) (accepted false cs))
steps-contents still (completes ∷ cs) s h k =
    steps-contents still cs (complete s).0 (complete-IsAccounted still s h) k.1
    ∙ ap (λ t. t ++ accepted still cs) (complete-contents s)
steps-contents still (shuts_down ∷ cs) s h k =
    steps-contents false cs (shut_down s).0 (shut_down-IsAccounted still s h) k.1
    ∙ ap (λ t. t ++ accepted false cs) (shut_down-contents s)

-- A stream that has just been opened.
abbrev pub opened : ℕ → ℕ → UvStream
opened hwm lwm = record { sent = []; queue = []; is_closing = false; marks = writable hwm lwm }

opened-IsAccounted : (hwm lwm : ℕ) → IsAccounted true (opened hwm lwm)
opened-IsAccounted hwm lwm = record { is_writable = refl; is_closing = refl }

-- On a new stream, the bytes that the kernel has taken, followed by those under way, are at any
-- time the bytes of all buffers written up to the end, in their order, however the kernel splits
-- them. Requests succeed, the stream is not destroyed, and `uv_try_write` writes no more than it
-- is given and nothing while a request is under way.
pub steps-order :
    (hwm lwm : ℕ) (cs : List Step)
    → HaveAnswers cs (opened hwm lwm)
    → contents (steps cs (opened hwm lwm)).0 ≡ accepted true cs
unfolding pending
steps-order hwm lwm cs k = steps-contents true cs (opened hwm lwm) (opened-IsAccounted hwm lwm) k
