-- ===== src/Stream/Uv/Requests.antt =====
-- One write over libuv: what it sends, what it queues, and what it promises of the order.
use libnodecc.Prelude.{
  ℕ, ◌≤◌, ◌≡◌, refl, ap, ◌∙◌, sym, arith, Bytes, concat, Bool, true, false, List, [], ◌∷◌, ◌++◌,
  append_assoc, append-nil, length, take, Option, none, some,
}
use libnodecc.Prelude.{◌==◌, ltb, if◌then◌else◌}
use libnodecc.Stream.{Writable, Change, change, changes, increase_watermark}
use libnodecc.Stream.Uv.{UvStream, trim, write_some, uv_write, enqueue}
use libnodecc.Stream.Uv.Trim.{take-drop, concat-trim}

-- The bytes of the requests under way.
unfoldable pub pending : List (List Bytes × ℕ) → Bytes
pending [] = []
pending ((bs, total) ∷ rs) = concat bs ++ pending rs

pending-append : (qs rs : List (List Bytes × ℕ)) → pending (qs ++ rs) ≡ pending qs ++ pending rs
unfolding pending
pending-append [] rs = refl
pending-append ((bs, total) ∷ qs) rs =
    ap (λ t. concat bs ++ t) (pending-append qs rs)
    ∙ sym (append_assoc (concat bs) (pending qs) (pending rs))

-- All that the stream has taken, whether it is under way or not.
abbrev pub contents : UvStream → Bytes
contents s = s.sent ++ pending s.queue

-- What libuv promises of `uv_try_write`: it writes no more than it is given, and nothing while
-- requests are under way.
abbrev pub IsAnswer : List Bytes → Option ℕ → UvStream → Type 0
IsAnswer bufs none s = Unit
IsAnswer bufs (some wi) s = (wi ≤ length (concat bufs)) × (s.queue ≡ [])

enqueue-contents :
    (bs : List Bytes) (total : ℕ) (s : UvStream)
    → contents (enqueue bs total s).0 ≡ contents s ++ concat bs
unfolding pending
enqueue-contents bs total s =
    rw (pending-append s.queue ((bs, total) ∷ []), append-nil (concat bs))
      (sym (append_assoc s.sent (pending s.queue) (concat bs)))

-- Parts of a message that was taken at once.
all_sent :
    (bs : List Bytes) (s : UvStream)
    → s.queue ≡ []
    → (s.sent ++ concat bs) ++ pending s.queue ≡ contents s ++ concat bs
unfolding pending
all_sent bs s e = rw (e, append-nil, append-nil) refl

part_sent :
    (n : ℕ) (bs : List Bytes) (s : UvStream)
    → s.queue ≡ []
    → ((s.sent ++ take n (concat bs)) ++ pending s.queue) ++ concat (trim n bs)
      ≡ contents s ++ concat bs
unfolding pending
part_sent n bs s e =
    rw (e, append-nil, append-nil, concat-trim, append_assoc)
      (ap (λ t. s.sent ++ t) (take-drop n (concat bs)))

write_some-contents :
    (bs : List Bytes) (wi : Option ℕ) (s : UvStream)
    → IsAnswer bs wi s
    → contents (write_some bs wi s).0 ≡ contents s ++ concat bs
unfolding write_some
write_some-contents bs none s h = enqueue-contents bs (length (concat bs)) s
write_some-contents bs (some wi) s h = ground (
  arith,
  h.0,
  enqueue-contents bs (length (concat bs)) s,
  all_sent bs s h.1,
  part_sent wi bs s h.1,
  enqueue-contents (trim wi bs) (length (concat bs))
      (record s { sent = s.sent ++ take wi (concat bs) }),
)

pub uv_write-contents :
    (bs : List Bytes) (wi : Option ℕ) (s : UvStream)
    → IsAnswer bs wi s
    → contents (uv_write bs wi s).0 ≡ contents s ++ concat bs
unfolding uv_write
uv_write-contents [] wi s h = sym (append-nil (contents s))
uv_write-contents (b ∷ bs) wi s h = write_some-contents (b ∷ bs) wi s h

-- What a write leaves alone.
pub record Queues (s : UvStream) (r : UvStream × List Change) : Type 0 where
  pub marks : r.0.marks ≡ s.marks
  pub is_closing : r.0.is_closing ≡ s.is_closing
  pub is_writable : (m : Writable) → (changes r.1 m).0.is_writable ≡ m.is_writable

nothing-Queues : (s : UvStream) (sent : Bytes) → Queues s (record s { sent = sent }, [])
unfolding changes
nothing-Queues s sent = record { marks = refl; is_closing = refl; is_writable = λ m. refl }

enqueue-Queues :
    (bs : List Bytes) (total : ℕ) (s : UvStream) (sent : Bytes)
    → Queues s (enqueue bs total (record s { sent = sent }))
unfolding changes change increase_watermark
enqueue-Queues bs total s sent = record { marks = refl; is_closing = refl; is_writable = λ m. refl }

if-Queues :
    (s : UvStream) (c : Bool) (r t : UvStream × List Change)
    → Queues s r
    → Queues s t
    → Queues s (if c then r else t)
if-Queues s true r t h k = h
if-Queues s false r t h k = k

pub uv_write-Queues : (bs : List Bytes) (wi : Option ℕ) (s : UvStream) → Queues s (uv_write bs wi s)
unfolding uv_write write_some
uv_write-Queues [] wi s = nothing-Queues s s.sent
uv_write-Queues (b ∷ bs) none s = enqueue-Queues (b ∷ bs) (length (concat (b ∷ bs))) s s.sent
uv_write-Queues (b ∷ bs) (some wi) s =
    if-Queues s (ltb 0 wi) _ _
      (if-Queues s (wi == total) _ _ (nothing-Queues s (s.sent ++ concat (b ∷ bs))) (
        if-Queues s (ltb total wi) _ _ (nothing-Queues s s.sent)
          (enqueue-Queues (trim wi (b ∷ bs)) total s (s.sent ++ take wi (concat (b ∷ bs))))))
      (enqueue-Queues (b ∷ bs) total s s.sent)
  where
    total : ℕ
    total = length (concat (b ∷ bs))
