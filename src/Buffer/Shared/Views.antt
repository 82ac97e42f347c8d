-- ===== src/Buffer/Shared/Views.antt =====
-- What the buffers of a store see, operation by operation.
use libnodecc.Prelude.{
  update, ℕ, zero, suc, ◌≤◌, ◌<◌, ◌≡◌, refl, ap, ◌∙◌, sym, arith, Bytes, List, [], ◌∷◌, ◌++◌,
  length, take, drop, take-append, append-nil, map,
}
use libnodecc.Prelude.{◌==◌, if◌then◌else◌}
use libnodecc.Buffer.Shared.{
  Handle, null, weak, strong, Blocks, Store, handle_at, retain, release, reset, push, assign, swap,
  move_assign, move_construct, allocate,
}
use libnodecc.Buffer.Shared.Counts.{
  count_of, bytes_of, owners, IsLive, bytes_of-retain, bytes_of-release, bytes_of-append,
  count_of-beyond,
}
use libnodecc.Buffer.Shared.Values.{seen, IsSound, IsLive-of_owned}
use libnodecc.Buffer.Shared.Sound.{handle_at-update}
use libnodecc.Buffer.Shared.Runs.{string_at, with_string}

-- What the buffers of a store see.
abbrev pub views : Store → List Bytes
views s = map (seen s.blocks) s.handles

seen-same :
    (blocks blocks' : Blocks) (h : Handle)
    → ((b : ℕ) → bytes_of b blocks' ≡ bytes_of b blocks)
    → seen blocks' h ≡ seen blocks h
unfolding seen
seen-same blocks blocks' null e = refl
seen-same blocks blocks' (weak bs) e = refl
seen-same blocks blocks' (strong b beg size) e = ap (λ bs. take size (drop beg bs)) (e b)

map-seen-same :
    (blocks blocks' : Blocks) (hs : List Handle)
    → ((b : ℕ) → bytes_of b blocks' ≡ bytes_of b blocks)
    → map (seen blocks') hs ≡ map (seen blocks) hs
map-seen-same blocks blocks' [] e = refl
map-seen-same blocks blocks' (h ∷ hs) e =
    ap (λ x. x ∷ map (seen blocks') hs) (seen-same blocks blocks' h e)
    ∙ ap (λ t. seen blocks h ∷ t) (map-seen-same blocks blocks' hs e)

map-update :
    (blocks : Blocks) (i : ℕ) (h : Handle) (hs : List Handle)
    → map (seen blocks) (update i (λ _. h) hs)
      ≡ with_string i (seen blocks h) (map (seen blocks) hs)
map-update blocks i h [] = refl
map-update blocks zero h (x ∷ hs) = refl
map-update blocks (suc i) h (x ∷ hs) = ap (λ t. seen blocks x ∷ t) (map-update blocks i h hs)

pub map-further :
    (blocks : Blocks) (hs : List Handle) (h : Handle)
    → map (seen blocks) (hs ++ h ∷ []) ≡ map (seen blocks) hs ++ seen blocks h ∷ []
map-further blocks [] h = refl
map-further blocks (x ∷ hs) h = ap (λ t. seen blocks x ∷ t) (map-further blocks hs h)

pub string_at-map :
    (blocks : Blocks) (i : ℕ) (hs : List Handle)
    → string_at i (map (seen blocks) hs) ≡ seen blocks (handle_at i hs)
unfolding seen
string_at-map blocks i [] = refl
string_at-map blocks zero (h ∷ hs) = refl
string_at-map blocks (suc i) (h ∷ hs) = string_at-map blocks i hs

with_string-with_string :
    (i : ℕ) (v w : Bytes) (vs : List Bytes)
    → with_string i v (with_string i w vs) ≡ with_string i v vs
with_string-with_string i v w [] = refl
with_string-with_string zero v w (x ∷ vs) = refl
with_string-with_string (suc i) v w (x ∷ vs) = ap (λ t. x ∷ t) (with_string-with_string i v w vs)

-- A further handle, whose block may be retained.
pub further-views :
    (h : Handle) (s : Store)
    → map (seen (retain h s.blocks)) (s.handles ++ h ∷ []) ≡ views s ++ seen s.blocks h ∷ []
further-views h s =
    map-seen-same s.blocks (retain h s.blocks) (s.handles ++ h ∷ [])
      (λ b. bytes_of-retain b h s.blocks)
    ∙ map-further s.blocks s.handles h

pub reset-views : (i : ℕ) (s : Store) → views (reset i s) ≡ with_string i [] (views s)
unfolding reset seen
reset-views i s =
    map-seen-same s.blocks (release (handle_at i s.handles) s.blocks)
      (update i (λ _. null) s.handles) (λ b. bytes_of-release b (handle_at i s.handles) s.blocks)
    ∙ map-update s.blocks i null s.handles

-- What a buffer sees once another is reset.
seen-reset :
    (i j : ℕ) (s : Store)
    → i < length s.handles
    → seen (reset i s).blocks (handle_at j (reset i s).handles)
      ≡ (if j == i then [] else string_at j (views s))
unfolding reset
seen-reset i j s lt =
    seen-same s.blocks (release (handle_at i s.handles) s.blocks)
      (handle_at j (update i (λ _. null) s.handles))
      (λ b. bytes_of-release b (handle_at i s.handles) s.blocks)
    ∙ (ap (seen s.blocks) (handle_at-update i j null s.handles lt)
        ∙ (unfold seen in ground (arith, string_at-map s.blocks j s.handles)))

pub assign-views :
    (i j : ℕ) (s : Store)
    → i < length s.handles
    → views (assign i j s) ≡ with_string i (if j == i then [] else string_at j (views s)) (views s)
unfolding assign
assign-views i j s lt =
    map-seen-same r.blocks (retain h r.blocks) (update i (λ _. h) r.handles)
      (λ b. bytes_of-retain b h r.blocks)
    ∙ (map-update r.blocks i h r.handles
        ∙ (ap (with_string i (seen r.blocks h)) (reset-views i s)
            ∙ (with_string-with_string i (seen r.blocks h) [] (views s)
                ∙ ap (λ v. with_string i v (views s)) (seen-reset i j s lt))))
  where
    r : Store
    r = reset i s

    h : Handle
    h = handle_at j r.handles

pub swap-views :
    (i j : ℕ) (s : Store)
    → views (swap i j s)
      ≡ with_string j (string_at i (views s)) (with_string i (string_at j (views s)) (views s))
unfolding swap
swap-views i j s =
    map-update s.blocks j (handle_at i s.handles) (update i (λ _. handle_at j s.handles) s.handles)
    ∙ (ap (with_string j (seen s.blocks (handle_at i s.handles)))
          (map-update s.blocks i (handle_at j s.handles) s.handles)
        ∙ rw (← string_at-map s.blocks i s.handles, ← string_at-map s.blocks j s.handles) refl)

string_at-reset :
    (i j : ℕ) (s : Store)
    → i < length s.handles
    → string_at j (views (reset i s)) ≡ (if j == i then [] else string_at j (views s))
string_at-reset i j s lt =
    string_at-map (reset i s).blocks j (reset i s).handles ∙ seen-reset i j s lt

pub move_assign-views :
    (i j : ℕ) (s : Store)
    → i < length s.handles
    → views (move_assign i j s)
      ≡ with_string j [] (with_string i (if j == i then [] else string_at j (views s)) (views s))
unfolding move_assign
move_assign-views i j s lt =
    swap-views i j (reset i s)
    ∙ (ap
          (λ v.
            with_string j v (with_string i (string_at j (views (reset i s))) (views (reset i s))))
          (string_at-reset i i s lt ∙ ground arith)
        ∙ (ap (λ v. with_string j [] (with_string i v (views (reset i s))))
              (string_at-reset i j s lt)
            ∙ ap (with_string j []) (
                ap (with_string i (if j == i then [] else string_at j (views s))) (reset-views i s)
                ∙ with_string-with_string i (if j == i then [] else string_at j (views s)) []
                    (views s))))

pub move_construct-views :
    (j : ℕ) (s : Store)
    → views (move_construct j s) ≡ with_string j [] (views s) ++ string_at j (views s) ∷ []
unfolding move_construct seen
move_construct-views j s =
    map-further s.blocks (update j (λ _. null) s.handles) (handle_at j s.handles)
    ∙ (ap (λ t. t ++ seen s.blocks (handle_at j s.handles) ∷ [])
          (map-update s.blocks j null s.handles)
        ∙ ap (λ v. with_string j [] (views s) ++ v ∷ []) (sym (string_at-map s.blocks j s.handles)))

-- A new block leaves what is held as it is.
seen-append :
    (blocks : Blocks) (bs : Bytes) (h : Handle)
    → IsLive blocks h
    → seen (blocks ++ (bs, 1) ∷ []) h ≡ seen blocks h
unfolding seen
seen-append blocks bs null l = refl
seen-append blocks bs (weak ws) l = refl
seen-append blocks bs (strong b beg size) l =
    ap (λ t. take size (drop beg t))
      (ground (arith, bytes_of-append b blocks bs, count_of-beyond b blocks, l))

whole : (bs : Bytes) → take (length bs) bs ≡ bs
whole bs = ap (take (length bs)) (sym (append-nil bs)) ∙ take-append bs []

seen-new :
    (blocks : Blocks) (bs : Bytes)
    → seen (blocks ++ (bs, 1) ∷ []) (strong (length blocks) 0 (length bs)) ≡ bs
unfolding seen
seen-new blocks bs =
    ap (take (length bs)) (ground (arith, bytes_of-append (length blocks) blocks bs)) ∙ whole bs

map-seen-append :
    (blocks : Blocks) (bs : Bytes) (hs : List Handle)
    → ((b : ℕ) → owners b hs ≤ count_of b blocks)
    → map (seen (blocks ++ (bs, 1) ∷ [])) hs ≡ map (seen blocks) hs
unfolding owners
map-seen-append blocks bs [] k = refl
map-seen-append blocks bs (h ∷ hs) k =
    ap (λ x. x ∷ map (seen (blocks ++ (bs, 1) ∷ [])) hs)
      (seen-append blocks bs h (IsLive-of_owned blocks h (λ b. omega (arith, k b))))
    ∙ ap (λ t. seen blocks h ∷ t) (map-seen-append blocks bs hs (λ b. omega (arith, k b)))

pub allocate-views :
    (bs : Bytes) (s : Store) → IsSound s → views (allocate bs s) ≡ views s ++ bs ∷ []
unfolding allocate push
allocate-views [] s k = map-further s.blocks s.handles null ∙ (unfold seen in refl)
allocate-views (c ∷ bs) s k =
    map-further blocks' s.handles h
    ∙ (ap (λ t. t ++ seen blocks' h ∷ [])
          (map-seen-append s.blocks (c ∷ bs) s.handles (λ b. omega (arith, k.counts b)))
        ∙ ap (λ v. views s ++ v ∷ []) (seen-new s.blocks (c ∷ bs)))
  where
    blocks' : Blocks
    blocks' = s.blocks ++ (c ∷ bs, 1) ∷ []

    h : Handle
    h = strong (length s.blocks) 0 (length (c ∷ bs))
