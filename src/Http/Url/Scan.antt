-- ===== src/Http/Url/Scan.antt =====
-- The scan over one `key=value` of a query.
use libnodecc.Prelude.{
  ℕ, suc, ◌+◌, ◌%◌, ◌<◌, ◌≡◌, ◌≢◌, refl, ap, ◌∙◌, arith, Bytes, is_empty, false, [], ◌∷◌, ◌++◌,
  length, length-append, append_assoc, All, take, take-append, drop-append, min,
}
use libnodecc.Util.Power.{size_mod}
use libnodecc.Buffer.Mutable.{slice}
use libnodecc.Http.Headers.{emplace}
use libnodecc.Http.Url.{State, distance, insert_at, take_field, step, scan}

take-add : (xs : Bytes) (n : ℕ) (ys : Bytes) → take (length xs + n) (xs ++ ys) ≡ xs ++ take n ys
take-add [] n ys = ap (λ k. take k ys) (omega arith)
take-add (x ∷ xs) n ys =
    ap (λ k. take k (x ∷ (xs ++ ys)))
      (let e : suc (length xs) + n ≡ suc (length xs + n) = omega arith in e)
    ∙ ap (λ t. x ∷ t) (take-add xs n ys)

-- The part of a list between two others.
pub slice_between :
    (pre mid post : Bytes)
    → slice (pre ++ (mid ++ post)) (length pre) (length pre + length mid) ≡ mid
unfolding slice
slice_between pre mid post =
    rw (first, last, take-add pre (length mid) (mid ++ post), take-append mid post)
      (drop-append pre mid)
  where
    first : min (length pre) (length (pre ++ (mid ++ post))) ≡ length pre
    first = omega (arith, length-append pre (mid ++ post))

    last : min (length pre + length mid) (length (pre ++ (mid ++ post))) ≡ length pre + length mid
    last = omega (arith, length-append pre (mid ++ post), length-append mid post)

-- A byte that ends neither a key nor a value.
abbrev pub IsPlain : ℕ → Type 0
IsPlain c = (c ≢ b'&') × (c ≢ b'=')

abbrev pub IsValueByte : ℕ → Type 0
IsValueByte c = c ≢ b'&'

module _ (query : Bytes) where
  step_plain : (i c : ℕ) (s : State) → IsPlain c → step query i c s ≡ s
  unfolding step
  step_plain i c s h = ground arith

  pub step_equals : (i : ℕ) (s : State) → s.eq ≡ 0 → step query i b'=' s ≡ take_field query i s
  unfolding step
  step_equals i s h = ground arith

  step_value : (i c : ℕ) (s : State) → IsValueByte c → s.eq ≢ 0 → step query i c s ≡ s
  unfolding step
  step_value i c s h pos = ground arith

  pub scan-plain :
      (key rest : Bytes) (i : ℕ) (s : State)
      → All IsPlain key
      → scan query (key ++ rest) i s ≡ scan query rest (i + length key) s
  unfolding scan
  scan-plain [] rest i s h = ap (λ k. scan query rest k s) (omega arith)
  scan-plain (c ∷ key) rest i s h =
      ap (scan query (key ++ rest) (i + 1)) (step_plain i c s h.0)
      ∙ (scan-plain key rest (i + 1) s h.1 ∙ ap (λ k. scan query rest k s) (omega arith))

  pub scan-value :
      (value rest : Bytes) (i : ℕ) (s : State)
      → All IsValueByte value
      → s.eq ≢ 0
      → scan query (value ++ rest) i s ≡ scan query rest (i + length value) s
  unfolding scan
  scan-value [] rest i s h pos = ap (λ k. scan query rest k s) (omega arith)
  scan-value (c ∷ value) rest i s h pos =
      ap (scan query (value ++ rest) (i + 1)) (step_value i c s h.0 pos)
      ∙ (scan-value value rest (i + 1) s h.1 pos ∙ ap (λ k. scan query rest k s) (omega arith))

-- A position of the query, and the state in which a parameter starts there.
pub record Starts (i : ℕ) (s : State) : Type 0 where
  pub amp : (s.amp + 1) % size_mod ≡ i
  pub amp-lt : s.amp < size_mod
  pub eq : s.eq ≡ 0

-- What the scan has behind `key=`.
abbrev pub keyed : Bytes → ℕ → State → State
keyed key at s = record s { amp = 0; eq = at; field = key }

pub nonempty : (bs : Bytes) → 0 < length bs → is_empty bs ≡ false
nonempty [] h = absurd (omega arith)
nonempty (b ∷ bs) h = refl

take_field-key :
    (query pre key post : Bytes) (s : State)
    → query ≡ pre ++ (key ++ post)
    → 0 < length key
    → length pre + length key + 1 < size_mod
    → Starts (length pre) s
    → take_field query (length pre + length key) s ≡ keyed key (length pre + length key) s
unfolding take_field
take_field-key query pre key post s e pos lt st = ground (arith, far, cut, st)
  where
    far : 1 < distance (length pre + length key) s.amp
    far = omega (arith, st.amp, st.amp-lt)

    cut : slice query ((s.amp + 1) % size_mod) (length pre + length key) ≡ key
    cut = rw (st.amp, e) (slice_between pre key post)

pub scan-key :
    (query pre key rest : Bytes) (s : State)
    → query ≡ pre ++ (key ++ b'=' ∷ rest)
    → 0 < length key
    → All IsPlain key
    → length pre + length key + 1 < size_mod
    → Starts (length pre) s
    → scan query (key ++ b'=' ∷ rest) (length pre) s
      ≡ scan query rest (length pre + length key + 1) (keyed key (length pre + length key) s)
scan-key query pre key rest s e pos plain lt st =
    scan-plain query key (b'=' ∷ rest) (length pre) s plain
    ∙ (unfold scan in
        ap (scan query rest (length pre + length key + 1)) (
          step_equals query (length pre + length key) s st.eq
          ∙ take_field-key query pre key (b'=' ∷ rest) s e pos lt st))

-- The insertion at the end of a value, of at least one byte.
pub insert_at-value :
    (query pre key value post : Bytes) (s : State)
    → query ≡ pre ++ (key ++ b'=' ∷ (value ++ post))
    → 0 < length key
    → 0 < length value
    → length pre + length key + 1 + length value < size_mod
    → insert_at query
        (length pre + length key + 1 + length value)
        (keyed key (length pre + length key) s)
      ≡ record (keyed key (length pre + length key) s) { params = emplace key value s.params }
unfolding insert_at
insert_at-value query pre key value post s e some_key some_value lt = ground (arith, far, kept, cut)
  where
    far : 1 < distance (length pre + length key + 1 + length value) (length pre + length key)
    far = omega arith

    kept : is_empty key ≡ false
    kept = nonempty key some_key

    before : length (pre ++ (key ++ b'=' ∷ [])) ≡ (length pre + length key + 1) % size_mod
    before = omega (arith, length-append pre (key ++ b'=' ∷ []), length-append key (b'=' ∷ []))

    end :
        length (pre ++ (key ++ b'=' ∷ [])) + length value
        ≡ length pre + length key + 1 + length value
    end = omega (arith, length-append pre (key ++ b'=' ∷ []), length-append key (b'=' ∷ []))

    regroup : query ≡ (pre ++ (key ++ b'=' ∷ [])) ++ (value ++ post)
    regroup = e ∙ simp append_assoc

    cut :
        slice query
          ((length pre + length key + 1) % size_mod)
          (length pre + length key + 1 + length value)
        ≡ value
    cut = rw (← before, ← end, regroup) (slice_between (pre ++ (key ++ b'=' ∷ [])) value post)
