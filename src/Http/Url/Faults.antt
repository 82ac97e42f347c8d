-- ===== src/Http/Url/Faults.antt =====
-- A parameter without a value, in front of one without `=`.
use libnodecc.Prelude.{
  ℕ, ◌+◌, ◌<◌, ◌≡◌, refl, ap, ◌∙◌, sym, arith, Bytes, [], ◌∷◌, ◌++◌, length, length-append, All,
  take, drop, take-append, append-nil, min,
}
use libnodecc.Util.Power.{size_mod}
use libnodecc.Buffer.Mutable.{slice}
use libnodecc.Http.Headers.{emplace}
use libnodecc.Http.Url.{State, start, distance, insert_at, step, scan, parse_params}
use libnodecc.Http.Url.Scan.{IsPlain, keyed, scan-plain, scan-key, nonempty}

-- The `&` of `key=&`: the value is empty and nothing is inserted, but `field` stays.
scan_empty_value :
    (query rest : Bytes) (at : ℕ) (s : State)
    → at + 1 < size_mod
    → s.eq ≡ at
    → scan query (b'&' ∷ rest) (at + 1) s
      ≡ scan query rest (at + 1 + 1) (record s { amp = at + 1; eq = 0 })
unfolding scan step insert_at
scan_empty_value query rest at s lt e = ground (arith, near)
  where
    near : distance (at + 1) s.eq ≡ 1
    near = omega (arith, e)

slice_all : (query : Bytes) → 0 < length query → slice query 1 (length query) ≡ drop 1 query
unfolding slice
slice_all query h = rw (first, last, whole) refl
  where
    first : min 1 (length query) ≡ 1
    first = omega arith

    last : min (length query) (length query) ≡ length query
    last = omega arith

    whole : take (length query) query ≡ query
    whole = ap (take (length query)) (sym (append-nil query)) ∙ take-append query []

-- The leftovers behind the last `&`.
scan_leftovers :
    (query name key : Bytes) (i amp : ℕ)
    → All IsPlain name
    → 0 < length key
    → length query ≡ i + length name
    → 1 < length query
    → length query < size_mod
    → (scan query name i (record { amp = amp; eq = 0; field = key; params = [] })).params
      ≡ (key, drop 1 query) ∷ []
unfolding insert_at emplace
scan_leftovers query name key i amp plain pos len big lt =
    ap (λ t. t.params)
      (ap (λ t. scan query t i s) (sym (append-nil name)) ∙ scan-plain query name [] i s plain)
    ∙ (unfold scan in (rw (← len) (leftovers)))
  where
    s : State
    s = record { amp = amp; eq = 0; field = key; params = [] }

    far : 1 < distance (length query) 0
    far = omega arith

    leftovers : (insert_at query (length query) s).params ≡ (key, drop 1 query) ∷ []
    leftovers = ground (arith, far, nonempty key pos, slice_all query (omega arith))

-- In a query `key=&name`, with a nonempty key, the key has a value: the whole query
-- without its first byte.
pub parse_params-empty_value :
    (key name : Bytes)
    → 0 < length key
    → All IsPlain key
    → All IsPlain name
    → length (key ++ b'=' ∷ b'&' ∷ name) < size_mod
    → parse_params (key ++ b'=' ∷ b'&' ∷ name) ≡ (key, drop 1 (key ++ b'=' ∷ b'&' ∷ name)) ∷ []
unfolding parse_params
parse_params-empty_value key name pos kp np lt =
    ap (λ t. t.params)
      (scan-key query [] key (b'&' ∷ name) start refl pos kp (omega (arith, size))
          (record { amp = omega arith; amp-lt = omega arith; eq = refl })
        ∙ scan_empty_value query name (0 + length key) (keyed key (0 + length key) start)
            (omega (arith, size)) refl)
    ∙ scan_leftovers query name key (0 + length key + 1 + 1) (0 + length key + 1) np pos
        (omega (arith, size)) (omega (arith, size)) lt
  where
    query : Bytes
    query = key ++ b'=' ∷ b'&' ∷ name

    size : length query ≡ length key + 1 + 1 + length name
    size = omega (arith, length-append key (b'=' ∷ b'&' ∷ name))
