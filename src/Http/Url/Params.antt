-- ===== src/Http/Url/Params.antt =====
-- Queries of `key=value` pairs, and what the parser makes of them.
use libnodecc.Prelude.{
  ℕ, suc, ◌+◌, ◌%◌, ◌<◌, ◌≡◌, refl, ap, ◌∙◌, sym, arith, Bytes, [], ◌∷◌, ◌++◌, length,
  length-append, append_assoc, All, none, some, append-nil,
}
use libnodecc.Util.Power.{size_mod}
use libnodecc.Http.Headers.{Headers, find, emplace}
use libnodecc.Http.Headers.Laws.{find-emplace}
use libnodecc.Http.Url.{State, start, insert_at, step, scan, parse_params}
use libnodecc.Http.Url.Scan.{
  IsPlain, IsValueByte, Starts, keyed, scan-key, scan-value, insert_at-value,
}

-- A key and a value that need no escaping.
abbrev pub IsParam : Bytes × Bytes → Type 0
IsParam p = (0 < length p.0) × All IsPlain p.0 × (0 < length p.1) × All IsValueByte p.1

unfoldable pub render : Headers → Bytes
render [] = []
render ((k, v) ∷ []) = k ++ b'=' ∷ v
render ((k, v) ∷ q ∷ ps) = k ++ b'=' ∷ (v ++ b'&' ∷ render (q ∷ ps))

abbrev insert_all : Headers → Headers → Headers
insert_all [] m = m
insert_all ((k, v) ∷ ps) m = insert_all ps (emplace k v m)

-- The parameter whose value reaches to `post`.
scan-param :
    (query pre k v post : Bytes) (s : State)
    → query ≡ pre ++ (k ++ b'=' ∷ (v ++ post))
    → IsParam (k, v)
    → length pre + length k + 1 + length v < size_mod
    → Starts (length pre) s
    → scan query (k ++ b'=' ∷ (v ++ post)) (length pre) s
      ≡ scan query post (length pre + length k + 1 + length v) (keyed k (length pre + length k) s)
scan-param query pre k v post s e h lt st =
    scan-key query pre k (v ++ post) s e h.0 h.1 (omega arith) st
    ∙ scan-value query v post (length pre + length k + 1) (keyed k (length pre + length k) s) h.3
        (omega arith)

-- Where a value ends.
abbrev end_of : Bytes → Bytes → Bytes → ℕ
end_of pre k v = length pre + length k + 1 + length v

length-param :
    (query pre k v post : Bytes)
    → query ≡ pre ++ (k ++ b'=' ∷ (v ++ post))
    → length query ≡ end_of pre k v + length post
length-param query pre k v post e =
    ap length e
    ∙ omega (
      arith,
      length-append pre (k ++ b'=' ∷ (v ++ post)),
      length-append k (b'=' ∷ (v ++ post)),
      length-append v post,
    )

-- The last parameter of a query.
scan_last :
    (query pre k v : Bytes) (s : State)
    → query ≡ pre ++ (k ++ b'=' ∷ v)
    → IsParam (k, v)
    → length query < size_mod
    → Starts (length pre) s
    → (scan query (k ++ b'=' ∷ v) (length pre) s).params ≡ emplace k v s.params
scan_last query pre k v s e h lt st =
    ap (λ t. (scan query (k ++ b'=' ∷ t) (length pre) s).params) (sym (append-nil v))
    ∙ (ap (λ t. t.params) (scan-param query pre k v [] s e' h fits st)
        ∙ (unfold scan in ap (λ t. t.params) (insert_at-value query pre k v [] s e' h.0 h.2 fits)))
  where
    e' : query ≡ pre ++ (k ++ b'=' ∷ (v ++ []))
    e' = e ∙ rw append-nil

    fits : end_of pre k v < size_mod
    fits = omega (arith, length-param query pre k v [] e')

-- The state behind the `&` at `i` that follows a parameter.
abbrev restarted : Bytes → Bytes → ℕ → State → State
restarted k v i s = record { amp = i; eq = 0; field = k; params = emplace k v s.params }

scan-next :
    (query pre k v rest : Bytes) (s : State)
    → query ≡ pre ++ (k ++ b'=' ∷ (v ++ b'&' ∷ rest))
    → IsParam (k, v)
    → length query < size_mod
    → Starts (length pre) s
    → scan query (k ++ b'=' ∷ (v ++ b'&' ∷ rest)) (length pre) s
      ≡ scan query rest (end_of pre k v + 1) (restarted k v (end_of pre k v) s)
scan-next query pre k v rest s e h lt st =
    scan-param query pre k v (b'&' ∷ rest) s e h fits st
    ∙ (unfold scan step in
        ap
          (λ (t : State).
            scan query rest (end_of pre k v + 1) (record t { amp = end_of pre k v; eq = 0 }))
          (insert_at-value query pre k v (b'&' ∷ rest) s e h.0 h.2 fits))
  where
    fits : end_of pre k v < size_mod
    fits = omega (arith, length-param query pre k v (b'&' ∷ rest) e)

scan-render :
    (query pre : Bytes) (k v : Bytes) (ps : Headers) (s : State)
    → query ≡ pre ++ render ((k, v) ∷ ps)
    → All IsParam ((k, v) ∷ ps)
    → length query < size_mod
    → Starts (length pre) s
    → (scan query (render ((k, v) ∷ ps)) (length pre) s).params ≡ insert_all ((k, v) ∷ ps) s.params
unfolding render
scan-render query pre k v [] s e h lt st = scan_last query pre k v s e h.0 lt st
scan-render query pre k v ((k', v') ∷ ps) s e h lt st =
    ap (λ t. t.params) (scan-next query pre k v (render ((k', v') ∷ ps)) s e h.0 lt st)
    ∙ (ap (λ i. (scan query (render ((k', v') ∷ ps)) i after).params) (sym position)
        ∙ scan-render query pre' k' v' ps after regroup h.1 lt
            (record { amp = next_amp; amp-lt = omega (arith, fits); eq = refl }))
  where
    after : State
    after = restarted k v (end_of pre k v) s

    pre' : Bytes
    pre' = pre ++ (k ++ b'=' ∷ (v ++ b'&' ∷ []))

    position : length pre' ≡ end_of pre k v + 1
    position = omega (
      arith,
      length-append pre (k ++ b'=' ∷ (v ++ b'&' ∷ [])),
      length-append k (b'=' ∷ (v ++ b'&' ∷ [])),
      length-append v (b'&' ∷ []),
    )

    fits : length query ≡ end_of pre k v + suc (length (render ((k', v') ∷ ps)))
    fits = length-param query pre k v (b'&' ∷ render ((k', v') ∷ ps)) e

    next_amp : (end_of pre k v + 1) % size_mod ≡ length pre'
    next_amp = omega (arith, position, fits)

    regroup : query ≡ pre' ++ render ((k', v') ∷ ps)
    regroup = e ∙ simp append_assoc

-- The parser inserts the parameters in their order.
parse_params-render :
    (ps : Headers)
    → All IsParam ps
    → length (render ps) < size_mod
    → parse_params (render ps) ≡ insert_all ps []
unfolding parse_params
parse_params-render [] h lt = unfold render scan insert_at in refl
parse_params-render ((k, v) ∷ ps) h lt =
    scan-render (render ((k, v) ∷ ps)) [] k v ps start refl h lt
      (record { amp = omega arith; amp-lt = omega arith; eq = refl })

find-insert_all :
    (key : Bytes) (ps m : Headers)
    → find key (insert_all ps m) ≡ elim (find key m) [ some w ↦ some w | none ↦ find key ps ]
unfolding find
find-insert_all key [] m = ground arith
find-insert_all key ((k, v) ∷ ps) m =
    ground (arith, find-insert_all key ps (emplace k v m), find-emplace key k v m)

-- A query that is written from keys and values that need no escaping, nonempty ones, and that is
-- shorter than `SIZE_MAX`, is read back: a lookup in the parsed parameters finds what a lookup
-- in the written list finds, the first value of the key.
pub find-parse_params :
    (ps : Headers) (key : Bytes)
    → All IsParam ps
    → length (render ps) < size_mod
    → find key (parse_params (render ps)) ≡ find key ps
find-parse_params ps key h lt =
    ap (find key) (parse_params-render ps h lt)
    ∙ (find-insert_all key ps [] ∙ (unfold find in refl))
