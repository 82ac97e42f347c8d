-- ===== src/Http/Incoming/Faults.antt =====
-- Headers that the parser reports in several pieces, and headers without a value.
use libnodecc.Prelude.{Bytes, ◌≡◌, refl, ap, ◌∙◌, arith, [], ◌∷◌, ◌++◌}
use libnodecc.Http.Incoming.{
  Parser, Message, lowered, join_header, add_header_partials, on_header_field, on_header_value,
  on_headers_complete,
}
use libnodecc.Http.Incoming.Lookup.{IsHeader, IsSettled, no_value, header-pends, pending-added}

-- A message that has no header yet.
pub record IsFresh (m : Message) : Type 0 where
  pub field : m.field ≡ []
  pub value : m.value ≡ []
  pub headers : m.headers ≡ []

pub fresh-IsSettled : (m : Message) → IsFresh m → IsSettled m
fresh-IsSettled m h = record {
  field = ap (λ t. t.field) (no_value m h.value) ∙ h.field;
  value = ap (λ t. t.value) (no_value m h.value) ∙ h.value;
}

value-after_pending :
    (f v w : Bytes) (m : Message)
    → IsHeader (f, v)
    → on_header_value w (record m { field = f; value = v })
      ≡ record m { headers = join_header (lowered f) v m.headers; field = []; value = w }
unfolding on_header_value
value-after_pending f v w m h =
    ap (λ (t : Message). record t { value = t.value ++ w }) (pending-added f v m h)

field-after_value :
    (w g : Bytes) (m : Message)
    → on_header_field g (record m { field = []; value = w }) ≡ record m { field = g; value = w }
unfolding on_header_field add_header_partials
field-after_value w g m = refl

-- A value without a name is dropped.
complete-after_value :
    (p : Parser) (x : Bytes) (m : Message)
    → (on_headers_complete p (record m { field = []; value = x })).0.headers ≡ m.headers
unfolding on_headers_complete add_header_partials
complete-after_value p x m = ground arith

complete-pending :
    (p : Parser) (f v : Bytes) (m : Message)
    → IsHeader (f, v)
    → (on_headers_complete p (record m { field = f; value = v })).0.headers
      ≡ join_header (lowered f) v m.headers
unfolding on_headers_complete
complete-pending p f v m h = ground (arith, pending-added f v m h)

field-after_empty_value :
    (f g x : Bytes) (m : Message)
    → on_header_value x (on_header_field g (record m { field = f; value = [] }))
      ≡ record m { field = f ++ g; value = x }
unfolding on_header_field on_header_value
field-after_empty_value f g x m = ground (
  arith,
  no_value (record m { field = f; value = [] }) refl,
  no_value (record m { field = f ++ g; value = [] }) refl,
)

no_headers : (m : Message) → IsFresh m → (add_header_partials m).headers ≡ []
no_headers m h = ap (λ t. t.headers) (no_value m h.value) ∙ h.headers

-- If a value is reported in two pieces, the second piece becomes the value of the next header,
-- whose own value is dropped. All pieces and names are nonempty, and the message has no other
-- headers.
pub on_headers_complete-split_value :
    (p : Parser) (m : Message) (f v w g x : Bytes)
    → IsFresh m
    → IsHeader (f, v)
    → IsHeader (g, w)
    → (on_headers_complete p (
        on_header_value x (
          on_header_field g
            (on_header_value w (on_header_value v (on_header_field f m)))))).0.headers
      ≡ join_header (lowered g) w ((lowered f, v) ∷ [])
on_headers_complete-split_value p m f v w g x fresh h h' =
    ap
      (λ t.
        (on_headers_complete p
          (on_header_value x (on_header_field g (on_header_value w t)))).0.headers)
      (header-pends f v m (fresh-IsSettled m fresh))
    ∙ (ap (λ t. (on_headers_complete p (on_header_value x (on_header_field g t))).0.headers)
          (value-after_pending f v w m' h)
        ∙ (ap (λ t. (on_headers_complete p (on_header_value x t)).0.headers)
              (field-after_value w g second)
            ∙ (ap (λ t. (on_headers_complete p t).0.headers) (value-after_pending g w x second h')
                ∙ (complete-after_value p x
                      (record second { headers = join_header (lowered g) w second.headers })
                    ∙ ap (join_header (lowered g) w) (
                        ap (join_header (lowered f) v) (no_headers m fresh)
                        ∙ (unfold join_header in refl))))))
  where
    m' : Message
    m' = add_header_partials m

    second : Message
    second = record m' { headers = join_header (lowered f) v m'.headers }

-- The name of a header without a value runs into the name of the next header.
pub on_headers_complete-empty_value :
    (p : Parser) (m : Message) (f g x : Bytes)
    → IsFresh m
    → IsHeader (f ++ g, x)
    → (on_headers_complete p (
        on_header_value x (on_header_field g (on_header_value [] (on_header_field f m))))).0.headers
      ≡ (lowered (f ++ g), x) ∷ []
on_headers_complete-empty_value p m f g x fresh h =
    ap (λ t. (on_headers_complete p (on_header_value x (on_header_field g t))).0.headers)
      (header-pends f [] m (fresh-IsSettled m fresh))
    ∙ (ap (λ t. (on_headers_complete p t).0.headers)
          (field-after_empty_value f g x (add_header_partials m))
        ∙ (complete-pending p (f ++ g) x (add_header_partials m) h
            ∙ (ap (join_header (lowered (f ++ g)) x) (no_headers m fresh)
                ∙ (unfold join_header in refl))))
