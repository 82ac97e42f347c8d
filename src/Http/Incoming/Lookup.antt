-- ===== src/Http/Incoming/Lookup.antt =====
-- What the header map holds after the headers of a message.
use libnodecc.Prelude.{
  Bytes, bytes_eq, bytes_eq_iff, codes, is_empty, ◌≡◌, refl, ap, ◌∙◌, arith, false, [], ◌∷◌, ◌++◌,
  Option, none, some, All,
}
use libnodecc.Prelude.{if◌then◌else◌}
use libnodecc.Http.Headers.{Headers, find}
use libnodecc.Http.Incoming.{
  Parser, Message, lowered, join_header, add_header_partials, on_header_field, on_header_value,
  on_headers_complete,
}

-- A value behind the ones that came before it.
abbrev pub joined : Option Bytes → Bytes → Bytes
joined none v = v
joined (some w) v = w ++ (codes ", " ++ v)

-- All values of a key, joined by commas, behind what was there.
unfoldable pub joined_values : Bytes → Headers → Option Bytes → Option Bytes
joined_values key [] old = old
joined_values key ((f, v) ∷ hs) old =
    joined_values key hs (if bytes_eq (lowered f) key then some (joined old v) else old)

find-join_header :
    (j k v : Bytes) (hs : Headers)
    → find j (join_header k v hs)
      ≡ (if bytes_eq k j then some (joined (find j hs) v) else find j hs)
unfolding find join_header
find-join_header j k v [] = ground arith
find-join_header j k v ((i, w) ∷ hs) =
    ground (arith, bytes_eq_iff i k, bytes_eq_iff i j, bytes_eq_iff k j, find-join_header j k v hs)

-- A header that the parser reports in one piece each.
abbrev pub IsHeader : Bytes × Bytes → Type 0
IsHeader h = (is_empty h.0 ≡ false) × (is_empty h.1 ≡ false)

-- The callbacks for headers.
unfoldable pub on_headers : Headers → Message → Message
on_headers [] m = m
on_headers ((f, v) ∷ hs) m = on_headers hs (on_header_value v (on_header_field f m))

-- Nothing is left over once the pending header is added.
pub record IsSettled (m : Message) : Type 0 where
  pub field : (add_header_partials m).field ≡ []
  pub value : (add_header_partials m).value ≡ []

pub no_value : (m : Message) → m.value ≡ [] → add_header_partials m ≡ m
unfolding add_header_partials
no_value m h = ground (arith, ap is_empty h)

value-behind_field :
    (f v : Bytes) (m : Message)
    → m.field ≡ []
    → m.value ≡ []
    → on_header_value v (record m { field = m.field ++ f }) ≡ record m { field = f; value = v }
unfolding on_header_value
value-behind_field f v m no_f no_v =
    ground (arith, no_value (record m { field = m.field ++ f }) no_v)

-- A header becomes the pending one.
pub header-pends :
    (f v : Bytes) (m : Message)
    → IsSettled m
    → on_header_value v (on_header_field f m)
      ≡ record (add_header_partials m) { field = f; value = v }
unfolding on_header_field
header-pends f v m s = value-behind_field f v (add_header_partials m) s.field s.value

pub pending-added :
    (f v : Bytes) (m : Message)
    → IsHeader (f, v)
    → add_header_partials (record m { field = f; value = v })
      ≡ record m { headers = join_header (lowered f) v m.headers; field = []; value = [] }
unfolding add_header_partials
pending-added f v m h = ground (arith, h.0, h.1)

header-added :
    (f v : Bytes) (m : Message)
    → IsHeader (f, v)
    → IsSettled m
    → add_header_partials (on_header_value v (on_header_field f m))
      ≡ record (add_header_partials m) {
        headers = join_header (lowered f) v (add_header_partials m).headers;
        field = [];
        value = [];
      }
header-added f v m h s =
    ap add_header_partials (header-pends f v m s) ∙ pending-added f v (add_header_partials m) h

header-IsSettled :
    (f v : Bytes) (m : Message)
    → IsHeader (f, v)
    → IsSettled m
    → IsSettled (on_header_value v (on_header_field f m))
header-IsSettled f v m h s = record {
  field = ap (λ t. t.field) (header-added f v m h s);
  value = ap (λ t. t.value) (header-added f v m h s);
}

pub on_headers-IsSettled :
    (hs : Headers) (m : Message) → All IsHeader hs → IsSettled m → IsSettled (on_headers hs m)
unfolding on_headers
on_headers-IsSettled [] m h s = s
on_headers-IsSettled ((f, v) ∷ hs) m h s =
    on_headers-IsSettled hs (on_header_value v (on_header_field f m)) h.1
      (header-IsSettled f v m h.0 s)

find-on_headers :
    (key : Bytes) (hs : Headers) (m : Message)
    → All IsHeader hs
    → IsSettled m
    → find key (add_header_partials (on_headers hs m)).headers
      ≡ joined_values key hs (find key (add_header_partials m).headers)
unfolding on_headers joined_values
find-on_headers key [] m h s = refl
find-on_headers key ((f, v) ∷ hs) m h s =
    find-on_headers key hs (on_header_value v (on_header_field f m)) h.1
      (header-IsSettled f v m h.0 s)
    ∙ ap (joined_values key hs) (
        ap (λ t. find key t.headers) added
        ∙ find-join_header key (lowered f) v (add_header_partials m).headers)
  where
    added :
        add_header_partials (on_header_value v (on_header_field f m))
        ≡ record (add_header_partials m) {
          headers = join_header (lowered f) v (add_header_partials m).headers;
          field = [];
          value = [];
        }
    added = header-added f v m h.0 s

-- After the headers of a message that starts afresh, each reported in one piece for its name
-- and one for its value, neither of them empty, a lookup finds all values of the headers whose
-- name in lower case is the key, in their order and with ", " between them, and nothing where
-- there is none.
pub find-on_headers_complete :
    (key : Bytes) (hs : Headers) (m : Message) (p : Parser)
    → All IsHeader hs
    → m.field ≡ []
    → m.value ≡ []
    → m.headers ≡ []
    → find key (on_headers_complete p (on_headers hs m)).0.headers ≡ joined_values key hs none
unfolding on_headers_complete
find-on_headers_complete key hs m p h no_f no_v no_h =
    ground (arith, find-on_headers key hs m h fresh, start)
  where
    nothing : add_header_partials m ≡ m
    nothing = no_value m no_v

    fresh : IsSettled m
    fresh = record {
      field = ap (λ t. t.field) nothing ∙ no_f;
      value = ap (λ t. t.value) nothing ∙ no_v;
    }

    start : find key (add_header_partials m).headers ≡ none
    start = ap (λ t. find key t.headers) nothing ∙ (ap (find key) no_h ∙ (unfold find in refl))
