-- ===== src/Http/Incoming.antt =====
-- `incoming_message` of src/http/incoming_message.cc: the callbacks of the HTTP parser and what
-- they collect. Buffers are taken by their contents; what the parser knows when it calls back is
-- an argument.
pub mod Lookup
pub mod Faults
pub mod Exchange
mod Tests
use libnodecc.Prelude.{
  ℕ, ◌+◌, ◌%◌, ◌^◌, Bytes, bytes_eq, codes, is_empty, Bool, true, false, not, ◌&&◌, List, [], ◌∷◌,
  ◌++◌, Option, none, some,
}
use libnodecc.Prelude.{◌==◌, leb, if◌then◌else◌}
use libnodecc.Http.Headers.{Headers, find}

-- The fields of `http_parser` that the callbacks read, `method` being the text of the method.
pub record Parser : Type 0 where
  pub is_request : Bool
  pub method : Bytes
  pub major : ℕ
  pub minor : ℕ
  pub status : ℕ
  pub upgrade : Bool
  pub keep_alive : Bool

-- What the message tells its listeners.
pub data Signal : Type 0 where
  headers_complete : Bool → Bool → Signal
  data_event : Bytes → Signal
  end_event : Signal

-- `websocket` is `none` for `UINT8_MAX`, before the first question. `url` is what
-- `url::set_url` was given.
pub record Message : Type 0 where
  pub generic_value : Bytes
  pub field : Bytes
  pub value : Bytes
  pub headers : Headers
  pub url : Bytes
  pub status_code : ℕ
  pub version : ℕ × ℕ
  pub websocket : Option Bool

abbrev pub to_lower : ℕ → ℕ
to_lower ch = if leb 65 ch && leb ch 90 then ch + 32 else ch

abbrev pub lowered : Bytes → Bytes
lowered [] = []
lowered (c ∷ cs) = to_lower c ∷ lowered cs

-- `emplace`, and the appending to the value that is there.
unfoldable pub join_header : Bytes → Bytes → Headers → Headers
join_header key value [] = (key, value) ∷ []
join_header key value ((k, v) ∷ hs) =
    if bytes_eq k key
    then (k, v ++ (codes ", " ++ value)) ∷ hs
    else (k, v) ∷ join_header key value hs

unfoldable pub add_header_partials : Message → Message
add_header_partials m =
    if not (is_empty m.field) && not (is_empty m.value)
    then record m {
      headers = join_header (lowered m.field) m.value m.headers;
      field = [];
      value = [];
    }
    else m

unfoldable pub on_url : Bytes → Message → Message
on_url bs m = record m { generic_value = m.generic_value ++ bs }

unfoldable pub on_header_field : Bytes → Message → Message
on_header_field bs m = let m' = add_header_partials m in record m' { field = m'.field ++ bs }

unfoldable pub on_header_value : Bytes → Message → Message
on_header_value bs m = let m' = add_header_partials m in record m' { value = m'.value ++ bs }

-- `url::set_url` takes the URL of a request, and the method its place.
unfoldable pub on_headers_complete : Parser → Message → Message × List Signal
on_headers_complete p m =
    let m' = add_header_partials m in
    (
      if p.is_request
          then record m' {
            version = (p.major % 256, p.minor % 256);
            url = m'.generic_value;
            generic_value = p.method;
          }
          else record m' { status_code = p.status % 2 ^ 16 },
      headers_complete p.upgrade p.keep_alive ∷ [],
    )

unfoldable pub on_body : Bytes → Message → Message × List Signal
on_body bs m = (m, data_event bs ∷ [])

abbrev pub is_yes : Option Bool → Bool
is_yes none = false
is_yes (some b) = b

unfoldable pub on_message_complete : Message → Message × List Signal
on_message_complete m =
    if is_yes m.websocket
    then (m, [])
    else (record m { generic_value = []; headers = []; url = [] }, end_event ∷ [])

unfoldable pub has_header : Bytes → Message → Bool
has_header key m = elim (find key m.headers) [ some v ↦ true | none ↦ false ]

unfoldable pub header : Bytes → Message → Bytes
header key m = elim (find key m.headers) [ some v ↦ v | none ↦ [] ]

-- The handshake that `is_websocket_request` looks for.
unfoldable pub asks_websocket : Bool → Message → Bool
asks_websocket upgrade m =
    upgrade
    && (bytes_eq (header (codes "upgrade") m) (codes "websocket")
        && (bytes_eq (header (codes "sec-websocket-version") m) (codes "13")
            && not (is_empty (header (codes "sec-websocket-key") m))))

unfoldable pub is_websocket_request : Bool → Message → Message × Bool
is_websocket_request upgrade m = elim m.websocket [
  | some b ↦ (m, b)
  | none ↦ (record m { websocket = some (asks_websocket upgrade m) }, asks_websocket upgrade m)
]
