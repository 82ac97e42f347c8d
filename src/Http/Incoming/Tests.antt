-- ===== src/Http/Incoming/Tests.antt =====
-- Concrete messages.
use libnodecc.Prelude.{Bytes, codes, ◌≡◌, refl, arith, true, false, List, [], ◌∷◌, none, some}
use libnodecc.Http.Headers.{Headers, find}
use libnodecc.Http.Incoming.{
  Parser, Message, on_headers_complete, on_header_field, on_header_value, join_header,
}
use libnodecc.Http.Incoming.Lookup.{on_headers, joined_values, find-on_headers_complete}
use libnodecc.Http.Incoming.Faults.{
  IsFresh, on_headers_complete-split_value, on_headers_complete-empty_value,
}
use libnodecc.Http.Incoming.Exchange.{on_head, receive, on_head-request, receive-IsFresh}

abbrev get_request : Parser
get_request = record {
  is_request = true;
  method = codes "GET";
  major = 1;
  minor = 1;
  status = 0;
  upgrade = false;
  keep_alive = true;
}

abbrev no_message : Message
no_message = record {
  generic_value = [];
  field = [];
  value = [];
  headers = [];
  url = [];
  status_code = 0;
  version = (0, 0);
  websocket = none;
}

no_message-IsFresh : IsFresh no_message
no_message-IsFresh = record { field = refl; value = refl; headers = refl }

abbrev three_headers : Headers
three_headers =
    (codes "Accept", codes "a") ∷ (codes "Host", codes "h") ∷ (codes "ACCEPT", codes "b") ∷ []

find-on_headers_complete_example :
    find
      (codes "accept")
      (on_headers_complete get_request (on_headers three_headers no_message)).0.headers
    ≡ some (codes "a, b")
unfolding joined_values
find-on_headers_complete_example =
    find-on_headers_complete (codes "accept") three_headers no_message get_request (ground arith)
      refl refl refl

on_headers_complete-split_value_example :
    (on_headers_complete get_request (
      on_header_value (codes "x") (
        on_header_field (codes "G") (
          on_header_value
            (codes "w")
            (on_header_value (codes "v") (on_header_field (codes "F") no_message)))))).0.headers
    ≡ (codes "f", codes "v") ∷ (codes "g", codes "w") ∷ []
unfolding join_header
on_headers_complete-split_value_example =
    on_headers_complete-split_value get_request no_message (codes "F") (codes "v") (codes "w")
      (codes "G") (codes "x") no_message-IsFresh (refl, refl) (refl, refl)

on_headers_complete-empty_value_example :
    (on_headers_complete get_request (
      on_header_value (codes "x") (
        on_header_field
          (codes "G")
          (on_header_value [] (on_header_field (codes "F") no_message))))).0.headers
    ≡ (codes "fg", codes "x") ∷ []
on_headers_complete-empty_value_example =
    on_headers_complete-empty_value get_request no_message (codes "F") (codes "G") (codes "x")
      no_message-IsFresh (refl, refl)

abbrev two_pieces : List Bytes
two_pieces = codes "/a" ∷ codes "b" ∷ []

on_head-request_example :
    ((on_head get_request two_pieces three_headers no_message).0.url ≡ codes "/ab")
    × ((on_head get_request two_pieces three_headers no_message).0.generic_value ≡ codes "GET")
on_head-request_example = on_head-request get_request two_pieces three_headers no_message refl refl

receive-IsFresh_example :
    IsFresh (receive get_request two_pieces three_headers two_pieces no_message).0
    × ((receive get_request two_pieces three_headers two_pieces no_message).0.generic_value ≡ [])
    × ((receive get_request two_pieces three_headers two_pieces no_message).0.url ≡ [])
receive-IsFresh_example =
    receive-IsFresh get_request two_pieces three_headers two_pieces no_message refl (ground arith)
      no_message-IsFresh
