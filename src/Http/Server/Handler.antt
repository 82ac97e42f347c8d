-- ===== src/Http/Server/Handler.antt =====
-- `server_response::_end` and the callback for a complete head of a request, of src/http/server.cc.
use libnodecc.Prelude.{
  ◌*◌, ℕ, Bytes, codes, Bool, true, false, not, ◌&&◌, List, [], Option, some, ◌>>=◌,
}
use libnodecc.Prelude.{if◌then◌else◌}
use libnodecc.Util.Digits.{Platform}
use libnodecc.Stream.{writable, end_with}
use libnodecc.Http.Outgoing.{finish}
use libnodecc.Http.Incoming.{Message, has_header}
use libnodecc.Http.Server.{Response, set_status_code}
use libnodecc.Http.Server.Head.{response_compiler}

-- The response that a connection gets. The constructor leaves `_is_chunked` as the memory was.
unfoldable pub new_response : Bool → Response
new_response garbage = record {
  message = record { connected = true; headers = []; headers_sent = false; is_chunked = garbage };
  stream = writable (16 * 1024) (4 * 1024);
  status_code = 200;
  shutdown_on_end = true;
}

-- What a call leaves: the response, its writes to the socket, and whether the socket is ended.
pub record Effect : Type 0 where
  pub response : Response
  pub writes : List (List Bytes)
  pub ends_socket : Bool

-- `_end`, with the date header that the date buffer gives.
unfoldable pub end_response : ⦃p : Platform⦄ → Bytes → Response → List Bytes → Option Effect
end_response date r bufs = finish (response_compiler date r) r.message bufs >>= λ q. some (record {
  response = record r { message = q.0; status_code = 200; shutdown_on_end = true };
  writes = q.1;
  ends_socket = r.shutdown_on_end && r.message.connected;
})

-- `end` of the stream: `_end` makes no changes to the water mark.
unfoldable pub end : ⦃p : Platform⦄ → Bytes → Response → List Bytes → Option Effect
end date r bufs =
    if r.stream.is_writable
    then (end_response date r bufs >>= λ e.
        some (record e { response = record (e.response) { stream = (end_with [] r.stream).0 } }))
    else some (record { response = r; writes = []; ends_socket = false })

-- What the callback does: an answer of its own, or the request event.
pub data Reaction : Type 0 where
  answers : Option Effect → Reaction
  request_event : Reaction

unfoldable pub answer : ⦃p : Platform⦄ → Bytes → ℕ → Response → Reaction
answer date code res = answers (end date (set_status_code code res) [])

-- `listens` is `has_listener(request_event)`.
unfoldable pub on_head : ⦃p : Platform⦄ → Bytes → Bool → Bool → Message → Response → Reaction
on_head date listens upgrade req res =
    if not (has_header (codes "host") req)
    then answer date 400 res
    else if not listens
    then answer date 500 res
    else if upgrade
    then answer date 501 res
    else request_event
