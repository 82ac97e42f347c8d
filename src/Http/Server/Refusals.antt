-- ===== src/Http/Server/Refusals.antt =====
-- What a server answers by itself, as it stands on the wire.
use libnodecc.Prelude.{
  ℕ, ◌≡◌, ◌<◌, ◌%◌, ◌^◌, ◌∙◌, refl, arith, Bytes, codes, Bool, true, false, not, ◌&&◌, List, [],
  ◌∷◌, ◌++◌, some,
}
use libnodecc.Prelude.{if◌then◌else◌}
use libnodecc.Util.Digits.{Platform, decimal_limit, digits_zero_decimal}
use libnodecc.Buffer.Number.{positions}
use libnodecc.Stream.{end_with}
use libnodecc.Http.Outgoing.Message.{header_buffer_lem}
use libnodecc.Http.Outgoing.Length.{number, with_length, fresh-choose_encoding, send-length}
use libnodecc.Http.Headers.{emplace, find}
use libnodecc.Http.Request.{whole, header_lines}
use libnodecc.Http.Outgoing.{Outgoing, HeaderCompiler, finish, http_write, after_headers, write_end}
use libnodecc.Http.Incoming.{Message, has_header}
use libnodecc.Http.Server.{Response, response_head, set_status_code, status_text}
use libnodecc.Http.Server.StatusCodes.{str_status_code, find_status, status_codes}
use libnodecc.Http.Server.Head.{response_compiler}
use libnodecc.Http.Server.Handler.{
  new_response, Effect, end_response, end, Reaction, answer, on_head,
}

module _ ⦃p : Platform⦄ where
  no_bytes : 0 < decimal_limit
  no_bytes = ground arith

  zero_text : (number [] no_bytes).digits ≡ codes "0"
  unfolding positions
  zero_text = (number [] no_bytes).of_positions ∙ rw digits_zero_decimal refl

  -- A message without headers of its own that is ended without a body.
  finish-nothing :
      (compiler : HeaderCompiler) (o : Outgoing)
      → o.connected ≡ true
      → o.headers_sent ≡ false
      → o.headers ≡ []
      → finish compiler o []
        ≡ some (
          record o { headers = []; is_chunked = false },
          (compiler.head ((codes "content-length", codes "0") ∷ []) ∷ []) ∷ [],
        )
  unfolding finish http_write emplace after_headers write_end find
  finish-nothing compiler o up unsent none_set =
      let o' = with_length (codes "0") o in
      ground (
        arith,
        fresh-choose_encoding compiler o [] no_bytes,
        zero_text,
        send-length compiler o' [] unsent refl,
        (header_buffer_lem compiler o').1,
      )

  text_400 : status_text (400 % 2 ^ 16) ≡ codes "400 Bad Request"
  unfolding status_text str_status_code find_status status_codes
  text_400 = refl

  text_500 : status_text (500 % 2 ^ 16) ≡ codes "500 Internal Server Error"
  unfolding status_text str_status_code find_status status_codes
  text_500 = refl

  text_501 : status_text (501 % 2 ^ 16) ≡ codes "501 Not Implemented"
  unfolding status_text str_status_code find_status status_codes
  text_501 = refl

  -- The code of a refusal, with its text.
  abbrev pub refusal_text : Bool → Bool → Bytes
  refusal_text has_host listens =
      if not has_host
      then codes "400 Bad Request"
      else if not listens
      then codes "500 Internal Server Error"
      else codes "501 Not Implemented"

  -- The response after its end: its stream takes no more calls.
  abbrev pub ended : Response
  ended = record (new_response false) { stream = (end_with [] (new_response false).stream).0 }

  abbrev pub refusal : Bytes → Bytes → Effect
  refusal date text = record {
    response = ended;
    writes =
        ((codes "HTTP/1.1 "
            ++ (text
                ++ (codes "\r\n"
                    ++ (whole date ++ codes "content-length: 0\r\nconnection: close\r\n\r\n"))))
          ∷ [])
        ∷ [];
    ends_socket = true;
  }

  answer-new :
      (date : Bytes) (garbage : Bool) (code : ℕ) (text : Bytes)
      → status_text (code % 2 ^ 16) ≡ text
      → answer date code (new_response garbage) ≡ Reaction.answers (some (refusal date text))
  unfolding answer end end_response new_response set_status_code response_compiler response_head
      find header_lines whole
  answer-new date garbage code text e =
      let r = set_status_code code (new_response garbage) in
      rw (finish-nothing (response_compiler date r) r.message refl refl refl, e) refl

  -- To the first request of a connection, whatever it is, the server answers by itself if there is
  -- no host (400), if there is none who listens to requests (500) or if the client asks for an
  -- upgrade (501), in this order, with no body: the status, the date, a length of 0 and the
  -- closing of the connection; it ends the socket then, and no later end of the response sends
  -- anything. Any other request goes to the listeners.
  pub on_head-new :
      (date later : Bytes) (garbage listens upgrade : Bool) (req : Message) (bufs : List Bytes)
      → (on_head date listens upgrade req (new_response garbage) ≡ (
          if has_header (codes "host") req && (listens && not upgrade)
          then Reaction.request_event
          else Reaction.answers
              (some (refusal date (refusal_text (has_header (codes "host") req) listens)))))
        × (end later ended bufs
            ≡ some (record { response = ended; writes = []; ends_socket = false }))
  unfolding on_head end end_with new_response
  on_head-new date later garbage listens upgrade req bufs = (
    ground (
      arith,
      answer-new date garbage 400 (codes "400 Bad Request") text_400,
      answer-new date garbage 500 (codes "500 Internal Server Error") text_500,
      answer-new date garbage 501 (codes "501 Not Implemented") text_501,
    ),
    refl,
  )
