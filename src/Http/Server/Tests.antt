-- ===== src/Http/Server/Tests.antt =====
-- Runs of the server, and its theorems at a response and at a request without a host.
use libnodecc.Prelude.{
  ◌≡◌, refl, arith, Bytes, codes, true, false, not, ◌&&◌, [], ◌∷◌, ◌++◌, some, none,
}
use libnodecc.Prelude.{if◌then◌else◌}
use libnodecc.Util.Sample.{sample_platform}
use libnodecc.Buffer.Mutable.{empty}
use libnodecc.Buffer.Mutable.Validity.{empty-IsValid}
use libnodecc.Http.Incoming.{Message, has_header}
use libnodecc.Http.Headers.{Headers}
use libnodecc.Http.Server.{Response, compile_headers}
use libnodecc.Http.Server.Status.{sent_code, no_break}
use libnodecc.Http.Server.Fields.{no_colon, read_response}
use libnodecc.Http.Server.RoundTrip.{IsField, sent_fields, read_response-compile_headers}
use libnodecc.Http.Server.Handler.{new_response, end, Reaction, on_head}
use libnodecc.Http.Server.Refusals.{ended, refusal, refusal_text, on_head-new}

abbrev date_value : Bytes
date_value = codes "Tue, 15 Nov 1994 12:45:26 GMT"

abbrev date_line : Bytes
date_line = codes "date: Tue, 15 Nov 1994 12:45:26 GMT\r\n"

abbrev no_host : Message
no_host = record {
  generic_value = [];
  field = [];
  value = [];
  headers = (codes "accept", codes "*/*") ∷ [];
  url = codes "/";
  status_code = 0;
  version = (1, 1);
  websocket = none;
}

on_head-new_example :
    (on_head date_line true false no_host (new_response true) ≡ (
      if has_header (codes "host") no_host && (true && not false)
      then Reaction.request_event
      else Reaction.answers
          (some (refusal date_line (refusal_text (has_header (codes "host") no_host) true)))))
    × (end date_line ended (codes "late" ∷ [])
        ≡ some (record { response = ended; writes = []; ends_socket = false }))
on_head-new_example = on_head-new date_line date_line true true false no_host (codes "late" ∷ [])

abbrev teapot : Response
teapot = record (new_response false) { status_code = 418 }

abbrev set_fields : Headers
set_fields = (codes "content-type", codes "text/plain") ∷ []

date-IsField : IsField (codes "date", date_value)
unfolding no_break no_colon
date-IsField = record {
  name_unbroken = refl;
  name_plain = refl;
  value_unbroken = refl;
  name_le = omega arith;
  value_le = omega arith;
}

content_type-IsField : IsField (codes "content-type", codes "text/plain")
unfolding no_break no_colon
content_type-IsField = record {
  name_unbroken = refl;
  name_plain = refl;
  value_unbroken = refl;
  name_le = omega arith;
  value_le = omega arith;
}

read_response-compile_headers_example :
    read_response ((compile_headers date_line teapot set_fields empty).bytes ++ codes "short")
    ≡ some (sent_code teapot.status_code, sent_fields date_value teapot set_fields, codes "short")
read_response-compile_headers_example =
    read_response-compile_headers date_line date_value teapot set_fields empty (codes "short")
      empty-IsValid refl refl (omega arith) date-IsField (content_type-IsField, record {})
