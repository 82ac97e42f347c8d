-- ===== src/Http/Incoming/Exchange.antt =====
-- A whole message: its URL, its headers, its body and its end.
use libnodecc.Prelude.{
  Bytes, concat, ◌≡◌, refl, ap, ◌∙◌, sym, arith, true, false, List, [], ◌∷◌, ◌++◌, append_assoc,
  append-nil, All,
}
use libnodecc.Http.Headers.{Headers}
use libnodecc.Http.Incoming.{
  Parser, Signal, data_event, Message, add_header_partials, on_url, on_header_field,
  on_header_value, on_headers_complete, on_body, on_message_complete, is_yes,
}
use libnodecc.Http.Incoming.Lookup.{IsHeader, IsSettled, on_headers, on_headers-IsSettled}
use libnodecc.Http.Incoming.Faults.{IsFresh, fresh-IsSettled}

unfoldable pub on_urls : List Bytes → Message → Message
on_urls [] m = m
on_urls (u ∷ us) m = on_urls us (on_url u m)

-- All that precedes the body.
unfoldable pub on_head : Parser → List Bytes → Headers → Message → Message × List Signal
on_head p us hs m = on_headers_complete p (on_headers hs (on_urls us m))

-- The body, in pieces.
unfoldable pub on_bodies : List Bytes → Message → Message × List Signal
on_bodies [] m = (m, [])
on_bodies (b ∷ bs) m = let r = on_body b m in let s = on_bodies bs r.0 in (s.0, r.1 ++ s.1)

abbrev pub data_events : List Bytes → List Signal
data_events [] = []
data_events (b ∷ bs) = data_event b ∷ data_events bs

-- The callbacks for one request in their order.
unfoldable pub receive :
    Parser → List Bytes → Headers → List Bytes → Message → Message × List Signal
receive p us hs bs m =
    let r = on_head p us hs m in
    let s = on_bodies bs r.0 in let t = on_message_complete s.0 in (t.0, r.1 ++ (s.1 ++ t.1))

on_urls-appends :
    (us : List Bytes) (m : Message)
    → on_urls us m ≡ record m { generic_value = m.generic_value ++ concat us }
unfolding on_urls on_url
on_urls-appends [] m = ap (λ t. record m { generic_value = t }) (sym (append-nil m.generic_value))
on_urls-appends (u ∷ us) m =
    on_urls-appends us (on_url u m)
    ∙ ap (λ t. record m { generic_value = t }) (append_assoc m.generic_value u (concat us))

-- What the headers leave alone.
record Keeps (m n : Message) : Type 0 where
  generic_value : n.generic_value ≡ m.generic_value
  websocket : n.websocket ≡ m.websocket

add_header_partials-Keeps : (m : Message) → Keeps m (add_header_partials m)
unfolding add_header_partials
add_header_partials-Keeps m = record { generic_value = ground arith; websocket = ground arith }

Keeps-trans : (l m n : Message) → Keeps l m → Keeps m n → Keeps l n
Keeps-trans l m n h k = record {
  generic_value = k.generic_value ∙ h.generic_value;
  websocket = k.websocket ∙ h.websocket;
}

header-Keeps : (f v : Bytes) (m : Message) → Keeps m (on_header_value v (on_header_field f m))
unfolding on_header_field on_header_value
header-Keeps f v m = record {
  generic_value = second.generic_value ∙ first.generic_value;
  websocket = second.websocket ∙ first.websocket;
}
  where
    first : Keeps m (add_header_partials m)
    first = add_header_partials-Keeps m

    second : Keeps (on_header_field f m) (add_header_partials (on_header_field f m))
    second = add_header_partials-Keeps (on_header_field f m)

on_headers-Keeps : (hs : Headers) (m : Message) → Keeps m (on_headers hs m)
unfolding on_headers
on_headers-Keeps [] m = record { generic_value = refl; websocket = refl }
on_headers-Keeps ((f, v) ∷ hs) m =
    Keeps-trans m (on_header_value v (on_header_field f m))
      (on_headers hs (on_header_value v (on_header_field f m))) (header-Keeps f v m)
      (on_headers-Keeps hs (on_header_value v (on_header_field f m)))

on_bodies-signals : (bs : List Bytes) (m : Message) → on_bodies bs m ≡ (m, data_events bs)
unfolding on_bodies on_body
on_bodies-signals [] m = refl
on_bodies-signals (b ∷ bs) m = ap (λ t. (t.0, data_event b ∷ t.1)) (on_bodies-signals bs m)

-- The message in front of the last step of its head.
abbrev with_head : List Bytes → Headers → Message → Message
with_head us hs m = add_header_partials (on_headers hs (on_urls us m))

with_head-Keeps :
    (us : List Bytes) (hs : Headers) (m : Message)
    → ((with_head us hs m).generic_value ≡ m.generic_value ++ concat us)
      × ((with_head us hs m).websocket ≡ m.websocket)
with_head-Keeps us hs m = (
  kept.generic_value ∙ ap (λ t. t.generic_value) (on_urls-appends us m),
  kept.websocket ∙ ap (λ t. t.websocket) (on_urls-appends us m),
)
  where
    kept : Keeps (on_urls us m) (with_head us hs m)
    kept =
        Keeps-trans (on_urls us m) (on_headers hs (on_urls us m)) (with_head us hs m)
          (on_headers-Keeps hs (on_urls us m))
          (add_header_partials-Keeps (on_headers hs (on_urls us m)))

-- When the head of a request is complete, its URL is all pieces of it and its method is the
-- text that the parser knows. No URL came before it.
pub on_head-request :
    (p : Parser) (us : List Bytes) (hs : Headers) (m : Message)
    → p.is_request ≡ true
    → m.generic_value ≡ []
    → ((on_head p us hs m).0.url ≡ concat us) × ((on_head p us hs m).0.generic_value ≡ p.method)
unfolding on_head on_headers_complete
on_head-request p us hs m req no_url = ground (arith, req, no_url, (with_head-Keeps us hs m).0)

on_head-websocket :
    (p : Parser) (us : List Bytes) (hs : Headers) (m : Message)
    → (on_head p us hs m).0.websocket ≡ m.websocket
unfolding on_head on_headers_complete
on_head-websocket p us hs m = ground (arith, (with_head-Keeps us hs m).1)

on_head-settles :
    (p : Parser) (us : List Bytes) (hs : Headers) (m : Message)
    → All IsHeader hs
    → IsFresh m
    → ((on_head p us hs m).0.field ≡ []) × ((on_head p us hs m).0.value ≡ [])
unfolding on_head on_headers_complete
on_head-settles p us hs m h fresh = ground (arith, done.field, done.value)
  where
    begun : IsFresh (on_urls us m)
    begun = record {
      field = ap (λ t. t.field) (on_urls-appends us m) ∙ fresh.field;
      value = ap (λ t. t.value) (on_urls-appends us m) ∙ fresh.value;
      headers = ap (λ t. t.headers) (on_urls-appends us m) ∙ fresh.headers;
    }

    done : IsSettled (on_headers hs (on_urls us m))
    done = on_headers-IsSettled hs (on_urls us m) h (fresh-IsSettled (on_urls us m) begun)

-- After a message whose headers were each reported in one piece for the name and one for the
-- value, none empty, the next message starts as the first did: without a header, a pending
-- piece, a URL or a method. The message is not a WebSocket handshake that was asked for.
pub receive-IsFresh :
    (p : Parser) (us : List Bytes) (hs : Headers) (bs : List Bytes) (m : Message)
    → is_yes m.websocket ≡ false
    → All IsHeader hs
    → IsFresh m
    → IsFresh (receive p us hs bs m).0
      × ((receive p us hs bs m).0.generic_value ≡ [])
      × ((receive p us hs bs m).0.url ≡ [])
unfolding receive on_message_complete
receive-IsFresh p us hs bs m no_ws h fresh = (
  record {
    field = ground (
      arith,
      no_ws,
      on_head-websocket p us hs m,
      on_head-settles p us hs m h fresh,
      on_bodies-signals bs (on_head p us hs m).0,
    );
    value = ground (
      arith,
      no_ws,
      on_head-websocket p us hs m,
      on_head-settles p us hs m h fresh,
      on_bodies-signals bs (on_head p us hs m).0,
    );
    headers = ground (
      arith,
      no_ws,
      on_head-websocket p us hs m,
      on_head-settles p us hs m h fresh,
      on_bodies-signals bs (on_head p us hs m).0,
    );
  },
  ground (
    arith,
    no_ws,
    on_head-websocket p us hs m,
    on_head-settles p us hs m h fresh,
    on_bodies-signals bs (on_head p us hs m).0,
  ),
  ground (
    arith,
    no_ws,
    on_head-websocket p us hs m,
    on_head-settles p us hs m h fresh,
    on_bodies-signals bs (on_head p us hs m).0,
  ),
)
