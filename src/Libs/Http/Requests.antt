-- ===== src/Libs/Http/Requests.antt =====
-- A request from the bytes that a socket receives to the listeners.
use no_js.Base.{
  ℕ, ◌-◌, ◌<◌, ◌≡◌, refl, ap, ◌∙◌, arith, none, some, List, [], ◌∷◌, ◌++◌, map, Returns, ◌>>=◌,
  length, join,
}
use no_js.Base.Bytes.{Bytes, NoZero, c_str}
use no_js.Http.{
  HttpParser, HeadersEnd, ParserEvent, HandlerCall, on_header_complete_call, on_body_call,
  on_body_complete_call, HeadersObject,
}
use no_js.Http.Message.{message_events}
use no_js.Http.Headers.{get_property, last_value}
use no_js.Http.Delivery.{whole, parse-message}
use no_js.Libs.Buffer.{alloc}
use no_js.Libs.Tcp.{received_buffer, read_size}
use no_js.Libs.Tcp.Data.{padded}
use no_js.Libs.Http.{
  HttpRequest, request_event, body_event, on_handler_call, on_handler_calls, on_data,
  number_property,
}

-- The calls that a message makes.
abbrev message_calls : HeadersObject → List Bytes → Bytes → List HandlerCall
message_calls o bs body =
    on_header_complete_call o
    ∷ (map (λ b. on_body_call (c_str b)) bs ++ on_body_complete_call body ∷ [])

on_handler_calls-body :
    (bs : List Bytes) (body : Bytes) (request : HttpRequest)
    → on_handler_calls
        (map (λ b. on_body_call (c_str b)) bs ++ on_body_complete_call body ∷ [])
        request
      ≡ (request, map (λ b. body_event (c_str b)) bs)
unfolding on_handler_calls on_handler_call
on_handler_calls-body [] body request = refl
on_handler_calls-body (b ∷ bs) body request = rw (on_handler_calls-body bs body request) refl

-- The request that the object of `onHeaderComplete` makes.
abbrev seen : HeadersObject → HttpRequest
seen o = record {
  major = none;
  minor = none;
  keepalive = some o.keepalive;
  upgrade = some o.upgrade;
  headers = o.headers;
}

on_handler_calls-message :
    (o : HeadersObject) (bs : List Bytes) (body : Bytes) (request : HttpRequest)
    → on_handler_calls (message_calls o bs body) request
      ≡ (seen o, request_event (seen o) ∷ map (λ b. body_event (c_str b)) bs)
unfolding on_handler_calls on_handler_call number_property
on_handler_calls-message o bs body request = rw (on_handler_calls-body bs body (seen o)) refl

-- What the listeners are shown of a message.
pub record Shows (kvs : List (Bytes × Bytes)) (h : HeadersEnd) (request : HttpRequest)
    : Type 0 where
  pub no_major : request.major ≡ none
  pub no_minor : request.minor ≡ none
  pub keepalive_is : request.keepalive ≡ some h.keep_alive
  pub upgrade_is : request.upgrade ≡ some h.upgrade
  pub headers_are : (k : Bytes) → get_property k request.headers ≡ last_value k kvs none

-- When one read of a socket gives a whole message, of fewer than 1024 bytes and without a 0, of which
-- llhttp reports each field and each value in one piece: whatever the parser and the request held
-- before, the server emits one request, with the message's keepalive and upgrade and the last value of
-- each name of a header, but without a version, and then the request emits each piece of the body, up
-- to its first 0.
pub on_data-message :
    (llhttp : Bytes → List ParserEvent) (xs : Bytes) (begun : ℕ) (us : List Bytes)
    (kvs : List (Bytes × Bytes)) (h : HeadersEnd) (bs : List Bytes) (ended : ℕ) (p : HttpParser)
    (request : HttpRequest)
    → NoZero xs
    → length xs < read_size
    → llhttp xs ≡ message_events begun us (map whole kvs) h bs ended
    → Returns
        (λ r.
          (shown : HttpRequest) × Shows kvs h shown
          × (r.0.1 ≡ shown)
          × (r.1 ≡ request_event shown ∷ map (λ b. body_event (c_str b)) bs))
        (on_data llhttp (received_buffer xs) (p, request))
unfolding on_data
on_data-message llhttp xs begun us kvs h bs ended p request no_zero small events =
    let n : ℕ = 1023 - length xs in
    let buffer : received_buffer xs ≡ xs ++ 0 ∷ alloc n = padded xs n (omega arith) in
    let ((p', calls), e, (o, describes, is)) =
      parse-message llhttp xs (alloc n) begun us kvs h bs ended p no_zero events in
    let handled : on_handler_calls calls request
        ≡ (seen o, request_event (seen o) ∷ map (λ b. body_event (c_str b)) bs) =
      ap (λ cs. on_handler_calls cs request) is
      ∙ on_handler_calls-message o bs (c_str (join bs)) request in
    rw (buffer, e, ◌>>=◌)
      (
        _,
        refl,
        (
          seen o,
          record {
            no_major = refl;
            no_minor = refl;
            keepalive_is = ap some describes.keepalive_is;
            upgrade_is = ap some describes.upgrade_is;
            headers_are = describes.headers_are;
          },
          ap (λ r. r.0) handled,
          ap (λ r. r.1) handled,
        ),
      )
