-- ===== src/Http/Delivery.antt =====
-- From the bytes of an array to the functions of JavaScript (core/http.cc, core/http.h).
use no_js.Base.{ℕ, none, List, [], ◌∷◌, ◌++◌, map, join, ok, ◌≡◌, refl, Returns, ◌>>=◌}
use no_js.Base.Bytes.{Bytes, NoZero, c_str, c_string-append}
use no_js.Http.{
  HttpParser, HeadersEnd, ParserEvent, headers_call, body_call, body_complete_call, HeadersObject,
  on_header_complete_call, on_body_call, on_body_complete_call, handler_call, handler_calls,
  parse_input, parse,
}
use no_js.Http.Message.{
  HeaderPieces, field_pieces, value_pieces, message_events, message_info, execute-message_events,
}
use no_js.Http.Headers.{fields, values, get_property, last_value, header_object-get_property}

-- A header of which llhttp reports the field and the value in one piece each.
abbrev pub whole : Bytes × Bytes → HeaderPieces
whole kv = record { field = kv.0 ∷ []; value = kv.1 ∷ [] }

field_pieces-whole : (kvs : List (Bytes × Bytes)) → field_pieces (map whole kvs) ≡ fields kvs
field_pieces-whole [] = refl
field_pieces-whole (kv ∷ kvs) = rw (field_pieces-whole kvs) refl

value_pieces-whole : (kvs : List (Bytes × Bytes)) → value_pieces (map whole kvs) ≡ values kvs
value_pieces-whole [] = refl
value_pieces-whole (kv ∷ kvs) = rw (value_pieces-whole kvs) refl

-- What `onHeaderComplete` is told of a message.
pub record Describes (us : List Bytes) (kvs : List (Bytes × Bytes)) (h : HeadersEnd)
    (o : HeadersObject) : Type 0 where
  pub url_is : o.url ≡ c_str (join us)
  pub major_is : o.major_version ≡ h.http_major
  pub minor_is : o.minor_version ≡ h.http_minor
  pub keepalive_is : o.keepalive ≡ h.keep_alive
  pub upgrade_is : o.upgrade ≡ h.upgrade
  pub headers_are : (k : Bytes) → get_property k o.headers ≡ last_value k kvs none

headers_call-Describes :
    (begun : ℕ) (us : List Bytes) (kvs : List (Bytes × Bytes)) (h : HeadersEnd)
    → (o : HeadersObject) × (handler_call (headers_call (message_info begun us (map whole kvs) h))
        ≡ ok (on_header_complete_call o))
      × Describes us kvs h o
unfolding handler_call message_info
headers_call-Describes begun us kvs h =
    let (headers, e, found) = header_object-get_property kvs in
    let o : HeadersObject = record {
      major_version = h.http_major;
      minor_version = h.http_minor;
      keepalive = h.keep_alive;
      upgrade = h.upgrade;
      url = c_str (join us);
      headers = headers;
    } in
    (
      o,
      rw (field_pieces-whole kvs, value_pieces-whole kvs) (rw (e, ◌>>=◌) refl),
      record {
        url_is = refl;
        major_is = refl;
        minor_is = refl;
        keepalive_is = refl;
        upgrade_is = refl;
        headers_are = found;
      },
    )

handler_calls-body :
    (bs : List Bytes) (b : Bytes)
    → handler_calls (map body_call bs ++ body_complete_call b ∷ [])
      ≡ ok (map (λ c. on_body_call (c_str c)) bs ++ on_body_complete_call (c_str b) ∷ [])
unfolding handler_calls handler_call
handler_calls-body [] b = refl
handler_calls-body (c ∷ bs) b = rw (handler_calls-body bs b, ◌>>=◌) refl

-- When the bytes of the array up to their first 0 are a message of which llhttp reports each field
-- and each value in one piece, and the object has all handlers: whatever the parser has collected
-- before, `parse` returns, and it has called `onHeaderComplete` with the url put together, the
-- numbers of the message, and the last value of each name of a header; then `onBody` with each piece
-- of the body; then `onBodyComplete` with the body put together; every string up to its first 0.
pub parse-message :
    (llhttp : Bytes → List ParserEvent) (xs ys : Bytes) (begun : ℕ) (us : List Bytes)
    (kvs : List (Bytes × Bytes)) (h : HeadersEnd) (bs : List Bytes) (ended : ℕ) (p : HttpParser)
    → NoZero xs
    → llhttp xs ≡ message_events begun us (map whole kvs) h bs ended
    → Returns
        (λ r.
          (o : HeadersObject) × Describes us kvs h o
          × (r.1
              ≡ on_header_complete_call o
                ∷ (map (λ b. on_body_call (c_str b)) bs
                    ++ on_body_complete_call (c_str (join bs)) ∷ [])))
        (parse llhttp (xs ++ 0 ∷ ys) p)
unfolding parse parse_input handler_calls
parse-message llhttp xs ys begun us kvs h bs ended p no_zero events =
    let (o, called, describes) = headers_call-Describes begun us kvs h in
    let reported = execute-message_events begun us (map whole kvs) h bs ended p in
    rw (c_string-append xs ys no_zero, ◌>>=◌)
      (rw (events, reported)
        (rw (called, ◌>>=◌)
          (rw (handler_calls-body bs (join bs), ◌>>=◌) (_, refl, (o, describes, refl)))))
