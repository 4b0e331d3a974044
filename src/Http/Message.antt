-- ===== src/Http/Message.antt =====
-- What a whole message makes of the parser, however its parts are cut (core/HTTP_Parser.cc).
use mathlib.Core.List.{append-nil, append_assoc}
use no_js.Base.{ℕ, List, [], ◌∷◌, ◌++◌, map, join, ◌≡◌, refl, ap}
use no_js.Base.Bytes.{Bytes}
use no_js.Http.{
  HttpParser, HeadersInfo, HeadersEnd, headers_call, body_call, body_complete_call, ParserEvent,
  message_begin, url_part, field_part, value_part, body_part, headers_complete, message_complete,
  execute, on_message_begin,
}

-- A header as the pieces in which llhttp reports its field and its value.
pub record HeaderPieces : Type 0 where
  pub field : List Bytes
  pub value : List Bytes

unfoldable pub header_events : List HeaderPieces → List ParserEvent
header_events [] = []
header_events (h ∷ hs) = map field_part h.field ++ (map value_part h.value ++ header_events hs)

-- The callbacks of llhttp for one request.
unfoldable pub message_events :
    ℕ → List Bytes → List HeaderPieces → HeadersEnd → List Bytes → ℕ → List ParserEvent
message_events begun us hs h bs ended =
    message_begin begun
    ∷ (map url_part us
        ++ (header_events hs
            ++ (headers_complete h ∷ (map body_part bs ++ message_complete ended ∷ []))))

abbrev pub field_pieces : List HeaderPieces → List Bytes
field_pieces [] = []
field_pieces (h ∷ hs) = h.field ++ field_pieces hs

abbrev pub value_pieces : List HeaderPieces → List Bytes
value_pieces [] = []
value_pieces (h ∷ hs) = h.value ++ value_pieces hs

-- Events that only collect run first, and then the rest.
execute-url :
    (us : List Bytes) (es : List ParserEvent) (p : HttpParser)
    → execute (map url_part us ++ es) p ≡ execute es (record p { url = p.url ++ join us })
unfolding execute
execute-url [] es p = rw append-nil
execute-url (u ∷ us) es p = rw (execute-url us es _, append_assoc)

execute-field :
    (ks : List Bytes) (es : List ParserEvent) (p : HttpParser)
    → execute (map field_part ks ++ es) p ≡ execute es (record p { keys = p.keys ++ ks })
unfolding execute
execute-field [] es p = rw append-nil
execute-field (k ∷ ks) es p = rw (execute-field ks es _, append_assoc)

execute-value :
    (vs : List Bytes) (es : List ParserEvent) (p : HttpParser)
    → execute (map value_part vs ++ es) p ≡ execute es (record p { values = p.values ++ vs })
unfolding execute
execute-value [] es p = rw append-nil
execute-value (v ∷ vs) es p = rw (execute-value vs es _, append_assoc)

execute-headers :
    (hs : List HeaderPieces) (es : List ParserEvent) (p : HttpParser)
    → execute (header_events hs ++ es) p
      ≡ execute es
          (record p { keys = p.keys ++ field_pieces hs; values = p.values ++ value_pieces hs })
unfolding header_events
execute-headers [] es p = simp append-nil
execute-headers (h ∷ hs) es p =
    simp (append_assoc, execute-field, execute-value, execute-headers hs)

-- Each piece of the body is passed on as it comes, and collected.
execute-body :
    (bs : List Bytes) (ended : ℕ) (p : HttpParser)
    → (execute (map body_part bs ++ message_complete ended ∷ []) p).1
      ≡ map body_call bs ++ body_complete_call (p.body ++ join bs) ∷ []
unfolding execute
execute-body [] ended p = simp append-nil
execute-body (b ∷ bs) ended p = simp (execute-body bs ended, append_assoc)

execute-begin :
    (begun : ℕ) (es : List ParserEvent) (p : HttpParser)
    → execute (message_begin begun ∷ es) p ≡ execute es (on_message_begin begun p)
unfolding execute
execute-begin begun es p = refl

-- What `onHeaderComplete` is told of a message.
unfoldable pub message_info : ℕ → List Bytes → List HeaderPieces → HeadersEnd → HeadersInfo
message_info begun us hs h = record {
  major_version = h.http_major;
  minor_version = h.http_minor;
  upgrade = h.upgrade;
  keepalive = h.keep_alive;
  parse_start_time = begun;
  header_end_time = h.now;
  message_end_time = 0;
  url = join us;
  status = [];
  keys = field_pieces hs;
  values = value_pieces hs;
}

-- The state of the parser when the headers are complete.
told : ℕ → List Bytes → List HeaderPieces → HttpParser
told begun us hs = record {
  major_version = 0;
  minor_version = 0;
  upgrade = 0;
  keepalive = 0;
  parse_start_time = begun;
  header_end_time = 0;
  message_end_time = 0;
  url = join us;
  status = [];
  keys = field_pieces hs;
  values = value_pieces hs;
  body = [];
}

execute-headers_complete :
    (begun : ℕ) (us : List Bytes) (hs : List HeaderPieces) (h : HeadersEnd) (bs : List Bytes)
    (ended : ℕ)
    → (execute
        (headers_complete h ∷ (map body_part bs ++ message_complete ended ∷ []))
        (told begun us hs)).1
      ≡ headers_call (message_info begun us hs h)
        ∷ (map body_call bs ++ body_complete_call (join bs) ∷ [])
unfolding execute message_info told
execute-headers_complete begun us hs h bs ended =
    ap (◌∷◌ (headers_call (message_info begun us hs h))) (execute-body bs ended _)

-- Whatever the parser has collected before, a message is reported by one call with its url put
-- together and the pieces of its headers, then by a call for each piece of its body, then by one call
-- with the body put together.
pub execute-message_events :
    (begun : ℕ) (us : List Bytes) (hs : List HeaderPieces) (h : HeadersEnd) (bs : List Bytes)
    (ended : ℕ) (p : HttpParser)
    → (execute (message_events begun us hs h bs ended) p).1
      ≡ headers_call (message_info begun us hs h)
        ∷ (map body_call bs ++ body_complete_call (join bs) ∷ [])
unfolding message_events told on_message_begin
execute-message_events begun us hs h bs ended p =
    rw (execute-begin, execute-url, execute-headers)
      (execute-headers_complete begun us hs h bs ended)
