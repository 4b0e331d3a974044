-- ===== src/Libs/Http.antt =====
-- libs/http/index.js: a request, from the calls of the native parser, and the response to it, as bytes.
pub mod Response
pub mod Requests
use text.Mathlib.Text.{◌==◌}
use no_js.Http.{
  HttpParser, ParserEvent, HeadersObject, HandlerCall, on_header_complete_call, on_body_call,
  on_body_complete_call, parse,
}
use no_js.Base.{
  String, Option, some, none, Result, ok, ◌>>=◌, ℕ, if◌then◌else◌, List, [], ◌∷◌, ◌++◌,
}
use no_js.Base.Bytes.{Bytes, bytes_eq}
use no_js.Libs.Buffer.{Chars, from, strlen}

-- A header, and the headers in the order of `Object.entries`. No name is an array index.
abbrev pub Header : Type 0
Header = Chars × Chars

abbrev pub cr_lf : Chars
cr_lf = 13 ∷ 10 ∷ []

-- "HTTP/1.1 ", " OK", "Server", "No.js", "Content-length".
abbrev pub http_version : Chars
http_version = 72 ∷ 84 ∷ 84 ∷ 80 ∷ 47 ∷ 49 ∷ 46 ∷ 49 ∷ 32 ∷ []

abbrev pub ok_text : Chars
ok_text = 32 ∷ 79 ∷ 75 ∷ []

abbrev pub content_length : Chars
content_length =
    67 ∷ 111 ∷ 110 ∷ 116 ∷ 101 ∷ 110 ∷ 116 ∷ 45 ∷ 108 ∷ 101 ∷ 110 ∷ 103 ∷ 116 ∷ 104 ∷ []

-- `headers` of a new `HTTPResponse`.
abbrev pub default_headers : List Header
default_headers = (83 ∷ 101 ∷ 114 ∷ 118 ∷ 101 ∷ 114 ∷ [], 78 ∷ 111 ∷ 46 ∷ 106 ∷ 115 ∷ []) ∷ []

-- `setHeader`: a property of an object keeps its place when it is set again.
unfoldable pub set_header : Chars → Chars → List Header → List Header
set_header k v [] = (k, v) ∷ []
set_header k v ((j, w) ∷ headers) =
    let rest = set_header k v headers in if bytes_eq j k then (j, v) ∷ headers else (j, w) ∷ rest

-- `setHeaders`.
unfoldable pub set_headers : List Header → List Header → List Header
unfolding set_header
set_headers [] headers = headers
set_headers ((k, v) ∷ new) headers = set_headers new (set_header k v headers)

-- `buildHeaders`.
unfoldable pub build_headers : List Header → Chars
build_headers [] = []
build_headers ((k, v) ∷ headers) = k ++ 58 ∷ v ++ cr_lf ++ build_headers headers

-- `end`: what is written to the socket. `show` is what a template makes of a number.
unfoldable pub end_response : (ℕ → Chars) → ℕ → List Header → Chars → Bytes
unfolding build_headers set_header
end_response show status_code headers data_text =
    let response_line = http_version ++ show status_code ++ ok_text in
    let response_headers =
      build_headers (set_header content_length (show (strlen data_text)) headers) in
    from
      (response_line ++ cr_lf ++ response_headers ++ cr_lf ++ cr_lf ++ data_text ++ cr_lf ++ cr_lf)

-- The properties of the object that `onHeaderComplete` is given that are numbers; another name is not
-- there.
unfoldable pub number_property : HeadersObject → String → Option ℕ
number_property o name =
    if name == "major_version"
    then some o.major_version
    else if name == "minor_version"
    then some o.minor_version
    else if name == "keepalive"
    then some o.keepalive
    else if name == "upgrade"
    then some o.upgrade
    else none

-- The properties of an `HTTPRequest` that are set; `none` is `undefined`.
pub record HttpRequest : Type 0 where
  pub major : Option ℕ
  pub minor : Option ℕ
  pub keepalive : Option ℕ
  pub upgrade : Option ℕ
  pub headers : List (Bytes × Bytes)

-- What is emitted: `request` by the server, with the request as it is then; `data` by the request.
pub data RequestEvent : Type 0 where
  request_event : HttpRequest → RequestEvent
  body_event : Bytes → RequestEvent

-- The functions `onHeaderComplete`, `onBody` and `onBodyComplete`.
unfoldable pub on_handler_call : HandlerCall → HttpRequest → HttpRequest × List RequestEvent
unfolding number_property
on_handler_call (on_header_complete_call o) request =
    let request' : HttpRequest = record {
      major = number_property o "major";
      minor = number_property o "minor";
      keepalive = number_property o "keepalive";
      upgrade = number_property o "upgrade";
      headers = o.headers;
    } in
    (request', request_event request' ∷ [])
on_handler_call (on_body_call body) request = (request, body_event body ∷ [])
on_handler_call (on_body_complete_call body) request = (request, [])

unfoldable pub on_handler_calls : List HandlerCall → HttpRequest → HttpRequest × List RequestEvent
unfolding on_handler_call
on_handler_calls [] request = (request, [])
on_handler_calls (c ∷ cs) request =
    let (next, events) = on_handler_call c request in
    let (last, more) = on_handler_calls cs next in (last, events ++ more)

-- The listener of `data` of a socket: the array is parsed.
unfoldable pub on_data :
    (Bytes → List ParserEvent)
    → Bytes
    → HttpParser × HttpRequest
    → Result ((HttpParser × HttpRequest) × List RequestEvent)
unfolding on_handler_calls
on_data llhttp buffer (parser, request) = do
  (p, calls) ← parse llhttp buffer parser
  let (request', events) = on_handler_calls calls request
  ok ((p, request'), events)
