-- ===== src/Http.antt =====
-- core/HTTP_Parser.h, core/HTTP_Parser.cc, core/http.h and core/http.cc: what is collected from the
-- callbacks of llhttp. llhttp and V8 are not part of the repository: the callbacks of a call of
-- `llhttp_execute`, with the clock's answers, are a list of events.
pub mod Message
pub mod Headers
pub mod Input
pub mod Delivery
use no_js.Base.{
  ℕ, ◌+◌, Bool, true, false, List, [], ◌∷◌, ◌++◌, Result, ok, fault, out_of_range, ◌>>=◌,
  if◌then◌else◌,
}
use no_js.Base.Bytes.{Bytes, bytes_eq, c_str, c_string}

-- The fields of `class HTTP_Parser` beside the parser of llhttp and the callbacks.
pub record HttpParser : Type 0 where
  pub major_version : ℕ
  pub minor_version : ℕ
  pub upgrade : ℕ
  pub keepalive : ℕ
  pub parse_start_time : ℕ
  pub header_end_time : ℕ
  pub message_end_time : ℕ
  pub url : Bytes
  pub status : Bytes
  pub keys : List Bytes
  pub values : List Bytes
  pub body : Bytes

-- `on_headers_complete_info`.
pub record HeadersInfo : Type 0 where
  pub major_version : ℕ
  pub minor_version : ℕ
  pub upgrade : ℕ
  pub keepalive : ℕ
  pub parse_start_time : ℕ
  pub header_end_time : ℕ
  pub message_end_time : ℕ
  pub url : Bytes
  pub status : Bytes
  pub keys : List Bytes
  pub values : List Bytes

-- What llhttp knows of a message when its headers are complete.
pub record HeadersEnd : Type 0 where
  pub now : ℕ
  pub http_major : ℕ
  pub http_minor : ℕ
  pub upgrade : ℕ
  pub keep_alive : ℕ

-- The callbacks of `parser_callback` that are made.
pub data ParserCall : Type 0 where
  headers_call : HeadersInfo → ParserCall
  body_call body_complete_call : Bytes → ParserCall

-- The callbacks of llhttp, with their arguments.
pub data ParserEvent : Type 0 where
  message_begin : ℕ → ParserEvent
  url_part status_part field_part value_part body_part : Bytes → ParserEvent
  headers_complete : HeadersEnd → ParserEvent
  message_complete : ℕ → ParserEvent

unfoldable pub on_message_begin : ℕ → HttpParser → HttpParser
on_message_begin now p = record {
  major_version = 0;
  minor_version = 0;
  upgrade = 0;
  keepalive = 0;
  parse_start_time = now;
  header_end_time = 0;
  message_end_time = 0;
  url = [];
  status = [];
  keys = [];
  values = [];
  body = [];
}

unfoldable pub on_status : Bytes → HttpParser → HttpParser
on_status at p = record p { status = p.status ++ at }

unfoldable pub on_url : Bytes → HttpParser → HttpParser
on_url at p = record p { url = p.url ++ at }

unfoldable pub on_header_field : Bytes → HttpParser → HttpParser
on_header_field at p = record p { keys = p.keys ++ at ∷ [] }

unfoldable pub on_header_value : Bytes → HttpParser → HttpParser
on_header_value at p = record p { values = p.values ++ at ∷ [] }

headers_info : HttpParser → HeadersInfo
headers_info p = record {
  major_version = p.major_version;
  minor_version = p.minor_version;
  upgrade = p.upgrade;
  keepalive = p.keepalive;
  parse_start_time = p.parse_start_time;
  header_end_time = p.header_end_time;
  message_end_time = p.message_end_time;
  url = p.url;
  status = p.status;
  keys = p.keys;
  values = p.values;
}

unfoldable pub on_headers_complete : HeadersEnd → HttpParser → HttpParser × List ParserCall
unfolding headers_info
on_headers_complete h p = (q, headers_call (headers_info q) ∷ [])
  where
    q : HttpParser
    q = record p {
      header_end_time = h.now;
      major_version = h.http_major;
      minor_version = h.http_minor;
      upgrade = h.upgrade;
      keepalive = h.keep_alive;
    }

unfoldable pub on_body : Bytes → HttpParser → HttpParser × List ParserCall
on_body at p = (record p { body = p.body ++ at }, body_call at ∷ [])

unfoldable pub on_message_complete : ℕ → HttpParser → HttpParser × List ParserCall
on_message_complete now p = (record p { message_end_time = now }, body_complete_call p.body ∷ [])

-- The table `settings`, which sends each callback of llhttp to the method of its name.
unfoldable pub on_event : ParserEvent → HttpParser → HttpParser × List ParserCall
unfolding on_message_begin on_status on_url on_header_field on_header_value on_headers_complete
    on_body on_message_complete
on_event (message_begin now) p = (on_message_begin now p, [])
on_event (url_part at) p = (on_url at p, [])
on_event (status_part at) p = (on_status at p, [])
on_event (field_part at) p = (on_header_field at p, [])
on_event (value_part at) p = (on_header_value at p, [])
on_event (headers_complete h) p = on_headers_complete h p
on_event (body_part at) p = on_body at p
on_event (message_complete now) p = on_message_complete now p

-- A call of `llhttp_execute`: the callbacks one after another.
unfoldable pub execute : List ParserEvent → HttpParser → HttpParser × List ParserCall
unfolding on_event
execute [] p = (p, [])
execute (e ∷ es) p =
    let (q, now) = on_event e p in let (r, later) = execute es q in (r, now ++ later)

-- `headers->Set(context, key, value)`: the value of a key that is there is replaced.
unfoldable pub set_property : Bytes → Bytes → List (Bytes × Bytes) → List (Bytes × Bytes)
set_property k v [] = (k, v) ∷ []
set_property k v ((j, w) ∷ o) = if bytes_eq j k then (j, v) ∷ o else (j, w) ∷ set_property k v o

-- The loop of `onHeaderComplete` over the keys, with the value of the same index.
unfoldable pub header_object :
    List Bytes → List Bytes → List (Bytes × Bytes) → Result (List (Bytes × Bytes))
header_object [] vs o = ok o
header_object (k ∷ ks) [] o = fault out_of_range
header_object (k ∷ ks) (v ∷ vs) o = header_object ks vs (set_property (c_str k) (c_str v) o)

-- The calls of JavaScript functions: `onHeaderComplete` with the object that is built for it, and
-- `onBody` and `onBodyComplete` with a string.
pub record HeadersObject : Type 0 where
  pub major_version : ℕ
  pub minor_version : ℕ
  pub keepalive : ℕ
  pub upgrade : ℕ
  pub url : Bytes
  pub headers : List (Bytes × Bytes)

pub data HandlerCall : Type 0 where
  on_header_complete_call : HeadersObject → HandlerCall
  on_body_call on_body_complete_call : Bytes → HandlerCall

-- The functions that the constructor of `Parser` puts into `parser_callback`, where the object has
-- the handlers.
unfoldable pub handler_call : ParserCall → Result HandlerCall
handler_call (headers_call info) = do
  headers ← header_object info.keys info.values []
  ok (
      on_header_complete_call (record {
        major_version = info.major_version;
        minor_version = info.minor_version;
        keepalive = info.keepalive;
        upgrade = info.upgrade;
        url = c_str info.url;
        headers = headers;
      }))
handler_call (body_call b) = ok (on_body_call (c_str b))
handler_call (body_complete_call b) = ok (on_body_complete_call (c_str b))

-- `Parser::Parse`, which measures the bytes of the array's buffer by `strlen`.
unfoldable pub parse_input : Bytes → Result Bytes
parse_input store = c_string store

-- The calls of JavaScript functions, one after another.
unfoldable pub handler_calls : List ParserCall → Result (List HandlerCall)
unfolding handler_call
handler_calls [] = ok []
handler_calls (c ∷ cs) = do call ← handler_call c; calls ← handler_calls cs; ok (call ∷ calls)

-- `Parser::Parse`, on the backing store of the array, with the callbacks that llhttp makes for the
-- bytes.
unfoldable pub parse :
    (Bytes → List ParserEvent) → Bytes → HttpParser → Result (HttpParser × List HandlerCall)
unfolding parse_input execute handler_calls
parse llhttp store p = do
  input ← parse_input store
  calls ← handler_calls (execute (llhttp input) p).1
  ok ((execute (llhttp input) p).0, calls)
