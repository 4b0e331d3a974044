-- ===== src/Tests/Parts.antt =====
-- Messages, files, events, times and arguments.
use text.Mathlib.Text.{◌==◌}
use text.Mathlib.TextPositions.{eq_refl}
use text.Mathlib.TextEquality.{eq_iff}
use no_js.Base.{
  ℕ, if◌then◌else◌, Option, Bool-cases, inl, inr, ◌<◌, ◌≤◌, ◌%◌, none, some, List, [], ◌∷◌, ◌++◌,
  String, map, All, ◌≡◌, ◌≢◌, refl, arith, Returns, true, false, ok, fault, out_of_range,
}
use no_js.Base.Bytes.{Bytes, c_str, NoZero}
use no_js.Base.Int.{pos}
use no_js.Http.Delivery.{whole, Describes, parse-message}
use no_js.Http.{
  HeadersObject, ParserEvent, on_header_complete_call, on_body_call, on_body_complete_call, parse,
  HttpParser, HeadersEnd, headers_call, handler_call,
}
use no_js.Http.Message.{HeaderPieces, message_events, message_info}
use no_js.Http.Headers.{handler_call_split_fields}
use no_js.Libs.Http.{HttpRequest, request_event, body_event, on_data}
use no_js.Libs.Http.Requests.{Shows, on_data-message}
use no_js.Libs.Tcp.{received_buffer}
use no_js.Script.{
  gives, fails, content, read_error, read_all, Compiler, CompileOptions, loader_compile, file_mode,
  vm_compile_function, vm_run, function_or_undefined, compiled, run_result,
}
use no_js.Script.Files.{read_all-join, compile_zero_byte}
use no_js.Process.Variables.{Variables}
use no_js.Inotify.{InotifyEvent, signed_char, handle_events}
use no_js.Inotify.Events.{handle_all, handle_events-size}
use no_js.Tests.{idle, start}

-- `/a` in two pieces, with a header `b: c`, whose name may come in two pieces.
abbrev headers : List HeaderPieces
headers = record { field = (98 ∷ []) ∷ []; value = (99 ∷ []) ∷ [] } ∷ []

abbrev split_headers : List HeaderPieces
split_headers = record { field = (98 ∷ []) ∷ (98 ∷ []) ∷ []; value = (99 ∷ []) ∷ [] } ∷ []

abbrev url : List Bytes
url = (47 ∷ []) ∷ (97 ∷ []) ∷ []

abbrev headers_end : HeadersEnd
headers_end = record { now = 2; http_major = 1; http_minor = 1; upgrade = 0; keep_alive = 1 }

-- A parser that has parsed something before.
abbrev parser : HttpParser
parser = record {
  major_version = 1;
  minor_version = 0;
  upgrade = 0;
  keepalive = 0;
  parse_start_time = 0;
  header_end_time = 0;
  message_end_time = 0;
  url = 47 ∷ [];
  status = [];
  keys = (97 ∷ []) ∷ [];
  values = (97 ∷ []) ∷ [];
  body = 120 ∷ [];
}

abbrev header_fields : List (Bytes × Bytes)
header_fields = ((98 ∷ []), (99 ∷ [])) ∷ ((98 ∷ []), (100 ∷ [])) ∷ []

handler_call_split_fields_example :
    handler_call (headers_call (message_info 1 url split_headers headers_end)) ≡ fault out_of_range
handler_call_split_fields_example =
    handler_call_split_fields 1 url split_headers headers_end (omega arith)

letters-NoZero : NoZero (97 ∷ 98 ∷ [])
letters-NoZero = ((λ e. omega arith), ((λ e. omega arith), tt))

-- Every input is the same message.
abbrev one_message : Bytes → List ParserEvent
one_message input =
    message_events 1 url (map whole header_fields) headers_end ((104 ∷ []) ∷ (105 ∷ []) ∷ []) 3

parse-message_example :
    Returns
      (λ r.
        (o : HeadersObject) × Describes url header_fields headers_end o
        × (r.1
            ≡ on_header_complete_call o
              ∷ (on_body_call (c_str (104 ∷ []))
                  ∷ on_body_call (c_str (105 ∷ []))
                  ∷ on_body_complete_call (c_str (104 ∷ 105 ∷ []))
                  ∷ [])))
      (parse one_message (97 ∷ 98 ∷ 0 ∷ 99 ∷ []) parser)
parse-message_example =
    parse-message one_message (97 ∷ 98 ∷ []) (99 ∷ []) 1 url header_fields headers_end
      ((104 ∷ []) ∷ (105 ∷ []) ∷ []) 3 parser letters-NoZero refl

-- A request of which nothing is known yet.
abbrev no_request : HttpRequest
no_request = record { major = none; minor = none; keepalive = none; upgrade = none; headers = [] }

on_data-message_example :
    Returns
      (λ r.
        (shown : HttpRequest) × Shows header_fields headers_end shown
        × (r.0.1 ≡ shown)
        × (r.1
            ≡ request_event shown
              ∷ (body_event (c_str (104 ∷ [])) ∷ body_event (c_str (105 ∷ [])) ∷ [])))
      (on_data one_message (received_buffer (97 ∷ 98 ∷ [])) (parser, no_request))
on_data-message_example =
    on_data-message one_message (97 ∷ 98 ∷ []) 1 url header_fields headers_end
      ((104 ∷ []) ∷ (105 ∷ []) ∷ []) 3 parser no_request letters-NoZero (omega arith) refl

-- A file of the bytes a, b, 0 and c, in two chunks.
abbrev chunks : List Bytes
chunks = (97 ∷ []) ∷ (98 ∷ 0 ∷ 99 ∷ []) ∷ []

chunks_full : All (λ bs. bs ≢ []) chunks
chunks_full = ((λ e. cc), ((λ e. cc), tt))

read_all-join_example :
    (read_all (map gives chunks ++ gives [] ∷ []) [] ≡ content (97 ∷ 98 ∷ 0 ∷ 99 ∷ []))
    × (read_all (map gives chunks ++ fails ∷ []) [] ≡ read_error)
read_all-join_example = read_all-join chunks [] chunks_full

abbrev compiler : Compiler
compiler = record {
  compile_function = λ source names extensions. some 1;
  compile_script = λ source. some 2;
  run_script = λ script. script;
  call = λ f values. none;
}

abbrev options : CompileOptions
options = record { param_names = "a" ∷ []; extensions = 0; param_values = []; calls = true }

compile_zero_byte_example :
    let answers = map gives chunks ++ gives [] ∷ [] in
    (loader_compile compiler answers ≡ function_or_undefined (some 1))
    × (vm_compile_function compiler options (file_mode (some answers))
        ≡ compiled compiler options (some 1))
    × (vm_run compiler (file_mode (some answers)) ≡ run_result compiler (some 2))
compile_zero_byte_example =
    compile_zero_byte compiler options chunks [] (97 ∷ 98 ∷ []) (99 ∷ []) chunks_full refl
      letters-NoZero

abbrev copy : String → ℕ
copy arg = 4096

abbrev change : InotifyEvent
change = record { wd = 1; mask = 2; len = 112 }

handle_events-size_example :
    (128 < 128
      → handle_events idle 8 (signed_char (pos 128)) 0 (change ∷ []) start
        ≡ handle_all idle 8 (change ∷ []) start)
    × (128 ≤ 128 % 256
        → handle_events idle 8 (signed_char (pos 128)) 0 (change ∷ []) start ≡ ok start)
handle_events-size_example = handle_events-size idle 8 128 (change ∷ []) start refl

differ : (j k : String) → j ≢ k → (j == k) ≡ false
differ j k other = elim (Bool-cases (j == k)) [
  | inl same ↦ absurd (other ((eq_iff j k).0 same))
  | inr e ↦ e
]

-- Variables as a function, in which every name is accepted.
abbrev variables : Variables
variables = record {
  Vars = String → Option String;
  getenv = λ k s. s k;
  setenv = λ k v s. λ j. if j == k then some v else s j;
  unsetenv = λ k s. λ j. if j == k then none else s j;
  is_name = λ k. true;
  getenv_set = λ k v s valid. rw (eq_refl k) refl;
  getenv_set_ne = λ j k v s other. rw (differ j k other) refl;
  getenv_unset = λ k s valid. rw (eq_refl k) refl;
  getenv_unset_ne = λ j k s other. rw (differ j k other) refl;
}

abbrev vars : String → Option String
vars j = if j == "HOME" then some "/root" else none
