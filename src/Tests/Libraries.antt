-- ===== src/Tests/Libraries.antt =====
-- The JavaScript libraries, at small states.
use no_js.Base.{
  ℕ, ◌==◌, ◌<◌, ◌≡◌, ◌⊎◌, refl, sym, ◌∙◌, arith, if◌then◌else◌, Bool-cases, inl, inr, Option, none,
  some, List, [], ◌∷◌, ◌++◌, All, ok, fault, out_of_range, Returns, map, join, length, zero, suc,
}
use no_js.Base.Bytes.{Bytes}
use no_js.Base.Dict.{find}
use no_js.Base.Int.{ℤ, pos, negsuc}
use no_js.Env.{Environment, prep_read}
use no_js.Args.{View}
use no_js.Async.{JavaScript}
use no_js.Io.{int_length, read_call}
use no_js.Loop.{complete}
use no_js.Loop.Calls.{Calls}
use no_js.Loop.Calls
use no_js.Loop.Delivery.{at_call, released}
use no_js.Http.{parse_input}
use no_js.Libs.Buffer.{Chars, from_utf8, from, concat, strlen}
use no_js.Libs.Buffer.Arrays.{from_utf8-concat}
use no_js.Libs.Inotify.{Watched, Library, watch, unwatch, changed, returns, set_queue}
use no_js.Libs.Inotify.Watches.{watch_all, watch-after_unwatch}
use no_js.Libs.Inotify.Changes.{changed_skips}
use no_js.Libs.Tcp.{
  read_arguments, ServerSocket, Emission, end_event, data_event, error_event, socket_read,
  socket_status, read_size, received_buffer,
}
use no_js.Libs.Tcp.Reading.{socket_request, socket_reading, complete-socket_read, socket_read_lem}
use no_js.Libs.Tcp.Data.{parse_input-received_buffer}
use no_js.Tests.{machine, start, view}

-- "é€", and "a" with the last code point of all.
abbrev strings : List Chars
strings = (0xE9 ∷ 0x20AC ∷ []) ∷ (97 ∷ 0x10FFFF ∷ []) ∷ []

from_utf8-concat_example :
    (from_utf8 (concat (map from strings)) ≡ some (join strings))
    × All (λ str. length (from str) ≡ strlen str) strings
from_utf8-concat_example =
    from_utf8-concat strings (omega arith, (omega arith, (omega arith, (omega arith, tt))))

abbrev no_watches : Library
no_watches = record { map = []; queues = λ q. []; next_queue = 0; env = start }

none_watched : find 3 no_watches.map ≡ none
unfolding find
none_watched = refl

no_listeners : find 1 start.inotify_map ≡ none
unfolding find
no_listeners = refl

watch-after_unwatch_example :
    Returns
      (λ watched.
        Returns
          (λ (r : Option ℤ × Library).
            Returns
              (λ again.
                (w : Watched) × (find 3 again.map ≡ some w)
                × (again.queues w.queue ≡ 9 ∷ 11 ∷ [])
                × (again.env.inotify_map ≡ no_watches.env.inotify_map))
              (watch_all 3 ((9, 10, some 2) ∷ (11, 12, some 2) ∷ []) r.1))
          (unwatch 3 (some 7) (pos 0) watched))
      (watch 3 7 8 (some 1) no_watches)
watch-after_unwatch_example =
    watch-after_unwatch 3 7 8 1 no_watches none none_watched no_listeners tt (omega arith)
      ((9, 10, some 2) ∷ (11, 12, some 2) ∷ [])

-- Two callbacks, of which the first takes itself away.
abbrev two_watch : Library
two_watch = record no_watches {
  map = (3, record { ctx = some (1, 1); queue = 0 }) ∷ [];
  queues = λ q. 7 ∷ 9 ∷ [];
}

abbrev leaves : ℕ → Library → Library
leaves cb l = set_queue 0 (9 ∷ []) l

two_known : find 3 two_watch.map ≡ some (record { ctx = some (1, 1); queue = 0 })
unfolding find
two_known = refl

leaves-unwatch : unwatch 3 (some 7) (pos 0) two_watch ≡ ok (some (pos 0), leaves 7 two_watch)
unfolding unwatch find no_js.Libs.Inotify.unwatch_entry no_js.Libs.Inotify.splice
    no_js.Libs.Inotify.off_if_empty set_queue
leaves-unwatch = refl

changed_skips_example : changed leaves (suc (suc 0)) 3 two_watch ≡ returns (leaves 7 two_watch)
changed_skips_example =
    changed_skips leaves 0 3 7 9 (pos 0) (record { ctx = some (1, 1); queue = 0 }) two_watch
      two_known refl leaves-unwatch

-- A socket whose listeners do nothing.
abbrev socket : ServerSocket
socket = record { fd = pos 5; on_status = 7 }

abbrev pub buffer_of : Environment → View
buffer_of s = view

abbrev pub silent : Emission → Environment → Environment
silent e s = s

abbrev next_read : ℤ → Environment → Environment
next_read (pos (suc n)) s = socket_reading socket view s
next_read _ s = s

-- Function 7 is that of the socket's reads.
abbrev reads_on : JavaScript
reads_on f v s = if f == 7 then next_read v s else s

reads_on-Calls : (f : ℕ) (v : ℤ) (s : Environment) → Calls s (reads_on f v s)
reads_on-Calls f v s = elim (Bool-cases (f == 7)) [
  | inl seven ↦ rw seven (next_read-Calls v)
  | inr other ↦ rw other Calls.done
]
  where
    submitted : read_call (read_arguments socket view) s ≡ ok (socket_reading socket view s)
    submitted = unfold socket_read in socket_read_lem buffer_of silent socket s

    next_read-Calls : (v : ℤ) → Calls s (next_read v s)
    next_read-Calls (pos zero) = Calls.done
    next_read-Calls (pos (suc n)) =
        Calls.then_call Calls.done (Calls.reads (read_arguments socket view) submitted)
    next_read-Calls (negsuc n) = Calls.done

runs :
    (v : ℤ) (s t : Environment)
    → socket_status buffer_of silent socket v s ≡ ok t
    → reads_on 7 v s ≡ t
unfolding socket_status
runs (pos zero) s t e = cc e
runs (pos (suc n)) s t e = cc (sym (socket_read_lem buffer_of silent socket s) ∙ e)
runs (negsuc n) s t e = cc e

complete-socket_read_example :
    let buffer = buffer_of start in
    let called = λ (res : ℤ). at_call (socket_request socket buffer) res 7 start in
    let heard = silent data_event (called (pos (suc 2))) in
    (t : Environment) × (socket_read buffer_of silent socket start ≡ ok t)
    × (find start.next_address t.ring ≡ some (prep_read (pos 5) (int_length buffer.store) (pos 0)))
    × (complete reads_on machine (start.next_address, pos (suc 2)) t
        ≡ ok (released start.next_address (socket_reading socket (buffer_of heard) heard)))
    × (complete reads_on machine (start.next_address, pos 0) t
        ≡ ok (released start.next_address (silent end_event (called (pos 0)))))
    × (complete reads_on machine (start.next_address, negsuc 2) t
        ≡ ok (released start.next_address (silent error_event (called (negsuc 2)))))
complete-socket_read_example =
    complete-socket_read buffer_of silent reads_on reads_on-Calls machine socket runs 2 start

abbrev got : Bytes
got = 97 ∷ 98 ∷ []

parse_input-received_buffer_example :
    (((length got < read_size) × (parse_input (received_buffer got) ≡ ok got))
      ⊎ ((length got ≡ read_size) × (parse_input (received_buffer got) ≡ fault out_of_range)))
    × (parse_input (received_buffer (got ++ 0 ∷ 99 ∷ [])) ≡ ok got)
parse_input-received_buffer_example =
    parse_input-received_buffer got (99 ∷ [])
      ((λ e. absurd (omega arith)), ((λ e. absurd (omega arith)), tt)) (omega arith)

-- Every number is shown as "7".
abbrev sevens : ℕ → Chars
sevens n = 55 ∷ []
