-- ===== src/Inotify.antt =====
-- core/inotify.cc: watches on files. What `inotify_add_watch` and `inotify_rm_watch` answer, what the
-- kernel writes into the buffer, and what is left in a freed block, are arguments.
pub mod Events
pub mod Release
pub mod Listeners
pub mod Notifying
use no_js.Base.{
  ℕ, zero, suc, ◌+◌, ◌-◌, ◌%◌, Bool, true, false, Option, none, some, List, [], ◌∷◌, ◌++◌, length,
  get_elem?, Result, ok, fault, wrong_struct, freed_memory, out_of_range, dangling_context, ◌>>=◌,
  or_fault, ◌==◌, ltb, if◌then◌else◌,
}
use no_js.Base.Dict.{Dict, find, insert, update, erase}
use no_js.Base.Int.{ℤ, pos, negsuc, incr, decr}
use no_js.Env.{
  onchange, event_name, holder, read, io_body, Block, inotify_handler, environment, Request,
  UserData, Environment, InotifyContext,
}
use no_js.Args.{Args, string_arg, function_arg}
use no_js.Uring.{load, free, dec_pending}
use no_js.Uring.Launch.{launch}
use no_js.Async.{JavaScript, make_context_callback}

-- An event in the buffer: the watch, and the length of the name that follows the fixed part.
pub record InotifyEvent : Type 0 where
  pub wd : ℕ
  pub mask : ℕ
  pub len : ℕ

-- What is outside: the rounds that a loop over listeners is given, the events that the kernel has
-- written into a request's buffer, and what reading `data` in a freed block gives (`none` traps).
pub record Machine : Type 0 where
  pub fuel : ℕ
  pub events_of : Request → List InotifyEvent
  pub after_free : Request → Option UserData

-- `SubmitReadRequest`: one read of 4096 bytes is under way at a time.
abbrev pub buffer_size : ℕ
buffer_size = 4096

abbrev pub inotify_request : ℤ → ℕ → Request
inotify_request fd p = record {
  op = read;
  cb = inotify_handler;
  res = pos 0;
  user = environment;
  flag = 0;
  body = io_body fd (pos 0) (record { base = p; len = buffer_size });
}

-- The buffer stands at an address of its own, before the request's.
unfoldable pub start_read : Environment → Result Environment
unfolding launch
start_read s = do
  t ←
      launch (inotify_request s.inotify_fd s.next_address)
        (record s { next_address = suc s.next_address; buffers = s.buffers + 1 })
  ok (record t { need_submit = false })

unfoldable pub submit_read_request : Environment → Result Environment
unfolding start_read
submit_read_request s = let started = start_read s in if s.need_submit then started else ok s

unfoldable pub add_watcher :
    ℕ
    → InotifyContext
    → Option (List InotifyContext)
    → Dict (List InotifyContext)
    → Dict (List InotifyContext)
add_watcher wd c none m = insert wd (c ∷ []) m
add_watcher wd c (some cs) m = update wd (cs ++ c ∷ []) m

-- `Inotify::On`, with the answer of `inotify_add_watch` (`none` for -1): the id of the watch and the
-- id of the listener, or -1.
unfoldable pub on : ℕ → Option ℕ → Environment → Result (Option (ℕ × ℕ) × Environment)
unfolding submit_read_request add_watcher
on f none s = ok (none, s)
on f (some wd) s = do
  t ← submit_read_request (record s { count = incr s.count })
  let id = t.last_id + 1
  let c : InotifyContext = record { id = id; object = holder (event_name onchange) f }
  ok (
    some (wd, id),
    record t { last_id = id; inotify_map = add_watcher wd c (find wd t.inotify_map) t.inotify_map },
  )

unfoldable pub remove_listener : ℕ → List InotifyContext → List InotifyContext
remove_listener id [] = []
remove_listener id (c ∷ cs) = if c.id == id then cs else c ∷ remove_listener id cs

-- `REMOVE_WATCH`, with the answer of `inotify_rm_watch`: `count` falls only if that is 0.
unfoldable pub remove_watch : ℕ → ℤ → Environment → ℤ × Environment
remove_watch wd (pos zero) s =
    let t = record s { inotify_map = erase wd s.inotify_map; count = decr s.count } in
    (pos 0, if t.count == 0 then dec_pending t else t)
remove_watch wd ret s = (ret, record s { inotify_map = erase wd s.inotify_map })

unfoldable pub keep_or_remove : ℕ → List InotifyContext → ℤ → Environment → ℤ × Environment
unfolding remove_watch
keep_or_remove wd [] ret s = remove_watch wd ret s
keep_or_remove wd (c ∷ cs) ret s =
    (pos 0, record s { inotify_map = update wd (c ∷ cs) s.inotify_map })

unfoldable pub off_listeners :
    ℕ → Option ℕ → ℤ → List InotifyContext → Environment → ℤ × Environment
unfolding keep_or_remove remove_listener
off_listeners wd none ret cs s = remove_watch wd ret s
off_listeners wd (some id) ret cs s = keep_or_remove wd (remove_listener id cs) ret s

-- `Inotify::Off`: `wd` and `id` are the numbers of the object that `On` returned, if they are there;
-- `ret` is the answer of `inotify_rm_watch`, should it be called. `none` is a return with no value.
unfoldable pub off : Option ℕ → Option ℕ → ℤ → Environment → Option ℤ × Environment
unfolding off_listeners
off none id ret s = (none, s)
off (some wd) id ret s = elim (find wd s.inotify_map) [
  | none ↦ (none, s)
  | some cs ↦ let (v, t) = off_listeners wd id ret cs s in (some v, t)
]

-- `sizeof(struct inotify_event)`.
abbrev pub event_size : ℕ
event_size = 16

-- `char size = inotify_req->res`: the number of bytes is cut to a signed char.
unfoldable pub signed_char : ℤ → ℤ
signed_char (pos n) = if ltb (n % 256) 128 then pos (n % 256) else negsuc (255 - n % 256)
signed_char (negsuc n) = if ltb (n % 256) 128 then negsuc (n % 256) else pos (255 - n % 256)

-- `p < buf + size`.
unfoldable pub before_end : ℕ → ℤ → Bool
before_end p (pos n) = ltb p n
before_end p (negsuc n) = false

module _ (js : JavaScript) where
  unfoldable pub call_found : Option InotifyContext → Environment → Result (Option Environment)
  call_found none s = fault out_of_range
  call_found (some c) s = ok (some (make_context_callback js onchange c.object (pos 0) s))

  -- The inner loop, with the iterator as a position: it goes on until the iterator is the end of the
  -- vector, or the vector is empty, and each step looks at the vector as the last callback left it.
  unfoldable pub call_at : ℕ → List InotifyContext → Environment → Result (Option Environment)
  unfolding call_found
  call_at i cs s =
      if (length cs == i)
      then ok none
      else if length cs == 0
      then ok none
      else call_found (get_elem? cs i) s

  -- With fuel for the rounds. The map's entry must still be there.
  unfoldable pub call_listeners : ℕ → ℕ → ℕ → Environment → Result Environment
  unfolding call_at
  call_listeners zero wd i s = fault out_of_range
  call_listeners (suc fuel) wd i s = do
    cs ← or_fault (find wd s.inotify_map) dangling_context
    called ← call_at i cs s
    elim called [ none ↦ ok s | some t ↦ call_listeners fuel wd (i + 1) t ]

  unfoldable pub at_event : ℕ → ℕ → Option (List InotifyContext) → Environment → Result Environment
  unfolding call_listeners
  at_event fuel wd none s = ok s
  at_event fuel wd (some cs) s = call_listeners fuel wd 0 s

  -- The outer loop, with the offset of `p` in the buffer and the events from there on. Which kind of
  -- change an event reports is computed and not used.
  unfoldable pub handle_events : ℕ → ℤ → ℕ → List InotifyEvent → Environment → Result Environment
  unfolding at_event before_end
  handle_events fuel size p [] s = if before_end p size then fault out_of_range else ok s
  handle_events fuel size p (e ∷ es) s =
      let rest =
        at_event fuel e.wd (find e.wd s.inotify_map) s
        >>= handle_events fuel size (p + event_size + e.len) es in
      if before_end p size then rest else ok s

  -- `inotifyHandler`: the request is freed, and then its `data` is read. The buffer is not freed.
  unfoldable pub inotify_callback : Machine → ℕ → Environment → Result Environment
  unfolding handle_events signed_char
  inotify_callback m p s = do
    r ← load p s
    t ← handle_events m.fuel (signed_char r.res) 0 (m.events_of r) s
    r' ← load p t
    u ← free p t
    env ← or_fault (m.after_free r') freed_memory
    submit_read_request (record u { need_submit = true })
