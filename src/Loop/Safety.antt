-- ===== src/Loop/Safety.antt =====
-- The callbacks follow no pointer to a freed block, free nothing twice and keep no block.
mod Callbacks
pub use Callbacks.{CanFollow, call_if-IsOwned, call_object-IsOwned, make_context_callback-IsOwned}
use Callbacks.{dispatch-IsOwned}
use no_js.Base.{
  ℕ, Option, none, some, List, [], ◌∷◌, ok, ◌≡◌, ◌≢◌, refl, Returns, Returns->>=, ◌>>=◌, or_fault,
  ◌==◌, Bool-cases, Option-cases, inl, inr,
}
use no_js.Base.Dict.{Dict, find, find-update_self, occurs-find}
use no_js.Base.Int.{ℤ, pos}
use no_js.Env.{
  Environment, Request, Event, event_name, Object, get_function, UserData, request_context,
  timer_id, signal_context, environment, Callback, make_callback, open_after, timer_cb, signal_cb,
  inotify_handler, null_callback, TimerContext, SignalContext, onsignal, ontimeout,
}
use no_js.Uring.{load, prepare}
use no_js.Uring.Ownership.{
  Fits, IsOwned, held-find, find-IsFormed, free-IsOwned, submit_request-IsOwned, completed-IsOwned,
  launch-Returns, in_ring-find,
}
use no_js.Async.{
  JavaScript, context_of, again, call_function, call_if, call_object, make_context_callback,
  destroy,
}
use no_js.Async
use no_js.Timer.{timer_callback, timer_of, expire, expire_if, timer_request, timer_signal}
use no_js.Signal.{
  signal_callback, signal_of, live_context, signal_request, notify_listeners, signal_handler,
}
use no_js.Uring.Launch.{launch}
use no_js.Fs.{open_after_callback}
use no_js.Inotify.{Machine}
use no_js.Loop.{
  dispatch, complete, received, Happening, completion, timer_expires, signal_arrives, happen, drain,
}
use no_js.Loop.Calls.{Calls}
use no_js.Loop.CallOwnership.{Calls-IsOwned}

-- What may happen: an entry that is in the ring completes, whose callback finds what it follows; a
-- timer that is in the map runs out; a signal arrives.
abbrev pub MayHappen : Happening → Environment → Type 0
MayHappen (completion p res) s =
    (find p s.ring ≢ none)
    × ((r : Request) → find p s.heap ≡ some r → CanFollow r.cb r.user s.signal_map)
MayHappen (timer_expires id) s = find id s.timer_map ≢ none
MayHappen (signal_arrives sig) s = Unit

-- Everything that happens is such as may happen, whatever the callbacks have done before.
abbrev pub MayDrain : JavaScript → Machine → List Happening → Environment → Type 0
MayDrain js m [] s = Unit
MayDrain js m (h ∷ hs) s =
    MayHappen h s × ((t : Environment) → happen js m h s ≡ ok t → MayDrain js m hs t)

module _ (js : JavaScript) (js-Calls : (f : ℕ) (v : ℤ) (s : Environment) → Calls s (js f v s)) where
  -- When a JavaScript function does nothing but call native functions: the completion of an entry
  -- that is in the ring, whose callback can follow its pointers and is not that of file events,
  -- returns, and every allocated request is again in the ring, or held by an outer callback,
  -- exactly once.
  pub complete-IsOwned :
      (m : Machine) (held : List ℕ) (p : ℕ) (res : ℤ) (r : Request) (s : Environment)
      → IsOwned held s
      → find p s.ring ≢ none
      → find p s.heap ≡ some r
      → CanFollow r.cb r.user s.signal_map
      → Returns (IsOwned held) (complete js m (p, res) s)
  unfolding complete load
  complete-IsOwned m held p res r s o there found follow =
      let f = find-IsFormed held p r s o found in
      let r' : Request = record r { res = res } in
      rw (found, or_fault)
        (dispatch-IsOwned js js-Calls held p (received p res r s) r'
          (find-update_self p r' s.heap (occurs-find p s.heap found))
          (completed-IsOwned held p r' s (record { submits = f.submits; fits = f.fits }) there o) m
          r.cb f.fits follow)

  notify_listeners-IsOwned :
      (held : List ℕ) (cs : List SignalContext) (s : Environment)
      → IsOwned held s
      → Returns (IsOwned held) (notify_listeners cs s)
  unfolding notify_listeners prepare
  notify_listeners-IsOwned held [] s o = (s, refl, o)
  notify_listeners-IsOwned held (c ∷ cs) s o =
      Returns->>= (IsOwned held) (IsOwned held) (launch (signal_request c.address) s)
        (notify_listeners cs)
        (launch-Returns held (signal_request c.address) s
          (record { submits = (_, refl); fits = tt }) o)
        (notify_listeners-IsOwned held cs)

  pub happen-IsOwned :
      (m : Machine) (h : Happening) (s : Environment)
      → IsOwned [] s
      → MayHappen h s
      → Returns (IsOwned []) (happen js m h s)
  unfolding happen timer_signal signal_handler prepare
  happen-IsOwned m (completion p res) s o (there, follow) =
      let (r, found) = in_ring-find p s o there in
      complete-IsOwned m [] p res r s o there found (follow r found)
  happen-IsOwned m (timer_expires id) s o known = elim (Option-cases (find id s.timer_map)) [
    | inl unknown ↦ absurd (known unknown)
    | inr (c, e) ↦
        rw (e, timer_signal)
          (launch-Returns [] (timer_request id) s (record { submits = (_, refl); fits = tt }) o)
  ]
  happen-IsOwned m (signal_arrives sig) s o u = notify_listeners-IsOwned [] _ s o

  -- When a JavaScript function does nothing but call native functions: a round of happenings that
  -- may happen (in which no read of file events completes, and signals find their listeners)
  -- returns, and afterwards the allocated requests are those in the ring, each once.
  pub drain-IsOwned :
      (m : Machine) (hs : List Happening) (s : Environment)
      → IsOwned [] s
      → MayDrain js m hs s
      → Returns (IsOwned []) (drain js m hs s)
  unfolding drain
  drain-IsOwned m [] s o may = (s, refl, o)
  drain-IsOwned m (h ∷ hs) s o (now, later) =
      let (t, e, o') = happen-IsOwned m h s o now in
      let (u, e', o'') = drain-IsOwned m hs t o' (later t e) in (u, rw e e', o'')
