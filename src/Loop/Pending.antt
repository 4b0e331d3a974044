-- ===== src/Loop/Pending.antt =====
-- The loop keeps `pending` equal to what is outstanding, so that it ends exactly when nothing is.
mod Callbacks
use Callbacks.{
  free-IsCounted, make_callback-IsCounted, timer_callback-IsCounted, signal_callback-IsCounted,
  inotify_callback-IsCounted,
}
use no_js.Base.{
  ℕ, suc, zero, ◌+◌, ◌-◌, Option, none, some, List, [], ◌∷◌, ◌≡◌, ◌≢◌, refl, arith, Every,
  Every->>=, Every-bind, Every-ok, or_fault, true, false, ◌==◌, if_both, Bool-cases, Option-cases,
  inl, inr, length, get_elem?, Result-cases,
}
use no_js.Base.Dict.{find, length-erase}
use no_js.Base.Int.{ℤ, pos}
use no_js.Env.{
  Environment, Sqe, Event, event_name, Object, get_function, TimerContext, SignalContext,
  InotifyContext, Callback, make_callback, open_after, timer_cb, signal_cb, inotify_handler,
  null_callback, onsignal, ontimeout, onchange,
}
use no_js.Uring.{load, free, submit_request, prepare, enter}
use no_js.Uring.Launch.{launch}
use no_js.Async.{
  JavaScript, context_of, again, call_if, call_object, make_context_callback, destroy,
}
use no_js.Async
use no_js.Timer.{timer_callback, timer_of, expire, expire_if, timer_request, timer_signal}
use no_js.Signal.{
  signal_callback, signal_of, live_context, signal_request, notify_listeners, signal_handler,
}
use no_js.Inotify.{
  Machine, InotifyEvent, inotify_callback, handle_events, at_event, call_listeners, call_at,
  call_found, signed_char, before_end, event_size,
}
use no_js.Fs.{open_after_callback}
use no_js.Loop.{
  dispatch, complete, received, Happening, completion, timer_expires, signal_arrives, happen, drain,
}
use no_js.Loop.Safety.{MayHappen, MayDrain}
use no_js.Loop.Counting.{
  IsCounted, CleanCalls, CleanCalls-IsCounted, launch-IsCounted, submit_read_request-IsCounted,
  signal_handler-IsCounted, timer_signal-IsCounted,
}

module _ (js : JavaScript) (js-Clean : (f : ℕ) (v : ℤ) (s : Environment) → CleanCalls s (js f v s))
    (js-keeps : (id : ℕ) (c : TimerContext) (s : Environment)
      → c.interval ≡ false
      → find id s.timer_map ≡ some c
      → find id (make_context_callback js ontimeout c.object (pos 0) s).timer_map ≢ none)
    (m : Machine) where
  dispatch-IsCounted :
      (cb : Callback) (p : ℕ) (s : Environment)
      → IsCounted s
      → Every IsCounted (dispatch js m cb p s)
  unfolding dispatch open_after_callback
  dispatch-IsCounted (make_callback e) p s c =
      make_callback-IsCounted js js-Clean js-keeps m e p s c
  dispatch-IsCounted open_after p s c = free-IsCounted p s c
  dispatch-IsCounted timer_cb p s c = timer_callback-IsCounted js js-Clean js-keeps m p s c
  dispatch-IsCounted signal_cb p s c = signal_callback-IsCounted js js-Clean js-keeps m p s c
  dispatch-IsCounted inotify_handler p s c = inotify_callback-IsCounted js js-Clean js-keeps m p s c
  dispatch-IsCounted null_callback p s c = c

  -- When functions make only clean calls, and a timer that does not repeat is not removed by its
  -- own function: whatever callback the completion of an entry in the ring runs, if it returns,
  -- `pending` is still the number of the entries and timers that are outstanding.
  pub complete-IsCounted :
      (p : ℕ) (res : ℤ) (s : Environment)
      → find p s.ring ≢ none
      → IsCounted s
      → Every IsCounted (complete js m (p, res) s)
  unfolding complete
  complete-IsCounted p res s there c = Every->>= IsCounted (load p s) _ λ r.
      dispatch-IsCounted r.cb p (received p res r s) (omega (arith, length-erase p s.ring there))

  -- An entry that completes is in the ring; timers and signals need nothing.
  pub happen-IsCounted :
      (h : Happening) (s : Environment)
      → MayHappen h s
      → IsCounted s
      → Every IsCounted (happen js m h s)
  unfolding happen
  happen-IsCounted (completion p res) s may c = complete-IsCounted p res s may.0 c
  happen-IsCounted (timer_expires id) s may c = timer_signal-IsCounted id s c
  happen-IsCounted (signal_arrives sig) s may c = signal_handler-IsCounted sig s c

  -- When functions make only clean calls, and a timer that does not repeat is not removed by its
  -- own function: if a round of happenings that may happen returns, `pending` is still the number
  -- of the entries and timers that are outstanding.
  pub drain-IsCounted :
      (hs : List Happening) (s : Environment)
      → MayDrain js m hs s
      → IsCounted s
      → Every IsCounted (drain js m hs s)
  unfolding drain
  drain-IsCounted [] s may c = c
  drain-IsCounted (h ∷ hs) s (now, later) c = elim (Result-cases (happen js m h s)) [
    | inl (t, e) ↦
        rw e
          (drain-IsCounted hs t (later t e) (Every-ok IsCounted _ (happen-IsCounted h s now c) e))
    | inr (x, e) ↦ rw e tt
  ]
