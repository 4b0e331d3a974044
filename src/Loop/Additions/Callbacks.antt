-- ===== src/Loop/Additions/Callbacks.antt =====
-- What callbacks submit (core/async.h, core/timer.cc, core/signal.cc): only addresses that are not in
-- flight.
use no_js.Base.{
  ℕ, ◌-◌, Option, none, some, List, ◌∷◌, Every, Every->>=, or_fault, ◌==◌, if_both, Bool-cases, inl,
  inr, dangling_context,
}
use no_js.Base.Dict.{find}
use no_js.Base.Int.{ℤ, pos}
use no_js.Env.{
  Environment, Request, Event, event_name, Object, get_function, Callback, make_callback,
  open_after, timer_cb, signal_cb, inotify_handler, null_callback, TimerContext, ontimeout,
  onsignal, UserData,
}
use no_js.Uring.{load}
use no_js.Uring.Ownership.{IsOwned}
use no_js.Async.{
  JavaScript, context_of, again, call_if, call_object, make_context_callback, destroy,
}
use no_js.Async
use no_js.Timer.{timer_callback, timer_of, expire, expire_if}
use no_js.Signal.{signal_callback, signal_of, live_context}
use no_js.Fs.{open_after_callback}
use no_js.Inotify.{Machine}
use no_js.Loop.{dispatch}
use no_js.Loop.Calls.{Calls}
use no_js.Loop.Safety.{CanFollow, call_object-IsOwned}
use no_js.Loop.Abstract.{InFlight, in_flight}
use no_js.Loop.Additions.{Adds, Calls-Adds, submit_request-Adds, free-Adds}

module _ (js : JavaScript) (js-Calls : (f : ℕ) (v : ℤ) (s : Environment) → Calls s (js f v s)) where
  call_if-Adds :
      (held : List ℕ) (w : InFlight) (f : Option ℕ) (v : ℤ) (s : Environment)
      → IsOwned held s
      → Adds w s
      → Adds w (call_if js f v s)
  unfolding call_if
  call_if-Adds held w none v s o adds = adds
  call_if-Adds held w (some f) v s o adds =
      Calls-Adds held w (js-Calls f v _) o (unfold in_flight in adds)

  call_object-Adds :
      (held : List ℕ) (w : InFlight) (e : Event) (ob : Option Object) (v : ℤ) (s : Environment)
      → IsOwned held s
      → Adds w s
      → Adds w (call_object js e ob v s)
  unfolding call_object make_context_callback
  call_object-Adds held w e none v s o adds = adds
  call_object-Adds held w e (some ob) v s o adds =
      call_if-Adds held w (get_function ob (event_name e)) v s o adds

  context-Adds :
      (held : List ℕ) (w : InFlight) (e : Event) (ob : Object) (s : Environment)
      → IsOwned held s
      → Adds w s
      → Adds w (make_context_callback js e ob (pos 0) s)
  unfolding make_context_callback
  context-Adds held w e ob s o adds =
      call_if-Adds held w (get_function ob (event_name e)) (pos 0) s o adds

  expire_if-Adds :
      (held : List ℕ) (w : InFlight) (id : ℕ) (c : Option TimerContext) (s : Environment)
      → IsOwned held s
      → Adds w s
      → Adds w (expire_if js id c s)
  unfolding expire_if expire
  expire_if-Adds held w id none s o adds = adds
  expire_if-Adds held w id (some c) s o adds =
      let adds' = context-Adds held w ontimeout c.object s o adds in
      elim (Bool-cases c.interval) [
        | inl repeats ↦ rw repeats adds'
        | inr ends ↦ rw ends (unfold in_flight in adds')
      ]

  module _ (held : List ℕ) (w : InFlight) (p : ℕ) (s : Environment) (o : IsOwned (p ∷ held) s)
      (adds : Adds w s) where
    make_callback-Adds : (e : Event) → Every (Adds w) (Async.make_callback js e p s)
    unfolding Async.make_callback destroy
    make_callback-Adds e = Every->>= (Adds w) (load p s) _ λ r.
        Every->>= (Adds w) (context_of r.user) _ λ ob.
          let t = call_object js e ob r.res s in
          let o' = call_object-IsOwned js js-Calls (p ∷ held) e ob r.res s o in
          let adds' = call_object-Adds (p ∷ held) w e ob r.res s o adds in
          Every->>= (Adds w) (load p t) _ λ r'.
            if_both (Every (Adds w)) (again r'.flag == 1) (submit_request-Adds held w p t o' adds')
              (free-Adds w p (record t { contexts = t.contexts - 1 }) (unfold in_flight in adds'))

    timer_callback-Adds : Every (Adds w) (timer_callback js p s)
    unfolding timer_callback
    timer_callback-Adds = Every->>= (Adds w) (load p s) _ λ r.
        Every->>= (Adds w) (timer_of r.user) _
          λ id. free-Adds w p _ (expire_if-Adds (p ∷ held) w id (find id s.timer_map) s o adds)

    signal_callback-Adds : Every (Adds w) (signal_callback js p s)
    unfolding signal_callback
    signal_callback-Adds = Every->>= (Adds w) (load p s) _ λ r.
        Every->>= (Adds w) (signal_of r.user) _ λ a.
          Every->>= (Adds w) (or_fault (live_context a s.signal_map) dangling_context) _
            λ c. free-Adds w p _ (context-Adds (p ∷ held) w onsignal c.object s o adds)

    pub dispatch-Adds :
        (m : Machine) (r : Request)
        → CanFollow r.cb r.user s.signal_map
        → Every (Adds w) (dispatch js m r.cb p s)
    dispatch-Adds m r follow = callback-Adds r.cb r.user follow
      where
        callback-Adds :
            (cb : Callback) (d : UserData)
            → CanFollow cb d s.signal_map
            → Every (Adds w) (dispatch js m cb p s)
        callback-Adds (make_callback e) d follow = unfold dispatch in make_callback-Adds e
        callback-Adds open_after d follow =
            unfold dispatch open_after_callback in free-Adds w p s adds
        callback-Adds timer_cb d follow = unfold dispatch in timer_callback-Adds
        callback-Adds signal_cb d follow = unfold dispatch in signal_callback-Adds
        callback-Adds inotify_handler d follow = absurd follow
        callback-Adds null_callback d follow = absurd follow
