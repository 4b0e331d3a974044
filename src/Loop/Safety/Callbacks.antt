-- ===== src/Loop/Safety/Callbacks.antt =====
-- What a callback does to the ownership of requests, when it finds what it follows.
use no_js.Base.{
  ℕ, Option, none, some, List, ◌∷◌, ◌≡◌, ◌≢◌, refl, Returns, ◌>>=◌, or_fault, ◌==◌, Bool-cases,
  Option-cases, inl, inr,
}
use no_js.Base.Dict.{Dict, find}
use no_js.Base.Int.{ℤ, pos}
use no_js.Env.{
  Environment, Request, Event, event_name, Object, get_function, UserData, request_context,
  timer_id, signal_context, environment, Callback, make_callback, open_after, timer_cb, signal_cb,
  inotify_handler, null_callback, TimerContext, SignalContext, onsignal, ontimeout,
}
use no_js.Uring.{load}
use no_js.Uring.Ownership.{Fits, IsOwned, held-find, free-IsOwned, submit_request-IsOwned}
use no_js.Async.{
  JavaScript, context_of, again, call_function, call_if, call_object, make_context_callback,
  destroy,
}
use no_js.Async
use no_js.Timer.{timer_callback, timer_of, expire, expire_if}
use no_js.Signal.{signal_callback, signal_of, live_context}
use no_js.Fs.{open_after_callback}
use no_js.Inotify.{Machine}
use no_js.Loop.{dispatch}
use no_js.Loop.Calls.{Calls}
use no_js.Loop.CallOwnership.{Calls-IsOwned}

-- What the code relies on: a callback finds what it follows. A signal's listener still exists; the
-- callback of file events reads its request after freeing it, and never does.
abbrev pub CanFollow : Callback → UserData → Dict (List SignalContext) → Type 0
CanFollow signal_cb (signal_context c) listeners = live_context c listeners ≢ none
CanFollow inotify_handler d listeners = ⊥
CanFollow null_callback d listeners = ⊥
CanFollow cb d listeners = Unit

module _ (js : JavaScript) (js-Calls : (f : ℕ) (v : ℤ) (s : Environment) → Calls s (js f v s)) where
  pub call_if-IsOwned :
      (held : List ℕ) (f : Option ℕ) (v : ℤ) (s : Environment)
      → IsOwned held s
      → IsOwned held (call_if js f v s)
  unfolding call_if
  call_if-IsOwned held none v s o = o
  call_if-IsOwned held (some f) v s o = Calls-IsOwned held (js-Calls f v _) o

  pub call_object-IsOwned :
      (held : List ℕ) (e : Event) (ob : Option Object) (v : ℤ) (s : Environment)
      → IsOwned held s
      → IsOwned held (call_object js e ob v s)
  unfolding call_object
  call_object-IsOwned held e none v s o = o
  call_object-IsOwned held e (some ob) v s o =
      call_if-IsOwned held (get_function ob (event_name e)) v s o

  pub make_context_callback-IsOwned :
      (held : List ℕ) (e : Event) (ob : Object) (v : ℤ) (s : Environment)
      → IsOwned held s
      → IsOwned held (make_context_callback js e ob v s)
  unfolding make_context_callback
  make_context_callback-IsOwned held e ob v s o =
      call_if-IsOwned held (get_function ob (event_name e)) v s o

  context_of-Returns :
      (e : Event) (d : UserData) → Fits (make_callback e) d → Returns (λ _. Unit {0}) (context_of d)
  unfolding context_of
  context_of-Returns e (request_context o) f = (o, refl, tt)
  context_of-Returns e (timer_id t) f = absurd f
  context_of-Returns e (signal_context c) f = absurd f
  context_of-Returns e environment f = absurd f

  timer_of-Returns : (d : UserData) → Fits timer_cb d → Returns (λ _. Unit {0}) (timer_of d)
  unfolding timer_of
  timer_of-Returns (timer_id t) f = (t, refl, tt)
  timer_of-Returns (request_context ob) f = absurd f
  timer_of-Returns (signal_context c) f = absurd f
  timer_of-Returns environment f = absurd f

  signal_of-Returns :
      (s : Environment) (d : UserData)
      → Fits signal_cb d
      → CanFollow signal_cb d s.signal_map
      → Returns (λ c. live_context c s.signal_map ≢ none) (signal_of d)
  unfolding signal_of
  signal_of-Returns s (signal_context c) f h = (c, refl, h)
  signal_of-Returns s (timer_id t) f h = absurd f
  signal_of-Returns s (request_context ob) f h = absurd f
  signal_of-Returns s environment f h = absurd f

  expire_if-IsOwned :
      (held : List ℕ) (id : ℕ) (c : Option TimerContext) (s : Environment)
      → IsOwned held s
      → IsOwned held (expire_if js id c s)
  unfolding expire_if expire
  expire_if-IsOwned held id none s o = o
  expire_if-IsOwned held id (some c) s o =
      let o' = make_context_callback-IsOwned held ontimeout c.object (pos 0) s o in
      elim (Bool-cases c.interval) [ inl repeats ↦ rw repeats o' | inr ends ↦ rw ends o' ]

  module _ (held : List ℕ) (p : ℕ) (s : Environment) (r : Request) (found : find p s.heap ≡ some r)
      (o : IsOwned (p ∷ held) s) where
    make_callback-IsOwned :
        (e : Event)
        → Fits (make_callback e) r.user
        → Returns (IsOwned held) (Async.make_callback js e p s)
    unfolding Async.make_callback load
    make_callback-IsOwned e fits =
        let (ob, context, _) = context_of-Returns e r.user fits in
        let t = call_object js e ob r.res s in
        let o' : IsOwned (p ∷ held) t = call_object-IsOwned (p ∷ held) e ob r.res s o in
        let (r', found') = held-find held p t o' in
        rw (found, or_fault)
          (rw (context, ◌>>=◌)
            (rw (found', or_fault)
              (elim (Bool-cases (again r'.flag == 1)) [
                | inl repeats ↦ rw repeats (submit_request-IsOwned held p t o')
                | inr ends ↦ rw ends (free-IsOwned held p _ o')
              ])))

    timer_callback-IsOwned : Fits timer_cb r.user → Returns (IsOwned held) (timer_callback js p s)
    unfolding timer_callback load
    timer_callback-IsOwned fits =
        let (id, timer, _) = timer_of-Returns r.user fits in
        rw (found, or_fault)
          (rw (timer, ◌>>=◌)
            (free-IsOwned held p _ (expire_if-IsOwned (p ∷ held) id (find id s.timer_map) s o)))

    signal_callback-IsOwned :
        Fits signal_cb r.user
        → CanFollow signal_cb r.user s.signal_map
        → Returns (IsOwned held) (signal_callback js p s)
    unfolding signal_callback load
    signal_callback-IsOwned fits follow =
        let (c, address, live) = signal_of-Returns s r.user fits follow in
        rw (found, or_fault)
          (rw (address, ◌>>=◌)
            (elim (Option-cases (live_context c s.signal_map)) [
              | inl gone ↦ absurd (live gone)
              | inr (ctx, there) ↦
                  rw (there, or_fault)
                    (free-IsOwned held p _
                      (make_context_callback-IsOwned (p ∷ held) onsignal ctx.object (pos 0) s o))
            ]))

    pub dispatch-IsOwned :
        (m : Machine) (cb : Callback)
        → Fits cb r.user
        → CanFollow cb r.user s.signal_map
        → Returns (IsOwned held) (dispatch js m cb p s)
    unfolding dispatch open_after_callback
    dispatch-IsOwned m (make_callback e) fits follow = make_callback-IsOwned e fits
    dispatch-IsOwned m open_after fits follow = free-IsOwned held p s o
    dispatch-IsOwned m timer_cb fits follow = timer_callback-IsOwned fits
    dispatch-IsOwned m signal_cb fits follow = signal_callback-IsOwned fits follow
    dispatch-IsOwned m inotify_handler fits follow = absurd follow
    dispatch-IsOwned m null_callback fits follow = absurd follow
