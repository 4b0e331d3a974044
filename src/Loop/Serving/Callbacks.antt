-- ===== src/Loop/Serving/Callbacks.antt =====
-- What becomes of a listening socket while other requests complete.
use no_js.Base.{
  ℕ, suc, ◌≡◌, ◌≢◌, refl, ◌∙◌, arith, ◌-◌, ◌<◌, Option, none, some, List, [], ◌∷◌, Every, Every->>=,
  Every-bind, or_fault, ◌==◌, if_both, Bool-cases, inl, inr, dangling_context,
}
use no_js.Base.Dict.{Dict, find, find-erase_ne}
use no_js.Base.Int.{ℤ, pos}
use no_js.Env.{
  Environment, Request, Sqe, Event, event_name, Object, get_function, Callback, make_callback,
  open_after, timer_cb, signal_cb, inotify_handler, null_callback, TimerContext, SignalContext,
  ontimeout, onsignal, UserData,
}
use no_js.Uring.{load, free, submit_request, prepare, enter}
use no_js.Uring.Launch.{launch, launch_lem}
use no_js.Uring.Ownership.{IsFormed}
use no_js.Async.{
  JavaScript, context_of, again, call_function, call_if, call_object, make_context_callback,
  destroy,
}
use no_js.Async
use no_js.Timer.{timer_callback, timer_of, expire, expire_if}
use no_js.Signal.{signal_callback, signal_of, live_context, signal_request, notify_listeners}
use no_js.Fs.{open_after_callback}
use no_js.Inotify.{Machine}
use no_js.Loop.{dispatch}
use no_js.Loop.Calls.{Calls}
use no_js.Loop.CallOwnership.{Calls-Holds}
use no_js.Loop.Safety.{CanFollow}

-- The request at `p` is allocated and in the ring, and `stop` is not set.
pub record Stands (p : ℕ) (r : Request) (q : Sqe) (s : Environment) : Type 0 where
  pub allocated : find p s.heap ≡ some r
  pub below : p < s.next_address
  pub in_ring : find p s.ring ≡ some q
  pub running : s.stop ≡ 0

-- The same, of the parts that a native call can change.
abbrev Kept : ℕ → Request → Sqe → Dict Request → Dict Sqe → ℕ → Type 0
Kept p r q h g n = (find p h ≡ some r) × (p < n) × (find p g ≡ some q)

module _ (p : ℕ) (r : Request) (q : Sqe) where
  launched-Kept :
      (h : Dict Request) (g : Dict Sqe) (n : ℕ) (r' : Request) (q' : Sqe)
      → IsFormed r'
      → Kept p r q h g n
      → Kept p r q ((n, r') ∷ h) ((n, q') ∷ g) (suc n)
  unfolding find
  launched-Kept h g n r' q' f (found, below, there) = (ground arith, omega arith, ground arith)

  pub launch-Stands :
      (r' : Request) (s : Environment)
      → IsFormed r'
      → Stands p r q s
      → Every (Stands p r q) (launch r' s)
  launch-Stands r' s f k =
      let (q', e) = f.submits in
      let (found, below, there) =
        launched-Kept s.heap s.ring s.next_address r' q' f (k.allocated, k.below, k.in_ring) in
      rw (launch_lem r' s e)
        (record { allocated = found; below = below; in_ring = there; running = k.running })

  pub notify_listeners-Stands :
      (cs : List SignalContext) (s : Environment)
      → Stands p r q s
      → Every (Stands p r q) (notify_listeners cs s)
  unfolding notify_listeners prepare
  notify_listeners-Stands [] s k = k
  notify_listeners-Stands (c ∷ cs) s k =
      Every-bind (Stands p r q) (Stands p r q) (launch (signal_request c.address) s)
        (notify_listeners cs)
        (launch-Stands (signal_request c.address) s (record { submits = (_, refl); fits = tt }) k)
        (notify_listeners-Stands cs)

  free-Stands : (a : ℕ) (s : Environment) → a ≢ p → Stands p r q s → Every (Stands p r q) (free a s)
  unfolding free
  free-Stands a s other k = Every->>= (Stands p r q) (load a s) _ λ r'. record {
    allocated = find-erase_ne p a s.heap (λ e. other (cc e)) ∙ k.allocated;
    below = k.below;
    in_ring = k.in_ring;
    running = k.running;
  }

  submit_request-Stands :
      (a : ℕ) (s : Environment) → a ≢ p → Stands p r q s → Every (Stands p r q) (submit_request a s)
  unfolding submit_request enter find
  submit_request-Stands a s other k =
      Every->>= (Stands p r q) (load a s) _
        λ r'. Every->>= (Stands p r q) (prepare r'.op r'.body) _ λ sqe. enter-Stands sqe
    where
      enter-Stands : (sqe : Option Sqe) → Stands p r q (enter a sqe s)
      enter-Stands none = k
      enter-Stands (some q') = record {
        allocated = k.allocated;
        below = k.below;
        in_ring = ground (arith, k.in_ring, other);
        running = k.running;
      }

  module _ (js : JavaScript) (js-Calls : (f : ℕ) (v : ℤ) (s : Environment) → Calls s (js f v s))
      (js-running : (f : ℕ) (v : ℤ) (s : Environment) → (js f v s).stop ≡ s.stop) where
    pub call_function-Stands :
        (f : ℕ) (v : ℤ) (s : Environment) → Stands p r q s → Stands p r q (call_function js f v s)
    unfolding call_function
    call_function-Stands f v s k =
        let (found, below, there) =
          Calls-Holds (Kept p r q) launched-Kept (λ h g n o. (o.0, omega (arith, o.1), o.2))
            (js-Calls f v (record s { calls = (f, v) ∷ s.calls }))
            (k.allocated, k.below, k.in_ring) in
        record {
          allocated = found;
          below = below;
          in_ring = there;
          running = js-running f v _ ∙ k.running;
        }

    call_if-Stands :
        (f : Option ℕ) (v : ℤ) (s : Environment) → Stands p r q s → Stands p r q (call_if js f v s)
    unfolding call_if
    call_if-Stands none v s k = k
    call_if-Stands (some f) v s k = call_function-Stands f v s k

    call_object-Stands :
        (e : Event) (ob : Option Object) (v : ℤ) (s : Environment)
        → Stands p r q s
        → Stands p r q (call_object js e ob v s)
    unfolding call_object make_context_callback
    call_object-Stands e none v s k = k
    call_object-Stands e (some ob) v s k = call_if-Stands (get_function ob (event_name e)) v s k

    context-Stands :
        (e : Event) (ob : Object) (s : Environment)
        → Stands p r q s
        → Stands p r q (make_context_callback js e ob (pos 0) s)
    unfolding make_context_callback
    context-Stands e ob s k = call_if-Stands (get_function ob (event_name e)) (pos 0) s k

    expire_if-Stands :
        (id : ℕ) (c : Option TimerContext) (s : Environment)
        → Stands p r q s
        → Stands p r q (expire_if js id c s)
    unfolding expire_if expire
    expire_if-Stands id none s k = k
    expire_if-Stands id (some c) s k =
        let k' = context-Stands ontimeout c.object s k in
        elim (Bool-cases c.interval) [
          | inl repeats ↦ rw repeats k'
          | inr ends ↦ rw ends (record {
            allocated = k'.allocated;
            below = k'.below;
            in_ring = k'.in_ring;
            running = k'.running;
          })
        ]

    module _ (a : ℕ) (s : Environment) (other : a ≢ p) (k : Stands p r q s) where
      make_callback-Stands : (e : Event) → Every (Stands p r q) (Async.make_callback js e a s)
      unfolding Async.make_callback destroy
      make_callback-Stands e = Every->>= (Stands p r q) (load a s) _ λ r'.
          Every->>= (Stands p r q) (context_of r'.user) _ λ ob.
            let t = call_object js e ob r'.res s in
            let k' = call_object-Stands e ob r'.res s k in
            Every->>= (Stands p r q) (load a t) _ λ r''.
              if_both (Every (Stands p r q)) (again r''.flag == 1)
                (submit_request-Stands a t other k')
                (free-Stands a (record t { contexts = t.contexts - 1 }) other
                  (record {
                    allocated = k'.allocated;
                    below = k'.below;
                    in_ring = k'.in_ring;
                    running = k'.running;
                  }))

      timer_callback-Stands : Every (Stands p r q) (timer_callback js a s)
      unfolding timer_callback
      timer_callback-Stands = Every->>= (Stands p r q) (load a s) _ λ r'.
          Every->>= (Stands p r q) (timer_of r'.user) _
            λ id. free-Stands a _ other (expire_if-Stands id (find id s.timer_map) s k)

      signal_callback-Stands : Every (Stands p r q) (signal_callback js a s)
      unfolding signal_callback
      signal_callback-Stands = Every->>= (Stands p r q) (load a s) _ λ r'.
          Every->>= (Stands p r q) (signal_of r'.user) _ λ c.
            Every->>= (Stands p r q) (or_fault (live_context c s.signal_map) dangling_context) _
              λ ctx. free-Stands a _ other (context-Stands onsignal ctx.object s k)

      -- The callback of another request leaves the request as it is.
      pub dispatch-Stands :
          (m : Machine) (cb : Callback) (d : UserData)
          → CanFollow cb d s.signal_map
          → Every (Stands p r q) (dispatch js m cb a s)
      unfolding dispatch open_after_callback
      dispatch-Stands m (make_callback e) d follow = make_callback-Stands e
      dispatch-Stands m open_after d follow = free-Stands a s other k
      dispatch-Stands m timer_cb d follow = timer_callback-Stands
      dispatch-Stands m signal_cb d follow = signal_callback-Stands
      dispatch-Stands m inotify_handler d follow = absurd follow
      dispatch-Stands m null_callback d follow = absurd follow
