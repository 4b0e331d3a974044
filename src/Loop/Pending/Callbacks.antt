-- ===== src/Loop/Pending/Callbacks.antt =====
-- What a callback does to the count of what is outstanding.
use no_js.Base.{
  ℕ, suc, zero, ◌+◌, ◌-◌, Option, none, some, List, [], ◌∷◌, ◌≡◌, ◌≢◌, refl, arith, Every,
  Every->>=, Every-bind, or_fault, true, false, ◌==◌, if_both, Bool-cases, inl, inr, length,
  get_elem?,
}
use no_js.Base.Dict.{find, length-erase}
use no_js.Base.Int.{ℤ, pos}
use no_js.Env.{
  Environment, Sqe, Event, event_name, Object, get_function, TimerContext, InotifyContext, onsignal,
  ontimeout, onchange,
}
use no_js.Uring.{load, free, submit_request, prepare, enter}
use no_js.Async.{
  JavaScript, context_of, again, call_if, call_object, make_context_callback, destroy,
}
use no_js.Async
use no_js.Timer.{timer_callback, timer_of, expire, expire_if}
use no_js.Signal.{signal_callback, signal_of, live_context}
use no_js.Inotify.{
  Machine, InotifyEvent, inotify_callback, handle_events, at_event, call_listeners, call_at,
  call_found, signed_char, before_end, event_size,
}
use no_js.Loop.Counting.{IsCounted, CleanCalls, CleanCalls-IsCounted, submit_read_request-IsCounted}

-- Whether a loop over listeners goes on, and in which state.
abbrev Continues : Option Environment → Type 0
Continues none = Unit
Continues (some t) = IsCounted t

submit_request-IsCounted :
    (p : ℕ) (s : Environment) → IsCounted s → Every IsCounted (submit_request p s)
unfolding submit_request
submit_request-IsCounted p s c =
    Every->>= IsCounted (load p s) _
      λ r. Every->>= IsCounted (prepare r.op r.body) _ λ sqe. enter-IsCounted sqe
  where
    enter-IsCounted : (sqe : Option Sqe) → IsCounted (enter p sqe s)
    enter-IsCounted none = c
    enter-IsCounted (some q) = omega arith

pub free-IsCounted : (p : ℕ) (s : Environment) → IsCounted s → Every IsCounted (free p s)
unfolding free
free-IsCounted p s c = Every->>= IsCounted (load p s) _ λ r. c

module _ (js : JavaScript) (js-Clean : (f : ℕ) (v : ℤ) (s : Environment) → CleanCalls s (js f v s))
    (js-keeps : (id : ℕ) (c : TimerContext) (s : Environment)
      → c.interval ≡ false
      → find id s.timer_map ≡ some c
      → find id (make_context_callback js ontimeout c.object (pos 0) s).timer_map ≢ none)
    (m : Machine) where
  call_if-IsCounted :
      (f : Option ℕ) (v : ℤ) (s : Environment) → IsCounted s → IsCounted (call_if js f v s)
  unfolding call_if
  call_if-IsCounted none v s c = c
  call_if-IsCounted (some f) v s c = CleanCalls-IsCounted (js-Clean f v _) c

  call_object-IsCounted :
      (e : Event) (o : Option Object) (v : ℤ) (s : Environment)
      → IsCounted s
      → IsCounted (call_object js e o v s)
  unfolding call_object
  call_object-IsCounted e none v s c = c
  call_object-IsCounted e (some o) v s c = call_if-IsCounted (get_function o (event_name e)) v s c

  context-IsCounted :
      (e : Event) (o : Object) (v : ℤ) (s : Environment)
      → IsCounted s
      → IsCounted (make_context_callback js e o v s)
  unfolding make_context_callback
  context-IsCounted e o v s c = call_if-IsCounted (get_function o (event_name e)) v s c

  pub make_callback-IsCounted :
      (e : Event) (p : ℕ) (s : Environment)
      → IsCounted s
      → Every IsCounted (Async.make_callback js e p s)
  unfolding Async.make_callback
  make_callback-IsCounted e p s c = Every->>= IsCounted (load p s) _ λ r.
      Every->>= IsCounted (context_of r.user) _ λ o.
        let t = call_object js e o r.res s in
        let c' : IsCounted t = call_object-IsCounted e o r.res s c in
        Every->>= IsCounted (load p t) _ λ r'.
          if_both (Every IsCounted) (again r'.flag == 1) (submit_request-IsCounted p t c')
            (free-IsCounted p (record t { contexts = t.contexts - 1 }) c')

  expire_if-IsCounted :
      (id : ℕ) (s : Environment) (o : Option TimerContext)
      → find id s.timer_map ≡ o
      → IsCounted s
      → IsCounted (expire_if js id o s)
  unfolding expire_if expire
  expire_if-IsCounted id s none e c = c
  expire_if-IsCounted id s (some ctx) e c =
      let c' = context-IsCounted ontimeout ctx.object (pos 0) s c in
      elim (Bool-cases ctx.interval) [
        | inl repeats ↦ rw repeats c'
        | inr ends ↦ rw ends (
            omega (
              arith,
              length-erase id (make_context_callback js ontimeout ctx.object (pos 0) s).timer_map
                  (js-keeps id ctx s ends e),
            ))
      ]

  pub timer_callback-IsCounted :
      (p : ℕ) (s : Environment) → IsCounted s → Every IsCounted (timer_callback js p s)
  unfolding timer_callback
  timer_callback-IsCounted p s c = Every->>= IsCounted (load p s) _ λ r.
      Every->>= IsCounted (timer_of r.user) _
        λ id. free-IsCounted p _ (expire_if-IsCounted id s (find id s.timer_map) refl c)

  pub signal_callback-IsCounted :
      (p : ℕ) (s : Environment) → IsCounted s → Every IsCounted (signal_callback js p s)
  unfolding signal_callback
  signal_callback-IsCounted p s c = Every->>= IsCounted (load p s) _ λ r.
      Every->>= IsCounted (signal_of r.user) _ λ a.
        Every->>= IsCounted (or_fault (live_context a s.signal_map) _) _
          λ ctx. free-IsCounted p _ (context-IsCounted onsignal ctx.object (pos 0) s c)

  call_found-IsCounted :
      (ctx : Option InotifyContext) (s : Environment)
      → IsCounted s
      → Every Continues (call_found js ctx s)
  unfolding call_found
  call_found-IsCounted none s c = tt
  call_found-IsCounted (some ctx) s c = context-IsCounted onchange ctx.object (pos 0) s c

  call_at-IsCounted :
      (i : ℕ) (cs : List InotifyContext) (s : Environment)
      → IsCounted s
      → Every Continues (call_at js i cs s)
  unfolding call_at
  call_at-IsCounted i cs s c =
      if_both (Every Continues) (length cs == i) tt
        (if_both (Every Continues) (length cs == 0) tt (call_found-IsCounted (get_elem? cs i) s c))

  call_listeners-IsCounted :
      (fuel wd i : ℕ) (s : Environment)
      → IsCounted s
      → Every IsCounted (call_listeners js fuel wd i s)
  unfolding call_listeners
  call_listeners-IsCounted zero wd i s c = tt
  call_listeners-IsCounted (suc fuel) wd i s c =
      Every->>= IsCounted (or_fault (find wd s.inotify_map) _) _ λ cs.
        Every-bind Continues IsCounted (call_at js i cs s) _ (call_at-IsCounted i cs s c)
          (elim [ none ↦ λ _. c | some t ↦ λ c'. call_listeners-IsCounted fuel wd (i + 1) t c' ])

  at_event-IsCounted :
      (wd : ℕ) (cs : Option (List InotifyContext)) (s : Environment)
      → IsCounted s
      → Every IsCounted (at_event js m.fuel wd cs s)
  unfolding at_event
  at_event-IsCounted wd none s c = c
  at_event-IsCounted wd (some cs) s c = call_listeners-IsCounted m.fuel wd 0 s c

  handle_events-IsCounted :
      (size : ℤ) (p : ℕ) (es : List InotifyEvent) (s : Environment)
      → IsCounted s
      → Every IsCounted (handle_events js m.fuel size p es s)
  unfolding handle_events
  handle_events-IsCounted size p [] s c = if_both (Every IsCounted) (before_end p size) tt c
  handle_events-IsCounted size p (e ∷ es) s c =
      if_both (Every IsCounted) (before_end p size)
        (Every-bind IsCounted IsCounted (at_event js m.fuel e.wd (find e.wd s.inotify_map) s)
          (handle_events js m.fuel size (p + event_size + e.len) es)
          (at_event-IsCounted e.wd (find e.wd s.inotify_map) s c)
          (handle_events-IsCounted size (p + event_size + e.len) es))
        c

  pub inotify_callback-IsCounted :
      (p : ℕ) (s : Environment) → IsCounted s → Every IsCounted (inotify_callback js m p s)
  unfolding inotify_callback
  inotify_callback-IsCounted p s c = Every->>= IsCounted (load p s) _ λ r.
      Every-bind IsCounted IsCounted
        (handle_events js m.fuel (signed_char r.res) 0 (m.events_of r) s) _
        (handle_events-IsCounted (signed_char r.res) 0 (m.events_of r) s c)
        λ t c'. Every->>= IsCounted (load p t) _ λ r'.
          Every-bind IsCounted IsCounted (free p t) _ (free-IsCounted p t c') λ u c''.
            Every->>= IsCounted (or_fault (m.after_free r') _) _
              λ env. submit_read_request-IsCounted (record u { need_submit = true }) c''
