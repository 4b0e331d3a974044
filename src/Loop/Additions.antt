-- ===== src/Loop/Additions.antt =====
-- What calls, timers and signals submit: only addresses that are not in flight.
pub mod Callbacks
use no_js.Base.{
  ℕ, suc, ◌+◌, ◌-◌, ◌≡◌, ◌≢◌, refl, arith, Option, none, some, List, [], ◌∷◌, Every, Every->>=,
  Every-bind, Every-mono, or_fault, ◌==◌, if◌then◌else◌, if_both, Bool-cases, Option-cases, inl,
  inr, dangling_context,
}
use no_js.Base.Dict.{Dict, find, occurs}
use no_js.Base.Int.{ℤ, pos}
use no_js.Env.{
  Environment, Request, Sqe, Event, event_name, Object, get_function, Callback, make_callback,
  open_after, timer_cb, signal_cb, inotify_handler, null_callback, TimerContext, SignalContext,
  ontimeout, onsignal, UserData,
}
use no_js.Uring.{load, free, submit_request, prepare, enter}
use no_js.Uring.Launch.{launch, launch_lem}
use no_js.Uring.Ownership.{IsFormed, IsOwned, IsOwnedBy, launched-IsOwned, bump-IsOwned}
use no_js.Async.{
  JavaScript, context_of, again, call_if, call_object, make_context_callback, destroy,
}
use no_js.Async
use no_js.Timer.{timer_callback, timer_of, expire, expire_if, timer_request, timer_signal}
use no_js.Signal.{
  signal_callback, signal_of, live_context, signal_request, notify_listeners, signal_handler,
}
use no_js.Fs.{open_after_callback}
use no_js.Inotify.{Machine}
use no_js.Loop.{dispatch}
use no_js.Loop.Calls.{Calls}
use no_js.Loop.CallOwnership.{Calls-Holds}
use no_js.Loop.Safety.{CanFollow, call_object-IsOwned}
use no_js.Loop.Abstract.{InFlight, in_flight, Submits, one_more}

-- Whatever a step has submitted since `v`.
abbrev pub Adds : InFlight → Environment → Type 0
Adds v s = Submits v (in_flight s)

-- The requests and the ring, with what has been submitted since `v`.
abbrev Grown : List ℕ → InFlight → Dict Request → Dict Sqe → ℕ → Type 0
Grown held v h g n = IsOwnedBy held h g n × Submits v (λ a. occurs a g)

launched-Grown :
    (held : List ℕ) (v : InFlight) (h : Dict Request) (g : Dict Sqe) (n : ℕ) (r : Request) (q : Sqe)
    → IsFormed r
    → Grown held v h g n
    → Grown held v ((n, r) ∷ h) ((n, q) ∷ g) (suc n)
unfolding occurs
launched-Grown held v h g n r q f (o, adds) = (
  launched-IsOwned held h g n r q f o,
  one_more adds n (omega (arith, o.balance n, o.fresh n (omega arith))) (λ a. omega arith),
)

pub Calls-Adds :
    (held : List ℕ) (v : InFlight) {s t : Environment}
    → Calls s t
    → IsOwned held s
    → Adds v s
    → Adds v t
unfolding in_flight
Calls-Adds held v calls o adds =
    (Calls-Holds (Grown held v) (launched-Grown held v)
      (λ h g n k. (bump-IsOwned held h g n k.0, k.1)) calls (o, adds)).1

-- A held address is not in flight.
held-in_flight :
    (held : List ℕ) (p : ℕ) (s : Environment) → IsOwned (p ∷ held) s → occurs p s.ring ≡ 0
held-in_flight held p s o = ground (arith, o.balance p, o.once p)

pub submit_request-Adds :
    (held : List ℕ) (v : InFlight) (p : ℕ) (s : Environment)
    → IsOwned (p ∷ held) s
    → Adds v s
    → Every (Adds v) (submit_request p s)
unfolding submit_request
submit_request-Adds held v p s o adds =
    Every->>= (Adds v) (load p s) _
      λ r. Every->>= (Adds v) (prepare r.op r.body) _ λ sqe. enter-Adds sqe
  where
    enter-Adds : (sqe : Option Sqe) → Adds v (enter p sqe s)
    enter-Adds none = unfold enter in adds
    enter-Adds (some q) =
        unfold enter in_flight occurs in
        one_more {u = λ a. (if p == a then 1 else 0) + occurs a s.ring} adds p
          (unfold in_flight in held-in_flight held p s o) (λ a. unfold in_flight in omega arith)

pub free-Adds : (v : InFlight) (p : ℕ) (s : Environment) → Adds v s → Every (Adds v) (free p s)
unfolding free in_flight
free-Adds v p s adds = Every->>= (Adds v) (load p s) _ λ r. adds

launch-Adds :
    (v : InFlight) (r : Request) (s : Environment)
    → IsFormed r
    → IsOwned [] s
    → Adds v s
    → Every (λ t. IsOwned [] t × Adds v t) (launch r s)
unfolding in_flight
launch-Adds v r s f o adds =
    let (q, e) = f.submits in
    rw (launch_lem r s e) (launched-Grown [] v s.heap s.ring s.next_address r q f (o, adds))

notify_listeners-Adds :
    (v : InFlight) (cs : List SignalContext) (s : Environment)
    → IsOwned [] s
    → Adds v s
    → Every (Adds v) (notify_listeners cs s)
unfolding notify_listeners prepare
notify_listeners-Adds v [] s o adds = adds
notify_listeners-Adds v (c ∷ cs) s o adds =
    Every-bind (λ t. IsOwned [] t × Adds v t) (Adds v) (launch (signal_request c.address) s)
      (notify_listeners cs)
      (launch-Adds v (signal_request c.address) s (record { submits = (_, refl); fits = tt }) o
        adds)
      λ t k. notify_listeners-Adds v cs t k.0 k.1

pub signal_handler-Adds :
    (v : InFlight) (sig : ℕ) (s : Environment)
    → IsOwned [] s
    → Adds v s
    → Every (Adds v) (signal_handler sig s)
unfolding signal_handler
signal_handler-Adds v sig s o adds = notify_listeners-Adds v _ s o adds

pub timer_signal-Adds :
    (v : InFlight) (id : ℕ) (s : Environment)
    → IsOwned [] s
    → find id s.timer_map ≢ none
    → Adds v s
    → Every (Adds v) (timer_signal id s)
unfolding timer_signal prepare
timer_signal-Adds v id s o known adds = elim (Option-cases (find id s.timer_map)) [
  | inl unknown ↦ absurd (known unknown)
  | inr (c, there) ↦
      rw (there, timer_signal)
        (Every-mono (λ t. IsOwned [] t × Adds v t) (Adds v) (launch (timer_request id) s)
          (λ t k. k.1)
          (launch-Adds v (timer_request id) s (record { submits = (_, refl); fits = tt }) o adds))
]
