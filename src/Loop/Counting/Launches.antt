-- ===== src/Loop/Counting/Launches.antt =====
-- The count (`pending`) and what is submitted: by a native function, by a handler of signals, and by
-- the reading of file events.
use no_js.Base.{
  ℕ, suc, ◌+◌, ◌%◌, List, [], ◌∷◌, ◌≡◌, refl, arith, Every, Every-bind, if_both, Option-cases, inl,
  inr, length,
}
use no_js.Base.Dict.{Dict, find}
use no_js.Base.Int.{int_mod}
use no_js.Env.{Environment, Request, Sqe, TimerContext, SignalContext}
use no_js.Uring.Launch.{launch, launch_lem}
use no_js.Uring.Ownership.{IsFormed}
use no_js.Io.{launch_context}
use no_js.Timer.{timer_signal, timer_request}
use no_js.Signal.{signal_handler, notify_listeners, signal_request}
use no_js.Inotify.{submit_read_request}
use no_js.Uring.{prepare}
use no_js.Loop.CallOwnership.{inotify_request-IsFormed}

-- `pending` is the number of the entries in the ring and of the timers in the map, as an `int32_t`.
abbrev pub CountsTo : ℕ → Dict Sqe → Dict TimerContext → Type 0
CountsTo pending ring timers = pending ≡ (length ring + length timers) % int_mod

abbrev pub IsCounted : Environment → Type 0
IsCounted s = CountsTo s.pending s.ring s.timer_map

pub launch-IsCounted :
    (r : Request) (s : Environment) → IsFormed r → IsCounted s → Every IsCounted (launch r s)
launch-IsCounted r s f c = let (q, e) = f.submits in rw (launch_lem r s e) (omega arith)

pub launch_context-IsCounted :
    (s : Environment)
    → IsCounted s
    → (r : Request) → IsFormed r
    → Every IsCounted (launch_context r s)
unfolding launch_context
launch_context-IsCounted s c r f = launch-IsCounted r _ f c

notify_listeners-IsCounted :
    (cs : List SignalContext) (s : Environment)
    → IsCounted s
    → Every IsCounted (notify_listeners cs s)
unfolding notify_listeners prepare
notify_listeners-IsCounted [] s c = c
notify_listeners-IsCounted (ctx ∷ cs) s c =
    Every-bind IsCounted IsCounted (launch (signal_request ctx.address) s) (notify_listeners cs)
      (launch-IsCounted (signal_request ctx.address) s (record { submits = (_, refl); fits = tt })
        c)
      (notify_listeners-IsCounted cs)

pub signal_handler-IsCounted :
    (sig : ℕ) (s : Environment) → IsCounted s → Every IsCounted (signal_handler sig s)
unfolding signal_handler
signal_handler-IsCounted sig s c = notify_listeners-IsCounted _ s c

pub timer_signal-IsCounted :
    (id : ℕ) (s : Environment) → IsCounted s → Every IsCounted (timer_signal id s)
unfolding timer_signal prepare
timer_signal-IsCounted id s c = elim (Option-cases (find id s.timer_map)) [
  | inl unknown ↦ rw (unknown, timer_signal) tt
  | inr (ctx, e) ↦
      rw (e, timer_signal)
        (launch-IsCounted (timer_request id) s (record { submits = (_, refl); fits = tt }) c)
]

pub submit_read_request-IsCounted :
    (s : Environment) → IsCounted s → Every IsCounted (submit_read_request s)
unfolding submit_read_request
submit_read_request-IsCounted s c =
    if_both (Every IsCounted) s.need_submit
      (Every-bind IsCounted IsCounted _ _
        (launch-IsCounted _
          (record s { next_address = suc s.next_address; buffers = s.buffers + 1 })
          (inotify_request-IsFormed s.inotify_fd s.next_address) c)
        (λ t c'. c'))
      c
