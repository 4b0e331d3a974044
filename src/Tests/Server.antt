-- ===== src/Tests/Server.antt =====
-- A server that accepts a connection.
use no_js.Base.{
  ◌+◌, ◌<◌, ◌≡◌, ◌≢◌, refl, sym, ◌∙◌, arith, some, none, List, [], ◌∷◌, ok, length, Returns,
}
use no_js.Base.Dict.{find, erase}
use no_js.Base.Int.{pos, int_mod}
use no_js.Env.{Environment, Request, prep_accept}
use no_js.Uring.{prepare, enter}
use no_js.Uring.Ownership.{IsOwned, launched-IsOwned}
use no_js.Async.{call_function}
use no_js.Loop.{Happening, completion, drain, happen, waiting, run_io_uring, received}
use no_js.Loop.Safety.{CanFollow}
use no_js.Loop.Run.{MayRun}
use no_js.Loop.Connections.{accepting, complete-accepting}
use no_js.Loop.Serving.{StaysSmall, Serves, run_io_uring-Serves}
use no_js.Tests.{idle, idle-Calls, machine, start}
use no_js.Tests.Run.{idle-Clean, idle-keeps, start-IsOwned}
use no_js.Tests.Deliveries.{listening_state, listening, accept_in_ring}

abbrev accepted : List Happening
accepted = completion 1 (pos 6) ∷ []

listening-IsOwned : IsOwned [] listening_state
unfolding prepare
listening-IsOwned =
    launched-IsOwned [] start.heap start.ring 1 (accepting (pos 4) 7 (pos 0))
      (prep_accept (pos 4) 0) (record { submits = (_, refl); fits = tt }) start-IsOwned

follows :
    (r : Request)
    → find 1 listening_state.heap ≡ some r
    → CanFollow r.cb r.user listening_state.signal_map
follows r e =
    let same : accepting (pos 4) 7 (pos 0) ≡ r = cc (sym listening.0 ∙ e) in rw (← same) tt

in_ring : find 1 listening_state.ring ≢ none
in_ring e = absurd (cc (e, accept_in_ring))

may_run : MayRun idle machine (accepted ∷ []) listening_state
may_run = (((in_ring, follows), λ t e. tt), λ t e. tt)

abbrev after : Environment
after = enter 1 (some (prep_accept (pos 4) 0)) (
    call_function idle 7 (pos 6) (received 1 (pos 6) (accepting (pos 4) 7 (pos 0)) listening_state))

drain-accepted : drain idle machine accepted listening_state ≡ ok after
unfolding drain happen
drain-accepted =
    rw
      (complete-accepting idle idle-Calls machine 1 (pos 4) 7 (pos 0) (pos 6) listening_state
        listening)
      refl

after_small : length after.ring + length after.timer_map < int_mod
unfolding enter call_function erase
after_small = omega arith

small : StaysSmall idle machine (accepted ∷ []) listening_state
small = (
  omega arith,
  λ t e. let same : after ≡ t = cc (sym drain-accepted ∙ e) in rw (← same) after_small,
)

serves : Serves 1 (pos 4) 7 listening_state
serves = (
  pos 0,
  record { allocated = listening.0; below = listening.1; in_ring = accept_in_ring; running = refl },
)

run_io_uring-Serves_example :
    Returns
      (λ r. (r.0 ≡ waiting) × Serves 1 (pos 4) 7 r.1)
      (run_io_uring idle machine (accepted ∷ []) listening_state)
run_io_uring-Serves_example =
    run_io_uring-Serves idle idle-Clean idle-keeps (λ f v s. refl) machine 1 (pos 4) 7
      (accepted ∷ []) listening_state listening-IsOwned refl serves may_run small
