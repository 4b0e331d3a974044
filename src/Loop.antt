-- ===== src/Loop.antt =====
-- core/io_uring.cc, `RunIOUring`, with the callbacks that it calls (core/core.cc, `Run`). The kernel
-- chooses which entries are complete: it is a schedule of what happens in each round.
pub mod Calls
mod Launching
pub mod CallOwnership
pub mod Safety
pub mod Counting
pub mod Pending
pub mod Run
pub mod Delivery
pub mod Defects
pub mod Listeners
pub mod Connections
pub mod Timers
pub mod Abstract
mod Additions
pub mod Refinement
pub mod Watching
pub mod Releasing
pub mod Work
pub mod Quiet
pub mod Ending
pub mod Serving
use no_js.Base.{
  ℕ, Bool, true, false, ◌&&◌, not, List, [], ◌∷◌, Result, ok, ◌>>=◌, ◌==◌, if◌then◌else◌,
}
use no_js.Base.Dict.{find, erase, update}
use no_js.Base.Int.{ℤ}
use no_js.Env.{
  Callback, make_callback, open_after, timer_cb, signal_cb, inotify_handler, null_callback, Request,
  Environment,
}
use no_js.Uring.{load, dec_pending}
use no_js.Async.{JavaScript}
use no_js.Async
use no_js.Timer.{timer_callback, timer_signal}
use no_js.Signal.{signal_callback, signal_handler}
use no_js.Inotify.{Machine, inotify_callback}
use no_js.Fs.{open_after_callback}

-- What happens in a round: an entry is complete, or a signal arrives in between, that of a timer or
-- one with listeners.
pub data Happening : Type 0 where
  completion : ℕ → ℤ → Happening
  timer_expires signal_arrives : ℕ → Happening

-- Whether the loop has returned, or waits for what comes after the schedule.
pub data Progress : Type 0 where
  returned waiting : Progress

-- The result is written into the request, and the entry leaves the completion queue.
abbrev pub received : ℕ → ℤ → Request → Environment → Environment
received p res r s = record (dec_pending s) {
  heap = update p (record r { res = res }) s.heap;
  ring = erase p s.ring;
}

-- `stop != 1 && pending != 0`.
unfoldable pub goes_on : Environment → Bool
goes_on s = not (s.stop == 1) && not (s.pending == 0)

module _ (js : JavaScript) (m : Machine) where
  -- `req->cb((void *)req)`, unless `cb` is null.
  unfoldable pub dispatch : Callback → ℕ → Environment → Result Environment
  dispatch (make_callback e) p s = Async.make_callback js e p s
  dispatch open_after p s = open_after_callback p s
  dispatch timer_cb p s = timer_callback js p s
  dispatch signal_cb p s = signal_callback js p s
  dispatch inotify_handler p s = inotify_callback js m p s
  dispatch null_callback p s = ok s

  -- One round of the inner loop, on an entry with the address of its request and its result.
  unfoldable pub complete : ℕ × ℤ → Environment → Result Environment
  unfolding dispatch
  complete (p, res) s = do r ← load p s; dispatch r.cb p (received p res r s)

  unfoldable pub happen : Happening → Environment → Result Environment
  unfolding complete
  happen (completion p res) s = complete (p, res) s
  happen (timer_expires id) s = timer_signal id s
  happen (signal_arrives sig) s = signal_handler sig s

  -- The inner loop: until no entry is complete.
  unfoldable pub drain : List Happening → Environment → Result Environment
  unfolding happen
  drain [] s = ok s
  drain (h ∷ hs) s = happen h s >>= drain hs

  unfoldable pub run_io_uring :
      List (List Happening) → Environment → Result (Progress × Environment)
  unfolding drain goes_on
  run_io_uring [] s = if goes_on s then ok (waiting, s) else ok (returned, s)
  run_io_uring (hs ∷ rest) s =
      let round = drain hs s >>= run_io_uring rest in if goes_on s then round else ok (returned, s)
