-- ===== src/Tests/Run.antt =====
-- The loop, on a program that reads once.
use no_js.Base.{
  ℕ, Option, none, some, List, [], ◌∷◌, ◌≡◌, ◌≢◌, ◌↔◌, refl, arith, Returns, false, ok, sym, ◌∙◌,
  ◌⊎◌,
}
use no_js.Base.Dict.{find, occurs}
use no_js.Base.Int.{ℤ, pos}
use no_js.Env.{Environment, Request, TimerContext, ontimeout, event_name, get_function}
use no_js.Async.{make_context_callback, call_if, call_function}
use no_js.Uring.Ownership.{IsOwned}
use no_js.Uring.{prepare}
use no_js.Io.{read_call}
use no_js.Loop.{Happening, completion, run_io_uring, goes_on}
use no_js.Loop.Calls.{Calls}
use no_js.Loop.Calls
use no_js.Loop.Safety.{MayDrain, CanFollow}
use no_js.Loop.Counting.{CleanCalls, IsCounted, CleanCalls-IsCounted}
use no_js.Loop.Counting
use no_js.Loop.CallOwnership.{Calls-IsOwned, Calls-Keeps, Keeps}
use no_js.Loop.Run.{MayRun, Settled, run_io_uring-Settled, goes_on_iff}
use no_js.Tests.{idle, idle-Calls, machine, start, read_args, read_request, reading_state}

pub idle-Clean : (f : ℕ) (v : ℤ) (s : Environment) → CleanCalls s (idle f v s)
idle-Clean f v s = Counting.done

call_if-idle :
    (f : Option ℕ) (v : ℤ) (s : Environment) → (call_if idle f v s).timer_map ≡ s.timer_map
unfolding call_if call_function
call_if-idle none v s = refl
call_if-idle (some f) v s = refl

pub idle-keeps :
    (id : ℕ) (c : TimerContext) (s : Environment)
    → c.interval ≡ false
    → find id s.timer_map ≡ some c
    → find id (make_context_callback idle ontimeout c.object (pos 0) s).timer_map ≢ none
unfolding make_context_callback
idle-keeps id c s one_shot there =
    rw (call_if-idle (get_function c.object (event_name ontimeout)) (pos 0) s, there) (λ e. cc)

pub read_call-start : read_call read_args start ≡ ok reading_state
unfolding read_call no_js.Io.read_write_request no_js.Args.int_arg no_js.Args.view_arg
    no_js.Uring.submit_request no_js.Uring.load find prepare no_js.Args.number_arg_or
    no_js.Args.context_arg
read_call-start = refl

pub script : CleanCalls start reading_state
script = Counting.then_call Counting.done (Calls.reads read_args read_call-start) tt

pub start-IsOwned : IsOwned [] start
unfolding occurs
start-IsOwned = record {
  balance = λ a. refl;
  once = λ a. omega arith;
  fresh = λ a k. refl;
  formed = tt;
}

pub reading-IsOwned : IsOwned [] reading_state
reading-IsOwned =
    Calls-IsOwned [] (Calls.then_call Calls.done (Calls.reads read_args read_call-start))
      start-IsOwned

pub in_ring : find 1 reading_state.ring ≢ none
unfolding find
in_ring = λ e. cc

in_heap : find 1 reading_state.heap ≡ some read_request
unfolding find
in_heap = refl

pub can_follow :
    (r : Request)
    → find 1 reading_state.heap ≡ some r
    → CanFollow r.cb r.user reading_state.signal_map
can_follow r e = let same : read_request ≡ r = cc (sym in_heap ∙ e) in rw (← same) tt

abbrev pub round : List Happening
round = completion 1 (pos 10) ∷ []

may_drain : MayDrain idle machine round reading_state
may_drain = ((in_ring, can_follow), λ t e. tt)

pub may_run : MayRun idle machine (round ∷ []) reading_state
may_run = (may_drain, λ t e. tt)

run_io_uring-Settled_example :
    Returns Settled (run_io_uring idle machine (round ∷ []) reading_state)
run_io_uring-Settled_example =
    run_io_uring-Settled idle idle-Clean idle-keeps machine (round ∷ []) reading_state
      reading-IsOwned refl may_run

goes_on_iff_example : (goes_on reading_state ≡ false) ↔ (
    (reading_state.stop ≡ 1)
    ⊎ ((reading_state.ring ≡ []) × (reading_state.timer_map ≡ []) × (reading_state.heap ≡ [])))
goes_on_iff_example = goes_on_iff reading_state reading-IsOwned refl (omega arith)

Calls-IsOwned_example : IsOwned [] reading_state
Calls-IsOwned_example =
    Calls-IsOwned [] (Calls.then_call Calls.done (Calls.reads read_args read_call-start))
      start-IsOwned

Calls-Keeps_example : Keeps 1 read_request reading_state.heap reading_state.ring 2
Calls-Keeps_example =
    Calls-Keeps 1 read_request (idle-Calls 7 (pos 0) reading_state) in_heap (omega arith)
