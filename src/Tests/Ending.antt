-- ===== src/Tests/Ending.antt =====
-- A program that reads, writes an answer as the read completes, and ends.
use no_js.Base.{
  ℕ, ◌+◌, ◌≤◌, ◌≡◌, ◌≢◌, refl, sym, ◌∙◌, arith, ◌==◌, if◌then◌else◌, Bool-cases, inl, inr, some,
  none, Option, List, [], ◌∷◌, ok, false, Returns,
}
use no_js.Base.Dict.{find, update, erase}
use no_js.Base.Int.{ℤ, pos}
use no_js.Env.{
  Environment, Request, TimerContext, ontimeout, write, io_body, request_context, prep_write,
  event_name, get_function, get_function-holder, onread,
}
use no_js.Args.{Args, number, bytes}
use no_js.Uring.{prepare}
use no_js.Uring.Launch.{launched}
use no_js.Async.{JavaScript, again, make_context_callback, call_if, call_function}
use no_js.Io.{io_request, write_call}
use no_js.Loop.{Happening, completion, drain, happen, run_io_uring, returned}
use no_js.Loop.Calls
use no_js.Async
use no_js.Uring.Launch.{launch_lem}
use no_js.Loop.Counting.{CleanCalls}
use no_js.Loop.Counting
use no_js.Loop.Safety.{CanFollow, MayDrain}
use no_js.Loop.Work.{IsQuiet, IsFinite, weight, total}
use no_js.Loop.Ending.{Proceeds, run_io_uring-returned}
use no_js.Tests.{machine, block, view, reading_state}
use no_js.Tests.Run.{reading-IsOwned, round, in_ring, can_follow}

abbrev write_args : Args
write_args = number (pos 5) ∷ bytes view ∷ []

abbrev answer : Request
answer = io_request write (io_body (pos 5) (pos 0) block) (request_context none)

abbrev wrote : Environment → Environment
wrote s =
    launched answer (prep_write (pos 5) block (pos 0)) (record s { contexts = s.contexts + 1 })

-- Function 7 writes, without a function of its own, and the others do nothing.
abbrev answering : JavaScript
answering f v s = if f == 7 then wrote s else s

abbrev cost : ℕ → ℕ
cost f = if f == 7 then 1 else 0

write_call-wrote : (s : Environment) → write_call write_args s ≡ ok (wrote s)
unfolding write_call no_js.Io.read_write_request no_js.Args.int_arg no_js.Args.view_arg
    no_js.Args.number_arg_or no_js.Args.context_arg no_js.Io.launch_context no_js.Io.transfer_body
    no_js.Io.is_batch prepare
write_call-wrote s = launch_lem answer (record s { contexts = s.contexts + 1 }) refl

answering-Clean : (f : ℕ) (v : ℤ) (s : Environment) → CleanCalls s (answering f v s)
answering-Clean f v s = elim (Bool-cases (f == 7)) [
  | inl seven ↦
      rw seven (Counting.then_call Counting.done (Calls.writes write_args (write_call-wrote s)) tt)
  | inr other ↦ rw other Counting.done
]

wrote-IsQuiet : (s : Environment) → IsQuiet s → IsQuiet (wrote s)
unfolding again
wrote-IsQuiet s q = record {
  shots = (((_, refl), refl), q.shots);
  timers = q.timers;
  signals = q.signals;
  running = q.running;
}

answering-IsQuiet : (f : ℕ) (v : ℤ) (s : Environment) → IsQuiet s → IsQuiet (answering f v s)
answering-IsQuiet f v s q = elim (Bool-cases (f == 7)) [
  | inl seven ↦ rw seven (wrote-IsQuiet s q)
  | inr other ↦ rw other q
]

answering-total :
    (f : ℕ) (v : ℤ) (s : Environment)
    → total cost (answering f v s).heap ≤ total cost s.heap + cost f
unfolding total weight
answering-total f v s = elim (Bool-cases (f == 7)) [
  | inl seven ↦ rw seven (omega arith)
  | inr other ↦ rw other (omega arith)
]

finite : IsFinite answering cost
finite = record { clean = answering-Clean; quiet = answering-IsQuiet; bound = answering-total }

answering-timers :
    (f : Option ℕ) (v : ℤ) (s : Environment) → (call_if answering f v s).timer_map ≡ s.timer_map
unfolding call_if call_function
answering-timers none v s = refl
answering-timers (some f) v s = elim (Bool-cases (f == 7)) [
  | inl seven ↦ rw seven refl
  | inr other ↦ rw other refl
]

answering-keeps :
    (id : ℕ) (c : TimerContext) (s : Environment)
    → c.interval ≡ false
    → find id s.timer_map ≡ some c
    → find id (make_context_callback answering ontimeout c.object (pos 0) s).timer_map ≢ none
unfolding make_context_callback
answering-keeps id c s one_shot there =
    rw (answering-timers (get_function c.object (event_name ontimeout)) (pos 0) s, there) (λ e. cc)

reading-IsQuiet : IsQuiet reading_state
unfolding again
reading-IsQuiet = record {
  shots = (((_, refl), refl), tt);
  timers = refl;
  signals = refl;
  running = refl;
}

-- The answer is under way, and the read is done.
abbrev answered : Environment
answered =
    let s =
      wrote
        (record reading_state { calls = (7, pos 10) ∷ []; ring = []; pending = 0; contexts = 0 }) in
    record s { heap = (2, answer) ∷ [] }

abbrev written : List Happening
written = completion 2 (pos 3) ∷ []

drain-round : drain answering machine round reading_state ≡ ok answered
unfolding drain happen no_js.Loop.complete no_js.Loop.dispatch Async.make_callback no_js.Uring.load
    find erase update call_function call_if no_js.Async.call_object make_context_callback
    no_js.Async.context_of no_js.Async.destroy no_js.Uring.free again
drain-round = rw (get_function-holder onread 7, call_if) refl

reads_follow : MayDrain answering machine round reading_state
reads_follow = ((in_ring, can_follow), λ t e. tt)

written_there : find 2 answered.ring ≡ some (prep_write (pos 5) block (pos 0))
unfolding find
written_there = refl

write_in_heap : find 2 answered.heap ≡ some answer
unfolding find
write_in_heap = refl

write_follows :
    (r : Request) → find 2 answered.heap ≡ some r → CanFollow r.cb r.user answered.signal_map
write_follows r e = let same : answer ≡ r = cc (sym write_in_heap ∙ e) in rw (← same) tt

may_write : MayDrain answering machine written answered
may_write = (((λ e. absurd (cc (e, written_there))), write_follows), λ t e. tt)

proceeds : Proceeds answering machine (round ∷ written ∷ []) reading_state
proceeds on = (
  omega arith,
  reads_follow,
  λ t e.
      let same : answered ≡ t = cc (sym drain-round ∙ e) in
      rw (← same) (λ still. (omega arith, may_write, λ u e'. tt)),
)

total_small : total cost reading_state.heap ≡ 2
unfolding total weight
total_small = rw (get_function-holder onread 7) refl

run_io_uring-returned_example :
    Returns
      (λ r. (r.0 ≡ returned) × (r.1.ring ≡ []) × (r.1.heap ≡ []))
      (run_io_uring answering machine (round ∷ written ∷ []) reading_state)
run_io_uring-returned_example =
    run_io_uring-returned answering cost finite answering-keeps machine (round ∷ written ∷ [])
      reading_state reading-IsOwned refl reading-IsQuiet (omega (arith, total_small)) proceeds
      (omega (arith, total_small))
