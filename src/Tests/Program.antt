-- ===== src/Tests/Program.antt =====
-- The program as a whole, its timers and its watches, at small states.
use no_js.Base.{
  ℕ, ◌+◌, ◌*◌, ◌^◌, ◌<◌, ◌≡◌, refl, arith, Option, none, some, List, [], ◌∷◌, ◌++◌, Result, ok,
  fault, Returns, join, length, true,
}
use no_js.Base.Bytes.{Bytes}
use no_js.Base.Dict.{find}
use no_js.Base.Int.{pos, negsuc, pos_part, neg_part}
use no_js.Env.{Environment, environment, InotifyContext}
use no_js.Io.{read_call}
use no_js.Timer.{time_spec, TimerAnswers, timer_handler, clear_timer}
use no_js.Timer.Bounds.{time_spec_bounds, clear_timer-timer_handler}
use no_js.Inotify.{Machine, InotifyEvent, inotify_request, on, off}
use no_js.Inotify.Listeners.{on-off}
use no_js.Loop.{Happening, complete, received, run_io_uring}
use no_js.Loop.Abstract.{in_flight, Trace}
use no_js.Loop.Refinement.{run_io_uring-Trace}
use no_js.Inotify.Notifying.{notify_all}
use no_js.Loop.Watching.{reading_again, without_request, complete-notify_all}
use no_js.Entry.{Engine, Surroundings}
use no_js.Tests.{
  idle, idle-Calls, machine, start, read_args, reading_state, watcher, watching_state,
}
use no_js.Tests.Run.{reading-IsOwned, may_run, round}

run_io_uring-Trace_example :
    Returns
      (λ r.
        (before : List (List Happening)) × (after : List (List Happening)) × (round ∷ []
          ≡ before ++ after)
        × Trace (in_flight reading_state) (join before) (in_flight r.1))
      (run_io_uring idle machine (round ∷ []) reading_state)
run_io_uring-Trace_example =
    run_io_uring-Trace idle idle-Calls machine (round ∷ []) reading_state reading-IsOwned may_run

-- A file of four bytes, of which `read` gives three.
abbrev surroundings : Surroundings
surroundings = record {
  first = 1;
  inotify_fd = some 3;
  st_size = 4;
  fresh = 9 ∷ 9 ∷ 9 ∷ 9 ∷ 9 ∷ [];
  read_answer = some (97 ∷ 98 ∷ 99 ∷ []);
}

abbrev after : Result Environment → Option Environment
after (ok s) = some s
after (fault e) = none

abbrev not_empty : Bytes → Option ℕ
not_empty [] = none
not_empty (b ∷ bs) = some 1

-- Every source is the script that reads once.
abbrev engine : Engine
engine = record { compile = not_empty; run = λ code s. after (read_call read_args s) }

abbrev answers : TimerAnswers
answers = record { created = some 5; accepts = λ t. true }

no_timers : find 5 start.timer_map ≡ none
unfolding find
no_timers = refl

clear_timer-timer_handler_example :
    let (v, t) = timer_handler answers 7 (pos 1500) (pos 0) start in
    (v ≡ 5) × (clear_timer v t ≡ start)
clear_timer-timer_handler_example =
    clear_timer-timer_handler answers 5 7 (pos 1500) (pos 0) start refl refl no_timers (omega arith)

time_spec_bounds_example :
    let t = time_spec (negsuc 1499) in
    (pos_part t.tv_sec * 1000000000 + pos_part t.tv_nsec ≡ 0 * 1000000)
    × (neg_part t.tv_sec * 1000000000 + neg_part t.tv_nsec ≡ 1500 * 1000000)
    × (pos_part t.tv_nsec < 1000000000)
    × (neg_part t.tv_nsec < 1000000000)
    × (pos_part t.tv_sec < 2 ^ 31)
    × (neg_part t.tv_sec < 2 ^ 31)
time_spec_bounds_example = time_spec_bounds (negsuc 1499) (omega arith) (omega arith)

has_watcher : find 1 watching_state.inotify_map ≡ some (watcher ∷ [])
unfolding find
has_watcher = refl

on-off_example :
    Returns
      (λ (v : Option (ℕ × ℕ) × Environment).
        (v.0 ≡ some (1, 1))
        × ((off (some 1) (some 1) (pos 0) v.1).1.inotify_map ≡ watching_state.inotify_map)
        × ((off (some 1) (some 1) (pos 0) v.1).1.count ≡ 2))
      (on 8 (some 1) watching_state)
on-off_example =
    on-off 8 1 (some (watcher ∷ [])) watching_state has_watcher ((λ e. cc), (omega arith, tt))
      (omega arith)

-- A file is changed once, and the freed request can still be read.
abbrev change : List InotifyEvent
change = record { wd = 1; mask = 2; len = 0 } ∷ []

abbrev changing : Machine
changing = record { fuel = 8; events_of = λ r. change; after_free = λ r. some environment }

few_listeners :
    (wd : ℕ) (cs : List InotifyContext)
    → find wd watching_state.inotify_map ≡ some cs
    → length cs < 8
unfolding find
few_listeners wd cs found = ground arith

there : find 2 watching_state.heap ≡ some (inotify_request (pos 3) 1)
unfolding find
there = refl

complete-notify_all_example :
    complete idle changing (2, pos 16) watching_state
    ≡ ok (
        reading_again (
          without_request 2 (
            notify_all idle change
              (received 2 (pos 16) (inotify_request (pos 3) 1) watching_state))))
complete-notify_all_example =
    complete-notify_all idle idle-Calls (λ f v s. refl) changing 2 16 1 (pos 3) change
      watching_state there (omega arith) refl refl (omega arith) few_listeners refl

-- The freed request cannot be read.
abbrev trapping : Machine
trapping = record changing { after_free = λ r. none }
