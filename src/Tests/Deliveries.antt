-- ===== src/Tests/Deliveries.antt =====
-- Requests from their calls to their callbacks, and where the count goes wrong.
use no_js.Base.{
  ℕ, ◌+◌, ◌≤◌, Option, none, some, [], ◌∷◌, ◌≡◌, ◌≢◌, refl, arith, Returns, true, false, ok, fault,
  dangling_context, ◌>>=◌, get_elem?,
}
use no_js.Base.Dict.{find, occurs, erase}
use no_js.Base.Int.{ℤ, pos, decr}
use no_js.Env.{
  Environment, read, onread, prep_read, prep_accept, prep_nop, ontimeout, onsignal, event_name,
  holder, TimerContext, SignalContext,
}
use no_js.Args.{Args, number, function, arg, int_arg, view_arg, number_arg_or}
use no_js.Async.{JavaScript}
use no_js.Uring.Launch.{launched}
use no_js.Io.{read_write_request, transfer_body}
use no_js.Net.{is_minus_one}
use no_js.Timer.{TimerAnswers, timer_handler, clear_timer, expire, is_nonzero}
use no_js.Loop.Timers.{at_timeout, after_timeout, context, timer_handler-runs_out}
use no_js.Signal.{signal_handler, signal_request, unregister_signal, live_context}
use no_js.Inotify.{on, off}
use no_js.Loop.{complete, drain, completion, timer_expires, goes_on}
use no_js.Loop.Delivery.{handled, at_call, released, reading, read_write_request-delivered}
use no_js.Loop.Connections.{accepting, ListensAt, drain-accepting}
use no_js.Loop.Listeners.{signal_handler-listeners, signal_after_unregister}
use no_js.Loop.Defects.{clear_timer-unknown, expire-clears_itself, on-after_off}
use no_js.Tests.{
  idle-Calls, idle, machine, start, block, view, read_args, reading_state, watcher, watching_state,
}

arg-read_args : arg read_args 3 ≡ function 7
unfolding arg
arg-read_args = refl

int_arg-read_args : int_arg read_args 0 ≡ ok (pos 5)
unfolding int_arg
int_arg-read_args = refl

view_arg-read_args : view_arg read_args 1 ≡ ok view
unfolding view_arg
view_arg-read_args = refl

read_write_request-delivered_example :
    let offset = number_arg_or read_args 2 (pos 0) in
    let r = handled read (transfer_body read (pos 5) offset block) onread 7 in
    (t : Environment) × (read_write_request read read_args start ≡ ok t)
    × (find 1 t.ring ≡ some (prep_read (pos 5) block offset))
    × (complete idle machine (1, pos 10) t
        ≡ ok (released 1 (idle 7 (pos 10) (at_call r (pos 10) 7 start))))
read_write_request-delivered_example =
    read_write_request-delivered idle idle-Calls machine reading read_args (pos 5) view 7 (pos 10)
      start int_arg-read_args view_arg-read_args (omega arith) arg-read_args

-- A socket that listens, with function 7.
abbrev pub listening_state : Environment
listening_state =
    launched (accepting (pos 4) 7 (pos 0)) (prep_accept (pos 4) 0) (record start { contexts = 1 })

pub listening : ListensAt 1 (pos 4) 7 (pos 0) listening_state
unfolding find
listening = (refl, omega arith)

pub accept_in_ring : find 1 listening_state.ring ≡ some (prep_accept (pos 4) 0)
unfolding find
accept_in_ring = refl

drain-accepting_example :
    Returns
      (λ t.
        (find 1 t.ring ≡ some (prep_accept (pos 4) 0)) × ((res : ℤ) × ListensAt 1 (pos 4) 7 res t))
      (drain idle machine (completion 1 (pos 6) ∷ completion 1 (pos 8) ∷ []) listening_state)
drain-accepting_example =
    drain-accepting idle idle-Calls machine 1 (pos 4) 7 (pos 0) (pos 6 ∷ pos 8 ∷ []) listening_state
      listening accept_in_ring

abbrev listen_args : Args
listen_args = number (pos 4) ∷ number (pos 10) ∷ function 7 ∷ []

int_arg-listen_args : int_arg listen_args 0 ≡ ok (pos 4)
unfolding int_arg
int_arg-listen_args = refl

arg-listen_args : arg listen_args 2 ≡ function 7
unfolding arg
arg-listen_args = refl

no_error : is_minus_one (pos 0) ≡ false
unfolding is_minus_one
no_error = refl

-- Signal 10 has one listener.
abbrev listener : SignalContext
listener = record { address = 1; object = holder (event_name onsignal) 7; sig = 10 }

abbrev signal_state : Environment
signal_state = record start { next_address = 2; signal_map = (10, listener ∷ []) ∷ [] }

has_listener : find 10 signal_state.signal_map ≡ some (listener ∷ [])
unfolding find
has_listener = refl

signal_handler-listeners_example :
    Returns
      (λ t.
        (i : ℕ) (c : SignalContext)
        → get_elem? (listener ∷ []) i ≡ some c
        → (find (2 + i) t.heap ≡ some (signal_request c.address))
          × (find (2 + i) t.ring ≡ some prep_nop))
      (signal_handler 10 signal_state)
signal_handler-listeners_example =
    signal_handler-listeners 10 (listener ∷ []) signal_state has_listener

abbrev signal_args : Args
signal_args = number (pos 10) ∷ []

int_arg-signal_args : int_arg signal_args 0 ≡ ok (pos 10)
unfolding int_arg
int_arg-signal_args = refl

destroyed : live_context 1 (erase 10 signal_state.signal_map) ≡ none
unfolding live_context erase
destroyed = refl

signal_after_unregister_example :
    (signal_handler 10 signal_state >>= λ t.
    unregister_signal signal_args t >>= λ u. complete idle machine (2, pos 0) u)
    ≡ fault dangling_context
signal_after_unregister_example =
    signal_after_unregister idle machine 10 listener signal_args (pos 10) (pos 0) signal_state
      has_listener int_arg-signal_args refl destroyed

no_timer : find 9 reading_state.timer_map ≡ none
unfolding find
no_timer = refl

clear_timer-unknown_example :
    let t = clear_timer 9 reading_state in
    (goes_on t ≡ false) × (t.ring ≡ reading_state.ring) × (t.timer_map ≡ reading_state.timer_map)
clear_timer-unknown_example = clear_timer-unknown 9 reading_state no_timer refl refl

no_timers : find 5 start.timer_map ≡ none
unfolding find
no_timers = refl

-- A timer with id 5, whose function clears it.
abbrev clears_5 : JavaScript
clears_5 f v s = clear_timer 5 s

abbrev once_7 : TimerContext
once_7 = record { interval = false; object = holder (event_name ontimeout) 7 }

abbrev timer_state : Environment
timer_state = record start { pending = 1; timer_map = (5, once_7) ∷ [] }

has_timer : find 5 timer_state.timer_map ≡ some once_7
unfolding find
has_timer = refl

one_timer : occurs 5 timer_state.timer_map ≤ 1
unfolding occurs
one_timer = omega arith

expire-clears_itself_example :
    let t = expire clears_5 5 once_7 timer_state in
    (t.pending ≡ decr (decr timer_state.pending))
    × (t.ring ≡ timer_state.ring)
    × (t.timer_map ≡ erase 5 timer_state.timer_map)
expire-clears_itself_example =
    expire-clears_itself clears_5 5 7 once_7 timer_state has_timer one_timer refl refl (λ s. refl)

has_watcher : find 1 watching_state.inotify_map ≡ some (watcher ∷ [])
unfolding find
has_watcher = refl

on-after_off_example :
    Returns
      (λ (v : Option (ℕ × ℕ) × Environment).
        (goes_on v.1 ≡ false) × (v.1.ring ≡ watching_state.ring) × (find 2 v.1.inotify_map ≢ none))
      (on 8 (some 2) (off (some 1) none (pos 0) watching_state).1)
on-after_off_example =
    on-after_off 1 2 8 (watcher ∷ []) watching_state has_watcher refl refl refl refl

abbrev answers : TimerAnswers
answers = record { created = some 5; accepts = λ t. true }

timer_handler-runs_out_example :
    drain idle machine
      (timer_expires 5 ∷ completion 1 (pos 0) ∷ [])
      (timer_handler answers 7 (pos 1500) (pos 0) start).1
    ≡ ok (after_timeout false 5 1 (idle 7 (pos 0) (at_timeout 5 (context false 7) 7 (pos 0) start)))
unfolding is_nonzero
timer_handler-runs_out_example =
    timer_handler-runs_out idle machine answers 5 7 (pos 1500) (pos 0) (pos 0) start idle-Calls refl
      refl no_timers
