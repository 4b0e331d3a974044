-- ===== src/Loop/Counting.antt =====
-- `pending`, by which `RunIOUring` decides to go on: how it relates to what is outstanding.
mod Launches
pub use Launches.{
  CountsTo, IsCounted, launch-IsCounted, submit_read_request-IsCounted, signal_handler-IsCounted,
  timer_signal-IsCounted,
}
use Launches.{launch_context-IsCounted}
use no_js.Base.{
  ℕ, suc, zero, ◌+◌, ◌%◌, Option, none, some, List, [], ◌∷◌, ◌≡◌, ◌≢◌, refl, arith, Every,
  Every->>=, Every-bind, Every-ok, ◌==◌, if_both, Bool-cases, Option-cases, inl, inr, length,
}
use no_js.Base.Dict.{Dict, find, insert, length-erase}
use no_js.Base.Int.{ℤ, pos, negsuc, int_mod, incr, decr}
use no_js.Env.{Environment, Request, Sqe, TimerContext, InotifyContext, SignalContext}
use no_js.Uring.Launch.{launch, launch_lem}
use no_js.Uring.Ownership.{IsFormed}
use no_js.Io.{launch_context}
use no_js.Timer.{TimerAnswers, spec, timer_handler, clear_timer, timer_signal, timer_request}
use no_js.Signal.{
  register_signal, unregister_signal, signal_handler, notify_listeners, signal_request,
}
use no_js.Inotify.{
  on, off, submit_read_request, remove_watch, keep_or_remove, off_listeners, remove_listener,
}
use no_js.Args.{int_arg, function_arg, Args}
use no_js.Loop.Launching.{
  Every-read_call, Every-write_call, Every-readv_call, Every-writev_call, Every-close_call,
  Every-connect_call, Every-unix_connect, Every-listen, Every-open_at,
}
use no_js.Loop.CallOwnership.{inotify_request-IsFormed}
use no_js.Loop.Calls.{
  Call, reads, writes, reads_vector, writes_vector, closes, connects, connects_unix, listens, opens,
  sets_timer, clears_timer, registers, unregisters, watches, unwatches, interrupts, runs_out,
}

-- A call that treats the count as it is meant: a new timer has an id of its own, a timer is cleared
-- only while it is in the map, and no watch is the last one that is removed.
abbrev pub IsClean : {s t : Environment} → Call s t → Type 0
IsClean (sets_timer k f timeout interval s) =
    (id : ℕ) → k.created ≡ some id → find id s.timer_map ≡ none
IsClean (clears_timer id s) = find id s.timer_map ≢ none
IsClean (unwatches wd id ret s) = (off wd id ret s).1.pending ≡ s.pending
IsClean _ = Unit

pub data CleanCalls (s : Environment) : Environment → Type 0 where
  done : CleanCalls s s
  then_call : {t u : Environment} → CleanCalls s t → (c : Call t u) → IsClean c → CleanCalls s u

insert_new :
    (id : ℕ) (c : TimerContext) (m : Dict TimerContext)
    → find id m ≡ none
    → insert id c m ≡ (id, c) ∷ m
unfolding insert
insert_new id c m e = rw (e, insert)

timer_handler-IsCounted :
    (k : TimerAnswers) (f : ℕ) (timeout interval : ℤ) (s : Environment)
    → ((id : ℕ) → k.created ≡ some id → find id s.timer_map ≡ none)
    → IsCounted s
    → IsCounted (timer_handler k f timeout interval s).1
unfolding timer_handler
timer_handler-IsCounted k f timeout interval s new c = elim (Option-cases k.created) [
  | inl failed ↦ rw (failed, timer_handler) c
  | inr (id, created) ↦ elim (Bool-cases (k.accepts (spec timeout interval))) [
    | inl accepted ↦
        rw (created, timer_handler)
          (rw accepted (rw (insert_new id _ s.timer_map (new id created)) (omega arith)))
    | inr refused ↦ rw (created, timer_handler) (rw refused c)
  ]
]

-- Clearing a timer that is in the map takes it out of the count.
pub clear_timer-IsCounted :
    (id : ℕ) (s : Environment)
    → find id s.timer_map ≢ none
    → IsCounted s
    → IsCounted (clear_timer id s)
unfolding clear_timer
clear_timer-IsCounted id s there c = omega (arith, length-erase id s.timer_map there)

on-IsCounted :
    (f : ℕ) (wd : Option ℕ) (s : Environment)
    → IsCounted s
    → Every (λ (v : Option (ℕ × ℕ) × Environment). IsCounted v.1) (on f wd s)
unfolding on
on-IsCounted f none s c = c
on-IsCounted f (some wd) s c =
    Every-bind IsCounted (λ (v : Option (ℕ × ℕ) × Environment). IsCounted v.1)
      (submit_read_request counted) _ (submit_read_request-IsCounted counted c) (λ t c'. c')
  where
    counted : Environment
    counted = record s { count = incr s.count }

-- `off` touches neither the ring nor the timers.
abbrev SameOutstanding : Environment → Environment → Type 0
SameOutstanding s t = (t.ring ≡ s.ring) × (t.timer_map ≡ s.timer_map)

remove_watch_same :
    (wd : ℕ) (ret : ℤ) (s : Environment) → SameOutstanding s (remove_watch wd ret s).1
unfolding remove_watch
remove_watch_same wd (pos zero) s = elim (Bool-cases (decr s.count == 0)) [
  | inl last ↦ rw last (refl, refl)
  | inr more ↦ rw more (refl, refl)
]
remove_watch_same wd (pos (suc n)) s = (refl, refl)
remove_watch_same wd (negsuc n) s = (refl, refl)

keep_or_remove_same :
    (wd : ℕ) (cs : List InotifyContext) (ret : ℤ) (s : Environment)
    → SameOutstanding s (keep_or_remove wd cs ret s).1
unfolding keep_or_remove
keep_or_remove_same wd [] ret s = remove_watch_same wd ret s
keep_or_remove_same wd (c ∷ cs) ret s = (refl, refl)

off_listeners_same :
    (wd : ℕ) (id : Option ℕ) (ret : ℤ) (cs : List InotifyContext) (s : Environment)
    → SameOutstanding s (off_listeners wd id ret cs s).1
unfolding off_listeners
off_listeners_same wd none ret cs s = remove_watch_same wd ret s
off_listeners_same wd (some id) ret cs s = keep_or_remove_same wd (remove_listener id cs) ret s

pub off_same :
    (wd id : Option ℕ) (ret : ℤ) (s : Environment) → SameOutstanding s (off wd id ret s).1
unfolding off
off_same none id ret s = (refl, refl)
off_same (some wd) id ret s = elim (Option-cases (find wd s.inotify_map)) [
  | inl unknown ↦ rw (unknown, off) (refl, refl)
  | inr (cs, known) ↦ rw (known, off) (off_listeners_same wd id ret cs s)
]

off-IsCounted :
    (wd id : Option ℕ) (ret : ℤ) (s : Environment)
    → (off wd id ret s).1.pending ≡ s.pending
    → IsCounted s
    → IsCounted (off wd id ret s).1
off-IsCounted wd id ret s kept c =
    let (ring, timers) = off_same wd id ret s in rw (kept, ring, timers) c

register_signal-IsCounted :
    (args : Args) (s : Environment) → IsCounted s → Every IsCounted (register_signal args s)
unfolding register_signal
register_signal-IsCounted args s c =
    Every->>= IsCounted (function_arg args 1) _ λ f. Every->>= IsCounted (int_arg args 0) _ λ n. c

unregister_signal-IsCounted :
    (args : Args) (s : Environment) → IsCounted s → Every IsCounted (unregister_signal args s)
unfolding unregister_signal
unregister_signal-IsCounted args s c = Every->>= IsCounted (int_arg args 0) _ λ n. c

Call-IsCounted : {s t : Environment} (c : Call s t) → IsClean c → IsCounted s → IsCounted t
Call-IsCounted {s} (reads args e) k c =
    Every-ok _ _ (Every-read_call _ s (launch_context-IsCounted s c) args) e
Call-IsCounted {s} (writes args e) k c =
    Every-ok _ _ (Every-write_call _ s (launch_context-IsCounted s c) args) e
Call-IsCounted {s} (reads_vector args e) k c =
    Every-ok _ _ (Every-readv_call _ s (launch_context-IsCounted s c) args) e
Call-IsCounted {s} (writes_vector args e) k c =
    Every-ok _ _ (Every-writev_call _ s (launch_context-IsCounted s c) args) e
Call-IsCounted {s} (closes args e) k c =
    Every-ok _ _ (Every-close_call _ s (launch_context-IsCounted s c) args) e
Call-IsCounted {s} (connects args e) k c =
    Every-ok _ _ (Every-connect_call _ s (launch_context-IsCounted s c) args) e
Call-IsCounted {s} (connects_unix args e) k c =
    Every-ok _ _ (Every-unix_connect _ s (launch_context-IsCounted s c) args) e
Call-IsCounted {s} (listens args ret e) k c =
    Every-ok _ _ (Every-listen _ s (launch_context-IsCounted s c) args ret c) e
Call-IsCounted {s} (opens args e) k c =
    Every-ok _ _ (Every-open_at _ s (launch_context-IsCounted s c) args) e
Call-IsCounted (sets_timer k f timeout interval s) new c =
    timer_handler-IsCounted k f timeout interval s new c
Call-IsCounted (clears_timer id s) there c = clear_timer-IsCounted id s there c
Call-IsCounted {s} (registers args e) k c = Every-ok _ _ (register_signal-IsCounted args s c) e
Call-IsCounted {s} (unregisters args e) k c = Every-ok _ _ (unregister_signal-IsCounted args s c) e
Call-IsCounted {s} (watches f wd e) k c = Every-ok _ _ (on-IsCounted f wd s c) e
Call-IsCounted {s} (interrupts sig e) k c = Every-ok _ _ (signal_handler-IsCounted sig s c) e
Call-IsCounted {s} (runs_out id e) k c = Every-ok _ _ (timer_signal-IsCounted id s c) e
Call-IsCounted (unwatches wd id ret s) k c = off-IsCounted wd id ret s k c

-- Clean native calls keep `pending` the number of the entries in the ring and of the timers in the
-- map.
pub CleanCalls-IsCounted : {s t : Environment} → CleanCalls s t → IsCounted s → IsCounted t
CleanCalls-IsCounted done c = c
CleanCalls-IsCounted (then_call cs call k) c = Call-IsCounted call k (CleanCalls-IsCounted cs c)
