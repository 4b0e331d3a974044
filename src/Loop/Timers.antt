-- ===== src/Loop/Timers.antt =====
-- What a timer does, from `setTimeout` or `setInterval` to its callback (core/timer.cc).
use no_js.Base.{
  ℕ, suc, ◌<◌, none, some, [], ◌∷◌, ok, ◌≡◌, refl, arith, Bool, true, false, ◌>>=◌, or_fault,
  ==_refl, if◌then◌else◌,
}
use no_js.Base.Dict.{Dict, find, erase, insert, update, find-insert}
use no_js.Base.Int.{ℤ, pos, incr, decr}
use no_js.Env.{
  Environment, Request, TimerContext, ontimeout, event_name, holder, get_function-holder,
}
use no_js.Uring.{load, free, prepare}
use no_js.Uring.Launch.{launch_lem}
use no_js.Async.{JavaScript, call_if, call_function, make_context_callback}
use no_js.Timer.{
  TimerAnswers, spec, is_nonzero, timer_handler, timer_request, timer_signal, timer_callback,
  timer_of, expire, expire_if,
}
use no_js.Timer.Calls.{interval_flag-time_spec}
use no_js.Inotify.{Machine}
use no_js.Loop.{drain, happen, complete, dispatch, timer_expires, completion}
use no_js.Loop.Calls.{Calls}
use no_js.Loop.CallOwnership.{Calls-Keeps}

-- The state in which the function of a timer runs for the first time: the timer is in the map and
-- counted, and the request of its signal is allocated at `p`.
pub at_timeout : ℕ → TimerContext → ℕ → ℤ → Environment → Environment
at_timeout id c f res s = record s {
  timer_map = insert id c s.timer_map;
  kernel_timers = id ∷ s.kernel_timers;
  heap = (s.next_address, record (timer_request id) { res = res }) ∷ s.heap;
  next_address = suc s.next_address;
  pending = decr (incr (incr s.pending));
  calls = (f, pos 0) ∷ s.calls;
}

-- The state after the callback: a timer that repeats stays, and another one is gone from the map
-- and counted out. The kernel's timers stay.
pub after_timeout : Bool → ℕ → ℕ → Environment → Environment
after_timeout repeats id p u = if repeats then record u { heap = erase p u.heap } else record u {
  heap = erase p u.heap;
  timer_map = erase id u.timer_map;
  pending = decr u.pending;
}

abbrev pub context : Bool → ℕ → TimerContext
context repeats f = record { interval = repeats; object = holder (event_name ontimeout) f }

-- The state after the function, with a timer that does not repeat counted out.
expired : Bool → ℕ → Environment → Environment
expired repeats id u =
    if repeats then u else record u { timer_map = erase id u.timer_map; pending = decr u.pending }

expire-context :
    (js : JavaScript) (id f : ℕ) (repeats : Bool) (s : Environment)
    → expire js id (context repeats f) s
      ≡ expired repeats id (js f (pos 0) (record s { calls = (f, pos 0) ∷ s.calls }))
unfolding expire make_context_callback call_if call_function expired
expire-context js id f repeats s = rw (get_function-holder ontimeout f, call_if) refl

free-expired :
    (repeats : Bool) (id p : ℕ) (u : Environment) (r : Request)
    → find p u.heap ≡ some r
    → free p (expired repeats id u) ≡ ok (after_timeout repeats id p u)
unfolding free load after_timeout expired
free-expired true id p u r found = rw (found, or_fault) refl
free-expired false id p u r found = rw (found, or_fault) refl

find-inserted :
    (id : ℕ) (c : TimerContext) (m : Dict TimerContext)
    → find id m ≡ none
    → find id (insert id c m) ≡ some c
find-inserted id c m new = rw (find-insert id id c m new, ==_refl id) refl

timer_callback-context :
    (js : JavaScript) (id f p : ℕ) (repeats : Bool) (res : ℤ) (w : Environment)
    → ((f : ℕ) (v : ℤ) (s : Environment) → Calls s (js f v s))
    → find p w.heap ≡ some (record (timer_request id) { res = res })
    → p < w.next_address
    → find id w.timer_map ≡ some (context repeats f)
    → timer_callback js p w
      ≡ ok (after_timeout repeats id p (js f (pos 0) (record w { calls = (f, pos 0) ∷ w.calls })))
unfolding timer_callback load timer_of expire_if
timer_callback-context js id f p repeats res w calls found below known =
    rw (found, or_fault)
      (rw (known, expire_if)
        (rw (expire-context js id f repeats w)
          (free-expired repeats id p _ _ (Calls-Keeps p _ (calls f (pos 0) _) found below).0)))

-- When functions do nothing but call native functions: a timer for which the kernel gives a new id
-- and accepts the times is set, it runs out, and the request of its signal completes. This returns
-- in the state after one call of the timer's function, with the request released; the timer is
-- left to its function if its interval is not 0, and else removed from the map and counted out,
-- while the kernel still has the timer, unless its function has cleared it.
pub timer_handler-runs_out :
    (js : JavaScript) (m : Machine) (k : TimerAnswers) (id f : ℕ) (timeout interval res : ℤ)
    (s : Environment)
    → ((f : ℕ) (v : ℤ) (s : Environment) → Calls s (js f v s))
    → k.created ≡ some id
    → k.accepts (spec timeout interval) ≡ true
    → find id s.timer_map ≡ none
    → let repeats = is_nonzero interval in
      drain js m
        (timer_expires id ∷ completion s.next_address res ∷ [])
        (timer_handler k f timeout interval s).1
      ≡ ok (
          after_timeout repeats id s.next_address
            (js f (pos 0) (at_timeout id (context repeats f) f res s)))
unfolding timer_handler drain happen timer_signal complete dispatch load find prepare update erase
    at_timeout
timer_handler-runs_out js m k id f timeout interval res s calls created accepts new =
    rw (created, accepts, interval_flag-time_spec interval)
      (rw (find-inserted id c s.timer_map new, timer_signal)
        (rw
          (launch_lem (timer_request id)
            (record s {
              pending = incr s.pending;
              timer_map = insert id c s.timer_map;
              kernel_timers = id ∷ s.kernel_timers;
            })
            refl)
          (rw (==_refl s.next_address) (
            rw
              (
                timer_callback-context js id f s.next_address (is_nonzero interval) res at_callback
                    calls (rw (==_refl s.next_address) refl) (omega arith)
                    (find-inserted id c s.timer_map new),
                ◌>>=◌,
              )
              refl))))
  where
    c : TimerContext
    c = context (is_nonzero interval) f

    at_callback : Environment
    at_callback = record (at_timeout id c f res s) { calls = s.calls }
