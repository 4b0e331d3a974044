-- ===== src/Timer.antt =====
-- core/timer.cc: timers on POSIX timers. `timer_create`, `timer_settime` and the time at which a
-- timer runs out are the kernel's.
pub mod Calls
pub mod Bounds
use no_js.Base.{
  ℕ, ◌-◌, ◌*◌, ◌/◌, ◌%◌, ◌^◌, suc, zero, Bool, true, false, ◌||◌, not, Option, none, some, List, [],
  ◌∷◌, Result, ok, fault, wrong_struct, dangling_context, ◌>>=◌, or_fault, ◌==◌, if◌then◌else◌,
}
use no_js.Base.Dict.{find, insert, erase}
use no_js.Base.Int.{ℤ, pos, negsuc, neg}
use no_js.Env.{
  ontimeout, event_name, holder, nop, timer_cb, timer_id, plain, Request, UserData, Environment,
  TimerContext,
}
use no_js.Uring.{load, free, inc_pending, dec_pending}
use no_js.Uring.Launch.{launch}
use no_js.Async.{JavaScript, make_context_callback}

-- `/` and `%` of C, which round towards 0.
unfoldable pub quot : ℤ → ℕ → ℤ
quot (pos n) d = pos (n / d)
quot (negsuc n) d = neg (suc n / d)

unfoldable pub rem : ℤ → ℕ → ℤ
rem (pos n) d = pos (n % d)
rem (negsuc n) d = neg (suc n % d)

unfoldable pub times_million : ℤ → ℤ
times_million (pos n) = pos (n * 1000 * 1000)
times_million (negsuc n) = negsuc (suc n * 1000 * 1000 - 1)

pub record TimeSpec : Type 0 where
  pub tv_sec : ℤ
  pub tv_nsec : ℤ

pub record TimerSpec : Type 0 where
  pub it_interval : TimeSpec
  pub it_value : TimeSpec

-- A number of milliseconds as seconds and nanoseconds.
unfoldable pub time_spec : ℤ → TimeSpec
unfolding quot rem times_million
time_spec ms = record { tv_sec = quot ms 1000; tv_nsec = times_million (rem ms 1000) }

unfoldable pub is_nonzero : ℤ → Bool
is_nonzero (pos n) = not (n == 0)
is_nonzero (negsuc n) = true

-- `interval_second || interval_nsecond`.
unfoldable pub interval_flag : TimeSpec → Bool
unfolding is_nonzero
interval_flag t = is_nonzero t.tv_sec || is_nonzero t.tv_nsec

-- The bits of `(u_int64_t)-1`.
abbrev pub failed_id : ℕ
failed_id = 2 ^ 64 - 1

-- What the kernel answers: the id that `timer_create` gives, and whether `timer_settime` accepts
-- the times.
pub record TimerAnswers : Type 0 where
  pub created : Option ℕ
  pub accepts : TimerSpec → Bool

-- The times that are set.
unfoldable pub spec : ℤ → ℤ → TimerSpec
unfolding time_spec
spec timeout interval = record { it_interval = time_spec interval; it_value = time_spec timeout }

-- `timerHandler`, from the function, the time and the interval (0 if it is not given).
unfoldable pub timer_handler : TimerAnswers → ℕ → ℤ → ℤ → Environment → ℕ × Environment
unfolding time_spec interval_flag
timer_handler k f timeout interval s = elim k.created [
  | none ↦ (failed_id, s)
  | some id ↦
      let t : Environment = record s { kernel_timers = id ∷ s.kernel_timers } in
      if k.accepts (spec timeout interval)
      then (id, inc_pending (record t { timer_map = insert id context t.timer_map }))
      else (failed_id, t)
]
  where
    context : TimerContext
    context = record {
      interval = interval_flag (time_spec interval);
      object = holder (event_name ontimeout) f;
    }

-- `timer_delete`; an id that the kernel does not know changes nothing.
unfoldable pub timer_delete : ℕ → List ℕ → List ℕ
timer_delete id [] = []
timer_delete id (timer ∷ timers) = if timer == id then timers else timer ∷ timer_delete id timers

-- `clearTimer`.
unfoldable pub clear_timer : ℕ → Environment → Environment
unfolding timer_delete
clear_timer id s =
    dec_pending (record s {
      timer_map = erase id s.timer_map;
      kernel_timers = timer_delete id s.kernel_timers;
    })

abbrev pub timer_request : ℕ → Request
timer_request id = record {
  op = nop;
  cb = timer_cb;
  res = pos 0;
  user = timer_id id;
  flag = 0;
  body = plain;
}

-- `signalHandler`, when the timer `id` runs out. Its context lives as long as its entry in the map.
unfoldable pub timer_signal : ℕ → Environment → Result Environment
unfolding launch
timer_signal id s = elim (find id s.timer_map) [
  | none ↦ fault dangling_context
  | some c ↦ launch (timer_request id) s
]

unfoldable pub timer_of : UserData → Result ℕ
timer_of (timer_id id) = ok id
timer_of _ = fault wrong_struct

module _ (js : JavaScript) where
  -- The callback of a timer that is in the map: the function is called, and a timer that does not
  -- repeat leaves the map.
  unfoldable pub expire : ℕ → TimerContext → Environment → Environment
  expire id c s =
      let t = make_context_callback js ontimeout c.object (pos 0) s in
      if c.interval then t else dec_pending (record t { timer_map = erase id t.timer_map })

  unfoldable pub expire_if : ℕ → Option TimerContext → Environment → Environment
  unfolding expire
  expire_if id none s = s
  expire_if id (some c) s = expire id c s

  -- `timer_cb`.
  unfoldable pub timer_callback : ℕ → Environment → Result Environment
  unfolding expire_if timer_of
  timer_callback p s = do
    r ← load p s
    id ← timer_of r.user
    free p (expire_if id (find id s.timer_map) s)
