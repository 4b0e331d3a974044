-- ===== src/Timer/Bounds.antt =====
-- The numbers of `timerHandler` in the range of `int`, and setting and clearing a timer.
use no_js.Base.{
  ==_refl, Option, List, ◌∷◌, ℕ, zero, suc, ◌+◌, ◌*◌, ◌/◌, ◌%◌, ◌^◌, ◌<◌, ◌≤◌, ◌≡◌, refl, arith,
  none, some, true, false, Option-cases, inl, inr, ◌⊎◌,
}
use no_js.Base.Dict.{find, erase-insert}
use no_js.Base.Int.{ℤ, pos, negsuc, neg, int_mod, incr, decr, pos_part, neg_part}
use no_js.Env.{Environment}
use no_js.Timer.{
  TimerAnswers, time_spec, spec, quot, rem, times_million, timer_handler, clear_timer, failed_id,
  timer_delete,
}

neg-parts : (q : ℕ) → (pos_part (neg q) ≡ 0) × (neg_part (neg q) ≡ q)
neg-parts zero = (refl, refl)
neg-parts (suc q) = (refl, refl)

million-parts :
    (z : ℤ)
    → (pos_part (times_million z) ≡ pos_part z * 1000000)
      × (neg_part (times_million z) ≡ neg_part z * 1000000)
unfolding times_million
million-parts (pos n) = (omega arith, omega arith)
million-parts (negsuc n) = (omega arith, omega arith)

-- A time that is an `int`, positive or negative, is cut into seconds and nanoseconds exactly; the
-- seconds stay in the range of `int`, and the nanoseconds are less than a second.
pub time_spec_bounds :
    (z : ℤ)
    → pos_part z < 2 ^ 31
    → neg_part z ≤ 2 ^ 31
    → let t = time_spec z in
      (pos_part t.tv_sec * 1000000000 + pos_part t.tv_nsec ≡ pos_part z * 1000000)
      × (neg_part t.tv_sec * 1000000000 + neg_part t.tv_nsec ≡ neg_part z * 1000000)
      × (pos_part t.tv_nsec < 1000000000)
      × (neg_part t.tv_nsec < 1000000000)
      × (pos_part t.tv_sec < 2 ^ 31)
      × (neg_part t.tv_sec < 2 ^ 31)
unfolding time_spec quot rem
time_spec_bounds (pos n) small big =
    let (p, q) = million-parts (pos (n % 1000)) in omega (arith, p, q)
time_spec_bounds (negsuc n) small big =
    let (p, q) = million-parts (neg (suc n % 1000)) in
    let (sec_pos, sec_neg) = neg-parts (suc n / 1000) in
    let (nsec_pos, nsec_neg) = neg-parts (suc n % 1000) in
    omega (arith, p, q, sec_pos, sec_neg, nsec_pos, nsec_neg)

-- A timer for which the kernel gives an id that is not in the map and accepts the times, and that is
-- cleared at once, leaves the state as it was, the kernel's timers too, `pending` being a pattern of
-- 32 bits.
pub clear_timer-timer_handler :
    (k : TimerAnswers) (id f : ℕ) (timeout interval : ℤ) (s : Environment)
    → k.created ≡ some id
    → k.accepts (spec timeout interval) ≡ true
    → find id s.timer_map ≡ none
    → s.pending < int_mod
    → let (v, t) = timer_handler k f timeout interval s in (v ≡ id) × (clear_timer v t ≡ s)
unfolding timer_handler clear_timer timer_delete
clear_timer-timer_handler k id f timeout interval s created accepts new small =
    let restored : decr (incr s.pending) ≡ s.pending = omega arith in
    rw (created, accepts, restored, ==_refl id) (refl, rw (erase-insert id _ s.timer_map new) refl)

-- The kernel's timers when one may have been created.
abbrev pub left_timers : Option ℕ → List ℕ → List ℕ
left_timers none timers = timers
left_timers (some id) timers = id ∷ timers

-- A timer that the kernel does not create leaves the state as it was; one whose times it refuses leaves
-- a timer in the kernel and nothing else. The id that is returned is that of no timer.
pub timer_handler-refused :
    (k : TimerAnswers) (f : ℕ) (timeout interval : ℤ) (s : Environment)
    → (k.created ≡ none) ⊎ (k.accepts (spec timeout interval) ≡ false)
    → timer_handler k f timeout interval s
      ≡ (failed_id, record s { kernel_timers = left_timers k.created s.kernel_timers })
unfolding timer_handler
timer_handler-refused k f timeout interval s (inl none_created) =
    rw (none_created, timer_handler) refl
timer_handler-refused k f timeout interval s (inr refused) = elim (Option-cases k.created) [
  | inl none_created ↦ rw (none_created, timer_handler) refl
  | inr (id, created) ↦ rw (created, timer_handler) (rw refused refl)
]
