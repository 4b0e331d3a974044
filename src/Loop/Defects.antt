-- ===== src/Loop/Defects.antt =====
-- Where `pending` and what is outstanding come apart.
use no_js.Base.{
  ℕ, ◌+◌, ◌≤◌, ◌≡◌, ◌≢◌, refl, false, Option, none, some, List, ◌∷◌, arith, length, Returns,
}
use no_js.Base.Dict.{find, erase, erase_absent, occurs, find-erase_self}
use no_js.Base.Int.{pos, decr}
use no_js.Env.{
  Environment, TimerContext, InotifyContext, event_name, ontimeout, holder, get_function-holder,
}
use no_js.Async.{JavaScript, make_context_callback, call_if, call_function}
use no_js.Timer.{clear_timer, expire}
use no_js.Inotify.{on, off}
use no_js.Inotify.Release.{off_last_watch, on_under_way}
use no_js.Loop.{goes_on}
use no_js.Loop.Counting.{IsCounted}

ends-pending : (s : Environment) → s.pending ≡ 0 → goes_on s ≡ false
unfolding goes_on
ends-pending s e = ground arith

-- In a counted state with one request or timer outstanding, clearing an id that is not in the map,
-- such as that of a timer that has run out, makes the loop's test false, with that request or
-- timer still there.
pub clear_timer-unknown :
    (id : ℕ) (s : Environment)
    → find id s.timer_map ≡ none
    → IsCounted s
    → length s.ring + length s.timer_map ≡ 1
    → let t = clear_timer id s in
      (goes_on t ≡ false) × (t.ring ≡ s.ring) × (t.timer_map ≡ s.timer_map)
unfolding clear_timer
clear_timer-unknown id s unknown c one = (
  ends-pending (clear_timer id s) (unfold clear_timer in omega arith),
  refl,
  erase_absent id s.timer_map unknown,
)

-- The state in which the function `f` of a timer runs.
called : ℕ → Environment → Environment
called f s = record s { calls = (f, pos 0) ∷ s.calls }

-- A timer that does not repeat, and whose function clears it, is counted out twice when it runs
-- out.
pub expire-clears_itself :
    (js : JavaScript) (id f : ℕ) (c : TimerContext) (s : Environment)
    → find id s.timer_map ≡ some c
    → occurs id s.timer_map ≤ 1
    → c.interval ≡ false
    → c.object ≡ holder (event_name ontimeout) f
    → ((s : Environment) → js f (pos 0) s ≡ clear_timer id s)
    → let t = expire js id c s in
      (t.pending ≡ decr (decr s.pending)) × (t.ring ≡ s.ring) × (t.timer_map ≡ erase id s.timer_map)
unfolding expire make_context_callback call_if call_function clear_timer called
expire-clears_itself js id f c s there once one_shot object clears =
    rw (one_shot, object, get_function-holder ontimeout f, call_if)
      (rw (clears (called f s))
        (refl, refl, erase_absent id (erase id s.timer_map) (find-erase_self id s.timer_map once)))

-- In a counted state with nothing outstanding but the read of one watch, the watch is removed and
-- another one is added: the loop's test is false, although the read is in the ring and the new
-- watch in the map.
pub on-after_off :
    (wd wd' f : ℕ) (cs : List InotifyContext) (s : Environment)
    → find wd s.inotify_map ≡ some cs
    → s.count ≡ 1
    → s.need_submit ≡ false
    → IsCounted s
    → length s.ring + length s.timer_map ≡ 1
    → Returns
        (λ (v : Option (ℕ × ℕ) × Environment).
          (goes_on v.1 ≡ false) × (v.1.ring ≡ s.ring) × (find wd' v.1.inotify_map ≢ none))
        (on f (some wd') (off (some wd) none (pos 0) s).1)
on-after_off wd wd' f cs s known one under_way c single = rw (off_last_watch wd cs s known one) (
    let (v, e, (ring, timers, pending, _, _, _, there)) = on_under_way f wd' removed under_way in
    (v, e, (ends-pending v.1 (omega arith), ring, there)))
  where
    removed : Environment
    removed = record s { inotify_map = erase wd s.inotify_map; count = 0; pending = decr s.pending }
