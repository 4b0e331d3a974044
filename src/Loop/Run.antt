-- ===== src/Loop/Run.antt =====
-- `RunIOUring` as a whole: what holds when it returns.
use no_js.Base.{
  ℕ, ◌+◌, ◌<◌, none, some, List, [], ◌∷◌, ok, ◌≡◌, ◌≢◌, ◌↔◌, refl, ap, arith, Every-ok, Returns,
  true, false, Bool-cases, inl, inr, length, ◌⊎◌,
}
use no_js.Base.Dict.{Dict, find, occurs}
use no_js.Base.Int.{ℤ, pos, int_mod}
use no_js.Env.{Environment, new_environment, Sqe, TimerContext, ontimeout}
use no_js.Uring.Ownership.{IsOwned}
use no_js.Async.{JavaScript, make_context_callback}
use no_js.Inotify.{Machine}
use no_js.Loop.{Happening, Progress, returned, waiting, drain, goes_on, run_io_uring}
use no_js.Loop.Calls.{Calls, done, then_call}
use no_js.Loop.CallOwnership.{Calls-IsOwned}
use no_js.Loop.Safety.{MayDrain, drain-IsOwned}
use no_js.Loop.Counting.{IsCounted, CleanCalls, CleanCalls-IsCounted}
use no_js.Loop.Counting
use no_js.Loop.Pending.{drain-IsCounted}

-- A schedule in which each round may happen after the rounds before it.
abbrev pub MayRun : JavaScript → Machine → List (List Happening) → Environment → Type 0
MayRun js m [] s = Unit
MayRun js m (hs ∷ rest) s =
    MayDrain js m hs s × ((t : Environment) → drain js m hs s ≡ ok t → MayRun js m rest t)

pub CleanCalls-Calls : {s t : Environment} → CleanCalls s t → Calls s t
CleanCalls-Calls Counting.done = done
CleanCalls-Calls (Counting.then_call cs c k) = then_call (CleanCalls-Calls cs) c

-- A state in which everything is accounted for, and how the loop's test stands in it.
pub record Settled (r : Progress × Environment) : Type 0 where
  pub owned : IsOwned [] r.1
  pub counted : IsCounted r.1
  pub ended : r.0 ≡ returned → goes_on r.1 ≡ false
  pub going : r.0 ≡ waiting → goes_on r.1 ≡ true

occurs_nothing {ℓ} : {V : Type ℓ} (m : Dict V) → ((a : ℕ) → occurs a m ≡ 0) → m ≡ []
unfolding occurs
occurs_nothing [] h = refl
occurs_nothing ((k, v) ∷ m) h = absurd (ground (arith, h k))

length-eq-zero {ℓ} : {A : Type ℓ} (xs : List A) → length xs ≡ 0 → xs ≡ []
length-eq-zero [] h = refl
length-eq-zero (x ∷ xs) h = absurd (omega arith)

length-nil {ℓ} : {A : Type ℓ} {xs : List A} → xs ≡ [] → length xs ≡ 0
length-nil e = ap length e

stopped_or_idle : (s : Environment) → goes_on s ≡ false → (s.stop ≡ 1) ⊎ (s.pending ≡ 0)
unfolding goes_on
stopped_or_idle s e = ground arith

goes_on_idle : (s : Environment) → s.pending ≡ 0 → goes_on s ≡ false
unfolding goes_on
goes_on_idle s e = ground arith

goes_on_stopped : (s : Environment) → s.stop ≡ 1 → goes_on s ≡ false
unfolding goes_on
goes_on_stopped s e = ground arith

occurs-nil : (m : Dict Sqe) (a : ℕ) → m ≡ [] → occurs a m ≡ 0
unfolding occurs
occurs-nil m a e = rw e

-- In a state where requests are owned and counted, with fewer than 2^32 entries and timers
-- outstanding: the loop's test is false just when `stop` is 1, or nothing is in the ring, no timer is
-- in the map and no request is allocated.
pub goes_on_iff :
    (s : Environment)
    → IsOwned [] s
    → IsCounted s
    → length s.ring + length s.timer_map < int_mod
    → (goes_on s ≡ false) ↔ ((s.stop ≡ 1) ⊎ ((s.ring ≡ []) × (s.timer_map ≡ []) × (s.heap ≡ [])))
goes_on_iff s o c bound = (
  finished,
  λ e. elim e [
    | inl stopped ↦ goes_on_stopped s stopped
    | inr e ↦ goes_on_idle s (omega (arith, length-nil e.0, length-nil e.1))
  ],
)
  where
    empty_if_idle : s.pending ≡ 0 → (s.ring ≡ []) × (s.timer_map ≡ []) × (s.heap ≡ [])
    empty_if_idle idle =
        let none_left : length s.ring + length s.timer_map ≡ 0 = omega arith in
        let empty : s.ring ≡ [] = length-eq-zero s.ring (omega arith) in
        (
          empty,
          length-eq-zero s.timer_map (omega arith),
          occurs_nothing s.heap (λ a. omega (arith, o.balance a, occurs-nil s.ring a empty)),
        )

    finished :
        goes_on s ≡ false → (s.stop ≡ 1) ⊎ ((s.ring ≡ []) × (s.timer_map ≡ []) × (s.heap ≡ []))
    finished e = elim (stopped_or_idle s e) [
      | inl stopped ↦ inl stopped
      | inr idle ↦ inr (empty_if_idle idle)
    ]

new-IsOwned : (first : ℕ) (fd : ℤ) → IsOwned [] (new_environment first fd)
unfolding occurs
new-IsOwned first fd = record {
  balance = λ a. refl;
  once = λ a. omega arith;
  fresh = λ a k. refl;
  formed = tt;
}

module _ (js : JavaScript) (js-Clean : (f : ℕ) (v : ℤ) (s : Environment) → CleanCalls s (js f v s))
    (js-keeps : (id : ℕ) (c : TimerContext) (s : Environment)
      → c.interval ≡ false
      → find id s.timer_map ≡ some c
      → find id (make_context_callback js ontimeout c.object (pos 0) s).timer_map ≢ none)
    (m : Machine) where
  -- When functions make only clean calls, and a timer that does not repeat is not removed by its
  -- own function: from a state where requests are owned and counted, the loop returns on every
  -- schedule that may happen (in which no read of file events completes, and signals find their
  -- listeners), in such a state again; the test of the loop is false there when the loop has
  -- ended, and true when it waits for more.
  pub run_io_uring-Settled :
      (schedule : List (List Happening)) (s : Environment)
      → IsOwned [] s
      → IsCounted s
      → MayRun js m schedule s
      → Returns Settled (run_io_uring js m schedule s)
  unfolding run_io_uring
  run_io_uring-Settled [] s o c may = elim (Bool-cases (goes_on s)) [
    | inl on ↦
        rw on
          ((waiting, s), refl, record { owned = o; counted = c; ended = λ e. cc; going = λ e. on })
    | inr off ↦
        rw off (
          (returned, s),
          refl,
          record { owned = o; counted = c; ended = λ e. off; going = λ e. cc },
        )
  ]
  run_io_uring-Settled (hs ∷ rest) s o c (now, later) = elim (Bool-cases (goes_on s)) [
    | inl on ↦
        let (t, e, o') =
          drain-IsOwned js (λ f v u. CleanCalls-Calls (js-Clean f v u)) m hs s o now in
        let c' : IsCounted t =
          Every-ok IsCounted _ (drain-IsCounted js js-Clean js-keeps m hs s now c) e in
        rw (on, e) (run_io_uring-Settled rest t o' c' (later t e))
    | inr off ↦
        rw off (
          (returned, s),
          refl,
          record { owned = o; counted = c; ended = λ e. off; going = λ e. cc },
        )
  ]

  -- When functions make only clean calls, and a timer that does not repeat is not removed by its
  -- own function: whatever clean calls a script makes in a new environment, the loop then returns
  -- on every schedule that may happen (in which no read of file events completes, and signals find
  -- their listeners), with requests owned and counted, and with the loop's test false when it has
  -- ended and true when it waits.
  pub run_program-Settled :
      (first : ℕ) (fd : ℤ) (schedule : List (List Happening)) {s : Environment}
      → CleanCalls (new_environment first fd) s
      → MayRun js m schedule s
      → Returns Settled (run_io_uring js m schedule s)
  run_program-Settled first fd schedule script may =
      run_io_uring-Settled schedule _
        (Calls-IsOwned [] (CleanCalls-Calls script) (new-IsOwned first fd))
        (CleanCalls-IsCounted script refl) may
