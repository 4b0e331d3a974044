-- ===== src/Loop/Ending.antt =====
-- The end of a program (`RunIOUring`): when its functions ask for nothing more, and the kernel answers
-- every request that is outstanding.
use no_js.Base.{
  ℕ, ◌+◌, ◌≤◌, ◌<◌, ◌≡◌, ◌≢◌, refl, sym, ◌∙◌, arith, true, false, none, some, List, [], ◌∷◌, length,
  ok, Returns, Every-ok, Bool-cases, inl, inr, ◌≤◌, ◌<◌, subst, ap, bind_ok,
}
use no_js.Base.Dict.{Dict, find, erase, occurs, find-occurs, occurs-erase, length-erase}
use no_js.Base.Int.{ℤ, pos, int_mod}
use no_js.Env.{Request, Sqe, Environment, TimerContext, ontimeout}
use no_js.Uring.Ownership.{IsOwned}
use no_js.Async.{JavaScript, make_context_callback}
use no_js.Inotify.{Machine}
use no_js.Loop.{
  Happening, happen, completion, timer_expires, signal_arrives, drain, goes_on, run_io_uring,
  returned,
}
use no_js.Loop.Calls.{Calls}
use no_js.Loop.Counting.{IsCounted}
use no_js.Loop.Safety.{MayDrain, happen-IsOwned}
use no_js.Loop.Pending.{happen-IsCounted}
use no_js.Loop.Run.{goes_on_iff}
use no_js.Loop.Work.{IsQuiet, IsFinite, answers, weight, total}
use no_js.Loop.Quiet.{happen-IsQuiet}
use no_js.Loop.Run.{CleanCalls-Calls}

answers-cons :
    (h : Happening) (hs : List Happening) → answers (h ∷ hs) ≡ answers (h ∷ []) + answers hs
answers-cons (completion p res) hs = omega arith
answers-cons (timer_expires id) hs = omega arith
answers-cons (signal_arrives sig) hs = omega arith

length-le :
    (g : Dict Sqe) (h : Dict Request) → ((a : ℕ) → occurs a g ≤ occurs a h) → length g ≤ length h
unfolding occurs
length-le [] h le = omega arith
length-le ((k, q) ∷ g) h le =
    let there : find k h ≢ none = find-occurs k h (ground (arith, le k)) in
    omega (
      arith,
      length-erase k h there,
      length-le g (erase k h) (λ a. ground (arith, le a, occurs-erase a k h)),
    )

length-le-total : (cost : ℕ → ℕ) (h : Dict Request) → length h ≤ total cost h
unfolding total weight
length-le-total cost [] = omega arith
length-le-total cost ((p, r) ∷ h) = omega (arith, length-le-total cost h)

ring-le-total : (cost : ℕ → ℕ) (s : Environment) → IsOwned [] s → length s.ring ≤ total cost s.heap
ring-le-total cost s o =
    omega (
      arith,
      length-le s.ring s.heap (λ a. omega (arith, o.balance a)),
      length-le-total cost s.heap,
    )

nothing_left :
    (s : Environment)
    → IsOwned [] s
    → IsCounted s
    → IsQuiet s
    → length s.ring < int_mod
    → goes_on s ≡ false
    → (returned ≡ returned) × (s.ring ≡ []) × (s.heap ≡ [])
nothing_left s o c q small off =
    let none_set : length s.timer_map ≡ 0 = ap length q.timers in
    elim ((goes_on_iff s o c (omega arith)).0 off) [
      | inl stopped ↦ absurd (omega (arith, q.running))
      | inr (ring, timers, heap) ↦ (refl, ring, heap)
    ]

still_going : (s : Environment) → IsCounted s → IsQuiet s → goes_on s ≡ true → length s.ring ≢ 0
unfolding goes_on
still_going s c q on empty =
    let none_set : length s.timer_map ≡ 0 = ap length q.timers in
    let counted : s.pending ≡ 0 = omega arith in absurd (ground (arith, counted, on))

-- A schedule that is enough: while the loop goes on, its next round may happen, and the kernel answers
-- at least one request in it.
abbrev pub Proceeds : JavaScript → Machine → List (List Happening) → Environment → Type 0
Proceeds js m [] s = Unit
Proceeds js m (hs ∷ rest) s =
    goes_on s ≡ true
    → (1 ≤ answers hs)
      × MayDrain js m hs s
      × ((t : Environment) → drain js m hs s ≡ ok t → Proceeds js m rest t)

module _ (js : JavaScript) (cost : ℕ → ℕ) (finite : IsFinite js cost)
    (js-keeps : (id : ℕ) (c : TimerContext) (s : Environment)
      → c.interval ≡ false
      → find id s.timer_map ≡ some c
      → find id (make_context_callback js ontimeout c.object (pos 0) s).timer_map ≢ none)
    (m : Machine) where
  js-Calls : (f : ℕ) (v : ℤ) (s : Environment) → Calls s (js f v s)
  js-Calls f v s = CleanCalls-Calls (finite.clean f v s)

  -- What a state with nothing that starts again is, on its way to the end.
  abbrev Ends : Environment → Type 0
  Ends s = IsOwned [] s × IsCounted s × IsQuiet s

  drain-Ends :
      (hs : List Happening) (s : Environment)
      → Ends s
      → MayDrain js m hs s
      → Returns
          (λ t. Ends t × (total cost t.heap + answers hs ≤ total cost s.heap))
          (drain js m hs s)
  unfolding drain
  drain-Ends [] s ends may = (s, refl, (ends, omega arith))
  drain-Ends (h ∷ hs) s (o, c, q) (now, later) =
      let (t, e, (q', fewer)) = happen-IsQuiet js cost finite m h s o q now in
      let (t', e', o') = happen-IsOwned js js-Calls m h s o now in
      let same : t' ≡ t = cc (sym e' ∙ e) in
      let c' : IsCounted t =
        Every-ok IsCounted _ (happen-IsCounted js finite.clean js-keeps m h s now c) e in
      let (u, ran, (ends, fewer')) =
        drain-Ends hs t (subst (IsOwned []) same o', c', q') (later t e) in
      (
        u,
        bind_ok (happen js m h s) (drain js m hs) {r = ok u} e ran,
        (ends, omega (arith, answers-cons h hs)),
      )

  -- When functions make only clean calls and leave nothing that starts again by itself, when each call
  -- of a function `f` leads to at most `cost f` requests, with those that the functions of these lead
  -- to, and a timer that does not repeat is not removed by its own function: from a state where
  -- requests are owned and counted, every request is answered once, no timer is set, no signal has a
  -- listener and `stop` is not set, and where the requests, with all that they lead to, are fewer than
  -- 2^32: on every schedule of at least that many rounds, of which each, as long as the loop goes on,
  -- may happen and answers at least one request, the loop ends, and no request is in the ring or
  -- allocated then.
  pub run_io_uring-returned :
      (schedule : List (List Happening)) (s : Environment)
      → IsOwned [] s
      → IsCounted s
      → IsQuiet s
      → total cost s.heap < int_mod
      → Proceeds js m schedule s
      → total cost s.heap ≤ length schedule
      → Returns
          (λ r. (r.0 ≡ returned) × (r.1.ring ≡ []) × (r.1.heap ≡ []))
          (run_io_uring js m schedule s)
  unfolding run_io_uring
  run_io_uring-returned [] s o c q small may enough = elim (Bool-cases (goes_on s)) [
    | inr off ↦
        rw off
          ((returned, s), refl, nothing_left s o c q (omega (arith, ring-le-total cost s o)) off)
    | inl on ↦ absurd (still_going s c q on (omega (arith, ring-le-total cost s o)))
  ]
  run_io_uring-returned (hs ∷ rest) s o c q small may enough = elim (Bool-cases (goes_on s)) [
    | inr off ↦
        rw off
          ((returned, s), refl, nothing_left s o c q (omega (arith, ring-le-total cost s o)) off)
    | inl on ↦
        let (answered, now, later) = may on in
        let (t, e, ((o', c', q'), fewer)) = drain-Ends hs s (o, c, q) now in
        rw (on, e) (run_io_uring-returned rest t o' c' q' (omega arith) (later t e) (omega arith))
  ]
