-- ===== src/Loop/Refinement.antt =====
-- The loop does what the abstract machine of the requests in flight does.
use no_js.Base.{
  ℕ, ◌-◌, ◌≡◌, ◌≢◌, refl, arith, none, some, List, [], ◌∷◌, ok, Every, Every-ok, Returns, or_fault,
  ◌==◌, if◌then◌else◌, Bool-cases, Option-cases, inl, inr, ◌++◌, join, sym, ap, subst, ◌∙◌,
}
use no_js.Base.Dict.{find, erase, occurs, occurs-erase, occurs-find}
use no_js.Base.Int.{ℤ}
use no_js.Env.{Environment, Request}
use no_js.Uring.{load}
use no_js.Uring.Ownership.{IsOwned, find-IsFormed, completed-IsOwned, in_ring-find}
use no_js.Async.{JavaScript}
use no_js.Inotify.{Machine}
use no_js.Loop.{
  complete, received, Happening, completion, timer_expires, signal_arrives, happen, drain, goes_on,
  run_io_uring, returned, waiting,
}
use no_js.Loop.Calls.{Calls}
use no_js.Loop.Safety.{CanFollow, MayHappen, MayDrain, happen-IsOwned, drain-IsOwned}
use no_js.Loop.Run.{MayRun}
use no_js.Loop.Additions.{Adds, timer_signal-Adds, signal_handler-Adds}
use no_js.Loop.Additions.Callbacks.{dispatch-Adds}
use no_js.Loop.Abstract.{
  InFlight, in_flight, none_more, Trace, at_end, completes, expires, signalled, Trace-append,
}

module _ (js : JavaScript) (js-Calls : (f : ℕ) (v : ℤ) (s : Environment) → Calls s (js f v s)) where
  -- What is in flight when the entry `p` has left the ring.
  without : ℕ → Environment → InFlight
  without p s a = occurs a (erase p s.ring)

  complete-Adds :
      (m : Machine) (p : ℕ) (res : ℤ) (r : Request) (s : Environment)
      → IsOwned [] s
      → find p s.ring ≢ none
      → find p s.heap ≡ some r
      → CanFollow r.cb r.user s.signal_map
      → Every (Adds (without p s)) (complete js m (p, res) s)
  unfolding complete load without
  complete-Adds m p res r s o there found follow =
      let f = find-IsFormed [] p r s o found in
      rw (found, or_fault)
        (dispatch-Adds js js-Calls [] (without p s) p (received p res r s)
          (completed-IsOwned [] p (record r { res = res }) s
            (record { submits = f.submits; fits = f.fits }) there o)
          (unfold in_flight in none_more) m r follow)

  without-eq-sub :
      (p : ℕ) (s : Environment) (a : ℕ) → without p s a ≡ in_flight s a - (if p == a then 1 else 0)
  unfolding without in_flight
  without-eq-sub p s a = ground (arith, occurs-erase a p s.ring)

  once_in_flight :
      (p : ℕ) (s : Environment) → IsOwned [] s → find p s.ring ≢ none → in_flight s p ≡ 1
  unfolding in_flight
  once_in_flight p s o there = elim (Option-cases (find p s.ring)) [
    | inl absent ↦ absurd (there absent)
    | inr (q, e) ↦ omega (arith, o.balance p, o.once p, occurs-find p s.ring e)
  ]

  happen-Trace :
      (m : Machine) (h : Happening) (hs : List Happening) (s t : Environment) {u : InFlight}
      → IsOwned [] s
      → MayHappen h s
      → happen js m h s ≡ ok t
      → Trace (in_flight t) hs u
      → Trace (in_flight s) (h ∷ hs) u
  unfolding happen
  happen-Trace m (completion p res) hs s t o (there, follow) e rest =
      let (r, found) = in_ring-find p s o there in
      completes {w = without p s} p res (once_in_flight p s o there) (without-eq-sub p s)
        (Every-ok (Adds (without p s)) _ (complete-Adds m p res r s o there found (follow r found))
          e)
        rest
  happen-Trace m (timer_expires id) hs s t o known e rest =
      expires id
        (Every-ok (Adds (in_flight s)) _ (timer_signal-Adds (in_flight s) id s o known none_more) e)
        rest
  happen-Trace m (signal_arrives sig) hs s t o u e rest =
      signalled sig
        (Every-ok (Adds (in_flight s)) _ (signal_handler-Adds (in_flight s) sig s o none_more) e)
        rest

  drain-Trace :
      (m : Machine) (hs : List Happening) (s : Environment)
      → IsOwned [] s
      → MayDrain js m hs s
      → Returns (λ t. Trace (in_flight s) hs (in_flight t)) (drain js m hs s)
  unfolding drain
  drain-Trace m [] s o may = (s, refl, at_end (in_flight s))
  drain-Trace m (h ∷ hs) s o (now, later) =
      let (t, e, o') = happen-IsOwned js js-Calls m h s o now in
      let (u, e', rest) = drain-Trace m hs t o' (later t e) in
      (u, rw e e', happen-Trace m h hs s t o now e rest)

  -- The rounds that a run of the loop has taken, and the trace that they leave.
  Rounds : List (List Happening) → Environment → Environment → Type 0
  Rounds schedule s t =
      (before : List (List Happening)) × (after : List (List Happening)) × (schedule
        ≡ before ++ after)
      × Trace (in_flight s) (join before) (in_flight t)

  no_round : (schedule : List (List Happening)) (s : Environment) → Rounds schedule s s
  unfolding Rounds
  no_round schedule s = ([], schedule, refl, at_end (in_flight s))

  -- When functions do nothing but call native functions: from a state where requests are owned, the
  -- loop returns on every schedule that may happen (in which no read of file events completes, and
  -- signals find their listeners), after some of its rounds; and what these rounds did is a run of
  -- the abstract machine from the requests in flight before to those in flight after. There, a
  -- completion takes away a request that is in flight exactly once, and only addresses that are not
  -- in flight are submitted.
  pub run_io_uring-Trace :
      (m : Machine) (schedule : List (List Happening)) (s : Environment)
      → IsOwned [] s
      → MayRun js m schedule s
      → Returns
          (λ r.
            (before : List (List Happening)) × (after : List (List Happening)) × (schedule
              ≡ before ++ after)
            × Trace (in_flight s) (join before) (in_flight r.1))
          (run_io_uring js m schedule s)
  unfolding run_io_uring Rounds
  run_io_uring-Trace m [] s o may = elim (Bool-cases (goes_on s)) [
    | inl on ↦ rw on ((waiting, s), refl, no_round [] s)
    | inr off ↦ rw off ((returned, s), refl, no_round [] s)
  ]
  run_io_uring-Trace m (hs ∷ rest) s o (now, later) = elim (Bool-cases (goes_on s)) [
    | inl on ↦
        let (t, e, o') = drain-IsOwned js js-Calls m hs s o now in
        let (t', e', first) = drain-Trace m hs s o now in
        let (r, ran, (before, after, split, trace)) = run_io_uring-Trace m rest t o' (later t e) in
        let same : t' ≡ t = cc (sym e' ∙ e) in
        rw (on, e)
          (
            r,
            ran,
            (
              hs ∷ before,
              after,
              ap (◌∷◌ hs) split,
              Trace-append (join before)
                  (subst (λ x. Trace (in_flight s) hs (in_flight x)) same first) trace,
            ),
          )
    | inr off ↦ rw off ((returned, s), refl, no_round (hs ∷ rest) s)
  ]
