-- ===== src/Loop/Serving.antt =====
-- A server: while a socket listens, the loop does not end (core/io_uring.cc, `RunIOUring`).
pub mod Callbacks
use no_js.Base.{
  ℕ, suc, ◌+◌, ◌<◌, ◌≡◌, ◌≢◌, refl, sym, ◌∙◌, arith, Option, none, some, List, [], ◌∷◌, ok, ◌>>=◌,
  or_fault, Returns, Every, Every-ok, Every-mono, bind_ok, ◌==◌, ==_refl, true, false, Bool-cases,
  Option-cases, inl, inr, length, subst,
}
use no_js.Base.Dict.{
  find, erase, update, find-erase_ne, find-update_ne, length-erase, find-update_self, occurs-find,
}
use no_js.Base.Int.{ℤ, pos, int_mod}
use no_js.Env.{Environment, Request, TimerContext, ontimeout, prep_accept}
use no_js.Uring.{load, enter, prepare}
use no_js.Uring.Ownership.{IsOwned, in_ring-find}
use no_js.Async.{JavaScript, make_context_callback, call_function}
use no_js.Timer.{timer_signal, timer_request}
use no_js.Signal.{signal_handler}
use no_js.Inotify.{Machine}
use no_js.Loop.{
  Happening, completion, timer_expires, signal_arrives, happen, complete, received, drain, goes_on,
  run_io_uring, Progress, waiting, returned,
}
use no_js.Loop.Calls.{Calls}
use no_js.Loop.Counting.{IsCounted, CleanCalls}
use no_js.Loop.Safety.{MayHappen, MayDrain, CanFollow, happen-IsOwned}
use no_js.Loop.Pending.{happen-IsCounted}
use no_js.Loop.Run.{MayRun, CleanCalls-Calls}
use no_js.Loop.Connections.{accepting, complete-accepting, completed-ListensAt}
use no_js.Loop.Serving.Callbacks.{
  Stands, launch-Stands, notify_listeners-Stands, call_function-Stands, dispatch-Stands,
}

-- Fewer than 2^32 entries and timers are outstanding before each round, and at the end.
abbrev pub StaysSmall : JavaScript → Machine → List (List Happening) → Environment → Type 0
StaysSmall js m [] s = length s.ring + length s.timer_map < int_mod
StaysSmall js m (hs ∷ rest) s =
    (length s.ring + length s.timer_map < int_mod)
    × ((t : Environment) → drain js m hs s ≡ ok t → StaysSmall js m rest t)

-- A socket listens: its request, which is at `p`, is allocated and in the ring, and `stop` is not set.
abbrev pub Serves : ℕ → ℤ → ℕ → Environment → Type 0
Serves p fd f s = (last : ℤ) × Stands p (accepting fd f last) (prep_accept fd 0) s

length-find : (p : ℕ) (s : Environment) → find p s.ring ≢ none → 0 < length s.ring
length-find p s there = omega (arith, length-erase p s.ring there)

goes_on_serving :
    (p : ℕ) (fd : ℤ) (f : ℕ) (s : Environment)
    → Serves p fd f s
    → IsCounted s
    → length s.ring + length s.timer_map < int_mod
    → goes_on s ≡ true
unfolding goes_on
goes_on_serving p fd f s (last, k) c small =
    let there : find p s.ring ≢ none = λ absent. absurd (cc (absent, k.in_ring)) in
    let some_left = length-find p s there in
    let pending : s.pending ≢ 0 = λ e. absurd (omega arith) in ground (arith, k.running, pending)

module _ (js : JavaScript) (js-Clean : (f : ℕ) (v : ℤ) (s : Environment) → CleanCalls s (js f v s))
    (js-keeps : (id : ℕ) (c : TimerContext) (s : Environment)
      → c.interval ≡ false
      → find id s.timer_map ≡ some c
      → find id (make_context_callback js ontimeout c.object (pos 0) s).timer_map ≢ none)
    (js-running : (f : ℕ) (v : ℤ) (s : Environment) → (js f v s).stop ≡ s.stop) (m : Machine)
    (p : ℕ) (fd : ℤ) (f : ℕ) where
  js-Calls : (f : ℕ) (v : ℤ) (s : Environment) → Calls s (js f v s)
  js-Calls f v s = CleanCalls-Calls (js-Clean f v s)

  -- The answer to the accept itself.
  accept-Serves :
      (res : ℤ) (s : Environment)
      → Serves p fd f s
      → Every (Serves p fd f) (complete js m (p, res) s)
  unfolding enter find call_function
  accept-Serves res s (last, k) =
      let (found, below) =
        completed-ListensAt js js-Calls m p fd f last res s (k.allocated, k.below) in
      rw (complete-accepting js js-Calls m p fd f last res s (k.allocated, k.below)) (
        res,
        record {
          allocated = found;
          below = below;
          in_ring = rw (==_refl p) refl;
          running = js-running f res _ ∙ k.running;
        },
      )

  -- The completion of another request.
  other-Serves :
      (a : ℕ) (res : ℤ) (s : Environment)
      → a ≢ p
      → IsOwned [] s
      → MayHappen (completion a res) s
      → Serves p fd f s
      → Every (Serves p fd f) (complete js m (a, res) s)
  unfolding complete load
  other-Serves a res s other o (there, follow) (last, k) =
      let (r, found) = in_ring-find a s o there in
      let k' : Stands p (accepting fd f last) (prep_accept fd 0) (received a res r s) = record {
        allocated =
            find-update_ne p a (record r { res = res }) s.heap (λ e. other (sym e)) ∙ k.allocated;
        below = k.below;
        in_ring = find-erase_ne p a s.ring (λ e. other (sym e)) ∙ k.in_ring;
        running = k.running;
      } in
      rw (found, or_fault)
        (Every-mono (Stands p (accepting fd f last) (prep_accept fd 0)) (Serves p fd f) _
          (λ t k. (last, k))
          (dispatch-Stands p (accepting fd f last) (prep_accept fd 0) js js-Calls js-running a
            (received a res r s) other k' m r.cb r.user (follow r found)))

  happen-Serves :
      (h : Happening) (s : Environment)
      → IsOwned [] s
      → MayHappen h s
      → Serves p fd f s
      → Every (Serves p fd f) (happen js m h s)
  unfolding happen timer_signal signal_handler prepare
  happen-Serves (completion a res) s o may k = elim (Bool-cases (a == p)) [
    | inl same ↦ let e : a ≡ p = ground (arith, same) in rw e (accept-Serves res s k)
    | inr other ↦ other-Serves a res s (λ e. ground (arith, other, e)) o may k
  ]
  happen-Serves (timer_expires id) s o may (last, k) = elim (Option-cases (find id s.timer_map)) [
    | inl unknown ↦ absurd (may unknown)
    | inr (c, known) ↦
        rw (known, timer_signal)
          (Every-mono (Stands p (accepting fd f last) (prep_accept fd 0)) (Serves p fd f) _
            (λ t k. (last, k))
            (launch-Stands p (accepting fd f last) (prep_accept fd 0) (timer_request id) s
              (record { submits = (_, refl); fits = tt }) k))
  ]
  happen-Serves (signal_arrives sig) s o may (last, k) =
      Every-mono (Stands p (accepting fd f last) (prep_accept fd 0)) (Serves p fd f) _
        (λ t k. (last, k))
        (notify_listeners-Stands p (accepting fd f last) (prep_accept fd 0) _ s k)

  -- What a server is from one happening to the next.
  abbrev Server : Environment → Type 0
  Server s = IsOwned [] s × IsCounted s × Serves p fd f s

  drain-Server :
      (hs : List Happening) (s : Environment)
      → Server s
      → MayDrain js m hs s
      → Returns Server (drain js m hs s)
  unfolding drain
  drain-Server [] s server may = (s, refl, server)
  drain-Server (h ∷ hs) s (o, c, k) (now, later) =
      let (t, e, o') = happen-IsOwned js js-Calls m h s o now in
      let c' : IsCounted t =
        Every-ok IsCounted _ (happen-IsCounted js js-Clean js-keeps m h s now c) e in
      let k' : Serves p fd f t = Every-ok (Serves p fd f) _ (happen-Serves h s o now k) e in
      let (u, ran, server) = drain-Server hs t (o', c', k') (later t e) in
      (u, bind_ok (happen js m h s) (drain js m hs) {r = ok u} e ran, server)

  -- When functions make only clean calls and leave `stop` alone, and a timer that does not repeat is
  -- not removed by its own function: from a state where requests are owned and counted, `stop` is not
  -- set, and the request of a listening socket is allocated and in the ring, on every schedule that
  -- may happen (in which no read of file events completes, and signals find their listeners) with
  -- fewer than 2^32 entries and timers outstanding before each round and at its end, the loop does
  -- not end, but waits for more; and the socket still listens, with its request in the ring.
  pub run_io_uring-Serves :
      (schedule : List (List Happening)) (s : Environment)
      → IsOwned [] s
      → IsCounted s
      → Serves p fd f s
      → MayRun js m schedule s
      → StaysSmall js m schedule s
      → Returns (λ r. (r.0 ≡ waiting) × Serves p fd f r.1) (run_io_uring js m schedule s)
  unfolding run_io_uring
  run_io_uring-Serves [] s o c k may small =
      rw (goes_on_serving p fd f s k c small) ((waiting, s), refl, (refl, k))
  run_io_uring-Serves (hs ∷ rest) s o c k (now, later) (small, still) =
      let (t, e, (o', c', k')) = drain-Server hs s (o, c, k) now in
      rw (goes_on_serving p fd f s k c small, e)
        (run_io_uring-Serves rest t o' c' k' (later t e) (still t e))
