-- ===== src/Uring/Launch.antt =====
-- What the native calls have in common: a request is allocated, filled and submitted.
use no_js.Base.{suc, ◌≡◌, refl, ◌>>=◌, Result, ok, some, ◌∷◌, ==_refl}
use no_js.Base.Dict.{find}
use no_js.Base.Int.{incr}
use no_js.Env.{Request, Environment, Sqe}
use no_js.Uring.{load, alloc, prepare, submit_request}

-- Allocate, then `SubmitRequest`.
unfoldable pub launch : Request → Environment → Result Environment
unfolding alloc
launch r s = let (p, t) = alloc r s in submit_request p t

-- The state after a launch.
abbrev pub launched : Request → Sqe → Environment → Environment
launched r q s = record s {
  heap = (s.next_address, r) ∷ s.heap;
  next_address = suc s.next_address;
  pending = incr s.pending;
  ring = (s.next_address, q) ∷ s.ring;
}

-- A request whose structure fits its operation is submitted at a new address, and counted.
pub launch_lem :
    (r : Request) {q : Sqe} (s : Environment)
    → prepare r.op r.body ≡ ok (some q)
    → launch r s ≡ ok (launched r q s)
unfolding launch submit_request load find
launch_lem r s e = rw (==_refl s.next_address) (rw (e, ◌>>=◌) refl)
