-- ===== src/Loop/Abstract.antt =====
-- What the loop promises of requests: an abstract machine of the requests that are in flight, which
-- knows neither the heap nor the order of the ring.
use no_js.Base.{ℕ, ◌+◌, ◌-◌, ◌≡◌, List, [], ◌∷◌, ◌++◌, ◌==◌, if◌then◌else◌}
use no_js.Base.Dict.{occurs}
use no_js.Base.Int.{ℤ}
use no_js.Env.{Environment}
use no_js.Loop.{Happening, completion, timer_expires, signal_arrives}

-- How often each address is in flight.
abbrev pub InFlight : Type 0
InFlight = ℕ → ℕ

unfoldable pub in_flight : Environment → InFlight
in_flight s a = occurs a s.ring

-- Submissions, each of an address that is not in flight.
pub data Submits (v : InFlight) : InFlight → Type 0 where
  none_more : Submits v v
  one_more :
      {w u : InFlight}
      → Submits v w
      → (p : ℕ) → w p ≡ 0
      → ((a : ℕ) → u a ≡ w a + (if p == a then 1 else 0))
      → Submits v u

-- A run of the machine: a completion takes away a request that is in flight once, and a callback, a
-- timer or a signal submits others.
pub data Trace : InFlight → List Happening → InFlight → Type 0 where
  at_end : (v : InFlight) → Trace v [] v
  completes :
      {v w u t : InFlight} {hs : List Happening} (p : ℕ) (res : ℤ)
      → v p ≡ 1
      → ((a : ℕ) → w a ≡ v a - (if p == a then 1 else 0))
      → Submits w u
      → Trace u hs t
      → Trace v (completion p res ∷ hs) t
  expires :
      {v u t : InFlight} {hs : List Happening} (id : ℕ)
      → Submits v u
      → Trace u hs t
      → Trace v (timer_expires id ∷ hs) t
  signalled :
      {v u t : InFlight} {hs : List Happening} (sig : ℕ)
      → Submits v u
      → Trace u hs t
      → Trace v (signal_arrives sig ∷ hs) t

pub Trace-append :
    {v w u : InFlight} {hs : List Happening} (hs' : List Happening)
    → Trace v hs w
    → Trace w hs' u
    → Trace v (hs ++ hs') u
Trace-append hs' (at_end v) t = t
Trace-append hs' (completes p res once gone adds rest) t =
    completes p res once gone adds (Trace-append hs' rest t)
Trace-append hs' (expires id adds rest) t = expires id adds (Trace-append hs' rest t)
Trace-append hs' (signalled sig adds rest) t = signalled sig adds (Trace-append hs' rest t)
