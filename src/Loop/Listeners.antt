-- ===== src/Loop/Listeners.antt =====
-- What the handler of a signal leaves for the loop (core/signal.cc).
use no_js.Base.{
  ℕ, suc, zero, ◌+◌, ◌<◌, none, some, List, [], ◌∷◌, ok, fault, dangling_context, ◌≡◌, refl, arith,
  Returns, Every, Every-ok, ◌>>=◌, get_elem?, ==_refl,
}
use no_js.Base.Dict.{find, erase, update}
use no_js.Base.Int.{ℤ, int_key}
use no_js.Env.{Environment, SignalContext, Sqe, Request, prep_nop}
use no_js.Args.{Args, int_arg}
use no_js.Uring.{load, prepare}
use no_js.Uring.Launch.{launch, launched, launch_lem}
use no_js.Async.{JavaScript}
use no_js.Inotify.{Machine}
use no_js.Signal.{
  signal_request, notify_listeners, signal_handler, listeners_of, unregister_signal, live_context,
  signal_callback, signal_of,
}
use no_js.Loop.{complete, dispatch}

launch-signal_request :
    (a : ℕ) (s : Environment)
    → launch (signal_request a) s ≡ ok (launched (signal_request a) prep_nop s)
unfolding prepare
launch-signal_request a s = launch_lem (signal_request a) s refl

-- What an address below the next one stands for, which later requests keep.
abbrev Stands : ℕ → Request → Sqe → Environment → Type 0
Stands p r q s = (find p s.heap ≡ some r) × (find p s.ring ≡ some q) × (p < s.next_address)

notify_listeners-Stands :
    (p : ℕ) (r : Request) (q : Sqe) (cs : List SignalContext) (s : Environment)
    → Stands p r q s
    → Every (Stands p r q) (notify_listeners cs s)
unfolding notify_listeners
notify_listeners-Stands p r q [] s h = h
notify_listeners-Stands p r q (c ∷ cs) s (heap, ring, below) =
    rw (launch-signal_request c.address s) (
      notify_listeners-Stands p r q cs (launched (signal_request c.address) prep_nop s)
        (unfold find in (ground arith, ground arith, omega arith)))

ListenersStand : List SignalContext → ℕ → Environment → Type 0
ListenersStand cs first t =
    (i : ℕ) (c : SignalContext)
    → get_elem? cs i ≡ some c
    → Stands (first + i) (signal_request c.address) prep_nop t

ListenersStand-∷ :
    (c : SignalContext) (cs : List SignalContext) (first : ℕ) (t : Environment)
    → Stands first (signal_request c.address) prep_nop t
    → ListenersStand cs (suc first) t
    → ListenersStand (c ∷ cs) first t
unfolding ListenersStand
ListenersStand-∷ c cs first t here there zero d e =
    let same : c ≡ d = cc e in
    let first_plus : first + 0 ≡ first = omega arith in rw (first_plus, ← same) here
ListenersStand-∷ c cs first t here there (suc i) d e =
    let moved : first + suc i ≡ suc first + i = omega arith in rw moved (there i d e)

notify_each :
    (cs : List SignalContext) (s : Environment)
    → Returns (ListenersStand cs s.next_address) (notify_listeners cs s)
unfolding notify_listeners
notify_each [] s = (s, refl, unfold ListenersStand in λ i c e. cc)
notify_each (c ∷ cs) s =
    let first = launched (signal_request c.address) prep_nop s in
    let (t, e, rest) = notify_each cs first in
    let stands =
      notify_listeners-Stands s.next_address (signal_request c.address) prep_nop cs first
        (unfold find in (ground arith, ground arith, omega arith)) in
    rw (launch-signal_request c.address s) (
      t,
      e,
      ListenersStand-∷ c cs s.next_address t
          (Every-ok (Stands s.next_address (signal_request c.address) prep_nop) _ stands e) rest,
    )

-- The handler of a signal with listeners returns, with a request for each of them in their order:
-- the request of the i-th listener is allocated at the i-th new address, points to the listener's
-- context, and is in the ring.
pub signal_handler-listeners :
    (sig : ℕ) (cs : List SignalContext) (s : Environment)
    → find sig s.signal_map ≡ some cs
    → Returns
        (λ t.
          (i : ℕ) (c : SignalContext)
          → get_elem? cs i ≡ some c
          → (find (s.next_address + i) t.heap ≡ some (signal_request c.address))
            × (find (s.next_address + i) t.ring ≡ some prep_nop))
        (signal_handler sig s)
unfolding signal_handler listeners_of ListenersStand
signal_handler-listeners sig cs s known =
    let (t, e, h) = notify_each cs s in
    rw (known, signal_handler) (t, e, λ i c at. let (heap, ring, _) = h i c at in (heap, ring))

-- A signal with one listener, whose context stands in no other entry of the map, arrives; it is
-- unregistered before the request of the signal is complete; then the callback follows the pointer
-- to the listener's destroyed context.
pub signal_after_unregister :
    (js : JavaScript) (m : Machine) (sig : ℕ) (c : SignalContext) (args : Args) (n res : ℤ)
    (s : Environment)
    → find sig s.signal_map ≡ some (c ∷ [])
    → int_arg args 0 ≡ ok n
    → int_key n ≡ sig
    → live_context c.address (erase sig s.signal_map) ≡ none
    → (signal_handler sig s >>= λ t.
        unregister_signal args t >>= λ u. complete js m (s.next_address, res) u)
      ≡ fault dangling_context
unfolding signal_handler listeners_of notify_listeners unregister_signal complete dispatch
    signal_callback load find update signal_of
signal_after_unregister js m sig c args n res s known is_n key gone =
    rw (known, signal_handler)
      (rw (launch-signal_request c.address s) (
        rw (is_n, key, ==_refl s.next_address, ==_refl s.next_address)
          (rw (gone, signal_callback) refl)))
