-- ===== src/Signal.antt =====
-- core/signal.cc: listeners of signals. What `signal` sets in the kernel is in Signal.Handlers.
pub mod Handlers
use no_js.Base.{
  ℕ, suc, Option, none, some, List, [], ◌∷◌, ◌++◌, Result, ok, fault, wrong_struct,
  dangling_context, ◌>>=◌, or_fault, ◌==◌, if◌then◌else◌,
}
use no_js.Base.Dict.{Dict, find, insert, update, erase}
use no_js.Base.Int.{ℤ, pos, int_key}
use no_js.Env.{
  onsignal, event_name, holder, nop, signal_cb, signal_context, plain, Request, UserData,
  Environment, SignalContext,
}
use no_js.Args.{Args, int_arg, function_arg}
use no_js.Uring.{load, free}
use no_js.Uring.Launch.{launch}
use no_js.Async.{JavaScript, make_context_callback}

-- The entry of the map, with one more listener at its end.
unfoldable pub add_listener :
    ℕ
    → SignalContext
    → Option (List SignalContext)
    → Dict (List SignalContext)
    → Dict (List SignalContext)
add_listener sig c none m = insert sig (c ∷ []) m
add_listener sig c (some listeners) m = update sig (listeners ++ c ∷ []) m

-- `RegisterSignal`. The new context has an address of its own.
unfoldable pub register_signal : Args → Environment → Result Environment
unfolding add_listener
register_signal args s = do
  f ← function_arg args 1
  n ← int_arg args 0
  let sig = int_key n
  let c : SignalContext = record {
    address = s.next_address;
    object = holder (event_name onsignal) f;
    sig = sig;
  }
  ok (record s {
    next_address = suc s.next_address;
    signal_map = add_listener sig c (find sig s.signal_map) s.signal_map;
  })

-- `UnRegisterSignal`: the contexts of the signal are destroyed.
unfoldable pub unregister_signal : Args → Environment → Result Environment
unregister_signal args s = do
  n ← int_arg args 0
  ok (record s { signal_map = erase (int_key n) s.signal_map })

abbrev pub signal_request : ℕ → Request
signal_request address = record {
  op = nop;
  cb = signal_cb;
  res = pos 0;
  user = signal_context address;
  flag = 0;
  body = plain;
}

-- The loop of `signalHandler`: a request for each listener, in their order.
unfoldable pub notify_listeners : List SignalContext → Environment → Result Environment
unfolding launch
notify_listeners [] s = ok s
notify_listeners (c ∷ cs) s = launch (signal_request c.address) s >>= notify_listeners cs

unfoldable pub listeners_of : Option (List SignalContext) → List SignalContext
listeners_of none = []
listeners_of (some cs) = cs

-- `signalHandler`.
unfoldable pub signal_handler : ℕ → Environment → Result Environment
unfolding notify_listeners listeners_of
signal_handler sig s = notify_listeners (listeners_of (find sig s.signal_map)) s

unfoldable pub in_list : ℕ → List SignalContext → Option SignalContext
in_list p [] = none
in_list p (c ∷ cs) = if c.address == p then some c else in_list p cs

unfoldable pub or_else : Option SignalContext → Option SignalContext → Option SignalContext
or_else (some c) o = some c
or_else none o = o

-- The context at an address, if it is not destroyed.
unfoldable pub live_context : ℕ → Dict (List SignalContext) → Option SignalContext
unfolding in_list or_else
live_context p [] = none
live_context p ((sig, cs) ∷ m) = or_else (in_list p cs) (live_context p m)

unfoldable pub signal_of : UserData → Result ℕ
signal_of (signal_context p) = ok p
signal_of _ = fault wrong_struct

-- `signal_cb`: the context is followed, whether or not it still exists.
unfoldable pub signal_callback : JavaScript → ℕ → Environment → Result Environment
unfolding live_context signal_of
signal_callback js p s = do
  r ← load p s
  a ← signal_of r.user
  c ← or_fault (live_context a s.signal_map) dangling_context
  free p (make_context_callback js onsignal c.object (pos 0) s)

-- The call of `Signal::Kill`, whose answer is returned as it is.
pub data SignalCall : Type 0 where
  sys_kill : ℤ → ℤ → SignalCall

unfoldable pub kill : Args → Result SignalCall
kill args = do pid ← int_arg args 0; sig ← int_arg args 1; ok (sys_kill pid sig)
