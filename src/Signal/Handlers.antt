-- ===== src/Signal/Handlers.antt =====
-- What the kernel does with a signal: core/timer.cc, `initTimer`, and the call of `signal` in
-- `RegisterSignal` (core/signal.cc).
pub mod Registered
use no_js.Base.{ℕ, ◌==◌, Bool, List, if◌then◌else◌, Option, none, some, ok, Result, ◌>>=◌}
use no_js.Base.Dict.{find}
use no_js.Base.Int.{int_key}
use no_js.Env.{Environment, SignalContext}
use no_js.Args.{Args, int_arg}

-- The action of a signal: what the kernel does by itself, the `signalHandler` of core/signal.cc, or
-- that of core/timer.cc.
pub data Handler : Type 0 where
  default_action signal_listeners timer_signals : Handler

abbrev pub Handlers : Type 0
Handlers = ℕ → Handler

-- `SIGUSR2`.
abbrev pub sigusr2 : ℕ
sigusr2 = 12

unfoldable pub set_handler : ℕ → Handler → Handlers → Handlers
set_handler sig h handlers = λ n. if n == sig then h else handlers n

-- `initTimer`, with whether `sigaction` succeeds.
unfoldable pub init_timer : Bool → Handlers → Handlers
unfolding set_handler
init_timer succeeds handlers =
    if succeeds then set_handler sigusr2 timer_signals handlers else handlers

unfoldable pub install_if_new : (ℕ → Bool) → ℕ → Option (List SignalContext) → Handlers → Handlers
unfolding set_handler
install_if_new accepts sig none handlers =
    if accepts sig then set_handler sig signal_listeners handlers else handlers
install_if_new accepts sig (some listeners) handlers = handlers

-- The call of `signal` in `RegisterSignal`, on the state before it: for a signal with no entry in the
-- map. `accepts` says of which signals `signal` sets the handler; its answer is not looked at.
unfoldable pub install_handler : (ℕ → Bool) → Args → Environment → Handlers → Result Handlers
unfolding install_if_new
install_handler accepts args s handlers = do
  n ← int_arg args 0
  let sig = int_key n
  ok (install_if_new accepts sig (find sig s.signal_map) handlers)
