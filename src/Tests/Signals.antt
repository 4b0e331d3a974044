-- ===== src/Tests/Signals.antt =====
-- Signals that are registered and unregistered.
use no_js.Base.{ℕ, Bool, true, not, ◌==◌, refl, List, [], ◌∷◌, Every}
use no_js.Base.Dict.{find}
use no_js.Base.Int.{pos}
use no_js.Args.{number, function}
use no_js.Signal.Handlers.{Handlers, default_action, init_timer}
use no_js.Signal.Handlers.Registered.{
  SignalOp, registers, unregisters, signal_ops, IsHandled, KeepsHandlers, signal_ops-IsHandled,
}
use no_js.Tests.{start}

-- The handler of SIGKILL cannot be set.
abbrev accepts : ℕ → Bool
accepts sig = not (sig == 9)

-- Function 7 listens to SIGINT for a while, and function 8 to SIGUSR2, which timers use.
abbrev ops : List SignalOp
ops =
    registers (number (pos 2) ∷ function 7 ∷ [])
    ∷ unregisters (number (pos 2) ∷ [])
    ∷ registers (number (pos 12) ∷ function 8 ∷ [])
    ∷ []

abbrev at_start : Handlers
at_start = init_timer true (λ sig. default_action)

start-IsHandled : IsHandled accepts (start, at_start)
unfolding find
start-IsHandled sig accepted listens = absurd (listens refl)

signal_ops-IsHandled_example :
    Every
      (λ x. IsHandled accepts x × KeepsHandlers accepts at_start x.1)
      (signal_ops accepts ops (start, at_start))
signal_ops-IsHandled_example = signal_ops-IsHandled accepts ops start at_start start-IsHandled
