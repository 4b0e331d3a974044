-- ===== src/Loop/Calls.antt =====
-- What can happen to the process while a JavaScript function runs: it calls native functions, one
-- after another, and between them the handlers of signals and timers run.
use no_js.Base.{ℕ, Option, ok, ◌≡◌}
use no_js.Base.Int.{ℤ}
use no_js.Env.{Environment}
use no_js.Args.{Args}
use no_js.Io.{read_call, write_call, readv_call, writev_call, close_call}
use no_js.Net.{connect_call, unix_connect, listen}
use no_js.Fs.{open_at}
use no_js.Timer.{TimerAnswers, timer_handler, clear_timer, timer_signal}
use no_js.Signal.{register_signal, unregister_signal, signal_handler}
use no_js.Inotify.{on, off}

-- One call of a native function that changes the state, with what the kernel answers, or of
-- `signalHandler` of core/signal.cc or core/timer.cc.
pub data Call : Environment → Environment → Type 0 where
  reads : (args : Args) {s t : Environment} → read_call args s ≡ ok t → Call s t
  writes : (args : Args) {s t : Environment} → write_call args s ≡ ok t → Call s t
  reads_vector : (args : Args) {s t : Environment} → readv_call args s ≡ ok t → Call s t
  writes_vector : (args : Args) {s t : Environment} → writev_call args s ≡ ok t → Call s t
  closes : (args : Args) {s t : Environment} → close_call args s ≡ ok t → Call s t
  connects : (args : Args) {s t : Environment} → connect_call args s ≡ ok t → Call s t
  connects_unix : (args : Args) {s t : Environment} → unix_connect args s ≡ ok t → Call s t
  listens :
      (args : Args) (ret : ℤ) {v : ℤ} {s t : Environment} → listen args ret s ≡ ok (v, t) → Call s t
  opens : (args : Args) {s t : Environment} → open_at args s ≡ ok t → Call s t
  sets_timer :
      (k : TimerAnswers) (f : ℕ) (timeout interval : ℤ) (s : Environment)
      → Call s (timer_handler k f timeout interval s).1
  clears_timer : (id : ℕ) (s : Environment) → Call s (clear_timer id s)
  registers : (args : Args) {s t : Environment} → register_signal args s ≡ ok t → Call s t
  unregisters : (args : Args) {s t : Environment} → unregister_signal args s ≡ ok t → Call s t
  watches :
      (f : ℕ) (wd : Option ℕ) {v : Option (ℕ × ℕ)} {s t : Environment}
      → on f wd s ≡ ok (v, t)
      → Call s t
  interrupts : (sig : ℕ) {s t : Environment} → signal_handler sig s ≡ ok t → Call s t
  runs_out : (id : ℕ) {s t : Environment} → timer_signal id s ≡ ok t → Call s t
  unwatches : (wd id : Option ℕ) (ret : ℤ) (s : Environment) → Call s (off wd id ret s).1

pub data Calls (s : Environment) : Environment → Type 0 where
  done : Calls s s
  then_call : {t u : Environment} → Calls s t → Call t u → Calls s u
