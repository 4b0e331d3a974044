-- ===== src/Builtins.antt =====
-- core/core.cc, `register_builtins`, with the `Init` functions of the modules: the names under which
-- a program finds the native functions, and what a call by name does to the state.
pub mod Soundness
pub mod Constants
use text.Mathlib.Text.{◌==◌}
use no_js.Base.{
  ℕ, Option, none, some, List, [], ◌∷◌, String, Result, ok, fault, exited, ◌>>=◌, if◌then◌else◌,
}
use no_js.Base.Int.{ℤ, pos}
use no_js.Env.{Environment}
use no_js.Args.{Args, Value, bigint_arg, function_arg, int_arg, int_arg_or}
use no_js.Io.{read_call, write_call, readv_call, writev_call, close_call, read_sync, write_sync}
use no_js.Net.{
  connect_call, unix_connect, listen, socket, bind, accept_call, setsockopt, send_to, recv_from,
  unix_bind, socket_pair,
}
use no_js.Fs.{open_at, open_sync, dup, dup2}
use no_js.Process.{exit_status}
use no_js.Timer.{TimerAnswers, timer_handler, clear_timer}
use no_js.Signal.{register_signal, unregister_signal, kill}
use no_js.Inotify.{on, off}

-- The C++ functions that are registered, with the module that they stand in.
pub data Native : Type 0 where
  fs_open_sync fs_realpath fs_open_at fs_dup fs_dup2 : Native
  io_read io_write io_readv io_writev io_close io_read_sync io_write_sync : Native
  net_socket net_bind net_connect net_listen net_accept net_setsockopt : Native
  udp_send_to udp_recv_from unix_domain_bind unix_domain_connect unix_domain_socket_pair : Native
  signal_register signal_unregister signal_kill : Native
  timer_set_timeout timer_set_interval timer_clear_timeout timer_clear_interval : Native
  inotify_on inotify_off : Native
  loader_compile vm_run vm_compile_function util_get_error console_log : Native
  process_get_env process_fork process_wait process_cwd process_exit process_execve : Native

abbrev pub Methods : Type 0
Methods = List (String × Native)

abbrev pub fs_methods : Methods
fs_methods =
    ("openSync", fs_open_sync)
    ∷ ("realpath", fs_realpath)
    ∷ ("openat", fs_open_at)
    ∷ ("close", io_close)
    ∷ ("read", io_read)
    ∷ ("write", io_write)
    ∷ ("readv", io_readv)
    ∷ ("writev", io_writev)
    ∷ ("dup", fs_dup)
    ∷ ("dup2", fs_dup2)
    ∷ ("readSync", io_read_sync)
    ∷ ("writeSync", io_write_sync)
    ∷ []

abbrev pub tcp_methods : Methods
tcp_methods =
    ("listen", net_listen)
    ∷ ("accept", net_accept)
    ∷ ("socket", net_socket)
    ∷ ("bind", net_bind)
    ∷ ("close", io_close)
    ∷ ("connect", net_connect)
    ∷ ("setsockopt", net_setsockopt)
    ∷ ("read", io_read)
    ∷ ("write", io_write)
    ∷ []

abbrev pub process_methods : Methods
process_methods =
    ("getEnv", process_get_env)
    ∷ ("fork", process_fork)
    ∷ ("wait", process_wait)
    ∷ ("cwd", process_cwd)
    ∷ ("exit", process_exit)
    ∷ ("execve", process_execve)
    ∷ []

abbrev pub console_methods : Methods
console_methods = ("log", console_log) ∷ []

abbrev pub io_methods : Methods
io_methods =
    ("read", io_read)
    ∷ ("write", io_write)
    ∷ ("readv", io_readv)
    ∷ ("writev", io_writev)
    ∷ ("close", io_close)
    ∷ ("readSync", io_read_sync)
    ∷ ("writeSync", io_write_sync)
    ∷ []

abbrev pub udp_methods : Methods
udp_methods =
    ("sendto", udp_send_to)
    ∷ ("recvfrom", udp_recv_from)
    ∷ ("socket", net_socket)
    ∷ ("bind", net_bind)
    ∷ ("close", io_close)
    ∷ ("connect", net_connect)
    ∷ ("setsockopt", net_setsockopt)
    ∷ ("readSync", io_read_sync)
    ∷ ("writeSync", io_write_sync)
    ∷ []

abbrev pub unix_domain_methods : Methods
unix_domain_methods =
    ("bind", unix_domain_bind)
    ∷ ("connect", unix_domain_connect)
    ∷ ("socketpair", unix_domain_socket_pair)
    ∷ ("listen", net_listen)
    ∷ ("accept", net_accept)
    ∷ ("socket", net_socket)
    ∷ ("close", io_close)
    ∷ ("setsockopt", net_setsockopt)
    ∷ []

abbrev pub signal_methods : Methods
signal_methods = ("on", signal_register) ∷ ("off", signal_unregister) ∷ ("kill", signal_kill) ∷ []

abbrev pub timer_methods : Methods
timer_methods =
    ("setTimeout", timer_set_timeout)
    ∷ ("setInterval", timer_set_interval)
    ∷ ("clearTimeout", timer_clear_timeout)
    ∷ ("clearInterval", timer_clear_interval)
    ∷ []

abbrev pub inotify_methods : Methods
inotify_methods = ("on", inotify_on) ∷ ("off", inotify_off) ∷ []

abbrev pub loader_methods : Methods
loader_methods = ("compile", loader_compile) ∷ []

abbrev pub util_methods : Methods
util_methods = ("getErrorByErrno", util_get_error) ∷ []

abbrev pub vm_methods : Methods
vm_methods = ("run", vm_run) ∷ ("compileFunction", vm_compile_function) ∷ []

-- The object `No.buildin`, in the order of the `Init` calls. `net` holds constants only, and
-- `HTTPParser` is a constructor; neither has methods of its own.
abbrev pub builtins : List (String × Methods)
builtins =
    ("fs", fs_methods)
    ∷ ("tcp", tcp_methods)
    ∷ ("process", process_methods)
    ∷ ("console", console_methods)
    ∷ ("io", io_methods)
    ∷ ("net", [])
    ∷ ("udp", udp_methods)
    ∷ ("unix_domain", unix_domain_methods)
    ∷ ("signal", signal_methods)
    ∷ ("timer", timer_methods)
    ∷ ("inotify", inotify_methods)
    ∷ ("loader", loader_methods)
    ∷ ("util", util_methods)
    ∷ ("vm", vm_methods)
    ∷ []

unfoldable pub property_of {ℓ} : {A : Type ℓ} → String → List (String × A) → Option A
property_of name [] = none
property_of name ((n, a) ∷ rest) = if n == name then some a else property_of name rest

-- `No.buildin[module][method]`.
unfoldable pub builtin : String → String → Option Native
unfolding property_of
builtin name method = elim (property_of name builtins) [
  | none ↦ none
  | some methods ↦ property_of method methods
]

-- What the world answers to a call: the result of `listen` or `inotify_rm_watch`, the timers, the
-- watch; the numbers `watchId` and `funcId` of the object that `off` is given; and how a call of a
-- function ends that reads or runs code, prints, or asks the system.
pub record Answers : Type 0 where
  pub ret : ℤ
  pub timers : TimerAnswers
  pub watch : Option ℕ
  pub watch_id : Option ℕ
  pub func_id : Option ℕ
  pub outside : Native → Args → Result Value

unfoldable pub set_timer : TimerAnswers → Args → Environment → Result Environment
set_timer k args s = do
  timeout ← int_arg args 1
  interval ← int_arg_or args 2 (pos 0)
  f ← function_arg args 0
  ok (timer_handler k f timeout interval s).1

unfoldable pub clear : Args → Environment → Result Environment
clear args s = do id ← bigint_arg args 0; ok (clear_timer id s)

unfoldable pub watch : Option ℕ → Args → Environment → Result Environment
watch none args s = ok s
watch (some wd) args s = do f ← function_arg args 1; v ← on f (some wd) s; ok v.1

-- A function that makes a system call with its arguments, and changes nothing here.
unfoldable pub asks {ℓ} : {A : Type ℓ} → Result A → Environment → Result Environment
asks call s = call >>= λ c. ok s

-- What a native function does to the state. The functions without a clause of their own read or run
-- code, print, or ask the system for a text or a process, and change nothing here; how they end is
-- `outside`.
unfoldable pub invoke : Native → Answers → Args → Environment → Result Environment
unfolding set_timer clear watch asks
invoke fs_open_at k args s = open_at args s
invoke io_read k args s = read_call args s
invoke io_write k args s = write_call args s
invoke io_readv k args s = readv_call args s
invoke io_writev k args s = writev_call args s
invoke io_close k args s = close_call args s
invoke net_connect k args s = connect_call args s
invoke net_listen k args s = listen args k.ret s >>= λ v. ok v.1
invoke unix_domain_connect k args s = unix_connect args s
invoke signal_register k args s = register_signal args s
invoke signal_unregister k args s = unregister_signal args s
invoke timer_set_timeout k args s = set_timer k.timers args s
invoke timer_set_interval k args s = set_timer k.timers args s
invoke timer_clear_timeout k args s = clear args s
invoke timer_clear_interval k args s = clear args s
invoke inotify_on k args s = watch k.watch args s
invoke inotify_off k args s = ok (off k.watch_id k.func_id k.ret s).1
invoke fs_open_sync k args s = asks (open_sync args) s
invoke fs_dup k args s = asks (dup args) s
invoke fs_dup2 k args s = asks (dup2 args) s
invoke io_read_sync k args s = asks (read_sync args) s
invoke io_write_sync k args s = asks (write_sync args) s
invoke net_socket k args s = asks (socket args) s
invoke net_bind k args s = asks (bind args) s
invoke net_accept k args s = asks (accept_call args) s
invoke net_setsockopt k args s = asks (setsockopt args) s
invoke udp_send_to k args s = asks (send_to args) s
invoke udp_recv_from k args s = asks (recv_from args) s
invoke unix_domain_bind k args s = asks (unix_bind args) s
invoke unix_domain_socket_pair k args s = asks (socket_pair args) s
invoke signal_kill k args s = asks (kill args) s
invoke process_exit k args s = exit_status args >>= λ status. fault exited
invoke f k args s = asks (k.outside f args) s

-- A call by name. Calling what is not a function throws in JavaScript, and changes nothing.
pub record BuiltinCall : Type 0 where
  pub module_name : String
  pub method : String
  pub answers : Answers
  pub args : Args

unfoldable pub call_builtin : BuiltinCall → Environment → Result Environment
unfolding invoke
call_builtin c s = elim (builtin c.module_name c.method) [
  | none ↦ ok s
  | some f ↦ invoke f c.answers c.args s
]

-- A stretch of a program: calls by name, one after another.
unfoldable pub call_builtins : List BuiltinCall → Environment → Result Environment
unfolding call_builtin
call_builtins [] s = ok s
call_builtins (c ∷ cs) s = call_builtin c s >>= call_builtins cs
