-- ===== src/Builtins/Soundness.antt =====
-- What a program can do by the names it finds.
use no_js.Base.{
  ℕ, Option, none, some, List, [], ◌∷◌, Result, ok, ◌>>=◌, ◌≡◌, Every, Every->>=, Every-bind,
  Option-cases, inl, inr, Result-cases,
}
use no_js.Base.Int.{ℤ, pos}
use no_js.Env.{Environment}
use no_js.Args.{Args, bigint_arg, function_arg, int_arg, int_arg_or}
use no_js.Net.{
  listen, socket, bind, accept_call, setsockopt, send_to, recv_from, unix_bind, socket_pair,
}
use no_js.Fs.{open_sync, dup, dup2}
use no_js.Io.{read_sync, write_sync}
use no_js.Signal.{kill}
use no_js.Process.{exit_status}
use no_js.Timer.{TimerAnswers}
use no_js.Inotify.{on}
use no_js.Uring.Ownership.{IsOwned}
use no_js.Loop.CallOwnership.{Calls-IsOwned}
use no_js.Loop.Calls.{
  Call, Calls, done, then_call, reads, writes, reads_vector, writes_vector, closes, connects,
  connects_unix, listens, opens, sets_timer, clears_timer, registers, unregisters, watches,
  unwatches,
}
use no_js.Builtins.{
  Native, fs_open_at, io_read, io_write, io_readv, io_writev, io_close, net_connect, net_listen,
  unix_domain_connect, signal_register, signal_unregister, timer_set_timeout, timer_set_interval,
  timer_clear_timeout, timer_clear_interval, inotify_on, inotify_off, Answers, asks, fs_open_sync,
  fs_dup, fs_dup2, io_read_sync, io_write_sync, net_socket, net_bind, net_accept, net_setsockopt,
  udp_send_to, udp_recv_from, unix_domain_bind, unix_domain_socket_pair, signal_kill, process_exit,
  set_timer, clear, watch, invoke, BuiltinCall, builtin, call_builtin, call_builtins,
}

-- A result that is what a call gives satisfies what every call's result does.
Every-of {ℓ κ} :
    {A : Type ℓ} (P : A → Type κ) (m : Result A) → ((a : A) → m ≡ ok a → P a) → Every P m
Every-of P m h = elim (Result-cases m) [ inl (a, e) ↦ rw e (h a e) | inr (x, e) ↦ rw e tt ]

one : {s t : Environment} → Call s t → Calls s t
one c = then_call done c

set_timer-Calls :
    (k : TimerAnswers) (args : Args) (s : Environment) → Every (Calls s) (set_timer k args s)
unfolding set_timer
set_timer-Calls k args s = Every->>= (Calls s) (int_arg args 1) _ λ timeout.
    Every->>= (Calls s) (int_arg_or args 2 (pos 0)) _ λ interval.
      Every->>= (Calls s) (function_arg args 0) _ λ f. one (sets_timer k f timeout interval s)

clear-Calls : (args : Args) (s : Environment) → Every (Calls s) (clear args s)
unfolding clear
clear-Calls args s = Every->>= (Calls s) (bigint_arg args 0) _ λ id. one (clears_timer id s)

watch-Calls : (wd : Option ℕ) (args : Args) (s : Environment) → Every (Calls s) (watch wd args s)
unfolding watch
watch-Calls none args s = done
watch-Calls (some wd) args s = Every->>= (Calls s) (function_arg args 1) _ λ f.
    Every-bind (λ v. Calls s v.1) (Calls s) (on f (some wd) s) _
      (Every-of (λ v. Calls s v.1) _ λ v e. one (watches f (some wd) e)) λ v c. c

listen-Calls :
    (args : Args) (ret : ℤ) (s : Environment) → Every (Calls s) (listen args ret s >>= λ v. ok v.1)
listen-Calls args ret s =
    Every-bind (λ v. Calls s v.1) (Calls s) (listen args ret s) _
      (Every-of (λ v. Calls s v.1) _ λ v e. one (listens args ret e)) λ v c. c

asks-Calls {ℓ} : {A : Type ℓ} (call : Result A) (s : Environment) → Every (Calls s) (asks call s)
unfolding asks
asks-Calls call s = Every->>= (Calls s) call _ λ c. done

-- Every native function that is registered does nothing to the state but what `Call` lists.
pub invoke-Calls :
    (f : Native) (k : Answers) (args : Args) (s : Environment) → Every (Calls s) (invoke f k args s)
unfolding invoke
invoke-Calls fs_open_at k args s = Every-of (Calls s) _ λ t e. one (opens args e)
invoke-Calls io_read k args s = Every-of (Calls s) _ λ t e. one (reads args e)
invoke-Calls io_write k args s = Every-of (Calls s) _ λ t e. one (writes args e)
invoke-Calls io_readv k args s = Every-of (Calls s) _ λ t e. one (reads_vector args e)
invoke-Calls io_writev k args s = Every-of (Calls s) _ λ t e. one (writes_vector args e)
invoke-Calls io_close k args s = Every-of (Calls s) _ λ t e. one (closes args e)
invoke-Calls net_connect k args s = Every-of (Calls s) _ λ t e. one (connects args e)
invoke-Calls net_listen k args s = listen-Calls args k.ret s
invoke-Calls unix_domain_connect k args s = Every-of (Calls s) _ λ t e. one (connects_unix args e)
invoke-Calls signal_register k args s = Every-of (Calls s) _ λ t e. one (registers args e)
invoke-Calls signal_unregister k args s = Every-of (Calls s) _ λ t e. one (unregisters args e)
invoke-Calls timer_set_timeout k args s = set_timer-Calls k.timers args s
invoke-Calls timer_set_interval k args s = set_timer-Calls k.timers args s
invoke-Calls timer_clear_timeout k args s = clear-Calls args s
invoke-Calls timer_clear_interval k args s = clear-Calls args s
invoke-Calls inotify_on k args s = watch-Calls k.watch args s
invoke-Calls inotify_off k args s = one (unwatches k.watch_id k.func_id k.ret s)
invoke-Calls fs_open_sync k args s = asks-Calls (open_sync args) s
invoke-Calls fs_dup k args s = asks-Calls (dup args) s
invoke-Calls fs_dup2 k args s = asks-Calls (dup2 args) s
invoke-Calls io_read_sync k args s = asks-Calls (read_sync args) s
invoke-Calls io_write_sync k args s = asks-Calls (write_sync args) s
invoke-Calls net_socket k args s = asks-Calls (socket args) s
invoke-Calls net_bind k args s = asks-Calls (bind args) s
invoke-Calls net_accept k args s = asks-Calls (accept_call args) s
invoke-Calls net_setsockopt k args s = asks-Calls (setsockopt args) s
invoke-Calls udp_send_to k args s = asks-Calls (send_to args) s
invoke-Calls udp_recv_from k args s = asks-Calls (recv_from args) s
invoke-Calls unix_domain_bind k args s = asks-Calls (unix_bind args) s
invoke-Calls unix_domain_socket_pair k args s = asks-Calls (socket_pair args) s
invoke-Calls signal_kill k args s = asks-Calls (kill args) s
invoke-Calls process_exit k args s = Every->>= (Calls s) (exit_status args) _ λ status. tt
invoke-Calls f k args s = asks-Calls (k.outside f args) s

call_builtin-Calls : (c : BuiltinCall) (s : Environment) → Every (Calls s) (call_builtin c s)
unfolding call_builtin
call_builtin-Calls c s = elim (Option-cases (builtin c.module_name c.method)) [
  | inl unknown ↦ rw (unknown, call_builtin) done
  | inr (f, known) ↦ rw (known, call_builtin) (invoke-Calls f c.answers c.args s)
]

-- Whatever functions a program calls by the names that it finds, with whatever arguments and
-- answers: if the calls return, the allocated requests are still those in the ring and those that
-- are held, each once.
pub call_builtins-IsOwned :
    (held : List ℕ) (cs : List BuiltinCall) (s : Environment)
    → IsOwned held s
    → Every (IsOwned held) (call_builtins cs s)
unfolding call_builtins
call_builtins-IsOwned held [] s o = o
call_builtins-IsOwned held (c ∷ cs) s o =
    Every-bind (Calls s) (IsOwned held) (call_builtin c s) (call_builtins cs)
      (call_builtin-Calls c s)
      λ t calls. call_builtins-IsOwned held cs t (Calls-IsOwned held calls o)
