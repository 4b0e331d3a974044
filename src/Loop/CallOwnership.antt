-- ===== src/Loop/CallOwnership.antt =====
-- What every native call keeps: whatever of the allocated requests, the ring and the next address is
-- kept by a launch and by an address that is used up.
use no_js.Base.{
  ℕ, suc, Option, none, some, List, [], ◌∷◌, ◌≡◌, refl, arith, Every, ◌<◌, Every->>=, Every-ok,
  ◌==◌, if_both, Every-bind, zero, Option-cases, Bool-cases, inl, inr,
}
use no_js.Base.Dict.{Dict, find}
use no_js.Base.Int.{ℤ, pos, negsuc, incr, decr}
use no_js.Env.{Environment, Request, Sqe, InotifyContext, SignalContext}
use no_js.Args.{Args, int_arg, function_arg}
use no_js.Uring.{prepare}
use no_js.Uring.Launch.{launch, launch_lem}
use no_js.Uring.Ownership.{IsFormed, IsOwned, IsOwnedBy, launched-IsOwned, bump-IsOwned}
use no_js.Io.{launch_context}
use no_js.Timer.{TimerAnswers, spec, timer_handler, clear_timer, timer_signal, timer_request}
use no_js.Signal.{
  register_signal, unregister_signal, signal_handler, notify_listeners, signal_request,
}
use no_js.Inotify.{
  on, off, submit_read_request, inotify_request, remove_watch, keep_or_remove, off_listeners,
  remove_listener,
}
use no_js.Loop.Launching.{
  Every-read_call, Every-write_call, Every-readv_call, Every-writev_call, Every-close_call,
  Every-connect_call, Every-unix_connect, Every-listen, Every-open_at,
}
use no_js.Loop.Calls.{
  Call, reads, writes, reads_vector, writes_vector, closes, connects, connects_unix, listens, opens,
  sets_timer, clears_timer, registers, unregisters, watches, unwatches, interrupts, runs_out, Calls,
  done, then_call,
}

pub inotify_request-IsFormed : (fd : ℤ) (p : ℕ) → IsFormed (inotify_request fd p)
unfolding prepare
inotify_request-IsFormed fd p = record { submits = (_, refl); fits = tt }

module _ {ℓ} (P : Dict Request → Dict Sqe → ℕ → Type ℓ)
    (on_launch : (h : Dict Request) (g : Dict Sqe) (n : ℕ) (r : Request) (q : Sqe)
      → IsFormed r
      → P h g n
      → P ((n, r) ∷ h) ((n, q) ∷ g) (suc n))
    (on_bump : (h : Dict Request) (g : Dict Sqe) (n : ℕ) → P h g n → P h g (suc n)) where
  abbrev Holds : Environment → Type ℓ
  Holds s = P s.heap s.ring s.next_address

  launch-Holds : (r : Request) (s : Environment) → IsFormed r → Holds s → Every Holds (launch r s)
  launch-Holds r s f o =
      let (q, e) = f.submits in
      rw (launch_lem r s e) (on_launch s.heap s.ring s.next_address r q f o)

  pub launch_context-Holds :
      (s : Environment) → Holds s → (r : Request) → IsFormed r → Every Holds (launch_context r s)
  unfolding launch_context
  launch_context-Holds s o r f = launch-Holds r _ f o

  timer_handler-Holds :
      (k : TimerAnswers) (f : ℕ) (timeout interval : ℤ) (s : Environment)
      → Holds s
      → Holds (timer_handler k f timeout interval s).1
  unfolding timer_handler
  timer_handler-Holds k f timeout interval s o = elim (Option-cases k.created) [
    | inl failed ↦ rw (failed, timer_handler) o
    | inr (id, created) ↦ elim (Bool-cases (k.accepts (spec timeout interval))) [
      | inl accepted ↦ rw (created, timer_handler) (rw accepted o)
      | inr refused ↦ rw (created, timer_handler) (rw refused o)
    ]
  ]

  register_signal-Holds :
      (args : Args) (s : Environment) → Holds s → Every Holds (register_signal args s)
  unfolding register_signal
  register_signal-Holds args s o =
      Every->>= Holds (function_arg args 1) _
        λ f. Every->>= Holds (int_arg args 0) _ λ n. on_bump s.heap s.ring s.next_address o

  unregister_signal-Holds :
      (args : Args) (s : Environment) → Holds s → Every Holds (unregister_signal args s)
  unfolding unregister_signal
  unregister_signal-Holds args s o = Every->>= Holds (int_arg args 0) _ λ n. o

  notify_listeners-Holds :
      (cs : List SignalContext) (s : Environment) → Holds s → Every Holds (notify_listeners cs s)
  unfolding notify_listeners prepare
  notify_listeners-Holds [] s o = o
  notify_listeners-Holds (c ∷ cs) s o =
      Every-bind Holds Holds _ _
        (launch-Holds (signal_request c.address) s (record { submits = (_, refl); fits = tt }) o)
        (λ t o'. notify_listeners-Holds cs t o')

  signal_handler-Holds : (sig : ℕ) (s : Environment) → Holds s → Every Holds (signal_handler sig s)
  unfolding signal_handler
  signal_handler-Holds sig s o = notify_listeners-Holds _ s o

  timer_signal-Holds : (id : ℕ) (s : Environment) → Holds s → Every Holds (timer_signal id s)
  unfolding timer_signal prepare
  timer_signal-Holds id s o = elim (Option-cases (find id s.timer_map)) [
    | inl unknown ↦ rw (unknown, timer_signal) tt
    | inr (c, e) ↦
        rw (e, timer_signal)
          (launch-Holds (timer_request id) s (record { submits = (_, refl); fits = tt }) o)
  ]

  pub submit_read_request-Holds : (s : Environment) → Holds s → Every Holds (submit_read_request s)
  unfolding submit_read_request
  submit_read_request-Holds s o =
      if_both (Every Holds) s.need_submit
        (Every-bind Holds Holds _ _
          (launch-Holds _ _ (inotify_request-IsFormed _ _) (on_bump s.heap s.ring s.next_address o))
          (λ t o'. o'))
        o

  on-Holds :
      (f : ℕ) (wd : Option ℕ) (s : Environment)
      → Holds s
      → Every (λ (v : Option (ℕ × ℕ) × Environment). Holds v.1) (on f wd s)
  unfolding on
  on-Holds f none s o = o
  on-Holds f (some wd) s o =
      Every-bind Holds (λ (v : Option (ℕ × ℕ) × Environment). Holds v.1)
        (submit_read_request counted) _ (submit_read_request-Holds counted o) (λ t o'. o')
    where
      counted : Environment
      counted = record s { count = incr s.count }

  remove_watch-Holds :
      (wd : ℕ) (ret : ℤ) (s : Environment) → Holds s → Holds (remove_watch wd ret s).1
  unfolding remove_watch
  remove_watch-Holds wd (pos zero) s o = elim (Bool-cases (decr s.count == 0)) [
    | inl last ↦ rw last o
    | inr more ↦ rw more o
  ]
  remove_watch-Holds wd (pos (suc n)) s o = o
  remove_watch-Holds wd (negsuc n) s o = o

  keep_or_remove-Holds :
      (wd : ℕ) (cs : List InotifyContext) (ret : ℤ) (s : Environment)
      → Holds s
      → Holds (keep_or_remove wd cs ret s).1
  unfolding keep_or_remove
  keep_or_remove-Holds wd [] ret s o = remove_watch-Holds wd ret s o
  keep_or_remove-Holds wd (c ∷ cs) ret s o = o

  off_listeners-Holds :
      (wd : ℕ) (id : Option ℕ) (ret : ℤ) (cs : List InotifyContext) (s : Environment)
      → Holds s
      → Holds (off_listeners wd id ret cs s).1
  unfolding off_listeners
  off_listeners-Holds wd none ret cs s o = remove_watch-Holds wd ret s o
  off_listeners-Holds wd (some id) ret cs s o =
      keep_or_remove-Holds wd (remove_listener id cs) ret s o

  off-Holds : (wd id : Option ℕ) (ret : ℤ) (s : Environment) → Holds s → Holds (off wd id ret s).1
  unfolding off
  off-Holds none id ret s o = o
  off-Holds (some wd) id ret s o = elim (Option-cases (find wd s.inotify_map)) [
    | inl unknown ↦ rw (unknown, off) o
    | inr (cs, known) ↦ rw (known, off) (off_listeners-Holds wd id ret cs s o)
  ]

  pub Call-Holds : {s t : Environment} → Call s t → Holds s → Holds t
  Call-Holds {s} (reads args e) o =
      Every-ok _ _ (Every-read_call _ s (launch_context-Holds s o) args) e
  Call-Holds {s} (writes args e) o =
      Every-ok _ _ (Every-write_call _ s (launch_context-Holds s o) args) e
  Call-Holds {s} (reads_vector args e) o =
      Every-ok _ _ (Every-readv_call _ s (launch_context-Holds s o) args) e
  Call-Holds {s} (writes_vector args e) o =
      Every-ok _ _ (Every-writev_call _ s (launch_context-Holds s o) args) e
  Call-Holds {s} (closes args e) o =
      Every-ok _ _ (Every-close_call _ s (launch_context-Holds s o) args) e
  Call-Holds {s} (connects args e) o =
      Every-ok _ _ (Every-connect_call _ s (launch_context-Holds s o) args) e
  Call-Holds {s} (connects_unix args e) o =
      Every-ok _ _ (Every-unix_connect _ s (launch_context-Holds s o) args) e
  Call-Holds {s} (listens args ret e) o =
      Every-ok _ _ (Every-listen _ s (launch_context-Holds s o) args ret o) e
  Call-Holds {s} (opens args e) o =
      Every-ok _ _ (Every-open_at _ s (launch_context-Holds s o) args) e
  Call-Holds (sets_timer k f timeout interval s) o = timer_handler-Holds k f timeout interval s o
  Call-Holds (clears_timer id s) o = unfold clear_timer in o
  Call-Holds {s} (registers args e) o = Every-ok _ _ (register_signal-Holds args s o) e
  Call-Holds {s} (unregisters args e) o = Every-ok _ _ (unregister_signal-Holds args s o) e
  Call-Holds {s} (watches f wd e) o = Every-ok _ _ (on-Holds f wd s o) e
  Call-Holds {s} (interrupts sig e) o = Every-ok _ _ (signal_handler-Holds sig s o) e
  Call-Holds {s} (runs_out id e) o = Every-ok _ _ (timer_signal-Holds id s o) e
  Call-Holds (unwatches wd id ret s) o = off-Holds wd id ret s o

  pub Calls-Holds : {s t : Environment} → Calls s t → Holds s → Holds t
  Calls-Holds done o = o
  Calls-Holds (then_call cs c) o = Call-Holds c (Calls-Holds cs o)

-- However many native calls are made, and whatever they are given: the allocated requests remain
-- those in the ring and those that are held, each once, well formed and below the next address.
pub Calls-IsOwned :
    (held : List ℕ) {s t : Environment} → Calls s t → IsOwned held s → IsOwned held t
Calls-IsOwned held cs o =
    Calls-Holds (IsOwnedBy held) (launched-IsOwned held) (bump-IsOwned held) cs o

-- The request at an address, which is below the next one.
abbrev pub Keeps : ℕ → Request → Dict Request → Dict Sqe → ℕ → Type 0
Keeps p r h g n = (find p h ≡ some r) × (p < n)

launched-Keeps :
    (p : ℕ) (r : Request) (h : Dict Request) (g : Dict Sqe) (n : ℕ) (r' : Request) (q : Sqe)
    → IsFormed r'
    → Keeps p r h g n
    → Keeps p r ((n, r') ∷ h) ((n, q) ∷ g) (suc n)
unfolding find
launched-Keeps p r h g n r' q f (found, below) = (ground arith, omega arith)

-- A request that is allocated below the next address stays as it is, whatever native calls are
-- made: none writes into a request that is under way, or frees it.
pub Calls-Keeps :
    (p : ℕ) (r : Request) {s t : Environment}
    → Calls s t
    → find p s.heap ≡ some r
    → p < s.next_address
    → Keeps p r t.heap t.ring t.next_address
Calls-Keeps p r cs found below =
    Calls-Holds (Keeps p r) (launched-Keeps p r) (λ h g n k. (k.0, omega arith)) cs (found, below)
