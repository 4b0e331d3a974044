-- ===== src/Signal/Handlers/Registered.antt =====
-- A signal with listeners reaches them, however they were registered and unregistered.
use no_js.Base.{
  ℕ, suc, ◌==◌, ◌≡◌, ◌≢◌, refl, ◌∙◌, arith, Bool, true, false, Bool-cases, Option-cases, inl, inr,
  Option, none, some, List, [], ◌∷◌, ◌++◌, ok, Result, Every, Every-bind, Every-mono, Result-cases,
  ◌>>=◌, ==_refl,
}
use no_js.Base.Dict.{Dict, find, erase, find-insert, find-update_ne}
use no_js.Base.Int.{int_key}
use no_js.Env.{Environment, SignalContext}
use no_js.Args.{Args, int_arg, function_arg}
use no_js.Signal.{register_signal, unregister_signal, add_listener}
use no_js.Signal.Handlers.{signal_listeners, Handlers, set_handler, install_if_new, install_handler}

-- The calls of `on` and `off`.
pub data SignalOp : Type 0 where
  registers unregisters : Args → SignalOp

-- One call, with what it does to the kernel.
unfoldable pub signal_op :
    (ℕ → Bool) → SignalOp → Environment × Handlers → Result (Environment × Handlers)
unfolding install_handler register_signal unregister_signal
signal_op accepts (registers args) (s, handlers) = do
  h ← install_handler accepts args s handlers
  t ← register_signal args s
  ok (t, h)
signal_op accepts (unregisters args) (s, handlers) = do
  t ← unregister_signal args s
  ok (t, handlers)

unfoldable pub signal_ops :
    (ℕ → Bool) → List SignalOp → Environment × Handlers → Result (Environment × Handlers)
unfolding signal_op
signal_ops accepts [] x = ok x
signal_ops accepts (op ∷ ops) x = signal_op accepts op x >>= signal_ops accepts ops

module _ (accepts : ℕ → Bool) where
  -- Each signal with listeners, of which the kernel accepts the handler, has `signalHandler`.
  abbrev pub IsHandled : Environment × Handlers → Type 0
  IsHandled (s, handlers) =
      (sig : ℕ)
      → accepts sig ≡ true
      → find sig s.signal_map ≢ none
      → handlers sig ≡ signal_listeners

  -- A signal that has `signalHandler` keeps it.
  abbrev pub KeepsHandlers : Handlers → Handlers → Type 0
  KeepsHandlers h h' = (sig : ℕ) → h sig ≡ signal_listeners → h' sig ≡ signal_listeners

  install_self :
      (sig : ℕ) (m : Dict (List SignalContext)) (handlers : Handlers)
      → accepts sig ≡ true
      → (find sig m ≢ none → handlers sig ≡ signal_listeners)
      → install_if_new accepts sig (find sig m) handlers sig ≡ signal_listeners
  unfolding install_if_new set_handler
  install_self sig m handlers ok_sig before = elim (Option-cases (find sig m)) [
    | inl new ↦ rw (new, install_if_new) (rw ok_sig (rw (==_refl sig) refl))
    | inr (cs, known) ↦ rw (known, install_if_new) (before (λ none_there. cc))
  ]

  install_keeps :
      (sig : ℕ) (o : Option (List SignalContext)) (handlers : Handlers)
      → KeepsHandlers handlers (install_if_new accepts sig o handlers)
  unfolding install_if_new set_handler
  install_keeps sig none handlers n e = ground (arith, e)
  install_keeps sig (some cs) handlers n e = e

  add_listener_ne :
      (n sig : ℕ) (c : SignalContext) (m : Dict (List SignalContext))
      → n ≢ sig
      → find n (add_listener sig c (find sig m) m) ≡ find n m
  unfolding add_listener
  add_listener_ne n sig c m other = elim (Option-cases (find sig m)) [
    | inl new ↦
        rw (new, add_listener)
          (find-insert n sig (c ∷ []) m new
            ∙ (let test : (sig == n) ≡ false = ground (arith, other) in rw test refl))
    | inr (cs, known) ↦ rw (known, add_listener) (find-update_ne n sig (cs ++ c ∷ []) m other)
  ]

  -- After one call.
  abbrev After : Environment × Handlers → Environment × Handlers → Type 0
  After x y = IsHandled y × KeepsHandlers x.1 y.1

  registered-After :
      (sig : ℕ) (c : SignalContext) (next : ℕ) (s : Environment) (handlers : Handlers)
      → IsHandled (s, handlers)
      → After
          (s, handlers)
          (
            record s {
              next_address = next;
              signal_map = add_listener sig c (find sig s.signal_map) s.signal_map;
            },
            install_if_new accepts sig (find sig s.signal_map) handlers,
          )
  registered-After sig c next s handlers handled = (
    λ n ok_n listens. elim (Bool-cases (n == sig)) [
      | inl same ↦
          let e : n ≡ sig = ground (arith, same) in
          rw e
            (install_self sig s.signal_map handlers (rw (← e) ok_n) (handled sig (rw (← e) ok_n)))
      | inr not_same ↦
          let other : n ≢ sig = ground (arith, not_same) in
          install_keeps sig (find sig s.signal_map) handlers n
            (handled n ok_n (λ gone. listens (add_listener_ne n sig c s.signal_map other ∙ gone)))
    ],
    install_keeps sig (find sig s.signal_map) handlers,
  )

  find-erase-none :
      (n sig : ℕ) (m : Dict (List SignalContext)) → find n m ≡ none → find n (erase sig m) ≡ none
  unfolding find erase
  find-erase-none n sig [] e = refl
  find-erase-none n sig ((k, cs) ∷ m) e = ground (arith, find-erase-none n sig m)

  signal_op-After :
      (op : SignalOp) (s : Environment) (handlers : Handlers)
      → IsHandled (s, handlers)
      → Every (After (s, handlers)) (signal_op accepts op (s, handlers))
  unfolding signal_op install_handler register_signal unregister_signal
  signal_op-After (registers args) s handlers handled = elim (Result-cases (int_arg args 0)) [
    | inr (x, wrong) ↦ rw wrong tt
    | inl (n, is_n) ↦ elim (Result-cases (function_arg args 1)) [
      | inr (x, wrong) ↦ rw (is_n, wrong) tt
      | inl (f, is_f) ↦
          rw (is_n, is_f) (registered-After (int_key n) _ (suc s.next_address) s handlers handled)
    ]
  ]
  signal_op-After (unregisters args) s handlers handled = elim (Result-cases (int_arg args 0)) [
    | inr (x, wrong) ↦ rw wrong tt
    | inl (n, is_n) ↦ rw is_n (
      λ sig ok_sig listens.
          handled sig ok_sig (λ gone. listens (find-erase-none sig (int_key n) s.signal_map gone)),
      λ sig e. e,
    )
  ]

  -- From a state in which each signal with listeners has the `signalHandler` of core/signal.cc, if
  -- the kernel accepts that handler for the signal: after any calls of `on` and `off` that return, it
  -- is again so, and a signal that has this handler still has it, whether its listeners are left or
  -- not.
  pub signal_ops-IsHandled :
      (ops : List SignalOp) (s : Environment) (handlers : Handlers)
      → IsHandled (s, handlers)
      → Every (λ x. IsHandled x × KeepsHandlers handlers x.1) (signal_ops accepts ops (s, handlers))
  unfolding signal_ops
  signal_ops-IsHandled [] s handlers handled = (handled, λ sig e. e)
  signal_ops-IsHandled (op ∷ ops) s handlers handled =
      Every-bind (After (s, handlers)) (λ x. IsHandled x × KeepsHandlers handlers x.1)
        (signal_op accepts op (s, handlers)) (signal_ops accepts ops)
        (signal_op-After op s handlers handled)
        (λ x (after, keeps).
          Every-mono _ _ (signal_ops accepts ops x) (λ y (h, k). (h, λ sig e. k sig (keeps sig e)))
            (signal_ops-IsHandled ops x.0 x.1 after))
