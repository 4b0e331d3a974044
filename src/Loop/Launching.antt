-- ===== src/Loop/Launching.antt =====
-- The native calls that submit a request: what they establish, given what a launch establishes.
use no_js.Base.{
  ℕ, some, Result, ok, fault, ◌≡◌, refl, Every, Every->>=, ◌>>=◌, Bool-cases, inl, inr,
}
use no_js.Base.Int.{ℤ}
use no_js.Env.{
  Environment, Request, Opcode, read, write, readv, writev, Block, Event, make_callback, onread,
  onclose, onconnect, Sqe,
}
use no_js.Args.{
  Args, arg, int_arg, int_arg_or, string_arg, view_arg, context_arg, context_arg-request_context,
}
use no_js.Uring.{prepare}
use no_js.Uring.Ownership.{Fits, IsFormed}
use no_js.Io.{
  launch_context, read_write_request, read_call, write_call, readv_call, writev_call, close_call,
  transfer_body,
}
use no_js.Net.{
  accept_request, handle_addr_info, unix_addr_info, connect_call, unix_connect, listen,
  is_minus_one,
}
use no_js.Fs.{open_at, dir_of, o_rdonly, default_mode}

-- A request context is what `makeCallback` expects.
pub context_arg-Fits :
    (args : Args) (i : ℕ) (e e' : Event) → Fits (make_callback e') (context_arg args i e)
context_arg-Fits args i e e' = let (o, h) = context_arg-request_context args i e in rw h tt

with_answer {ℓ} :
    (P : Environment → Type ℓ) (ret : ℤ) (m : Result Environment)
    → Every P m
    → Every (λ (v : ℤ × Environment). P v.1) (m >>= λ t. ok (ret, t))
with_answer P ret (ok t) h = h
with_answer P ret (fault e) h = tt

module _ {ℓ} (P : Environment → Type ℓ) (s : Environment)
    (launches : (r : Request) → IsFormed r → Every P (launch_context r s)) where
  Every-read_write :
      (op : Opcode) (args : Args)
      → ((fd offset : ℤ) (b : Block)
          → (q : Sqe) × (prepare op (transfer_body op fd offset b) ≡ ok (some q)))
      → Every P (read_write_request op args s)
  unfolding read_write_request
  Every-read_write op args submits = Every->>= P (int_arg args 0) _ λ fd.
      Every->>= P (view_arg args 1) _ λ view.
        launches _ (record {
          submits = submits fd _ view.store;
          fits = context_arg-Fits args 3 onread onread;
        })

  pub Every-read_call : (args : Args) → Every P (read_call args s)
  unfolding read_call transfer_body prepare
  Every-read_call args = Every-read_write read args (λ fd offset b. (_, refl))

  pub Every-write_call : (args : Args) → Every P (write_call args s)
  unfolding write_call transfer_body prepare
  Every-write_call args = Every-read_write write args (λ fd offset b. (_, refl))

  pub Every-readv_call : (args : Args) → Every P (readv_call args s)
  unfolding readv_call transfer_body prepare
  Every-readv_call args = Every-read_write readv args (λ fd offset b. (_, refl))

  pub Every-writev_call : (args : Args) → Every P (writev_call args s)
  unfolding writev_call transfer_body prepare
  Every-writev_call args = Every-read_write writev args (λ fd offset b. (_, refl))

  pub Every-close_call : (args : Args) → Every P (close_call args s)
  unfolding close_call prepare
  Every-close_call args = Every->>= P (int_arg args 0) _ λ fd.
      launches _ (record { submits = (_, refl); fits = context_arg-Fits args 1 onclose onclose })

  pub Every-connect_call : (args : Args) → Every P (connect_call args s)
  unfolding connect_call prepare
  Every-connect_call args = Every->>= P (int_arg args 0) _ λ fd.
      Every->>= P (handle_addr_info args) _ λ addr.
        launches _
          (record { submits = (_, refl); fits = context_arg-Fits args 3 onconnect onconnect })

  pub Every-unix_connect : (args : Args) → Every P (unix_connect args s)
  unfolding unix_connect prepare
  Every-unix_connect args = Every->>= P (int_arg args 0) _ λ fd.
      Every->>= P (unix_addr_info args) _ λ addr.
        launches _
          (record { submits = (_, refl); fits = context_arg-Fits args 2 onconnect onconnect })

  -- If `listen` fails, nothing is submitted.
  pub Every-listen :
      (args : Args) (ret : ℤ) → P s → Every (λ (v : ℤ × Environment). P v.1) (listen args ret s)
  unfolding listen prepare
  Every-listen args ret h =
      Every->>= (λ (v : ℤ × Environment). P v.1) (int_arg args 0) _
        λ fd. elim (Bool-cases (is_minus_one ret)) [
          | inl failed ↦ rw failed h
          | inr listening ↦ rw listening (
              with_answer P ret _ (
                launches (accept_request fd (context_arg args 2 onconnect)) (record {
                  submits = (_, refl);
                  fits = context_arg-Fits args 2 onconnect onconnect;
                })))
        ]

  pub Every-open_at : (args : Args) → Every P (open_at args s)
  unfolding open_at prepare
  Every-open_at args = Every->>= P (dir_of (arg args 0) (int_arg args 0)) _ λ dir.
      Every->>= P (string_arg args 1) _ λ path. Every->>= P (int_arg_or args 2 o_rdonly) _ λ flags.
        Every->>= P (int_arg_or args 3 default_mode) _
          λ mode. launches _ (record { submits = (_, refl); fits = tt })
