-- ===== src/Loop/Connections.antt =====
-- What becomes of accepted connections (core/net.cc, `Listen`, with core/async.h).
use no_js.Base.{
  ℕ, ◌+◌, ◌<◌, some, List, [], ◌∷◌, ok, ◌≡◌, refl, arith, Returns, ◌>>=◌, or_fault, false, length,
  ==_refl, map,
}
use no_js.Base.Dict.{find, find-update_self, occurs-find}
use no_js.Base.Int.{ℤ, pos}
use no_js.Env.{Environment, Request, prep_accept, event_name, holder, request_context, onconnect}
use no_js.Args.{Args, function, arg, int_arg}
use no_js.Uring.{load, prepare, enter, submit_request}
use no_js.Uring.Launch.{launch_lem}
use no_js.Async.{JavaScript, context_of, again, call_function}
use no_js.Async
use no_js.Io.{launch_context}
use no_js.Net.{accept_request, listen, is_minus_one}
use no_js.Inotify.{Machine}
use no_js.Loop.{dispatch, complete, received, completion, drain, happen}
use no_js.Loop.Calls.{Calls}
use no_js.Loop.CallOwnership.{Calls-Keeps}
use no_js.Loop.Delivery.{kept-call, call_object-handled, context_arg-function}

-- The request of a listening socket with a handler, after an answer of the kernel.
abbrev pub accepting : ℤ → ℕ → ℤ → Request
accepting fd f res =
    record (accept_request fd (request_context (some (holder (event_name onconnect) f)))) {
      res = res;
    }

-- A listening socket whose request is allocated at `p`.
abbrev pub ListensAt : ℕ → ℤ → ℕ → ℤ → Environment → Type 0
ListensAt p fd f last s = (find p s.heap ≡ some (accepting fd f last)) × (p < s.next_address)

module _ (js : JavaScript) (js-Calls : (f : ℕ) (v : ℤ) (s : Environment) → Calls s (js f v s))
    (m : Machine) (p : ℕ) (fd : ℤ) (f : ℕ) where
  make_callback-accepting :
      (res : ℤ) (w : Environment)
      → ListensAt p fd f res w
      → Async.make_callback js onconnect p w
        ≡ ok (enter p (some (prep_accept fd 0)) (call_function js f res w))
  unfolding Async.make_callback load context_of again submit_request prepare
  make_callback-accepting res w (found, below) =
      let kept : find p (call_function js f res w).heap ≡ some (accepting fd f res) =
        kept-call js js-Calls m p (accepting fd f res) f res w found below in
      rw (found, or_fault)
        (rw (call_object-handled js onconnect f res w) (rw (kept, or_fault) refl))

  -- When functions do nothing but call native functions: as an accept of a listening socket
  -- completes, the function of `listen` is called with the answer, and then the same request is
  -- submitted again.
  pub complete-accepting :
      (last res : ℤ) (s : Environment)
      → ListensAt p fd f last s
      → complete js m (p, res) s
        ≡ ok (
            enter p
              (some (prep_accept fd 0))
              (call_function js f res (received p res (accepting fd f last) s)))
  unfolding complete load dispatch
  complete-accepting last res s (found, below) =
      rw (found, or_fault)
        (make_callback-accepting res (received p res (accepting fd f last) s)
          (find-update_self p (accepting fd f res) s.heap (occurs-find p s.heap found), below))

  pub completed-ListensAt :
      (last res : ℤ) (s : Environment)
      → ListensAt p fd f last s
      → ListensAt p fd f res (
          enter p
            (some (prep_accept fd 0))
            (call_function js f res (received p res (accepting fd f last) s)))
  unfolding enter call_function
  completed-ListensAt last res s (found, below) =
      Calls-Keeps p (accepting fd f res) (js-Calls f res _)
        (find-update_self p (accepting fd f res) s.heap (occurs-find p s.heap found)) below

  -- When functions do nothing but call native functions: from a state where the request of a
  -- listening socket is allocated and in the ring, any number of accepts, with whatever answers,
  -- are completed one after another, and the request is again allocated and in the ring.
  pub drain-accepting :
      (last : ℤ) (answers : List ℤ) (s : Environment)
      → ListensAt p fd f last s
      → find p s.ring ≡ some (prep_accept fd 0)
      → Returns
          (λ t. (find p t.ring ≡ some (prep_accept fd 0)) × ((res : ℤ) × ListensAt p fd f res t))
          (drain js m (map (completion p) answers) s)
  unfolding drain happen
  drain-accepting last [] s here there = (s, refl, (there, (last, here)))
  drain-accepting last (res ∷ answers) s here there = rw (complete-accepting last res s here) (
      drain-accepting res answers _ (completed-ListensAt last res s here)
        (unfold enter find in rw (==_refl p) refl))

-- Where the call of `listen` succeeds, and the third argument is a function, `Listen` returns with
-- its request, which is marked as repeating, allocated and in the ring.
pub listen-ListensAt :
    (args : Args) (fd ret : ℤ) (f : ℕ) (s : Environment)
    → int_arg args 0 ≡ ok fd
    → 2 < length args
    → arg args 2 ≡ function f
    → is_minus_one ret ≡ false
    → Returns
        (λ v.
          (v.0 ≡ ret)
          × ListensAt s.next_address fd f (pos 0) v.1
          × (find s.next_address v.1.ring ≡ some (prep_accept fd 0)))
        (listen args ret s)
unfolding listen launch_context prepare find
listen-ListensAt args fd ret f s is_fd given is_f succeeds =
    rw (is_fd, succeeds, context_arg-function args 2 f onconnect given is_f)
      (rw (launch_lem (accepting fd f (pos 0)) (record s { contexts = s.contexts + 1 }) refl, ◌>>=◌)
        (
          _,
          refl,
          (refl, (rw (==_refl s.next_address) refl, omega arith), rw (==_refl s.next_address) refl),
        ))
