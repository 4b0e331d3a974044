-- ===== src/Loop/Delivery.antt =====
-- From the native call to the handler: a request that is submitted, completed by the kernel and
-- delivered to the function that was given with it.
use no_js.Base.{
  ℕ, suc, ◌+◌, ◌-◌, ◌<◌, some, [], ◌∷◌, length, ok, ◌≡◌, refl, arith, ◌>>=◌, or_fault, ==_refl,
  lt→ltb,
}
use no_js.Base.Dict.{find, update, erase}
use no_js.Base.Int.{ℤ, pos, incr, decr}
use no_js.Env.{
  Environment, Request, Sqe, Event, event_name, holder, get_function-holder, request_context,
  make_callback, Body, Opcode, read, write, readv, writev, Block, prep_read, prep_write, prep_readv,
  prep_writev, onread,
}
use no_js.Args.{Args, View, function, arg, int_arg, view_arg, number_arg_or, context_arg}
use no_js.Uring.{load, free, prepare}
use no_js.Uring.Launch.{launched, launch_lem}
use no_js.Async.{
  JavaScript, context_of, again, call_function, call_if, call_object, make_context_callback,
  destroy,
}
use no_js.Async
use no_js.Io.{int_length, launch_context, read_write_request, transfer_body}
use no_js.Inotify.{Machine}
use no_js.Loop.{dispatch, complete, received}
use no_js.Loop.Calls.{Calls}
use no_js.Loop.CallOwnership.{Calls-Keeps}

-- The state in which the function is called: the request is allocated, with its result, and out of
-- the ring again.
pub at_call : Request → ℤ → ℕ → Environment → Environment
at_call r res f s = record s {
  heap = (s.next_address, record r { res = res }) ∷ s.heap;
  next_address = suc s.next_address;
  pending = decr (incr s.pending);
  contexts = s.contexts + 1;
  calls = (f, res) ∷ s.calls;
}

-- The state after the function, with the request and its context released.
pub released : ℕ → Environment → Environment
released p u = record u { heap = erase p u.heap; contexts = u.contexts - 1 }

-- A request with a handler, that is not submitted again.
abbrev pub handled : Opcode → Body → Event → ℕ → Request
handled op body e f = record {
  op = op;
  cb = make_callback e;
  res = pos 0;
  user = request_context (some (holder (event_name e) f));
  flag = 0;
  body = body;
}

received-launched :
    (r : Request) (q : Sqe) (res : ℤ) (s : Environment)
    → received s.next_address res r (launched r q s) ≡ record s {
      heap = (s.next_address, record r { res = res }) ∷ s.heap;
      next_address = suc s.next_address;
      pending = decr (incr s.pending);
    }
unfolding update erase
received-launched r q res s = rw (==_refl s.next_address)

pub call_object-handled :
    (js : JavaScript) (e : Event) (f : ℕ) (v : ℤ) (s : Environment)
    → call_object js e (some (holder (event_name e) f)) v s ≡ call_function js f v s
unfolding call_object make_context_callback call_if
call_object-handled js e f v s = rw (get_function-holder e f, call_if) refl

module _ (js : JavaScript) (js-Calls : (f : ℕ) (v : ℤ) (s : Environment) → Calls s (js f v s))
    (m : Machine) where
  pub kept-call :
      (p : ℕ) (r : Request) (f : ℕ) (v : ℤ) (s : Environment)
      → find p s.heap ≡ some r
      → p < s.next_address
      → find p (call_function js f v s).heap ≡ some r
  unfolding call_function
  kept-call p r f v s found below = (Calls-Keeps p r (js-Calls f v _) found below).0

  make_callback-handled :
      (op : Opcode) (body : Body) (e : Event) (f : ℕ) (res : ℤ) (p : ℕ) (w : Environment)
      → find p w.heap ≡ some (record (handled op body e f) { res = res })
      → p < w.next_address
      → Async.make_callback js e p w ≡ ok (released p (call_function js f res w))
  unfolding Async.make_callback load context_of again destroy free released
  make_callback-handled op body e f res p w found below =
      let u = call_function js f res w in
      let kept : find p u.heap ≡ some (record (handled op body e f) { res = res }) =
        kept-call p _ f res w found below in
      rw (found, or_fault) (rw (call_object-handled js e f res w) (rw (kept, or_fault) refl))

  pub complete-launched :
      (op : Opcode) (body : Body) (e : Event) (f : ℕ) (q : Sqe) (res : ℤ) (s : Environment)
      → complete js m
          (s.next_address, res)
          (launched (handled op body e f) q (record s { contexts = s.contexts + 1 }))
        ≡ ok (released s.next_address (js f res (at_call (handled op body e f) res f s)))
  unfolding complete dispatch load find update erase at_call call_function
  complete-launched op body e f q res s = rw (==_refl s.next_address) (
      make_callback-handled op body e f res s.next_address _ (rw (==_refl s.next_address))
        (omega arith))

  launch_context-delivered :
      (op : Opcode) (body : Body) (e : Event) (f : ℕ) (q : Sqe) (res : ℤ) (s : Environment)
      → prepare op body ≡ ok (some q)
      → (t : Environment) × (launch_context (handled op body e f) s ≡ ok t)
        × (find s.next_address t.ring ≡ some q)
        × (complete js m (s.next_address, res) t
            ≡ ok (released s.next_address (js f res (at_call (handled op body e f) res f s))))
  unfolding launch_context find
  launch_context-delivered op body e f q res s prepared = (
    launched (handled op body e f) q (record s { contexts = s.contexts + 1 }),
    launch_lem (handled op body e f) (record s { contexts = s.contexts + 1 }) prepared,
    rw (==_refl s.next_address) refl,
    complete-launched op body e f q res s,
  )

-- The four ways to read or write, the operation code of each, and the entry that it should make.
pub data Transfer : Type 0 where
  reading writing reading_vector writing_vector : Transfer

abbrev pub opcode_of : Transfer → Opcode
opcode_of reading = read
opcode_of writing = write
opcode_of reading_vector = readv
opcode_of writing_vector = writev

abbrev pub entry_of : Transfer → ℤ → Block → ℤ → Sqe
entry_of reading fd b offset = prep_read fd (int_length b) offset
entry_of writing fd b offset = prep_write fd (int_length b) offset
entry_of reading_vector fd b offset = prep_readv fd (b ∷ []) offset
entry_of writing_vector fd b offset = prep_writev fd (b ∷ []) offset

prepare-transfer :
    (k : Transfer) (fd offset : ℤ) (b : Block)
    → prepare (opcode_of k) (transfer_body (opcode_of k) fd offset b)
      ≡ ok (some (entry_of k fd b offset))
unfolding prepare transfer_body
prepare-transfer reading fd offset b = refl
prepare-transfer writing fd offset b = refl
prepare-transfer reading_vector fd offset b = refl
prepare-transfer writing_vector fd offset b = refl

pub context_arg-function :
    (args : Args) (i f : ℕ) (e : Event)
    → i < length args
    → arg args i ≡ function f
    → context_arg args i e ≡ request_context (some (holder (event_name e) f))
unfolding context_arg
context_arg-function args i f e given is = rw (lt→ltb i (length args) given, is) refl

-- When functions do nothing but call native functions: a read or a write of a descriptor and an
-- array, with a function as its fourth argument, makes one entry at the offset of the third argument
-- (0 if that is no number). The entry of `readv` and `writev` is on the whole store of the array, that
-- of `read` and `write` on the start of the store with its length modulo 2^32. When the kernel
-- completes it, the function is called with the kernel's result, in a state where the entry is gone
-- and the count is back; then the request and its context are released.
pub read_write_request-delivered :
    (js : JavaScript)
    → ((f : ℕ) (v : ℤ) (s : Environment) → Calls s (js f v s))
    → (m : Machine) (k : Transfer) (args : Args) (fd : ℤ) (view : View) (f : ℕ) (res : ℤ)
      (s : Environment)
    → int_arg args 0 ≡ ok fd
    → view_arg args 1 ≡ ok view
    → 3 < length args
    → arg args 3 ≡ function f
    → let offset = number_arg_or args 2 (pos 0) in
      let r = handled (opcode_of k) (transfer_body (opcode_of k) fd offset view.store) onread f in
      (t : Environment) × (read_write_request (opcode_of k) args s ≡ ok t)
      × (find s.next_address t.ring ≡ some (entry_of k fd view.store offset))
      × (complete js m (s.next_address, res) t
          ≡ ok (released s.next_address (js f res (at_call r res f s))))
unfolding read_write_request
read_write_request-delivered js calls m k args fd view f res s is_fd is_view given is_f =
    rw (is_fd, is_view, context_arg-function args 3 f onread given is_f, ◌>>=◌)
      (launch_context-delivered js calls m (opcode_of k) _ onread f _ res s
        (prepare-transfer k fd _ view.store))
