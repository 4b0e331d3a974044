-- ===== src/Libs/Tcp/Reading.antt =====
-- A socket from one read to the next.
use no_js.Base.{ℕ, suc, ◌+◌, ◌≡◌, refl, ap, ◌∙◌, ==_refl, some, ok}
use no_js.Base.Dict.{find}
use no_js.Base.Int.{ℤ, pos, negsuc}
use no_js.Env.{Environment, Request, read, io_body, onread, prep_read}
use no_js.Args.{View}
use no_js.Async.{JavaScript}
use no_js.Inotify.{Machine}
use no_js.Uring.{prepare}
use no_js.Uring.Launch.{launched, launch_lem}
use no_js.Io.{int_length, read_call, read_write_request}
use no_js.Loop.{complete}
use no_js.Loop.Calls.{Calls}
use no_js.Loop.Delivery.{handled, released, at_call, complete-launched}
use no_js.Libs.Tcp.{
  ServerSocket, Emission, end_event, data_event, error_event, socket_read, socket_status,
}

-- The request of a socket's read.
abbrev pub socket_request : ServerSocket → View → Request
socket_request socket buffer =
    handled read (io_body socket.fd (pos 0) (int_length buffer.store)) onread socket.on_status

-- The state with a read of the socket under way.
abbrev pub socket_reading : ServerSocket → View → Environment → Environment
socket_reading socket buffer s =
    launched (socket_request socket buffer) (prep_read socket.fd (int_length buffer.store) (pos 0))
      (record s { contexts = s.contexts + 1 })

-- A read of a socket is always submitted.
pub socket_read_lem :
    (new_buffer : Environment → View) (emit : Emission → Environment → Environment)
    (socket : ServerSocket) (s : Environment)
    → socket_read new_buffer emit socket s ≡ ok (socket_reading socket (new_buffer s) s)
unfolding socket_read read_call read_write_request no_js.Args.int_arg no_js.Args.view_arg
    no_js.Args.number_arg_or no_js.Args.context_arg no_js.Io.launch_context no_js.Io.transfer_body
    no_js.Io.is_batch prepare
socket_read_lem new_buffer emit socket s =
    launch_lem (socket_request socket (new_buffer s)) (record s { contexts = s.contexts + 1 }) refl

module _ (new_buffer : Environment → View) (emit : Emission → Environment → Environment)
    (js : JavaScript) (js-Calls : (f : ℕ) (v : ℤ) (s : Environment) → Calls s (js f v s))
    (m : Machine) (socket : ServerSocket)
    (runs : (v : ℤ) (s t : Environment)
      → socket_status new_buffer emit socket v s ≡ ok t
      → js socket.on_status v s ≡ t) where
  completed :
      (res : ℤ) (s t : Environment)
      → let w = at_call (socket_request socket (new_buffer s)) res socket.on_status s in
        socket_status new_buffer emit socket res w ≡ ok t
        → complete js m (s.next_address, res) (socket_reading socket (new_buffer s) s)
          ≡ ok (released s.next_address t)
  completed res s t e =
      complete-launched js js-Calls m read
        (io_body socket.fd (pos 0) (int_length (new_buffer s).store)) onread socket.on_status
        (prep_read socket.fd (int_length (new_buffer s).store) (pos 0)) res s
      ∙ ap (λ u. ok (released s.next_address u)) (runs res _ t e)

  in_ring :
      (buffer : View) (s : Environment)
      → find s.next_address (socket_reading socket buffer s).ring
        ≡ some (prep_read socket.fd (int_length buffer.store) (pos 0))
  unfolding find
  in_ring buffer s = rw (==_refl s.next_address) refl

  -- When functions do nothing but call native functions, and the function of the socket's reads does
  -- what `ServerSocket.read` says: a read of the socket is submitted. When it completes with some
  -- bytes, the listeners of `data` run and then the next read of the socket is submitted; when it
  -- completes with 0 the listeners of `end` run, when it fails those of `error`, and nothing more is
  -- read; in each case the request of the read that is done is released, with its context.
  pub complete-socket_read :
      (n : ℕ) (s : Environment)
      → let buffer = new_buffer s in
        let called = λ (res : ℤ). at_call (socket_request socket buffer) res socket.on_status s in
        let heard = emit data_event (called (pos (suc n))) in
        (t : Environment) × (socket_read new_buffer emit socket s ≡ ok t)
        × (find s.next_address t.ring
            ≡ some (prep_read socket.fd (int_length buffer.store) (pos 0)))
        × (complete js m (s.next_address, pos (suc n)) t
            ≡ ok (released s.next_address (socket_reading socket (new_buffer heard) heard)))
        × (complete js m (s.next_address, pos 0) t
            ≡ ok (released s.next_address (emit end_event (called (pos 0)))))
        × (complete js m (s.next_address, negsuc n) t
            ≡ ok (released s.next_address (emit error_event (called (negsuc n)))))
  unfolding socket_status
  complete-socket_read n s = (
    socket_reading socket (new_buffer s) s,
    socket_read_lem new_buffer emit socket s,
    in_ring (new_buffer s) s,
    completed (pos (suc n)) s _ (socket_read_lem new_buffer emit socket _),
    completed (pos 0) s _ refl,
    completed (negsuc n) s _ refl,
  )
