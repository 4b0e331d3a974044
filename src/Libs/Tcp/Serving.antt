-- ===== src/Libs/Tcp/Serving.antt =====
-- A server from `listen` to the first read of a connection.
use no_js.Base.{ℕ, suc, ◌<◌, ◌≡◌, refl, ==_refl, ◌==◌, arith, some, ok, ◌∷◌, ◌>>=◌, Returns, false}
use no_js.Base.Dict.{Dict, find}
use no_js.Base.Int.{ℤ, pos}
use no_js.Io.{int_length}
use no_js.Env.{Environment, Request, Sqe, prep_accept, prep_read}
use no_js.Args.{View, arg, int_arg}
use no_js.Async.{JavaScript, call_function}
use no_js.Inotify.{Machine}
use no_js.Uring.{enter}
use no_js.Uring.Ownership.{IsFormed}
use no_js.Net.{is_minus_one}
use no_js.Loop.{complete, received}
use no_js.Loop.Calls.{Calls}
use no_js.Loop.CallOwnership.{Calls-Holds}
use no_js.Loop.Connections.{
  accepting, ListensAt, complete-accepting, completed-ListensAt, listen-ListensAt,
}
use no_js.Libs.Tcp.{ServerSocket, Emission, listen_arguments, server, new_connection}
use no_js.Libs.Tcp.Reading.{socket_request, socket_reading, socket_read_lem}

-- A request that is allocated and in the ring.
abbrev UnderWay : ℕ → Request → Sqe → Dict Request → Dict Sqe → ℕ → Type 0
UnderWay p r q h g n = (find p h ≡ some r) × (find p g ≡ some q) × (p < n)

launched-UnderWay :
    (p : ℕ) (r : Request) (q : Sqe) (h : Dict Request) (g : Dict Sqe) (n : ℕ) (r' : Request)
    (q' : Sqe)
    → IsFormed r'
    → UnderWay p r q h g n
    → UnderWay p r q ((n, r') ∷ h) ((n, q') ∷ g) (suc n)
unfolding find
launched-UnderWay p r q h g n r' q' f (heap, ring, below) =
    (ground arith, ground arith, omega arith)

-- No native call ends a request.
Calls-UnderWay :
    (p : ℕ) (r : Request) (q : Sqe) {s t : Environment}
    → Calls s t
    → UnderWay p r q s.heap s.ring s.next_address
    → UnderWay p r q t.heap t.ring t.next_address
Calls-UnderWay p r q cs here =
    Calls-Holds (UnderWay p r q) (launched-UnderWay p r q) (λ h g n k. (k.0, k.1, omega arith)) cs
      here

-- A read of a descriptor, with some array, is under way.
abbrev pub IsRead : ℤ → ℕ → Environment → Type 0
IsRead fd on_status s =
    (p : ℕ) × (b : View) × (find p s.heap
      ≡ some (socket_request (record { fd = fd; on_status = on_status }) b))
    × (find p s.ring ≡ some (prep_read fd (int_length b.store) (pos 0)))

enter_self : (p : ℕ) (q : Sqe) (s : Environment) → find p (enter p (some q) s).ring ≡ some q
unfolding enter find
enter_self p q s = rw (==_refl p) refl

-- Another entry leaves a request as it is.
enter-IsRead :
    (fd : ℤ) (on_status p k : ℕ) (b : View) (q : Sqe) (s : Environment)
    → p < k
    → UnderWay k
        (socket_request (record { fd = fd; on_status = on_status }) b)
        (prep_read fd (int_length b.store) (pos 0))
        s.heap
        s.ring
        s.next_address
    → IsRead fd on_status (enter p (some q) s)
unfolding enter find
enter-IsRead fd on_status p k b q s less (heap, ring, below) =
    let other : (p == k) ≡ false = ground (arith, less) in (k, b, heap, rw other ring)

module _ (new_buffer : Environment → View) (emit : Emission → Environment → Environment)
    (emit_connection : Environment → Environment)
    (connection-Calls : (s : Environment) → Calls s (emit_connection s)) (js : JavaScript)
    (js-Calls : (f : ℕ) (v : ℤ) (s : Environment) → Calls s (js f v s)) (m : Machine)
    (on_client : ℕ) (on_status : ℤ → ℕ)
    (runs : (v : ℤ) (s t : Environment)
      → new_connection new_buffer emit emit_connection
          (record { fd = v; on_status = on_status v })
          s
        ≡ ok t
      → js on_client v s ≡ t) where
  abbrev client_socket : ℤ → ServerSocket
  client_socket v = record { fd = v; on_status = on_status v }

  connected :
      (v : ℤ) (s : Environment)
      → js on_client v s ≡ emit_connection (socket_reading (client_socket v) (new_buffer s) s)
  unfolding new_connection
  connected v s = runs v s _ (rw (socket_read_lem new_buffer emit (client_socket v) s, ◌>>=◌) refl)

  connected-UnderWay :
      (v : ℤ) (s : Environment)
      → let t = js on_client v s in
        UnderWay s.next_address
          (socket_request (client_socket v) (new_buffer s))
          (prep_read v (int_length (new_buffer s).store) (pos 0))
          t.heap
          t.ring
          t.next_address
  unfolding find
  connected-UnderWay v s =
      let reading = socket_reading (client_socket v) (new_buffer s) s in
      rw (connected v s) (
        Calls-UnderWay s.next_address _ _ (connection-Calls reading)
          (rw (==_refl s.next_address) refl, rw (==_refl s.next_address) refl, omega arith))

  called-UnderWay :
      (v : ℤ) (s : Environment)
      → let b = new_buffer (record s { calls = (on_client, v) ∷ s.calls }) in
        let t = call_function js on_client v s in
        UnderWay s.next_address
          (socket_request (client_socket v) b)
          (prep_read v (int_length b.store) (pos 0))
          t.heap
          t.ring
          t.next_address
  unfolding call_function
  called-UnderWay v s = connected-UnderWay v (record s { calls = (on_client, v) ∷ s.calls })

  -- When functions do nothing but call native functions, and the function that the server gives to
  -- `listen` does what the constructor says: where `listen` succeeds, an accept is submitted; and
  -- when it completes, with whatever number, negative ones too, the accept is submitted again, and
  -- a read of that number as a descriptor is under way.
  pub complete-server :
      (fd ret client : ℤ) (s : Environment)
      → is_minus_one ret ≡ false
      → Returns
          (λ v.
            (find s.next_address v.1.ring ≡ some (prep_accept fd 0))
            × Returns
                (λ u.
                  ListensAt s.next_address fd on_client client u
                  × (find s.next_address u.ring ≡ some (prep_accept fd 0))
                  × IsRead client (on_status client) u)
                (complete js m (s.next_address, client) v.1))
          (server fd on_client ret s)
  unfolding server arg int_arg
  complete-server fd ret client s succeeds =
      let ((v, t), e, (given, listens, ring)) =
        listen-ListensAt (listen_arguments fd on_client) fd ret on_client s refl (omega arith) refl
          succeeds in
      ((v, t), e, (ring, accepted t listens))
    where
      accepted :
          (t : Environment)
          → ListensAt s.next_address fd on_client (pos 0) t
          → Returns
              (λ u.
                ListensAt s.next_address fd on_client client u
                × (find s.next_address u.ring ≡ some (prep_accept fd 0))
                × IsRead client (on_status client) u)
              (complete js m (s.next_address, client) t)
      accepted t listens =
          let w = received s.next_address client (accepting fd on_client (pos 0)) t in
          (
            enter s.next_address (some (prep_accept fd 0)) (call_function js on_client client w),
            complete-accepting js js-Calls m s.next_address fd on_client (pos 0) client t listens,
            (
              completed-ListensAt js js-Calls m s.next_address fd on_client (pos 0) client t
                  listens,
              enter_self s.next_address (prep_accept fd 0) (call_function js on_client client w),
              enter-IsRead client (on_status client) s.next_address t.next_address
                  (new_buffer (record w { calls = (on_client, client) ∷ w.calls }))
                  (prep_accept fd 0) (call_function js on_client client w) listens.1
                  (called-UnderWay client w),
            ),
          )
