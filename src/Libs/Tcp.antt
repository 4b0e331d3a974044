-- ===== src/Libs/Tcp.antt =====
-- libs/tcp/index.js: a socket of a server reads until its peer closes.
pub mod Reading
pub mod Data
pub mod Serving
use no_js.Base.{
  ℕ, zero, suc, ◌+◌, ◌-◌, ◌++◌, Option, some, none, List, [], ◌∷◌, Result, ok, ◌>>=◌, length,
}
use no_js.Base.Bytes.{Bytes}
use no_js.Base.Int.{ℤ, pos, negsuc}
use no_js.Env.{Environment}
use no_js.Args.{Args, View, number, bytes, function}
use no_js.Io.{read_call, write_call}
use no_js.Net.{listen}
use no_js.Libs.Buffer.{alloc}

-- A `ServerSocket`: its descriptor, and the number of the function that `read` gives to `tcp.read`.
pub record ServerSocket : Type 0 where
  pub fd : ℤ
  pub on_status : ℕ

-- The events of a socket.
pub data Emission : Type 0 where
  end_event data_event error_event : Emission

-- `Buffer.alloc(1024)` in `read`.
abbrev pub read_size : ℕ
read_size = 1024

abbrev pub read_arguments : ServerSocket → View → Args
read_arguments socket buffer =
    number socket.fd ∷ bytes buffer ∷ number (pos 0) ∷ function socket.on_status ∷ []

abbrev pub listen_arguments : ℤ → ℕ → Args
listen_arguments fd on_client = number fd ∷ number (pos 512) ∷ function on_client ∷ []

-- `new_buffer` is the array that `Buffer.alloc` gives in a state, and `emit` what the listeners of
-- the events do.
module _ (new_buffer : Environment → View) (emit : Emission → Environment → Environment) where
  -- `ServerSocket.read`.
  unfoldable pub socket_read : ServerSocket → Environment → Result Environment
  socket_read socket s = read_call (read_arguments socket (new_buffer s)) s

  -- The function that `read` gives to `tcp.read`, on the status of the read.
  unfoldable pub socket_status : ServerSocket → ℤ → Environment → Result Environment
  unfolding socket_read
  socket_status socket (pos zero) s = ok (emit end_event s)
  socket_status socket (pos (suc n)) s = socket_read socket (emit data_event s)
  socket_status socket (negsuc n) s = ok (emit error_event s)

  -- The function that `Server` gives to `tcp.listen`, less the count of connections: the new socket
  -- reads at once, and then it is shown to the listeners of `connection`.
  unfoldable pub new_connection :
      (Environment → Environment) → ServerSocket → Environment → Result Environment
  unfolding socket_read
  new_connection emit_connection socket s = do t ← socket_read socket s; ok (emit_connection t)

-- The end of the constructor `Server`: `tcp.listen`, with the number of the function that it gives,
-- and what the call of `listen` answers. The calls of `socket` and `bind` before it leave the state.
unfoldable pub server : ℤ → ℕ → ℤ → Environment → Result (ℤ × Environment)
server fd on_client ret s = listen (listen_arguments fd on_client) ret s

-- `Socket.write` of a buffer.
unfoldable pub socket_write : ℤ → View → Environment → Result Environment
socket_write fd buffer s = write_call (number fd ∷ bytes buffer ∷ []) s

-- The content of the array of a read that gave some bytes: the kernel has written them at its start.
unfoldable pub received_buffer : Bytes → Bytes
unfolding alloc
received_buffer got = got ++ alloc (read_size - length got)
