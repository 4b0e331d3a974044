-- ===== src/Net.antt =====
-- core/net.cc, core/udp.cc and core/ipc/unix_domain.cc: sockets. What the system calls answer are
-- arguments, and `inet_addr` stays applied.
use Prim.Native.String.{len}
use no_js.Base.{
  ℕ, ◌-◌, ◌%◌, ◌^◌, Bool, false, String, Option, none, some, List, [], ◌∷◌, length, Result, ok,
  fault, out_of_range, ◌>>=◌, ltb, ◌==◌, if◌then◌else◌,
}
use no_js.Base.Int.{ℤ, pos, negsuc}
use no_js.Env.{
  accept, connect, connect_body, tcp_body, Request, Block, SocketAddress, inet_address,
  unix_address, make_callback, onconnect, Environment, UserData,
}
use no_js.Args.{Args, Value, number, int_arg, string_arg, view_arg, context_arg}
use no_js.Io.{launch_context}

pub data SocketCall : Type 0 where
  sys_socket : ℤ → ℤ → SocketCall
  sys_bind : ℤ → SocketAddress → SocketCall
  sys_setsockopt : ℤ → ℤ → ℤ → ℤ → SocketCall
  sys_accept : ℤ → SocketCall
  sys_listen : ℤ → ℤ → SocketCall
  sys_unlink : String → SocketCall
  sys_socketpair : ℤ → ℤ → SocketCall
  sys_sendto sys_recvfrom : ℤ → Block → ℤ → Option SocketAddress → SocketCall

-- The conversion of an `int` to the `uint16_t` that `htons` takes.
unfoldable pub port_of : ℤ → ℕ
port_of (pos n) = n % 2 ^ 16
port_of (negsuc n) = 2 ^ 16 - 1 - n % 2 ^ 16

-- `HandleAddrInfo` of core/net.cc.
unfoldable pub handle_addr_info : Args → Result SocketAddress
unfolding port_of
handle_addr_info args = do
  fd ← int_arg args 0
  ip ← string_arg args 1
  port ← int_arg args 2
  ok (inet_address ip (port_of port))

unfoldable pub socket : Args → Result SocketCall
socket args = do domain ← int_arg args 0; type ← int_arg args 1; ok (sys_socket domain type)

unfoldable pub bind : Args → Result SocketCall
bind args = do fd ← int_arg args 0; addr ← handle_addr_info args; ok (sys_bind fd addr)

abbrev pub connect_request : ℤ → SocketAddress → UserData → Request
connect_request fd addr user = record {
  op = connect;
  cb = make_callback onconnect;
  res = pos 0;
  user = user;
  flag = 0;
  body = connect_body fd addr;
}

-- `Net::Connect`.
unfoldable pub connect_call : Args → Environment → Result Environment
connect_call args s = do
  fd ← int_arg args 0
  addr ← handle_addr_info args
  launch_context (connect_request fd addr (context_arg args 3 onconnect)) s

unfoldable pub setsockopt : Args → Result SocketCall
setsockopt args = do
  fd ← int_arg args 0
  level ← int_arg args 1
  name ← int_arg args 2
  value ← int_arg args 3
  ok (sys_setsockopt fd level name value)

-- `IO_URING_REQUEST_AGAIN` is set: a connection that is accepted submits the request again.
abbrev pub accept_request : ℤ → UserData → Request
accept_request fd user = record {
  op = accept;
  cb = make_callback onconnect;
  res = pos 0;
  user = user;
  flag = 1;
  body = tcp_body fd;
}

-- The call of `listen` in `Net::Listen`: both numbers are taken from `args[0]`.
unfoldable pub listen_syscall : Args → Result SocketCall
listen_syscall args = do fd ← int_arg args 0; backlog ← int_arg args 0; ok (sys_listen fd backlog)

unfoldable pub is_minus_one : ℤ → Bool
is_minus_one (pos n) = false
is_minus_one (negsuc n) = n == 0

-- `Net::Listen`, with the answer of `listen`.
unfoldable pub listen : Args → ℤ → Environment → Result (ℤ × Environment)
unfolding is_minus_one
listen args ret s = do
  fd ← int_arg args 0
  let submitted = launch_context (accept_request fd (context_arg args 2 onconnect)) s
  if is_minus_one ret then ok (ret, s) else (submitted >>= λ t. ok (ret, t))

unfoldable pub accept_call : Args → Result SocketCall
accept_call args = do fd ← int_arg args 0; ok (sys_accept fd)

-- The address of `UDP::SendTo` and `UDP::RecvFrom`, which is given if there are five arguments.
unfoldable pub udp_address : Args → Result (Option SocketAddress)
unfolding port_of
udp_address args =
    let given = (do
      ip ← string_arg args 3
      port ← int_arg args 4
      ok (some (inet_address ip (port_of port)))) in
    if ltb 4 (length args) then given else ok none

unfoldable pub send_to : Args → Result SocketCall
send_to args = do
  fd ← int_arg args 0
  view ← view_arg args 1
  flags ← int_arg args 2
  addr ← udp_address args
  ok (sys_sendto fd view.store flags addr)

unfoldable pub recv_from : Args → Result SocketCall
recv_from args = do
  fd ← int_arg args 0
  view ← view_arg args 1
  flags ← int_arg args 2
  addr ← udp_address args
  ok (sys_recvfrom fd view.store flags addr)

-- The size of `sun_path`.
abbrev pub sun_path_size : ℕ
sun_path_size = 108

-- `HandleAddrInfo` of core/ipc/unix_domain.cc: `strcpy` writes the path and its final 0 into
-- `sun_path`, whatever its length.
unfoldable pub unix_addr_info : Args → Result SocketAddress
unix_addr_info args = do
  path ← string_arg args 1
  if ltb (len path) sun_path_size then ok (unix_address path) else fault out_of_range

unfoldable pub path_of : SocketAddress → String
path_of (unix_address path) = path
path_of (inet_address ip port) = ip

-- `UNIX_DOMAIN::Bind`: the calls in their order.
unfoldable pub unix_bind : Args → Result (List SocketCall)
unfolding path_of
unix_bind args = do
  fd ← int_arg args 0
  addr ← unix_addr_info args
  ok (sys_unlink (path_of addr) ∷ sys_bind fd addr ∷ [])

-- `UNIX_DOMAIN::Connect`.
unfoldable pub unix_connect : Args → Environment → Result Environment
unix_connect args s = do
  fd ← int_arg args 0
  addr ← unix_addr_info args
  launch_context (connect_request fd addr (context_arg args 2 onconnect)) s

-- `UNIX_DOMAIN::SocketPair`: the call, and the array that its answer becomes.
unfoldable pub socket_pair : Args → Result SocketCall
socket_pair args = do
  domain ← int_arg args 0
  type ← int_arg args 1
  ok (sys_socketpair domain type)

unfoldable pub socket_pair_value : ℤ → ℤ → ℤ → List Value
unfolding is_minus_one
socket_pair_value ret fd0 fd1 = if is_minus_one ret then [] else number fd0 ∷ number fd1 ∷ []
