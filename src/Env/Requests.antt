-- ===== src/Env/Requests.antt =====
-- The request structures of core/io_uring.h. A pointer is the address of a block, a function of
-- JavaScript is a number, and a file descriptor is an integer.
use no_js.Base.{ℕ, String, Option, List}
use no_js.Base.Int.{ℤ}
use no_js.Env.Events.{Event, Object}

-- The operation codes that `SubmitRequest` knows, and any other.
pub data Opcode : Type 0 where
  nop readv writev accept openat connect close read write : Opcode
  other : ℕ → Opcode

-- The functions that stand in a request's `cb`.
pub data Callback : Type 0 where
  make_callback : Event → Callback
  open_after timer_cb signal_cb inotify_handler null_callback : Callback

-- What `data` points to: a `RequestContext` (whose object may be empty), a timer's id, the context
-- of a signal listener, or the environment.
pub data UserData : Type 0 where
  request_context : Option Object → UserData
  timer_id : ℕ → UserData
  signal_context : ℕ → UserData
  environment : UserData

-- A `sockaddr_in` or a `sockaddr_un`.
pub data SocketAddress : Type 0 where
  inet_address : String → ℕ → SocketAddress
  unix_address : String → SocketAddress

-- A block of memory that is read or written: its address and its length.
pub record Block : Type 0 where
  pub base : ℕ
  pub len : ℕ

-- The fields that follow `REQUEST` in each structure.
pub data Body : Type 0 where
  plain : Body
  close_body : ℤ → Body
  io_body : ℤ → ℤ → Block → Body
  batch_body : ℤ → ℤ → List Block → Body
  tcp_body : ℤ → Body
  openat_body : ℤ → String → ℤ → ℤ → Body
  connect_body : ℤ → SocketAddress → Body

-- `struct request`.
pub record Request : Type 0 where
  pub op : Opcode
  pub cb : Callback
  pub res : ℤ
  pub user : UserData
  pub flag : ℕ
  pub body : Body

-- The call of liburing that fills the submission entry, with its arguments.
pub data Sqe : Type 0 where
  prep_read prep_write : ℤ → Block → ℤ → Sqe
  prep_readv prep_writev : ℤ → List Block → ℤ → Sqe
  prep_accept : ℤ → ℕ → Sqe
  prep_openat : ℤ → String → ℤ → ℤ → Sqe
  prep_connect : ℤ → SocketAddress → Sqe
  prep_close : ℤ → Sqe
  prep_nop : Sqe
