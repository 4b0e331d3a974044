-- ===== src/Uring.antt =====
-- core/io_uring.cc: the requests and their submission. liburing is not part of the repository: a
-- call of it is recorded as the entry that it prepares, and what it answers are arguments.
pub mod Ownership
pub mod Launch
use no_js.Base.{
  ℕ, suc, ◌+◌, ◌%◌, ◌≡◌, Bool, Option, none, some, List, [], ◌∷◌, Result, ok, fault, Fault,
  freed_memory, wrong_struct, ◌>>=◌, or_fault, ◌==◌, if◌then◌else◌,
}
use no_js.Base.Dict.{Dict, find, erase, update}
use no_js.Base.Int.{ℤ, incr, decr}
use no_js.Env.{
  Opcode, nop, readv, writev, accept, openat, connect, close, read, write, other, Body, plain,
  close_body, io_body, batch_body, tcp_body, openat_body, connect_body, Request, Sqe, prep_read,
  prep_write, prep_readv, prep_writev, prep_accept, prep_openat, prep_connect, prep_close, prep_nop,
  Environment,
}

-- Following a pointer to a request.
unfoldable pub load : ℕ → Environment → Result Request
load p s = or_fault (find p s.heap) freed_memory

-- `malloc` and the writes that fill the structure. The block is new.
unfoldable pub alloc : Request → Environment → ℕ × Environment
alloc r s = (
  s.next_address,
  record s { heap = (s.next_address, r) ∷ s.heap; next_address = suc s.next_address },
)

-- `free`.
unfoldable pub free : ℕ → Environment → Result Environment
free p s = do r ← load p s; ok (record s { heap = erase p s.heap })

-- The `switch` of `SubmitRequest`: the structure that a request is cast to follows from its
-- operation, and an operation that is not known is not submitted.
unfoldable pub prepare : Opcode → Body → Result (Option Sqe)
prepare read (io_body fd offset b) = ok (some (prep_read fd b offset))
prepare write (io_body fd offset b) = ok (some (prep_write fd b offset))
prepare readv (batch_body fd offset bs) = ok (some (prep_readv fd bs offset))
prepare writev (batch_body fd offset bs) = ok (some (prep_writev fd bs offset))
prepare accept (tcp_body fd) = ok (some (prep_accept fd 0))
prepare openat (openat_body dir path flags mode) = ok (some (prep_openat dir path flags mode))
prepare connect (connect_body fd addr) = ok (some (prep_connect fd addr))
prepare close (close_body fd) = ok (some (prep_close fd))
prepare nop b = ok (some prep_nop)
prepare (other n) b = ok none
prepare _ _ = fault wrong_struct

abbrev pub inc_pending : Environment → Environment
inc_pending s = record s { pending = incr s.pending }

abbrev pub dec_pending : Environment → Environment
dec_pending s = record s { pending = decr s.pending }

-- The entry goes to the kernel with the request's address as its `user_data`.
unfoldable pub enter : ℕ → Option Sqe → Environment → Environment
enter p none s = s
enter p (some q) s = record s { pending = incr s.pending; ring = (p, q) ∷ s.ring }

-- `SubmitRequest`.
unfoldable pub submit_request : ℕ → Environment → Result Environment
unfolding enter
submit_request p s = do r ← load p s; sqe ← prepare r.op r.body; ok (enter p sqe s)

-- `Stop`.
unfoldable pub stop_loop : Environment → Environment
stop_loop s = record s { stop = 1 }
