-- ===== src/Io.antt =====
-- core/io.cc: reading, writing and closing, by requests and by system calls.
use no_js.Base.{◌+◌, ◌%◌, Bool, true, false, [], ◌∷◌, Result, ok, ◌>>=◌, if◌then◌else◌}
use no_js.Base.Int.{ℤ, pos, int_mod}
use no_js.Env.{
  Opcode, close, read, write, readv, writev, Body, io_body, batch_body, close_body, Request, Block,
  make_callback, onread, onclose, Environment, UserData,
}
use no_js.Args.{Args, int_arg, view_arg, number_arg_or, context_arg}
use no_js.Uring.Launch.{launch}

-- `op == IORING_OP_READV || op == IORING_OP_WRITEV`.
unfoldable pub is_batch : Opcode → Bool
is_batch readv = true
is_batch writev = true
is_batch _ = false

-- `len` of `struct io_request` is an `int`, and `unsigned` in the entry that is made from it: the
-- length of the store modulo 2^32.
abbrev pub int_length : Block → Block
int_length b = record b { len = b.len % int_mod }

-- A request with its context, submitted: `new RequestContext(...)`, then `SubmitRequest`.
unfoldable pub launch_context : Request → Environment → Result Environment
unfolding launch
launch_context r s = launch r (record s { contexts = s.contexts + 1 })

abbrev pub io_request : Opcode → Body → UserData → Request
io_request op body user = record {
  op = op;
  cb = make_callback onread;
  res = pos 0;
  user = user;
  flag = 0;
  body = body;
}

-- One vector with the block, or the block itself, with its length cut to an `int`.
unfoldable pub transfer_body : Opcode → ℤ → ℤ → Block → Body
unfolding is_batch
transfer_body op fd offset b =
    if is_batch op then batch_body fd offset (b ∷ []) else io_body fd offset (int_length b)

-- `read_write_request`: the block is the whole backing store of the array.
unfoldable pub read_write_request : Opcode → Args → Environment → Result Environment
unfolding launch_context transfer_body
read_write_request op args s = do
  fd ← int_arg args 0
  let offset = number_arg_or args 2 (pos 0)
  view ← view_arg args 1
  let body = transfer_body op fd offset view.store
  launch_context (io_request op body (context_arg args 3 onread)) s

unfoldable pub read_call : Args → Environment → Result Environment
unfolding read_write_request
read_call = read_write_request read

unfoldable pub write_call : Args → Environment → Result Environment
unfolding read_write_request
write_call = read_write_request write

unfoldable pub readv_call : Args → Environment → Result Environment
unfolding read_write_request
readv_call = read_write_request readv

unfoldable pub writev_call : Args → Environment → Result Environment
unfolding read_write_request
writev_call = read_write_request writev

abbrev pub close_request : ℤ → UserData → Request
close_request fd user = record {
  op = close;
  cb = make_callback onclose;
  res = pos 0;
  user = user;
  flag = 0;
  body = close_body fd;
}

-- `IO::Close`.
unfoldable pub close_call : Args → Environment → Result Environment
unfolding launch_context
close_call args s = do
  fd ← int_arg args 0
  launch_context (close_request fd (context_arg args 1 onclose)) s

-- A system call that answers at once: its name and its arguments.
pub data SystemCall : Type 0 where
  sys_read sys_write : ℤ → Block → SystemCall

-- `IO::ReadSync`; the answer of `read` is returned as it is.
unfoldable pub read_sync : Args → Result SystemCall
read_sync args = do fd ← int_arg args 0; view ← view_arg args 1; ok (sys_read fd view.store)

-- `IO::WriteSync`.
unfoldable pub write_sync : Args → Result SystemCall
write_sync args = do fd ← int_arg args 0; view ← view_arg args 1; ok (sys_write fd view.store)
