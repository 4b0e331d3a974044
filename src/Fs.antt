-- ===== src/Fs.antt =====
-- core/fs.cc: opening files.
use no_js.Base.{ℕ, String, Option, none, some, Result, ok, ◌>>=◌, length, ltb, if◌then◌else◌}
use no_js.Base.Int.{ℤ, pos, negsuc}
use no_js.Env.{
  openat, openat_body, open_after, Request, request_context, bare_function, UserData, Environment,
}
use no_js.Args.{Args, Value, null, string, function, arg, int_arg, string_arg, int_arg_or}
use no_js.Uring.{free}
use no_js.Io.{launch_context}

pub data FileCall : Type 0 where
  sys_open : String → ℤ → ℤ → FileCall
  sys_dup : ℤ → FileCall
  sys_dup2 : ℤ → ℤ → FileCall

-- `O_RDONLY`, `S_IRUSR | S_IWUSR | S_IRGRP | S_IROTH` and `AT_FDCWD`.
abbrev pub o_rdonly : ℤ
o_rdonly = pos 0

abbrev pub default_mode : ℤ
default_mode = pos 0o644

abbrev pub at_fdcwd : ℤ
at_fdcwd = negsuc 99

-- `FS::OpenSync`.
unfoldable pub open_sync : Args → Result FileCall
open_sync args = do
  filename ← string_arg args 0
  flags ← int_arg_or args 1 o_rdonly
  mode ← int_arg_or args 2 default_mode
  ok (sys_open filename flags mode)

unfoldable pub dup : Args → Result FileCall
dup args = do fd ← int_arg args 0; ok (sys_dup fd)

unfoldable pub dup2 : Args → Result FileCall
dup2 args = do fd1 ← int_arg args 0; fd2 ← int_arg args 1; ok (sys_dup2 fd1 fd2)

abbrev pub openat_request : ℤ → String → ℤ → ℤ → UserData → Request
openat_request dir path flags mode user = record {
  op = openat;
  cb = open_after;
  res = pos 0;
  user = user;
  flag = 0;
  body = openat_body dir path flags mode;
}

unfoldable pub dir_of : Value → Result ℤ → Result ℤ
dir_of null given = ok at_fdcwd
dir_of _ given = given

unfoldable pub openat_context : Value → UserData
openat_context (function f) = request_context (some (bare_function f))
openat_context _ = request_context none

-- `FS::OpenAt`.
unfoldable pub open_at : Args → Environment → Result Environment
unfolding dir_of openat_context
open_at args s = do
  dir ← dir_of (arg args 0) (int_arg args 0)
  path ← string_arg args 1
  flags ← int_arg_or args 2 o_rdonly
  mode ← int_arg_or args 3 default_mode
  let user = if ltb 4 (length args) then openat_context (arg args 4) else request_context none
  launch_context (openat_request dir path flags mode user) s

-- `openAfter` prints the result and frees the request; the context stays allocated.
unfoldable pub open_after_callback : ℕ → Environment → Result Environment
open_after_callback p s = free p s

-- `FS::Realpath`, with the answer of `realpath`.
unfoldable pub realpath_value : Option String → Value
realpath_value none = null
realpath_value (some path) = string path
