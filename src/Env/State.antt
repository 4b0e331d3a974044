-- ===== src/Env/State.antt =====
-- The state of the process: `class Environment` (core/env.h), its `io_uring_info`
-- (core/io_uring.h), the allocated blocks, and the static tables of the modules.
use no_js.Base.{ℕ, List, [], Bool, true}
use no_js.Base.Dict.{Dict}
use no_js.Base.Int.{ℤ}
use no_js.Env.Events.{Object}
use no_js.Env.Requests.{Request, Sqe}

-- `TimerRequestContext`: `interval` is the flag `INTERVAL`.
pub record TimerContext : Type 0 where
  pub interval : Bool
  pub object : Object

-- `SignalRequestContext`, with the address at which it is allocated.
pub record SignalContext : Type 0 where
  pub address : ℕ
  pub object : Object
  pub sig : ℕ

-- `InotifyRequestContext`.
pub record InotifyContext : Type 0 where
  pub id : ℕ
  pub object : Object

-- `pending` is the bit pattern of an `int32_t`; `ring` holds the entries that are submitted and not
-- completed, by their `user_data`; `heap` holds the allocated requests, and `next_address` is past
-- every address in use; `contexts` counts the `RequestContext`s and `buffers` the blocks of 4096
-- bytes that are allocated; `kernel_timers` are the timers that the kernel has, newest first; `calls` lists the calls of JavaScript functions, newest first.
pub record Environment : Type 0 where
  pub pending : ℕ
  pub stop : ℕ
  pub ring : Dict Sqe
  pub heap : Dict Request
  pub next_address : ℕ
  pub contexts : ℕ
  pub buffers : ℕ
  pub timer_map : Dict TimerContext
  pub kernel_timers : List ℕ
  pub signal_map : Dict (List SignalContext)
  pub inotify_map : Dict (List InotifyContext)
  pub inotify_fd : ℤ
  pub count : ℕ
  pub need_submit : Bool
  pub last_id : ℕ
  pub calls : List (ℕ × ℤ)

-- `Environment::Environment`, which clears the `io_uring_info`, with the initial values of the
-- modules' tables. The inotify descriptor is not set by it.
abbrev pub new_environment : ℕ → ℤ → Environment
new_environment first fd = record {
  pending = 0;
  stop = 0;
  ring = [];
  heap = [];
  next_address = first;
  contexts = 0;
  buffers = 0;
  timer_map = [];
  kernel_timers = [];
  signal_map = [];
  inotify_map = [];
  inotify_fd = fd;
  count = 0;
  need_submit = true;
  last_id = 0;
  calls = [];
}
