-- ===== src/Tests.antt =====
-- Small states and programs, on which the theorems are applied.
pub mod Run
pub mod Deliveries
pub mod Parts
pub mod Program
pub mod Server
pub mod Ending
pub mod Libraries
pub mod Modules
pub mod Sockets
pub mod Signals
use no_js.Base.{ℕ, Bool, true, false, Option, none, some, List, [], ◌∷◌}
use no_js.Base.Int.{ℤ, pos}
use no_js.Env.{
  Environment, new_environment, Request, Block, Sqe, read, io_body, onread, prep_read,
  InotifyContext, holder, event_name, onchange,
}
use no_js.Args.{Args, Value, View, number, bytes, undefined, function}
use no_js.Async.{JavaScript}
use no_js.Inotify.{Machine, inotify_request}
use no_js.Loop.Calls.{Calls}
use no_js.Loop.Calls
use no_js.Loop.Delivery.{handled}
use no_js.Uring.Launch.{launched}

-- A program whose functions do nothing.
abbrev pub idle : JavaScript
idle f v s = s

pub idle-Calls : (f : ℕ) (v : ℤ) (s : Environment) → Calls s (idle f v s)
idle-Calls f v s = Calls.done

-- No watched files, and memory that is not read after its release.
abbrev pub machine : Machine
machine = record { fuel = 8; events_of = λ r. []; after_free = λ r. none }

abbrev pub start : Environment
start = new_environment 1 (pos 3)

abbrev pub block : Block
block = record { base = 4096; len = 16 }

abbrev pub view : View
view = record { store = block; byte_offset = 0; byte_length = 16 }

-- `read(5, view, undefined, f)`, where the function is number 7.
abbrev pub read_args : Args
read_args = number (pos 5) ∷ bytes view ∷ undefined ∷ function 7 ∷ []

abbrev pub read_request : Request
read_request = handled read (io_body (pos 5) (pos 0) block) onread 7

-- The read is under way.
abbrev pub reading_state : Environment
reading_state =
    launched read_request (prep_read (pos 5) block (pos 0)) (record start { contexts = 1 })

-- Watch 1 has a listener, and a read of events is under way.
abbrev pub watcher : InotifyContext
watcher = record { id = 0; object = holder (event_name onchange) 7 }

abbrev pub watching_state : Environment
watching_state =
    launched (inotify_request (pos 3) 1)
      (prep_read (pos 3) (record { base = 1; len = 4096 }) (pos 0))
      (record start {
        next_address = 2;
        buffers = 1;
        count = 1;
        need_submit = false;
        inotify_map = (1, watcher ∷ []) ∷ [];
      })
