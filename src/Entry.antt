-- ===== src/Entry.antt =====
-- No.cc: the program from its start to the end of the loop. The start of V8 is outside; what V8 makes
-- of a source, and what the system calls answer, are arguments.
pub mod Start
use no_js.Base.{ℕ, zero, suc, ◌+◌, Option, none, some, List, [], ◌∷◌, Result}
use no_js.Base.Bytes.{Bytes}
use no_js.Base.Int.{ℤ, pos}
use no_js.Env.{Environment, new_environment}
use no_js.Async.{JavaScript}
use no_js.Inotify.{Machine}
use no_js.Loop.{Happening, Progress, run_io_uring}

-- How `main` ends: by `exit`, by a check of V8 that fails (`ToLocalChecked`), or with what the loop
-- does.
pub data Ended : Type 0 where
  exits : ℕ → Ended
  aborts : Ended
  loops : Result (Progress × Environment) → Ended

-- What `main` finds: the first free address, what `inotify_init1` answers, the size that `fstat`
-- gives for No.js, what the `st_size + 1` bytes from `malloc` hold, and the bytes that the one `read`
-- gives (`none` for -1).
pub record Surroundings : Type 0 where
  pub first : ℕ
  pub inotify_fd : Option ℕ
  pub st_size : ℕ
  pub fresh : Bytes
  pub read_answer : Option Bytes

-- `Script::Compile`, and `Run` with what the script does to the process; `none` is an exception.
pub record Engine : Type 0 where
  pub compile : Bytes → Option ℕ
  pub run : ℕ → Environment → Option Environment

unfoldable pub take {ℓ} : {A : Type ℓ} → ℕ → List A → List A
take zero xs = []
take (suc n) [] = []
take (suc n) (x ∷ xs) = x ∷ take n xs

-- `read` into the block: the bytes that it gives replace the first ones.
unfoldable pub overwrite {ℓ} : {A : Type ℓ} → List A → List A → List A
overwrite [] block = block
overwrite (b ∷ bs) [] = []
overwrite (b ∷ bs) (x ∷ block) = b ∷ overwrite bs block

unfoldable pub read_into : Option Bytes → Bytes → Bytes
unfolding overwrite
read_into none block = block
read_into (some bs) block = overwrite bs block

-- The source: the first `st_size` bytes of the block, however many `read` gave.
unfoldable pub script_source : Surroundings → Bytes
unfolding take read_into
script_source w = take w.st_size (read_into w.read_answer w.fresh)

module _ (js : JavaScript) (m : Machine) (v8 : Engine) where
  unfoldable pub run_script : List (List Happening) → Option Environment → Ended
  run_script schedule none = aborts
  run_script schedule (some s) = loops (run_io_uring js m schedule s)

  unfoldable pub start_script : List (List Happening) → Option ℕ → Environment → Ended
  unfolding run_script
  start_script schedule none s = aborts
  start_script schedule (some script) s = run_script schedule (v8.run script s)

  -- `main`: `Inotify::Init` exits with 126 if there is no descriptor; then the script is read,
  -- compiled and run, and the loop follows.
  unfoldable pub main : Surroundings → List (List Happening) → Ended
  unfolding start_script script_source
  main w schedule = elim w.inotify_fd [
    | none ↦ exits 126
    | some fd ↦
        start_script schedule (v8.compile (script_source w)) (new_environment w.first (pos fd))
  ]
