-- ===== src/Process.antt =====
-- core/process.cc: starting a program. The answers of `fork` and `strdup` are arguments.
pub mod Memory
pub mod Variables
use no_js.Base.{
  ℕ, zero, suc, ◌+◌, ◌-◌, Bool, true, false, Option, none, some, List, [], ◌∷◌, ◌++◌, String, map,
  length, get_elem?, Result, ok, fault, null_pointer, ◌>>=◌, ltb, if◌then◌else◌,
}
use no_js.Base.Int.{ℤ, pos}
use no_js.Args.{Args, Value, number, string, undefined, int_arg_or}

-- `Process::Exit`: the status that `exit` is given.
unfoldable pub exit_status : Args → Result ℤ
exit_status args = do status ← int_arg_or args 0 (pos 0); ok status

-- The loop that fills `ptr`, from the copies that `strdup` makes (`none` is a null pointer), and the
-- null pointer behind them.
unfoldable pub execve_argv : (String → Option ℕ) → List String → List (Option ℕ)
execve_argv strdup [] = none ∷ []
execve_argv strdup (arg ∷ args) = strdup arg ∷ execve_argv strdup args

-- The loop that frees the copies: `i < length && ptr[i]`.
unfoldable pub free_argv : ℕ → List (Option ℕ) → List ℕ
free_argv zero ptr = []
free_argv (suc n) [] = []
free_argv (suc n) (none ∷ ptr) = []
free_argv (suc n) (some p ∷ ptr) = p ∷ free_argv n ptr

-- What a process does after `fork`: the child runs the program, with the environment of one entry,
-- and exits with -1 if it cannot; the parent frees the copies.
pub data AfterFork : Type 0 where
  child_execve : List (Option ℕ) → List String → AfterFork
  parent_frees : List ℕ → AfterFork

-- `Process::Execve`, with the answer of `fork`.
unfoldable pub execve : (String → Option ℕ) → List String → ℤ → AfterFork
unfolding execve_argv free_argv
execve strdup args (pos zero) = child_execve (execve_argv strdup args) ("isMaster=0" ∷ [])
execve strdup args pid = parent_frees (free_argv (length args) (execve_argv strdup args))

-- `Process::Fork`: the answer of `fork` is returned as it is, in the parent and in the child.
unfoldable pub fork_value : ℤ → Value
fork_value pid = number pid

-- `Process::Wait` keeps neither the status nor the answer of `wait`.
unfoldable pub wait_value : ℤ × ℤ → Value
wait_value answer = undefined

-- `Process::Cwd`: a null pointer of `getcwd` is measured by `strlen`.
unfoldable pub cwd : Option String → Result Value
cwd none = fault null_pointer
cwd (some path) = ok (string path)

-- The array `process.argv`, from the arguments of `main`.
unfoldable pub argv_values : List String → List Value
argv_values argv = map string argv
