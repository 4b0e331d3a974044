-- ===== src/Process/Memory.antt =====
-- The copies of the arguments of `execve`.
use no_js.Base.{ℕ, suc, List, [], ◌∷◌, ◌++◌, map, none, some, String, length, ◌≡◌, refl}
use no_js.Base.Int.{pos, negsuc}
use no_js.Process.{execve, execve_argv, free_argv, child_execve, parent_frees}

argv_map :
    (copy : String → ℕ) (args : List String)
    → execve_argv (λ a. some (copy a)) args ≡ map (λ a. some (copy a)) args ++ none ∷ []
unfolding execve_argv
argv_map copy [] = refl
argv_map copy (a ∷ args) = rw (argv_map copy args)

free_map :
    (copy : String → ℕ) (args : List String)
    → free_argv (length args) (execve_argv (λ a. some (copy a)) args) ≡ map copy args
unfolding execve_argv free_argv
free_map copy [] = refl
free_map copy (a ∷ args) = rw (free_map copy args)

-- When every copy can be made, the child runs the program on the copies in their order, ended by a
-- null pointer, and the parent frees every copy exactly once; also when `fork` fails.
pub execve_copies :
    (copy : String → ℕ) (args : List String)
    → (execve (λ a. some (copy a)) args (pos 0)
        ≡ child_execve (map (λ a. some (copy a)) args ++ none ∷ []) ("isMaster=0" ∷ []))
      × ((pid : ℕ)
          → execve (λ a. some (copy a)) args (pos (suc pid)) ≡ parent_frees (map copy args))
      × ((n : ℕ) → execve (λ a. some (copy a)) args (negsuc n) ≡ parent_frees (map copy args))
unfolding execve
execve_copies copy args =
    (rw (argv_map copy args), λ pid. rw (free_map copy args), λ n. rw (free_map copy args))
