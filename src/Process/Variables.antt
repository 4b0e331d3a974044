-- ===== src/Process/Variables.antt =====
-- core/process.cc: the object `process.env`, and `getEnv`. The variables are the C library's: its
-- functions, and what is relied on of them, are an interface.
use no_js.Base.{
  Bool, true, Option, none, some, String, ◌≡◌, ◌≢◌, refl, sym, ◌∙◌, Option-cases, inl, inr,
}

-- The C library: `getenv`, `setenv` that overwrites, and `unsetenv`, on the variables of a process.
-- `is_name` are the names that `setenv` accepts.
pub record Variables : Type 1 where
  pub Vars : Type 0
  pub getenv : String → Vars → Option String
  pub setenv : String → String → Vars → Vars
  pub unsetenv : String → Vars → Vars
  pub is_name : String → Bool
  pub getenv_set : (k v : String) (s : Vars) → is_name k ≡ true → getenv k (setenv k v s) ≡ some v
  pub getenv_set_ne : (j k v : String) (s : Vars) → j ≢ k → getenv j (setenv k v s) ≡ getenv j s
  pub getenv_unset : (k : String) (s : Vars) → is_name k ≡ true → getenv k (unsetenv k s) ≡ none
  pub getenv_unset_ne : (j k : String) (s : Vars) → j ≢ k → getenv j (unsetenv k s) ≡ getenv j s

module _ (c : Variables) where
  -- `EnvGetter`: `none` is the empty handle.
  unfoldable pub env_getter : String → c.Vars → Option String
  env_getter key s = elim (c.getenv key s) [ none ↦ none | some value ↦ some value ]

  -- `Process::GetEnv`.
  unfoldable pub get_env : String → c.Vars → Option String
  get_env key s = elim (c.getenv key s) [ none ↦ none | some value ↦ some value ]

  -- `EnvSetter`: an empty handle for the key or the value changes nothing.
  unfoldable pub env_setter : Option String → Option String → c.Vars → c.Vars
  env_setter (some key) (some value) s = c.setenv key value s
  env_setter none value s = s
  env_setter (some key) none s = s

  -- `EnvDeleter`.
  unfoldable pub env_deleter : String → c.Vars → Bool × c.Vars
  env_deleter key s = (true, c.unsetenv key s)

  env_getter_eq : (key : String) (s : c.Vars) → env_getter key s ≡ c.getenv key s
  unfolding env_getter
  env_getter_eq key s = elim (Option-cases (c.getenv key s)) [
    | inl e ↦ rw (e, env_getter) refl
    | inr (v, e) ↦ rw (e, env_getter) refl
  ]

  -- A property of `process.env` that is set has its value, and one that is deleted has none, where
  -- the C library accepts the name; every other property stays as it is.
  pub env_getter_lem :
      (k v : String) (s : c.Vars)
      → c.is_name k ≡ true
      → (env_getter k (env_setter (some k) (some v) s) ≡ some v)
        × (env_getter k (env_deleter k s).1 ≡ none)
        × ((j : String)
            → j ≢ k
            → (env_getter j (env_setter (some k) (some v) s) ≡ env_getter j s)
              × (env_getter j (env_deleter k s).1 ≡ env_getter j s))
  unfolding env_setter env_deleter
  env_getter_lem k v s valid = (
    env_getter_eq k _ ∙ c.getenv_set k v s valid,
    env_getter_eq k _ ∙ c.getenv_unset k s valid,
    λ j other. (
      env_getter_eq j _ ∙ c.getenv_set_ne j k v s other ∙ sym (env_getter_eq j s),
      env_getter_eq j _ ∙ c.getenv_unset_ne j k s other ∙ sym (env_getter_eq j s),
    ),
  )
