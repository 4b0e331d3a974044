-- ===== src/Tests/Modules.antt =====
-- Programs whose files require each other.
use no_js.Base.{
  ℕ, ◌+◌, ◌==◌, ◌<◌, ◌≡◌, refl, arith, if◌then◌else◌, Bool-cases, inl, inr, none, some, List, [],
  ◌∷◌, All,
}
use no_js.Base.Dict.{find}
use no_js.Libs.Module.{Modules, cached, load}
use no_js.Libs.Module.Cache.{times, IsOnce, hits}
use no_js.Libs.Module.Loading.{load-IsOnce, load_cycle}

-- File 2 requires file 1 twice, and file 1 nothing.
abbrev requires : ℕ → List ℕ
requires f = if f == 2 then 1 ∷ 1 ∷ [] else []

abbrev rank : ℕ → ℕ
rank f = if f == 2 then 1 else 0

abbrev all_true : ℕ → ℕ
all_true f = 1

acyclic : (f : ℕ) → All (λ g. rank g < rank f) (requires f)
acyclic f = elim (Bool-cases (f == 2)) [
  | inl two ↦ rw two (omega arith, (omega arith, tt))
  | inr other ↦ rw other tt
]

abbrev nothing_loaded : Modules
nothing_loaded = record { map = []; compiled = [] }

none_loaded : (g : ℕ) → IsOnce nothing_loaded g
unfolding times no_js.Libs.Module.Cache.hits cached find
none_loaded g = refl

load-IsOnce_example :
    (t : Modules) × (load requires all_true 2 2 nothing_loaded ≡ some t)
    × (times 2 t.compiled ≡ 1)
    × ((g : ℕ) → rank g < rank 2 + 1 → IsOnce t g)
    × (load requires all_true 2 2 t ≡ some t)
load-IsOnce_example =
    load-IsOnce requires all_true rank acyclic (λ f e. absurd (omega arith)) 2 2 nothing_loaded
      (omega arith) (λ g low. none_loaded g)

-- Files 1 and 2 require each other.
abbrev other_one : ℕ → List ℕ
other_one f = if f == 2 then 1 ∷ [] else 2 ∷ []

not_cached : (f : ℕ) → cached f nothing_loaded ≡ none
unfolding cached find
not_cached f = refl

load_cycle_example :
    (load other_one all_true 9 1 nothing_loaded ≡ none)
    × (load other_one all_true 9 2 nothing_loaded ≡ none)
load_cycle_example =
    load_cycle other_one all_true 1 2 [] [] 9 nothing_loaded refl refl (not_cached 1) (not_cached 2)
