-- ===== src/Libs/Module.antt =====
-- libs/module/index.js: `require`, with its cache.
pub mod Cache
pub mod Loading
use no_js.Base.{ℕ, zero, suc, ◌==◌, if◌then◌else◌, Option, none, some, List, [], ◌∷◌}
use no_js.Base.Dict.{Dict, find, insert, update}

-- The variables of the module: `map`, with what was exported for each file name; and the files that
-- were compiled, the last one first.
pub record Modules : Type 0 where
  pub map : Dict ℕ
  pub compiled : List ℕ

-- `map[filename]`, if it is true as a condition. An exported value is a number, and 0 stands for the
-- values that are false (`undefined`, `null`, 0, '').
unfoldable pub cached : ℕ → Modules → Option ℕ
cached filename s = elim (find filename s.map) [
  | none ↦ none
  | some exports ↦ if exports == 0 then none else some exports
]

-- `map[filename] = exports`.
unfoldable pub assign_exports : ℕ → ℕ → Modules → Modules
assign_exports filename exports s = elim (find filename s.map) [
  | none ↦ record s { map = insert filename exports s.map }
  | some old ↦ record s { map = update filename exports s.map }
]

-- The calls of `Module.load` that a file makes as it runs, in order.
unfoldable pub load_each : (ℕ → Modules → Option Modules) → List ℕ → Modules → Option Modules
load_each load [] s = some s
load_each load (filename ∷ filenames) s = elim (load filename s) [
  | none ↦ none
  | some t ↦ load_each load filenames t
]

unfoldable pub exported : ℕ → ℕ → Option Modules → Option Modules
unfolding assign_exports
exported filename exports none = none
exported filename exports (some s) = some (assign_exports filename exports s)

-- The files of a program: what each requires as it runs, in order, and what it exports.
module _ (requires : ℕ → List ℕ) (exports : ℕ → ℕ) where
  -- `Module.load`, in `fuel` nested calls at most; `none` where these are not enough.
  unfoldable pub load : ℕ → ℕ → Modules → Option Modules
  unfolding cached load_each exported
  load zero filename s = none
  load (suc fuel) filename s = elim (cached filename s) [
    | some e ↦ some s
    | none ↦ exported filename (exports filename) (
        load_each (λ f t. load fuel f t) (requires filename)
          (record s { compiled = filename ∷ s.compiled }))
  ]
