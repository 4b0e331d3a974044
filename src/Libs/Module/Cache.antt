-- ===== src/Libs/Module/Cache.antt =====
-- What a write into the cache, and a compilation, change.
use no_js.Base.{
  ℕ, ◌+◌, ◌≡◌, ◌≢◌, refl, ◌∙◌, arith, false, none, some, List, [], ◌∷◌, ◌==◌, if◌then◌else◌,
  ==_refl, Option-cases, inl, inr,
}
use no_js.Base.Dict.{find, find-insert, find-update_self, find-update_ne, occurs-find}
use no_js.Libs.Module.{Modules, cached, assign_exports}

-- How often a file was compiled.
unfoldable pub times : ℕ → List ℕ → ℕ
times filename [] = 0
times filename (f ∷ compiled) = (if f == filename then 1 else 0) + times filename compiled

-- 1 if the file has an entry in the cache that counts, else 0.
unfoldable pub hits : ℕ → Modules → ℕ
hits filename s = elim (cached filename s) [ none ↦ 0 | some e ↦ 1 ]

-- A file was compiled once if it is in the cache, and else not yet.
abbrev pub IsOnce : Modules → ℕ → Type 0
IsOnce s filename = times filename s.compiled ≡ hits filename s

pub find-assign_ne :
    (g filename e : ℕ) (s : Modules)
    → g ≢ filename
    → find g (assign_exports filename e s).map ≡ find g s.map
unfolding assign_exports
find-assign_ne g filename e s other = elim (Option-cases (find filename s.map)) [
  | inl new ↦
      rw (new, assign_exports)
        (find-insert g filename e s.map new
          ∙ (let test : (filename == g) ≡ false = ground (arith, other) in rw test refl))
  | inr (old, there) ↦ rw (there, assign_exports) (find-update_ne g filename e s.map other)
]

pub find-assign_self :
    (filename e : ℕ) (s : Modules) → find filename (assign_exports filename e s).map ≡ some e
unfolding assign_exports
find-assign_self filename e s = elim (Option-cases (find filename s.map)) [
  | inl new ↦
      rw (new, assign_exports)
        (find-insert filename filename e s.map new ∙ rw (==_refl filename) refl)
  | inr (old, there) ↦
      rw (there, assign_exports)
        (find-update_self filename e s.map (occurs-find filename s.map there))
]

pub compiled-assign :
    (filename e : ℕ) (s : Modules) → (assign_exports filename e s).compiled ≡ s.compiled
unfolding assign_exports
compiled-assign filename e s = elim (Option-cases (find filename s.map)) [
  | inl new ↦ rw (new, assign_exports) refl
  | inr (old, there) ↦ rw (there, assign_exports) refl
]

-- The cache of a file is what it was, and so is the number of its compilations.
abbrev pub SameFor : ℕ → Modules → Modules → Type 0
SameFor g s t = (times g t.compiled ≡ times g s.compiled) × (hits g t ≡ hits g s)

pub hits-find : (g : ℕ) (s t : Modules) → find g t.map ≡ find g s.map → hits g t ≡ hits g s
unfolding hits cached
hits-find g s t e = rw (e, hits, cached) refl

pub assign-SameFor :
    (g filename e : ℕ) (s : Modules) → g ≢ filename → SameFor g s (assign_exports filename e s)
assign-SameFor g filename e s other = (
  rw (compiled-assign filename e s) refl,
  hits-find g s (assign_exports filename e s) (find-assign_ne g filename e s other),
)

pub compile-SameFor :
    (g filename : ℕ) (s : Modules)
    → g ≢ filename
    → SameFor g s (record s { compiled = filename ∷ s.compiled })
unfolding times hits cached
compile-SameFor g filename s other =
    let test : (filename == g) ≡ false = ground (arith, other) in (rw test (omega arith), refl)

pub hits-assign :
    (filename e : ℕ) (s : Modules) → e ≢ 0 → hits filename (assign_exports filename e s) ≡ 1
unfolding hits cached
hits-assign filename e s true_value =
    let test : (e == 0) ≡ false = ground (arith, true_value) in
    rw (find-assign_self filename e s, hits, cached) (rw (test, hits) refl)

pub times-cons :
    (filename : ℕ) (compiled : List ℕ)
    → times filename (filename ∷ compiled) ≡ 1 + times filename compiled
unfolding times
times-cons filename compiled = rw (==_refl filename) refl

pub hits-some : (g e : ℕ) (s : Modules) → cached g s ≡ some e → hits g s ≡ 1
unfolding hits
hits-some g e s there = rw (there, hits) refl

pub hits-none : (g : ℕ) (s : Modules) → cached g s ≡ none → hits g s ≡ 0
unfolding hits
hits-none g s absent = rw (absent, hits) refl
