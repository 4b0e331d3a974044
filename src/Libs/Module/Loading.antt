-- ===== src/Libs/Module/Loading.antt =====
-- How often a file is compiled.
use no_js.Base.{
  ℕ, zero, suc, ◌+◌, ◌<◌, ◌≤◌, ◌≡◌, ◌≢◌, refl, sym, ap, ◌∙◌, arith, Option, none, some, List, [],
  ◌∷◌, All, ◌==◌, Bool-cases, ltb, Option-cases, inl, inr,
}
use no_js.Libs.Module.{Modules, cached, assign_exports, load_each, exported, load}
use no_js.Libs.Module.Cache.{
  times, hits, IsOnce, compiled-assign, SameFor, assign-SameFor, compile-SameFor, hits-assign,
  times-cons, hits-some, hits-none,
}

module _ (requires : ℕ → List ℕ) (exports : ℕ → ℕ) (rank : ℕ → ℕ)
    (acyclic : (f : ℕ) → All (λ g. rank g < rank f) (requires f))
    (true_values : (f : ℕ) → exports f ≢ 0) where
  -- The files below a rank were compiled once if they are in the cache, and the others are as they
  -- were.
  abbrev Below : ℕ → Modules → Modules → Type 0
  Below n s t = ((g : ℕ) → rank g < n → IsOnce t g) × ((g : ℕ) → n ≤ rank g → SameFor g s t)

  abbrev Loaded : ℕ → Modules → Modules → Type 0
  Loaded f s t = Below (rank f + 1) s t × (hits f t ≡ 1)

  load_each-Below :
      (load_one : ℕ → Modules → Option Modules) (n : ℕ)
      → ((g : ℕ) (s : Modules)
          → rank g < n
          → ((h : ℕ) → rank h < rank g + 1 → IsOnce s h)
          → (t : Modules) × (load_one g s ≡ some t) × Loaded g s t)
      → (fs : List ℕ) (s : Modules) → All (λ g. rank g < n) fs
      → ((g : ℕ) → rank g < n → IsOnce s g)
      → (t : Modules) × (load_each load_one fs s ≡ some t) × Below n s t
  unfolding load_each
  load_each-Below load_one n one [] s below once = (s, refl, (once, λ g high. (refl, refl)))
  load_each-Below load_one n one (f ∷ fs) s (low, lows) once =
      let (t, e, ((under, over), hit)) = one f s low (λ h small. once h (omega arith)) in
      let once' : (g : ℕ) → rank g < n → IsOnce t g =
        λ g small. ground (arith, under g, over g, once g small) in
      let (u, e', (under', over')) = load_each-Below load_one n one fs t lows once' in
      (
        u,
        rw (e, load_each) e',
        (
          under',
          λ g high.
              let before = over g (omega arith) in
              ((over' g high).0 ∙ before.0, (over' g high).1 ∙ before.1),
        ),
      )

  lower_ne : (f g : ℕ) → rank g < rank f → g ≢ f
  lower_ne f g low e = absurd (omega (arith, ap rank e))

  higher_ne : (f g : ℕ) → rank f + 1 ≤ rank g → g ≢ f
  higher_ne f g high e = absurd (omega (arith, ap rank e))

  -- A file that is not in the cache, when what it requires has been loaded.
  finished :
      (f : ℕ) (s u : Modules)
      → ((g : ℕ) → rank g < rank f + 1 → IsOnce s g)
      → hits f s ≡ 0
      → Below (rank f) (record s { compiled = f ∷ s.compiled }) u
      → Loaded f s (assign_exports f (exports f) u)
  finished f s u once absent (under, over) =
      let t = assign_exports f (exports f) u in
      let hit : hits f t ≡ 1 = hits-assign f (exports f) u (true_values f) in
      let own : times f t.compiled ≡ 1 = omega (
        arith,
        ap (times f) (compiled-assign f (exports f) u),
        (over f (omega arith)).0,
        times-cons f s.compiled,
        once f (omega arith),
        absent,
      ) in
      let others : (g : ℕ) → g ≢ f → rank f ≤ rank g → SameFor g s t = λ g other high.
        let a = assign-SameFor g f (exports f) u other in
        let b = over g high in
        let c = compile-SameFor g f s other in (a.0 ∙ b.0 ∙ c.0, a.1 ∙ b.1 ∙ c.1) in
      let all : (g : ℕ) → rank g < rank f + 1 → IsOnce t g = λ g low. elim (Bool-cases (g == f)) [
        | inl same ↦ let e : g ≡ f = ground (arith, same) in rw e (own ∙ sym hit)
        | inr not_same ↦
            let other : g ≢ f = ground (arith, not_same) in
            elim (Bool-cases (ltb (rank g) (rank f))) [
              | inl less ↦
                  let a = assign-SameFor g f (exports f) u other in
                  a.0 ∙ under g (ground (arith, less)) ∙ sym a.1
              | inr more ↦
                  let o = others g other (ground (arith, more)) in o.0 ∙ once g low ∙ sym o.1
            ]
      ] in
      ((all, λ g high. others g (higher_ne f g high) (omega arith)), hit)

  load-Loaded :
      (fuel f : ℕ) (s : Modules)
      → rank f < fuel
      → ((g : ℕ) → rank g < rank f + 1 → IsOnce s g)
      → (t : Modules) × (load requires exports fuel f s ≡ some t) × Loaded f s t
  unfolding load exported
  load-Loaded zero f s enough once = absurd (omega arith)
  load-Loaded (suc fuel) f s enough once = elim (Option-cases (cached f s)) [
    | inr (e, there) ↦
        (s, rw (there, load) refl, ((once, λ g high. (refl, refl)), hits-some f e s there))
    | inl absent ↦
        let s' = record s { compiled = f ∷ s.compiled } in
        let (u, e, below) =
          load_each-Below (λ g t. load requires exports fuel g t) (rank f)
            (λ g t low once'. load-Loaded fuel g t (omega arith) once') (requires f) s' (acyclic f)
            (λ g low.
              let c = compile-SameFor g f s (lower_ne f g low) in
              c.0 ∙ once g (omega arith) ∙ sym c.1) in
        (
          assign_exports f (exports f) u,
          rw (absent, load) (rw (e, exported) refl),
          finished f s u once (hits-none f s absent) below,
        )
  ]

  load_hit :
      (fuel f : ℕ) (t : Modules) → 0 < fuel → hits f t ≡ 1 → load requires exports fuel f t ≡ some t
  unfolding load
  load_hit zero f t more hit = absurd (omega arith)
  load_hit (suc fuel) f t more hit = elim (Option-cases (cached f t)) [
    | inl absent ↦ absurd (omega (arith, hit, hits-none f t absent))
    | inr (e, there) ↦ rw (there, load) refl
  ]

  -- When each file requires only files of a lower rank, and exports a value that is true as a
  -- condition, and each file up to the rank of `f` was compiled once if it is in the cache and else
  -- not yet: the load of `f` returns, in more nested calls than its rank; `f` is in the cache then,
  -- each file up to its rank was still compiled once if it is in the cache and else not yet, and a
  -- second load of `f` does nothing.
  pub load-IsOnce :
      (fuel f : ℕ) (s : Modules)
      → rank f < fuel
      → ((g : ℕ) → rank g < rank f + 1 → IsOnce s g)
      → (t : Modules) × (load requires exports fuel f s ≡ some t)
        × (times f t.compiled ≡ 1)
        × ((g : ℕ) → rank g < rank f + 1 → IsOnce t g)
        × (load requires exports fuel f t ≡ some t)
  load-IsOnce fuel f s enough once =
      let (t, e, ((under, over), hit)) = load-Loaded fuel f s enough once in
      (t, e, under f (omega arith) ∙ hit, under, load_hit fuel f t (omega arith) hit)

-- Two files that each require the other first, and are not in the cache: the load of either never
-- returns, however many nested calls there are.
pub load_cycle :
    (requires : ℕ → List ℕ) (exports : ℕ → ℕ) (a b : ℕ) (xs ys : List ℕ) (fuel : ℕ) (s : Modules)
    → requires a ≡ b ∷ xs
    → requires b ≡ a ∷ ys
    → cached a s ≡ none
    → cached b s ≡ none
    → (load requires exports fuel a s ≡ none) × (load requires exports fuel b s ≡ none)
unfolding load load_each exported
load_cycle requires exports a b xs ys zero s ab ba no_a no_b = (refl, refl)
load_cycle requires exports a b xs ys (suc fuel) s ab ba no_a no_b =
    let from_b =
      load_cycle requires exports a b xs ys fuel (record s { compiled = a ∷ s.compiled }) ab ba
        (unfold cached in no_a) (unfold cached in no_b) in
    let from_a =
      load_cycle requires exports a b xs ys fuel (record s { compiled = b ∷ s.compiled }) ab ba
        (unfold cached in no_a) (unfold cached in no_b) in
    (
      rw (no_a, load) (rw ab (rw (from_b.1, load_each) refl)),
      rw (no_b, load) (rw ba (rw (from_a.0, load_each) refl)),
    )
