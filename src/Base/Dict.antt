-- ===== src/Base/Dict.antt =====
-- A table keyed by numbers: `std::map` with integer keys, and the allocated blocks by address.
use Prim.Native.Nat.{ℕ, ◌+◌, ◌-◌, ◌≤◌}
use mathlib.Core.Path.{◌≡◌, refl}
use mathlib.Core.Logic.{◌≢◌}
use mathlib.Core.List.{List, [], ◌∷◌}
use mathlib.Core.Option.{Option, none, some}
use native.Mathlib.Omega.{arith}
use no_js.Base.Booleans.{◌==◌, ==_refl, if◌then◌else◌}
use no_js.Base.Lists.{length, All}

abbrev pub Dict {ℓ} : Type ℓ → Type ℓ
Dict V = List (ℕ × V)

module _ {ℓ} {V : Type ℓ} where
  unfoldable pub find : ℕ → Dict V → Option V
  find k [] = none
  find k ((j, v) ∷ m) = if j == k then some v else find k m

  -- `map.insert` keeps the entry that is there.
  unfoldable pub insert : ℕ → V → Dict V → Dict V
  insert k v m = elim (find k m) [ none ↦ (k, v) ∷ m | some w ↦ m ]

  unfoldable pub erase : ℕ → Dict V → Dict V
  erase k [] = []
  erase k ((j, v) ∷ m) = if j == k then m else (j, v) ∷ erase k m

  -- A write through a reference to the entry.
  unfoldable pub update : ℕ → V → Dict V → Dict V
  update k v [] = []
  update k v ((j, w) ∷ m) = if j == k then (j, v) ∷ m else (j, w) ∷ update k v m

  -- How many entries have the key.
  unfoldable pub occurs : ℕ → Dict V → ℕ
  occurs k [] = 0
  occurs k ((j, v) ∷ m) = (if j == k then 1 else 0) + occurs k m

  pub find-occurs : (k : ℕ) (m : Dict V) → 1 ≤ occurs k m → find k m ≢ none
  unfolding find occurs
  find-occurs k [] h = absurd (omega arith)
  find-occurs k ((j, v) ∷ m) h = ground (arith, find-occurs k m)

  pub occurs-find : (k : ℕ) (m : Dict V) {v : V} → find k m ≡ some v → 1 ≤ occurs k m
  unfolding find occurs
  occurs-find k [] e = ground arith
  occurs-find k ((j, w) ∷ m) {v} e = ground (arith, occurs-find k m {v = v})

  pub occurs-erase :
      (a k : ℕ) (m : Dict V) → occurs a (erase k m) ≡ occurs a m - (if a == k then 1 else 0)
  unfolding occurs erase
  occurs-erase a k [] = omega arith
  occurs-erase a k ((j, v) ∷ m) = ground (arith, occurs-erase a k m)

  pub occurs-update : (a k : ℕ) (v : V) (m : Dict V) → occurs a (update k v m) ≡ occurs a m
  unfolding occurs update
  occurs-update a k v [] = refl
  occurs-update a k v ((j, w) ∷ m) = ground (arith, occurs-update a k v m)

  pub find-update_self :
      (k : ℕ) (v : V) (m : Dict V) → 1 ≤ occurs k m → find k (update k v m) ≡ some v
  unfolding find update occurs
  find-update_self k v [] h = absurd (omega arith)
  find-update_self k v ((j, w) ∷ m) h = ground (arith, find-update_self k v m)

  pub find-update_ne : (j k : ℕ) (v : V) (m : Dict V) → j ≢ k → find j (update k v m) ≡ find j m
  unfolding find update
  find-update_ne j k v [] h = refl
  find-update_ne j k v ((i, w) ∷ m) h = ground (arith, find-update_ne j k v m h)

  pub find-erase_ne : (j k : ℕ) (m : Dict V) → j ≢ k → find j (erase k m) ≡ find j m
  unfolding find erase
  find-erase_ne j k [] h = refl
  find-erase_ne j k ((i, v) ∷ m) h = ground (arith, find-erase_ne j k m h)

  pub find-erase_self : (k : ℕ) (m : Dict V) → occurs k m ≤ 1 → find k (erase k m) ≡ none
  unfolding find erase occurs
  find-erase_self k [] h = refl
  find-erase_self k ((i, v) ∷ m) h = ground (arith, find-erase_self k m, find-none k m)
    where
      find-none : (k : ℕ) (m : Dict V) → occurs k m ≤ 0 → find k m ≡ none
      find-none k [] h = refl
      find-none k ((i, v) ∷ m) h = ground (arith, find-none k m)

  pub find-insert :
      (j k : ℕ) (v : V) (m : Dict V)
      → find k m ≡ none
      → find j (insert k v m) ≡ (if k == j then some v else find j m)
  unfolding insert find
  find-insert j k v m e = rw (e, insert)

  pub erase-insert : (k : ℕ) (v : V) (m : Dict V) → find k m ≡ none → erase k (insert k v m) ≡ m
  unfolding insert erase
  erase-insert k v m e = rw (e, insert) (rw (==_refl k) refl)

  pub update-update :
      (k : ℕ) (v : V) (m : Dict V) {w : V} → find k m ≡ some w → update k w (update k v m) ≡ m
  unfolding find update
  update-update k v [] e = refl
  update-update k v ((j, u) ∷ m) {w} e = ground (arith, update-update k v m {w = w})

  pub length-erase : (k : ℕ) (m : Dict V) → find k m ≢ none → length (erase k m) + 1 ≡ length m
  unfolding find erase
  length-erase k [] h = absurd (h refl)
  length-erase k ((j, v) ∷ m) h = ground (arith, length-erase k m)

  pub erase_absent : (k : ℕ) (m : Dict V) → find k m ≡ none → erase k m ≡ m
  unfolding find erase
  erase_absent k [] h = refl
  erase_absent k ((j, v) ∷ m) h = ground (arith, erase_absent k m)

  pub length-update : (k : ℕ) (v : V) (m : Dict V) → length (update k v m) ≡ length m
  unfolding update
  length-update k v [] = refl
  length-update k v ((j, w) ∷ m) = ground (arith, length-update k v m)

  pub All-erase {κ} : (P : ℕ × V → Type κ) (k : ℕ) (m : Dict V) → All P m → All P (erase k m)
  unfolding erase
  All-erase P k [] h = h
  All-erase P k ((j, v) ∷ m) h = ground (arith, All-erase P k m h.1)

  pub All-find {κ} :
      (P : V → Type κ) (k : ℕ) {v : V} (m : Dict V) → All (λ e. P e.1) m → find k m ≡ some v → P v
  unfolding find
  All-find P k {v} [] h e = absurd (cc)
  All-find P k {v} ((j, w) ∷ m) h e = ground (arith, All-find P k {v = v} m h.1)

  pub All-update {κ} :
      (P : V → Type κ) (k : ℕ) (v : V) (m : Dict V)
      → P v
      → All (λ e. P e.1) m
      → All (λ e. P e.1) (update k v m)
  unfolding update
  All-update P k v [] p h = h
  All-update P k v ((j, w) ∷ m) p h = ground (arith, All-update P k v m p h.1)
