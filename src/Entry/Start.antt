-- ===== src/Entry/Start.antt =====
-- What `main` makes of No.js, and the program as a whole.
use no_js.Base.{ℕ, zero, suc, ◌-◌, List, [], ◌∷◌, length}
use no_js.Base.Bytes.{Bytes}
use no_js.Entry.{Surroundings, take}

abbrev pub drop {ℓ} : {A : Type ℓ} → ℕ → List A → List A
drop zero xs = xs
drop (suc n) [] = []
drop (suc n) (x ∷ xs) = drop n xs

-- The bytes of the block that `read` did not write and that are compiled nevertheless.
abbrev pub left_over : Surroundings → Bytes → Bytes
left_over w bs = take (w.st_size - length bs) (drop (length bs) w.fresh)
