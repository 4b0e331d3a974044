-- ===== src/Base/Bytes.antt =====
-- Bytes: `std::string`, and a C string within them.
use Prim.Native.Nat.{ℕ}
use mathlib.Core.Path.{◌≡◌, refl}
use mathlib.Core.Logic.{◌≢◌}
use mathlib.Core.Bool.{Bool, true, false, ◌&&◌}
use mathlib.Core.List.{List, [], ◌∷◌, ◌++◌}
use native.Mathlib.Omega.{arith}
use no_js.Base.Booleans.{◌==◌, if◌then◌else◌}
use no_js.Base.Lists.{All}
use no_js.Base.Outcome.{Result, ok, fault, out_of_range}

abbrev pub Bytes : Type 0
Bytes = List ℕ

unfoldable pub bytes_eq : Bytes → Bytes → Bool
bytes_eq [] [] = true
bytes_eq (x ∷ xs) (y ∷ ys) = x == y && bytes_eq xs ys
bytes_eq _ _ = false

-- The bytes before the first 0: what is read of `c_str()`.
unfoldable pub c_str : Bytes → Bytes
c_str [] = []
c_str (x ∷ xs) = if x == 0 then [] else x ∷ c_str xs

cons_ok : ℕ → Result Bytes → Result Bytes
cons_ok x (ok xs) = ok (x ∷ xs)
cons_ok x (fault e) = fault e

-- The bytes that `strlen` counts in a block: without a 0 it reads past the end.
unfoldable pub c_string : Bytes → Result Bytes
unfolding cons_ok
c_string [] = fault out_of_range
c_string (x ∷ xs) = if x == 0 then ok [] else cons_ok x (c_string xs)

abbrev pub NoZero : Bytes → Type 0
NoZero = All (λ x. x ≢ 0)

pub c_string-append : (xs ys : Bytes) → NoZero xs → c_string (xs ++ 0 ∷ ys) ≡ ok xs
unfolding c_string
c_string-append [] ys h = refl
c_string-append (x ∷ xs) ys h = ground (arith, c_string-append xs ys h.1)

pub c_string_unterminated : (xs : Bytes) → NoZero xs → c_string xs ≡ fault out_of_range
unfolding c_string
c_string_unterminated [] h = refl
c_string_unterminated (x ∷ xs) h = ground (arith, c_string_unterminated xs h.1)

pub c_str_whole : (xs : Bytes) → NoZero xs → c_str xs ≡ xs
unfolding c_str
c_str_whole [] h = refl
c_str_whole (x ∷ xs) h = ground (arith, c_str_whole xs h.1)

pub c_str_cut : (xs ys : Bytes) → NoZero xs → c_str (xs ++ 0 ∷ ys) ≡ xs
unfolding c_str
c_str_cut [] ys h = refl
c_str_cut (x ∷ xs) ys h = ground (arith, c_str_cut xs ys h.1)

pub bytes_eq_refl : (xs : Bytes) → bytes_eq xs xs ≡ true
unfolding bytes_eq
bytes_eq_refl [] = refl
bytes_eq_refl (x ∷ xs) = ground (arith, bytes_eq_refl xs)

pub eq_of_bytes_eq : (xs ys : Bytes) → bytes_eq xs ys ≡ true → xs ≡ ys
unfolding bytes_eq
eq_of_bytes_eq [] [] h = refl
eq_of_bytes_eq [] (y ∷ ys) h = cc
eq_of_bytes_eq (x ∷ xs) [] h = cc
eq_of_bytes_eq (x ∷ xs) (y ∷ ys) h = ground (arith, eq_of_bytes_eq xs ys)
