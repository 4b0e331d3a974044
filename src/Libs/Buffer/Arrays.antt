-- ===== src/Libs/Buffer/Arrays.antt =====
-- The loops of `from` and `concat`, which fill an array byte by byte.
use mathlib.Core.List.{append-nil, append_assoc}
use no_js.Base.{
  ℕ, zero, suc, ◌+◌, ◌%◌, ◌<◌, ◌≤◌, ◌≡◌, refl, sym, ap, ◌∙◌, arith, some, List, [], ◌∷◌, ◌++◌, map,
  length, length-append, join, All,
}
use no_js.Base.Bytes.{Bytes}
use no_js.Libs.Buffer.{
  Chars, encode, to_utf8, from_utf8, alloc, assign, assign_all, from, total_length, concat_at,
  concat, strlen,
}
use no_js.Libs.Buffer.Utf8.{from_utf8-to_utf8}

abbrev AreBytes : Bytes → Type 0
AreBytes = All (λ b. b < 256)

assign-append :
    (done : Bytes) (b old : ℕ) (rest : Bytes)
    → b < 256
    → assign (length done) b (done ++ old ∷ rest) ≡ done ++ b ∷ rest
unfolding assign
assign-append [] b old rest h = let small : b % 256 ≡ b = omega arith in rw small refl
assign-append (d ∷ done) b old rest h = ap (λ r. d ∷ r) (assign-append done b old rest h)

assign_all-append :
    (bytes done old rest : Bytes)
    → AreBytes bytes
    → length old ≡ length bytes
    → assign_all (length done) bytes (done ++ (old ++ rest)) ≡ done ++ bytes ++ rest
unfolding assign_all
assign_all-append [] done [] rest h e = sym (append_assoc done [] rest)
assign_all-append [] done (o ∷ old) rest h e = absurd (omega arith)
assign_all-append (b ∷ bytes) done [] rest h e = absurd (omega arith)
assign_all-append (b ∷ bytes) done (o ∷ old) rest (small, h) e =
    let next : length done + 1 ≡ length (done ++ b ∷ []) =
      omega (arith, length-append done (b ∷ [])) in
    let moved : done ++ b ∷ (old ++ rest) ≡ (done ++ b ∷ []) ++ (old ++ rest) =
      sym (append_assoc done (b ∷ []) (old ++ rest)) in
    let all = assign_all-append bytes (done ++ b ∷ []) old rest h (omega arith) in
    rw (assign-append done b o (old ++ rest) small, moved, next, all)
      (ap (λ r. r ++ rest) (append_assoc done (b ∷ []) bytes))

alloc-add : (m n : ℕ) → alloc (m + n) ≡ alloc m ++ alloc n
unfolding alloc
alloc-add zero n = let same : zero + n ≡ n = omega arith in rw same refl
alloc-add (suc m) n =
    let moved : suc m + n ≡ suc (m + n) = omega arith in rw moved (ap (λ r. 0 ∷ r) (alloc-add m n))

length-alloc : (n : ℕ) → length (alloc n) ≡ n
unfolding alloc
length-alloc zero = refl
length-alloc (suc n) = omega (arith, length-alloc n)

concat_at-append :
    (arr : List Bytes) (done : Bytes)
    → All AreBytes arr
    → concat_at (length done) arr (done ++ alloc (total_length arr)) ≡ done ++ join arr
unfolding concat_at total_length alloc
concat_at-append [] done h = refl
concat_at-append (buffer ∷ arr) done (h, hs) =
    let next : length done + length buffer ≡ length (done ++ buffer) =
      omega (arith, length-append done buffer) in
    rw
      (
        alloc-add (length buffer) (total_length arr),
        assign_all-append buffer done (alloc (length buffer)) (alloc (total_length arr)) h
            (length-alloc (length buffer)),
        next,
        concat_at-append arr (done ++ buffer) hs,
      )
      (append_assoc done buffer (join arr))

concat-join : (arr : List Bytes) → All AreBytes arr → concat arr ≡ join arr
unfolding concat
concat-join arr h = concat_at-append arr [] h

encode-AreBytes : (code : ℕ) → AreBytes (encode code)
unfolding encode
encode-AreBytes code = ground arith

AreBytes-append : (xs ys : Bytes) → AreBytes xs → AreBytes ys → AreBytes (xs ++ ys)
AreBytes-append [] ys h k = k
AreBytes-append (x ∷ xs) ys (h, hs) k = (h, AreBytes-append xs ys hs k)

to_utf8-AreBytes : (str : Chars) → AreBytes (to_utf8 str)
unfolding to_utf8
to_utf8-AreBytes [] = tt
to_utf8-AreBytes (code ∷ codes) =
    AreBytes-append (encode code) (to_utf8 codes) (encode-AreBytes code) (to_utf8-AreBytes codes)

pub from-to_utf8 : (str : Chars) → from str ≡ to_utf8 str
unfolding from
from-to_utf8 str =
    let bytes = to_utf8 str in
    let block = alloc (length bytes) in
    ap (assign_all 0 bytes) (sym (append-nil block))
    ∙ assign_all-append bytes [] block [] (to_utf8-AreBytes str) (length-alloc (length bytes))
    ∙ append-nil bytes

pub to_utf8-append : (xs ys : Chars) → to_utf8 (xs ++ ys) ≡ to_utf8 xs ++ to_utf8 ys
unfolding to_utf8
to_utf8-append [] ys = refl
to_utf8-append (x ∷ xs) ys =
    rw (to_utf8-append xs ys) (sym (append_assoc (encode x) (to_utf8 xs) (to_utf8 ys)))

from-AreBytes : (strs : List Chars) → All AreBytes (map from strs)
from-AreBytes [] = tt
from-AreBytes (str ∷ strs) = (rw (from-to_utf8 str) (to_utf8-AreBytes str), from-AreBytes strs)

join-from : (strs : List Chars) → join (map from strs) ≡ to_utf8 (join strs)
unfolding to_utf8
join-from [] = refl
join-from (str ∷ strs) =
    rw (from-to_utf8 str, join-from strs) (sym (to_utf8-append str (join strs)))

-- Strings of code points that are at most 0x10FFFF, each made into a buffer by `Buffer.from`: their
-- `Buffer.concat` is read back, as `toString` does, as the strings one after another; and the buffer
-- of one string has `Buffer.strlen` bytes.
pub from_utf8-concat :
    (strs : List Chars)
    → All (λ code. code ≤ 0x10FFFF) (join strs)
    → (from_utf8 (concat (map from strs)) ≡ some (join strs))
      × All (λ str. length (from str) ≡ strlen str) strs
from_utf8-concat strs h = (
  rw (concat-join (map from strs) (from-AreBytes strs), join-from strs)
      (from_utf8-to_utf8 (join strs) h),
  lengths strs,
)
  where
    lengths : (strs : List Chars) → All (λ str. length (from str) ≡ strlen str) strs
    lengths [] = tt
    lengths (str ∷ strs) = (unfold strlen in ap length (from-to_utf8 str), lengths strs)
