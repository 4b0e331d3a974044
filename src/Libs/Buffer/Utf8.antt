-- ===== src/Libs/Buffer/Utf8.antt =====
-- `fromUTF8` reads what `toUTF8` writes.
use no_js.Base.{
  ℕ, suc, ◌+◌, ◌*◌, ◌/◌, ◌%◌, ◌^◌, ◌<◌, ◌≤◌, ◌≡◌, arith, refl, [], ◌∷◌, ◌++◌, some, All, leb, ltb,
  true, false, Bool-cases, inl, inr, ◌&&◌, ◌||◌,
}
use no_js.Base.Bytes.{Bytes}
use no_js.Libs.Buffer.{
  Chars, count_byte, leading_ones, encode, decode, from_utf8_at, from_utf8, to_utf8, byte_at, low,
  from_code_point, continuation,
}

leading_one :
    (n b c : ℕ) → b * 2 ≡ c + 256 → c < 256 → leading_ones (suc n) b ≡ 1 + leading_ones n c
unfolding leading_ones
leading_one n b c e h =
    let shifted : b * 2 % 256 ≡ c = omega arith in
    let bit : b / 128 % 2 ≡ 1 = omega arith in rw (bit, shifted) refl

leading_zero : (n b : ℕ) → b < 128 → leading_ones (suc n) b ≡ 0
unfolding leading_ones
leading_zero n b h = let bit : b / 128 % 2 ≡ 0 = omega arith in rw bit refl

count_one : (x : ℕ) → x < 128 → count_byte x ≡ 1
unfolding count_byte
count_one x h = rw (leading_zero 7 x h) refl

count_two : (x : ℕ) → x < 32 → count_byte (x + 192) ≡ 2
unfolding count_byte
count_two x h =
    let ones : leading_ones 8 (x + 192) ≡ 2 = omega (
      arith,
      leading_one 7 (x + 192) (2 * x + 128) (omega arith) (omega arith),
      leading_one 6 (2 * x + 128) (4 * x) (omega arith) (omega arith),
      leading_zero 5 (4 * x) (omega arith),
    ) in
    rw ones refl

count_three : (x : ℕ) → x < 16 → count_byte (x + 224) ≡ 3
unfolding count_byte
count_three x h =
    let ones : leading_ones 8 (x + 224) ≡ 3 = omega (
      arith,
      leading_one 7 (x + 224) (2 * x + 192) (omega arith) (omega arith),
      leading_one 6 (2 * x + 192) (4 * x + 128) (omega arith) (omega arith),
      leading_one 5 (4 * x + 128) (8 * x) (omega arith) (omega arith),
      leading_zero 4 (8 * x) (omega arith),
    ) in
    rw ones refl

count_four : (x : ℕ) → x < 8 → count_byte (x + 240) ≡ 4
unfolding count_byte
count_four x h =
    let ones : leading_ones 8 (x + 240) ≡ 4 = omega (
      arith,
      leading_one 7 (x + 240) (2 * x + 224) (omega arith) (omega arith),
      leading_one 6 (2 * x + 224) (4 * x + 192) (omega arith) (omega arith),
      leading_one 5 (4 * x + 192) (8 * x + 128) (omega arith) (omega arith),
      leading_one 4 (8 * x + 128) (16 * x) (omega arith) (omega arith),
      leading_zero 3 (16 * x) (omega arith),
    ) in
    rw ones refl

count_six : (x : ℕ) → x < 2 → count_byte (x + 252) ≡ 6
unfolding count_byte leading_ones
count_six x h = ground arith

combine_two :
    (code : ℕ)
    → code < 2 ^ 11
    → (code / 2 ^ 6 % 32 + 0xC0) % 32 * 2 ^ 6 + (code / 2 ^ 0 % 64 + 128) % 64 ≡ code
combine_two code h = omega arith

combine_three :
    (code : ℕ)
    → code < 2 ^ 16
    → (code / 2 ^ 12 % 16 + 0xE0) % 16 * 2 ^ 12
        + (code / 2 ^ 6 % 64 + 128) % 64 * 2 ^ 6
        + (code / 2 ^ 0 % 64 + 128) % 64
      ≡ code
combine_three code h = omega arith

combine_four :
    (code : ℕ)
    → code < 2 ^ 21
    → (code / 2 ^ 18 % 8 + 0xF0) % 8 * 2 ^ 18
        + (code / 2 ^ 12 % 64 + 128) % 64 * 2 ^ 12
        + (code / 2 ^ 6 % 64 + 128) % 64 * 2 ^ 6
        + (code / 2 ^ 0 % 64 + 128) % 64
      ≡ code
combine_four code h = omega arith

combine_six :
    (code : ℕ)
    → code < 2 ^ 31
    → (code / 2 ^ 30 % 2 + 0xFC) % 2 * 2 ^ 30
        + (code / 2 ^ 24 % 64 + 128) % 64 * 2 ^ 24
        + (code / 2 ^ 18 % 64 + 128) % 64 * 2 ^ 18
        + (code / 2 ^ 12 % 64 + 128) % 64 * 2 ^ 12
        + (code / 2 ^ 6 % 64 + 128) % 64 * 2 ^ 6
        + (code / 2 ^ 0 % 64 + 128) % 64
      ≡ code
combine_six code h = omega arith

in_range : (code : ℕ) → code ≤ 0x10FFFF → from_code_point code ≡ some code
unfolding from_code_point
in_range code h = let test : leb code 0x10FFFF ≡ true = ground arith in rw test refl

module _ (code : ℕ) (small : code ≤ 0x10FFFF) (bytes : Bytes) (chars : Chars)
    (rest : from_utf8 bytes ≡ some chars) where
  reads_one : code < 128 → from_utf8 (code ∷ bytes) ≡ some (code ∷ chars)
  unfolding from_utf8 from_utf8_at decode byte_at
  reads_one h = rw (count_one code h) (rw (in_range code small, rest) refl)

  reads_two :
      code < 2 ^ 11
      → from_utf8 ((code / 2 ^ 6 % 32 + 0xC0) ∷ continuation code 0 ∷ bytes) ≡ some (code ∷ chars)
  unfolding from_utf8 from_utf8_at decode byte_at low
  reads_two h =
      rw (count_two (code / 2 ^ 6 % 32) (omega arith))
        (rw (combine_two code h) (rw (in_range code small, rest) refl))

  reads_three :
      code < 2 ^ 16
      → from_utf8 ((code / 2 ^ 12 % 16 + 0xE0) ∷ continuation code 6 ∷ continuation code 0 ∷ bytes)
        ≡ some (code ∷ chars)
  unfolding from_utf8 from_utf8_at decode byte_at low
  reads_three h =
      rw (count_three (code / 2 ^ 12 % 16) (omega arith))
        (rw (combine_three code h) (rw (in_range code small, rest) refl))

  reads_four :
      from_utf8 (
        (code / 2 ^ 18 % 8 + 0xF0)
        ∷ continuation code 12
        ∷ continuation code 6
        ∷ continuation code 0
        ∷ bytes)
      ≡ some (code ∷ chars)
  unfolding from_utf8 from_utf8_at decode byte_at low
  reads_four =
      rw (count_four (code / 2 ^ 18 % 8) (omega arith))
        (rw (combine_four code (omega arith)) (rw (in_range code small, rest) refl))

  reads_six :
      from_utf8 (
        (code / 2 ^ 30 % 2 + 0xFC)
        ∷ continuation code 24
        ∷ continuation code 18
        ∷ continuation code 12
        ∷ continuation code 6
        ∷ continuation code 0
        ∷ bytes)
      ≡ some (code ∷ chars)
  unfolding from_utf8 from_utf8_at decode byte_at low
  reads_six =
      rw (count_six (code / 2 ^ 30 % 2) (omega arith))
        (rw (combine_six code (omega arith)) (rw (in_range code small, rest) refl))

  from_utf8-encode : from_utf8 (encode code ++ bytes) ≡ some (code ∷ chars)
  unfolding encode
  from_utf8-encode = elim (Bool-cases (ltb 0 code && ltb code 0x7F)) [
    | inl one ↦ rw one (reads_one (ground (arith, one)))
    | inr e1 ↦ elim (Bool-cases (ltb 0x80 code && ltb code 0x7FF)) [
      | inl two ↦ rw (e1, two) (reads_two (ground (arith, two)))
      | inr e2 ↦
          elim (Bool-cases
            ((ltb 0x800 code && ltb code 0xFFFF) || (ltb 0xE000 code && ltb code 0xFFFF))) [
              | inl three ↦ rw (e1, e2, three) (reads_three (ground (arith, three)))
              | inr e3 ↦ elim (Bool-cases (ltb 0x10000 code && ltb code 0x10FFFF)) [
                | inl four ↦ rw (e1, e2, e3, four) reads_four
                | inr e4 ↦
                    let five : (ltb 0x200000 code && ltb code 0x3FFFFFF) ≡ false = ground arith in
                    rw (e1, e2, e3, e4, five) reads_six
              ]
            ]
    ]
  ]

-- What `toUTF8` makes of a string whose code points are at most 0x10FFFF, `fromUTF8` reads back.
pub from_utf8-to_utf8 :
    (str : Chars) → All (λ code. code ≤ 0x10FFFF) str → from_utf8 (to_utf8 str) ≡ some str
unfolding to_utf8
from_utf8-to_utf8 [] h = unfold from_utf8 from_utf8_at in refl
from_utf8-to_utf8 (code ∷ codes) (h, hs) =
    from_utf8-encode code h (to_utf8 codes) codes (from_utf8-to_utf8 codes hs)
