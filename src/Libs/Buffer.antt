-- ===== src/Libs/Buffer.antt =====
-- libs/buffer/index.js: strings and their bytes.
pub mod Utf8
pub mod Reference
pub mod Arrays
use no_js.Base.{
  ℕ, zero, suc, ◌+◌, ◌-◌, ◌*◌, ◌/◌, ◌%◌, ◌^◌, ltb, leb, ◌==◌, ◌&&◌, ◌||◌, if◌then◌else◌, Option,
  none, some, List, [], ◌∷◌, ◌++◌, get_elem?, length,
}
use no_js.Base.Bytes.{Bytes}

-- What is thrown ends the function.
infixl 5 ◌>>=◌
abbrev ◌>>=◌ {ℓ κ} : {A : Type ℓ} {B : Type κ} → Option A → (A → Option B) → Option B
none >>= f = none
some a >>= f = f a

-- A string is the list of its code points, as `[...str]` gives them.
abbrev pub Chars : Type 0
Chars = List ℕ

-- `(code >> k) & 0x3f | 0x80`.
abbrev pub continuation : ℕ → ℕ → ℕ
continuation code k = code / 2 ^ k % 64 + 128

-- The branches of `toUTF8`, for one code point.
unfoldable pub encode : ℕ → Bytes
encode code =
    if ltb 0 code && ltb code 0x7F
    then code ∷ []
    else if ltb 0x80 code && ltb code 0x7FF
    then (code / 2 ^ 6 % 32 + 0xC0) ∷ continuation code 0 ∷ []
    else if (ltb 0x800 code && ltb code 0xFFFF) || (ltb 0xE000 code && ltb code 0xFFFF)
    then (code / 2 ^ 12 % 16 + 0xE0) ∷ continuation code 6 ∷ continuation code 0 ∷ []
    else if ltb 0x10000 code && ltb code 0x10FFFF
    then (code / 2 ^ 18 % 8 + 0xF0)
      ∷ continuation code 12
      ∷ continuation code 6
      ∷ continuation code 0
      ∷ []
    else if ltb 0x200000 code && ltb code 0x3FFFFFF
    then (code / 2 ^ 24 % 4 + 0xF8)
      ∷ continuation code 18
      ∷ continuation code 12
      ∷ continuation code 6
      ∷ continuation code 0
      ∷ []
    else (code / 2 ^ 30 % 2 + 0xFC)
      ∷ continuation code 24
      ∷ continuation code 18
      ∷ continuation code 12
      ∷ continuation code 6
      ∷ continuation code 0
      ∷ []

-- `toUTF8`.
unfoldable pub to_utf8 : Chars → Bytes
to_utf8 [] = []
to_utf8 (code ∷ codes) = encode code ++ to_utf8 codes

-- The loop of `countByte`: the leading ones. Eight rounds shift a byte out.
unfoldable pub leading_ones : ℕ → ℕ → ℕ
leading_ones zero byte = 0
leading_ones (suc n) byte =
    let rest = leading_ones n (byte * 2 % 256) in if byte / 128 % 2 == 1 then 1 + rest else 0

-- `countByte`.
unfoldable pub count_byte : ℕ → ℕ
count_byte byte = let bytelen = leading_ones 8 byte in if bytelen == 0 then 1 else bytelen

-- `bytes[i + k]`, where what is not there is `undefined`, and counts as 0.
unfoldable pub byte_at : Bytes → ℕ → ℕ
byte_at bytes k = elim (get_elem? bytes k) [ none ↦ 0 | some b ↦ b ]

-- `bytes[i + k] & 0x3F`.
unfoldable pub low : Bytes → ℕ → ℕ
unfolding byte_at
low bytes k = byte_at bytes k % 64

-- The cases of `fromUTF8`, on the bytes from `i` on: the number that is put together.
unfoldable pub decode : ℕ → Bytes → Option ℕ
unfolding byte_at low
decode byte_len bytes =
    if byte_len == 1
    then some (byte_at bytes 0)
    else if byte_len == 2
    then some (byte_at bytes 0 % 32 * 2 ^ 6 + low bytes 1)
    else if byte_len == 3
    then some (byte_at bytes 0 % 16 * 2 ^ 12 + low bytes 1 * 2 ^ 6 + low bytes 2)
    else if byte_len == 4
    then some
        (byte_at bytes 0 % 8 * 2 ^ 18 + low bytes 1 * 2 ^ 12 + low bytes 2 * 2 ^ 6 + low bytes 3)
    else if byte_len == 5
    then some (
        byte_at bytes 0 % 4 * 2 ^ 24
        + low bytes 1 * 2 ^ 18
        + low bytes 2 * 2 ^ 12
        + low bytes 3 * 2 ^ 6
        + low bytes 4)
    else if byte_len == 6
    then some (
        byte_at bytes 0 % 2 * 2 ^ 30
        + low bytes 1 * 2 ^ 24
        + low bytes 2 * 2 ^ 18
        + low bytes 3 * 2 ^ 12
        + low bytes 4 * 2 ^ 6
        + low bytes 5)
    else none

-- `String.fromCodePoint`, which throws on what is no code point.
unfoldable pub from_code_point : ℕ → Option ℕ
from_code_point code = if leb code 0x10FFFF then some code else none

-- The loop of `fromUTF8`, `skip` bytes before the next character; `none` where it throws.
unfoldable pub from_utf8_at : ℕ → Bytes → Option Chars
from_utf8_at skip [] = some []
from_utf8_at (suc skip) (b ∷ bytes) = from_utf8_at skip bytes
from_utf8_at zero (b ∷ bytes) = do
  code ← decode (count_byte b) (b ∷ bytes)
  char ← from_code_point code
  chars ← from_utf8_at (count_byte b - 1) bytes
  some (char ∷ chars)

-- `fromUTF8`.
unfoldable pub from_utf8 : Bytes → Option Chars
unfolding from_utf8_at
from_utf8 = from_utf8_at 0

-- `Buffer.strlen`.
unfoldable pub strlen : Chars → ℕ
strlen str = length (to_utf8 str)

-- `Buffer.alloc`.
unfoldable pub alloc : ℕ → Bytes
alloc zero = []
alloc (suc n) = 0 ∷ alloc n

-- `buffer[index] = byte` on a `Uint8Array`: modulo 256, and nothing behind the end.
unfoldable pub assign : ℕ → ℕ → Bytes → Bytes
assign index byte [] = []
assign zero byte (b ∷ bytes) = byte % 256 ∷ bytes
assign (suc index) byte (b ∷ bytes) = b ∷ assign index byte bytes

-- The inner loop of `concat`, and the loop of `from`: one byte after another, from `index` on.
unfoldable pub assign_all : ℕ → Bytes → Bytes → Bytes
unfolding assign
assign_all index [] buffer = buffer
assign_all index (byte ∷ bytes) buffer = assign_all (index + 1) bytes (assign index byte buffer)

-- `Buffer.from`.
unfoldable pub from : Chars → Bytes
unfolding assign_all
from str = let chars = to_utf8 str in assign_all 0 chars (alloc (length chars))

-- The first loop of `concat`.
unfoldable pub total_length : List Bytes → ℕ
total_length [] = 0
total_length (buffer ∷ arr) = length buffer + total_length arr

-- The outer loop of `concat`, from `index` on.
unfoldable pub concat_at : ℕ → List Bytes → Bytes → Bytes
unfolding assign_all
concat_at index [] new_buffer = new_buffer
concat_at index (buffer ∷ arr) new_buffer =
    concat_at (index + length buffer) arr (assign_all index buffer new_buffer)

-- `Buffer.concat`.
unfoldable pub concat : List Bytes → Bytes
unfolding concat_at
concat arr = concat_at 0 arr (alloc (total_length arr))
