-- ===== src/Libs/Buffer/Reference.antt =====
-- `toUTF8` beside UTF-8 as RFC 3629 defines it.
use no_js.Base.{
  ℕ, ◌+◌, ◌/◌, ◌^◌, Bool, ltb, leb, ◌&&◌, ◌==◌, ◌||◌, Option, none, some, if◌then◌else◌, [], ◌∷◌,
}
use no_js.Base.Bytes.{Bytes}
use no_js.Libs.Buffer.{continuation}

-- The table of RFC 3629.
unfoldable pub utf8_bytes : ℕ → Bytes
utf8_bytes code =
    if ltb code 0x80
    then code ∷ []
    else if ltb code 0x800
    then (code / 2 ^ 6 + 0xC0) ∷ continuation code 0 ∷ []
    else if ltb code 0x10000
    then (code / 2 ^ 12 + 0xE0) ∷ continuation code 6 ∷ continuation code 0 ∷ []
    else (code / 2 ^ 18 + 0xF0)
      ∷ continuation code 12
      ∷ continuation code 6
      ∷ continuation code 0
      ∷ []

-- The code points that UTF-16 uses in pairs. RFC 3629 forbids to encode them.
abbrev pub is_surrogate : ℕ → Bool
is_surrogate code = leb 0xD800 code && leb code 0xDFFF

-- UTF-8 as RFC 3629 defines it: of what is no code point, or a surrogate, nothing.
unfoldable pub utf8 : ℕ → Option Bytes
unfolding utf8_bytes
utf8 code = if is_surrogate code || ltb 0x10FFFF code then none else some (utf8_bytes code)

-- The first and last code points of the four ranges.
abbrev pub is_edge : ℕ → Bool
is_edge code =
    code == 0
    || code == 0x7F
    || code == 0x80
    || code == 0x7FF
    || code == 0x800
    || code == 0xFFFF
    || code == 0x10000
    || code == 0x10FFFF
