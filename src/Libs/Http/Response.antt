-- ===== src/Libs/Http/Response.antt =====
-- What a client reads of a response.
use no_js.Base.{
  ℕ, ◌≡◌, ◌≢◌, Option, some, none, List, [], ◌∷◌, ◌++◌, All, ◌==◌, ◌&&◌, if◌then◌else◌,
}
use no_js.Base.Bytes.{Bytes}
use no_js.Libs.Buffer.{Chars, to_utf8, strlen}
use no_js.Libs.Http.{
  Header, cr_lf, http_version, ok_text, content_length, set_header, build_headers,
}

-- How a client looks for the blank line at the end of the head: 1, 2 and 3 after CR, CR LF and
-- CR LF CR, 4 after the blank line.
abbrev pub next : ℕ → ℕ → ℕ
next st b =
    if b == 13
    then if st == 2 then 3 else 1
    else if b == 10 && st == 1
    then 2
    else if b == 10 && st == 3
    then 4
    else 0

-- What follows the first blank line, if there is one.
unfoldable pub after_head : ℕ → Bytes → Option Bytes
after_head st [] = none
after_head st (b ∷ bytes) =
    let rest = after_head (next st b) bytes in if next st b == 4 then some bytes else rest

abbrev pub NoReturn : List ℕ → Type 0
NoReturn = All (λ c. c ≢ 13)

-- The client reads a string, from one state to another.
abbrev Goes : ℕ → Chars → ℕ → Type 0
Goes st str st' = (rest : Bytes) → after_head st (to_utf8 str ++ rest) ≡ after_head st' rest

-- Headers whose names and values have no CR.
abbrev pub AreLines : List Header → Type 0
AreLines = All (λ kv. NoReturn kv.0 × NoReturn kv.1)

-- CR LF, the bytes of a text, and CR LF CR LF.
abbrev pub body : Chars → Bytes
body data_text = 13 ∷ 10 ∷ to_utf8 data_text ++ 13 ∷ 10 ∷ 13 ∷ 10 ∷ []

module _ (show : ℕ → Chars) (status_code : ℕ) (headers : List Header) (data_text : Chars)
    (shown : (n : ℕ) → NoReturn (show n)) (lines : AreLines headers) where
  abbrev head : Chars
  head =
      http_version
      ++ show status_code
      ++ ok_text
      ++ cr_lf
      ++ build_headers (set_header content_length (show (strlen data_text)) headers)
