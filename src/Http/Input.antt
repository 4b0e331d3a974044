-- ===== src/Http/Input.antt =====
-- What `Parser::Parse` gives to llhttp (core/http.cc).
use no_js.Base.{◌∷◌, ◌++◌, ◌≡◌, ok, fault, out_of_range}
use no_js.Base.Bytes.{Bytes, NoZero, c_string-append, c_string_unterminated}
use no_js.Http.{parse_input}

-- Of a buffer with a 0 in it, what stands before the first 0 is parsed, and the rest is dropped; of a
-- buffer without a 0, `strlen` reads past the end.
pub parse_input-NoZero :
    (xs ys : Bytes)
    → NoZero xs
    → (parse_input (xs ++ 0 ∷ ys) ≡ ok xs) × (parse_input xs ≡ fault out_of_range)
unfolding parse_input
parse_input-NoZero xs ys zero_free =
    (c_string-append xs ys zero_free, c_string_unterminated xs zero_free)
