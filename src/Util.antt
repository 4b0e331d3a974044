-- ===== src/Util.antt =====
-- core/util.cc and core/console.cc: what is printed, and the text of an error.
use no_js.Base.{ℕ, ◌+◌, ◌%◌, ◌^◌, Option, none, some, String, Result, fault, null_pointer}
use no_js.Base.Bytes.{Bytes, c_string}
use no_js.Base.Int.{ℤ}
use no_js.Args.{Value, string}

-- `Log`: the bytes that are written to the standard output; `none` is a null pointer.
unfoldable pub log : Option Bytes → Result Bytes
log none = fault null_pointer
log (some block) = c_string block

-- `Console::log`, on the bytes of the `Utf8Value`, which are null for a value that has no string.
unfoldable pub console_log : Option Bytes → Result Bytes
unfolding log
console_log text = log text

-- `Util::GetError`: the text of `strerror` for `errno`.
unfoldable pub get_error : (ℤ → String) → ℤ → Value
get_error strerror errno = string (strerror errno)

-- `IdGenerator::getNextId`: the next id, which is also the state.
unfoldable pub next_id : ℕ → ℕ
next_id id = (id + 1) % 2 ^ 64
