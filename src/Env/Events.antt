-- ===== src/Env/Events.antt =====
-- The property names under which a handler is kept (core/string.h), and the object that keeps it.
use no_js.Base.{String, ℕ, Option, none, some, ◌≡◌, if◌then◌else◌}
use text.Mathlib.Text.{◌==◌}
use text.Mathlib.TextPositions.{eq_refl}

pub data Event : Type 0 where
  onconnect onread onsignal ontimeout onclose onchange : Event

-- The strings of core/string.h.
pub event_name : Event → String
event_name onconnect = "onconnect"
event_name onread = "onread"
event_name onsignal = "onsignal"
event_name ontimeout = "ontimeout"
event_name onclose = "onclose"
event_name onchange = "onchange"

-- The JavaScript object of a request context: a fresh object with one property that holds a
-- function, or (in `openat`) the function itself.
pub data Object : Type 0 where
  holder : String → ℕ → Object
  bare_function : ℕ → Object

-- `object->Get(context, key)`, where the result is a function.
pub get_function : Object → String → Option ℕ
get_function (holder name f) key = if name == key then some f else none
get_function (bare_function f) key = none

pub get_function-holder :
    (e : Event) (f : ℕ) → get_function (holder (event_name e) f) (event_name e) ≡ some f
unfolding get_function
get_function-holder e f = rw (eq_refl (event_name e))
