-- ===== src/Args.antt =====
-- The arguments of a native function: `args[i]`, `args.Length()` and the casts of V8. A cast to a
-- type that the value does not have is undefined behaviour, and a fault here.
use no_js.Base.{
  ℕ, ◌%◌, ◌^◌, String, Option, none, some, List, length, get_elem?, Result, ok, fault, bad_argument,
  ltb, if◌then◌else◌, Bool-cases, inl, inr, ◌≡◌, refl,
}
use no_js.Base.Int.{ℤ}
use no_js.Env.{Block, UserData, request_context, Event, event_name, Object, holder}

-- A `Uint8Array`: the backing store of its buffer, and the part of it that the array shows.
pub record View : Type 0 where
  pub store : Block
  pub byte_offset : ℕ
  pub byte_length : ℕ

-- A function of JavaScript is a number, and a number one of the range of `int`.
pub data Value : Type 0 where
  undefined null : Value
  number : ℤ → Value
  bigint : ℕ → Value
  string : String → Value
  function : ℕ → Value
  bytes : View → Value

abbrev pub Args : Type 0
Args = List Value

-- `args[i]`.
unfoldable pub arg : Args → ℕ → Value
arg args i = elim (get_elem? args i) [ none ↦ undefined | some v ↦ v ]

as_int : Value → Result ℤ
as_int (number z) = ok z
as_int _ = fault bad_argument

-- `String::Utf8Value` converts; what it makes of numbers, functions and objects is left out, as a
-- fault.
as_string : Value → Result String
as_string (string t) = ok t
as_string undefined = ok "undefined"
as_string null = ok "null"
as_string _ = fault bad_argument

as_view : Value → Result View
as_view (bytes v) = ok v
as_view _ = fault bad_argument

as_function : Value → Result ℕ
as_function (function f) = ok f
as_function _ = fault bad_argument

-- `Uint64Value`: the low 64 bits.
as_bigint : Value → Result ℕ
as_bigint (bigint n) = ok (n % 2 ^ 64)
as_bigint _ = fault bad_argument

-- `args[i].As<Integer>()->Value()`, and the other casts.
unfoldable pub int_arg : Args → ℕ → Result ℤ
unfolding arg as_int
int_arg args i = as_int (arg args i)

unfoldable pub string_arg : Args → ℕ → Result String
unfolding arg as_string
string_arg args i = as_string (arg args i)

unfoldable pub view_arg : Args → ℕ → Result View
unfolding arg as_view
view_arg args i = as_view (arg args i)

unfoldable pub bigint_arg : Args → ℕ → Result ℕ
unfolding arg as_bigint
bigint_arg args i = as_bigint (arg args i)

unfoldable pub function_arg : Args → ℕ → Result ℕ
unfolding arg as_function
function_arg args i = as_function (arg args i)

number_or : ℤ → Value → ℤ
number_or d (number z) = z
number_or d _ = d

-- `args.Length() > i && args[i]->IsNumber()`, with what stands there otherwise.
unfoldable pub number_arg_or : Args → ℕ → ℤ → ℤ
unfolding arg number_or
number_arg_or args i d = if ltb i (length args) then number_or d (arg args i) else d

-- `args.Length() > i`, and then the cast.
unfoldable pub int_arg_or : Args → ℕ → ℤ → Result ℤ
unfolding int_arg
int_arg_or args i d = let given = int_arg args i in if ltb i (length args) then given else ok d

context_if : Event → Value → UserData
context_if e (function f) = request_context (some (holder (event_name e) f))
context_if e _ = request_context none

-- `args.Length() > i && args[i]->IsFunction()`: the request context keeps the function under the
-- event's name, and is empty without one.
unfoldable pub context_arg : Args → ℕ → Event → UserData
unfolding arg context_if
context_arg args i e =
    if ltb i (length args) then context_if e (arg args i) else request_context none

context_if-request_context :
    (e : Event) (v : Value) → (o : Option Object) × (context_if e v ≡ request_context o)
unfolding context_if
context_if-request_context e (function f) = (some (holder (event_name e) f), refl)
context_if-request_context e _ = (none, refl)

-- Whatever the argument is, the request has a context.
pub context_arg-request_context :
    (args : Args) (i : ℕ) (e : Event)
    → (o : Option Object) × (context_arg args i e ≡ request_context o)
unfolding context_arg
context_arg-request_context args i e = elim (Bool-cases (ltb i (length args))) [
  | inl given ↦ rw given (context_if-request_context e (arg args i))
  | inr absent ↦ rw absent (none, refl)
]
