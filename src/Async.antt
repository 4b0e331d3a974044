-- ===== src/Async.antt =====
-- core/async.h: how a completed request, or a context, calls its JavaScript function. V8 is not part
-- of the repository: what a function does to the process is the parameter `js`.
use no_js.Base.{
  ℕ, ◌-◌, ◌%◌, Option, none, some, ◌∷◌, Result, ok, fault, wrong_struct, ◌>>=◌, ◌==◌, if◌then◌else◌,
}
use no_js.Base.Int.{ℤ}
use no_js.Env.{Event, event_name, Object, get_function, Environment, UserData, request_context}
use no_js.Uring.{load, free, submit_request}

-- What a call of a function with a number does to the process.
abbrev pub JavaScript : Type 0
JavaScript = ℕ → ℤ → Environment → Environment

-- `(RequestContext *)_req->data`.
unfoldable pub context_of : UserData → Result (Option Object)
context_of (request_context o) = ok o
context_of _ = fault wrong_struct

-- `IO_URING_REQUEST_AGAIN`, the lowest bit.
unfoldable pub again : ℕ → ℕ
again flag = flag % 2

module _ (js : JavaScript) where
  -- `cb.As<v8::Function>()->Call(context, object, 1, argv)`.
  unfoldable pub call_function : ℕ → ℤ → Environment → Environment
  call_function f v s = js f v (record s { calls = (f, v) ∷ s.calls })

  unfoldable pub call_if : Option ℕ → ℤ → Environment → Environment
  unfolding call_function
  call_if none v s = s
  call_if (some f) v s = call_function f v s

  -- `makeCallback<event>(RequestContext *)`, on a context whose object is not empty; the argument
  -- is 0 there.
  unfoldable pub make_context_callback : Event → Object → ℤ → Environment → Environment
  unfolding call_if
  make_context_callback e o v s = call_if (get_function o (event_name e)) v s

  unfoldable pub call_object : Event → Option Object → ℤ → Environment → Environment
  unfolding make_context_callback
  call_object e none v s = s
  call_object e (some o) v s = make_context_callback e o v s

  -- `delete ctx; free(_req);`
  unfoldable pub destroy : ℕ → Environment → Result Environment
  destroy p s = free p (record s { contexts = s.contexts - 1 })

  -- `makeCallback<event>(void *)`.
  unfoldable pub make_callback : Event → ℕ → Environment → Result Environment
  unfolding call_object destroy context_of again
  make_callback e p s = do
    r ← load p s
    o ← context_of r.user
    let t = call_object e o r.res s
    r' ← load p t
    if again r'.flag == 1 then submit_request p t else destroy p t
