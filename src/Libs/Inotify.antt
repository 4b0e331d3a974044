-- ===== src/Libs/Inotify.antt =====
-- libs/inotify/index.js: several functions watch a file through one native listener.
pub mod Watches
pub mod Changes
use no_js.Base.{
  ℕ, zero, suc, ◌+◌, ◌==◌, ltb, if◌then◌else◌, Option, none, some, List, [], ◌∷◌, ◌++◌, get_elem?,
  length, Result, ok, fault, bad_argument, ◌>>=◌,
}
use no_js.Base.Dict.{Dict, find, insert, erase}
use no_js.Base.Int.{ℤ, pos}
use no_js.Env.{Environment}
use no_js.Inotify.{on, off}

-- An entry of `map`: what `inotify.on` returned (`none` for -1), and the array of callbacks, which
-- is an object of its own.
pub record Watched : Type 0 where
  pub ctx : Option (ℕ × ℕ)
  pub queue : ℕ

-- The variables of the module, with the process that it runs in. A file name and a callback are
-- numbers.
pub record Library : Type 0 where
  pub map : Dict Watched
  pub queues : ℕ → List ℕ
  pub next_queue : ℕ
  pub env : Environment

-- The array at an address is changed in place.
unfoldable pub set_queue : ℕ → List ℕ → Library → Library
set_queue q cbs l = record l { queues = λ p. if p == q then cbs else l.queues p }

-- `{ctx, queue: [{cb, options}]}`, for a name that is not in `map`.
unfoldable pub add_entry : ℕ → ℕ → Option (ℕ × ℕ) → Environment → Library → Library
unfolding set_queue
add_entry filename cb ctx t l = set_queue l.next_queue (cb ∷ []) (record l {
  map = insert filename (record { ctx = ctx; queue = l.next_queue }) l.map;
  next_queue = suc l.next_queue;
  env = t;
})

-- `watch`. The function that is given to `inotify.on` has the number `f`, and `wd` is what
-- `inotify_add_watch` answers, should it be called.
unfoldable pub watch : ℕ → ℕ → ℕ → Option ℕ → Library → Result Library
unfolding set_queue add_entry
watch filename cb f wd l = elim (find filename l.map) [
  | none ↦ do (ctx, t) ← on f wd l.env; ok (add_entry filename cb ctx t l)
  | some w ↦ ok (set_queue w.queue (l.queues w.queue ++ cb ∷ []) l)
]

-- `inotify.off(ctx)`. Of -1, `Off` asks for a property as if it were an object.
unfoldable pub off_ctx : Option (ℕ × ℕ) → ℤ → Library → Result (Option ℤ × Library)
off_ctx none ret l = fault bad_argument
off_ctx (some (wd, id)) ret l =
    let (v, t) = off (some wd) (some id) ret l.env in ok (v, record l { env = t })

-- The loop of `unwatch`: the first entry with the callback is taken out.
unfoldable pub splice : ℕ → List ℕ → List ℕ
splice callback [] = []
splice callback (cb ∷ queue) = if cb == callback then queue else cb ∷ splice callback queue

-- The end of `unwatch`: the native listener goes with the last callback.
unfoldable pub off_if_empty : List ℕ → Option (ℕ × ℕ) → ℤ → Library → Result (Option ℤ × Library)
unfolding off_ctx
off_if_empty [] ctx ret l = off_ctx ctx ret l
off_if_empty (cb ∷ queue) ctx ret l = ok (some (pos 0), l)

-- `unwatch` of an entry of `map`, without and with a callback.
unfoldable pub unwatch_entry : ℕ → Watched → Option ℕ → ℤ → Library → Result (Option ℤ × Library)
unfolding off_ctx off_if_empty splice set_queue
unwatch_entry filename w none ret l = off_ctx w.ctx ret (record l { map = erase filename l.map })
unwatch_entry filename w (some callback) ret l =
    let queue = splice callback (l.queues w.queue) in
    off_if_empty queue w.ctx ret (set_queue w.queue queue l)

-- `unwatch`, with what `inotify_rm_watch` answers, should it be called. `none` is `undefined`.
unfoldable pub unwatch : ℕ → Option ℕ → ℤ → Library → Result (Option ℤ × Library)
unfolding unwatch_entry
unwatch filename callback ret l = elim (find filename l.map) [
  | none ↦ ok (none, l)
  | some w ↦ unwatch_entry filename w callback ret l
]

-- How the function that `watch` gives to `inotify.on` ends: it returns; it throws, since its file is
-- no longer in `map`; or the rounds of its loop are used up.
pub data Notified : Type 0 where
  returns : Library → Notified
  type_error : Notified
  no_rounds : Notified

module _ (call : ℕ → Library → Library) where
  -- The loop over the array at an address, from a position on, which reads the array again in each
  -- round; a call of a callback does what `call` says.
  unfoldable pub call_queue : ℕ → ℕ → ℕ → Library → Notified
  call_queue zero q i l = no_rounds
  call_queue (suc fuel) q i l = elim (get_elem? (l.queues q) i) [
    | none ↦ returns l
    | some cb ↦ call_queue fuel q (i + 1) (call cb l)
  ]

  -- The function that is given to `inotify.on`.
  unfoldable pub changed : ℕ → ℕ → Library → Notified
  unfolding call_queue
  changed fuel filename l = elim (find filename l.map) [
    | none ↦ type_error
    | some w ↦ call_queue fuel w.queue 0 l
  ]
