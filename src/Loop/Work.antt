-- ===== src/Loop/Work.antt =====
-- States in which nothing starts again by itself, and the work that is outstanding in one (`RunIOUring`,
-- with core/async.h).
use no_js.Base.{ℕ, ◌+◌, ◌≤◌, ◌≡◌, ◌∙◌, arith, false, ◌==◌, Option, none, some, List, [], ◌∷◌, All}
use no_js.Base.Dict.{Dict, find, erase, update, All-erase}
use no_js.Base.Int.{ℤ}
use no_js.Env.{
  UserData, Environment, Request, Callback, make_callback, open_after, timer_cb, signal_cb,
  inotify_handler, null_callback, event_name, Object, get_function, request_context, timer_id,
}
use no_js.Async.{JavaScript, again}
use no_js.Loop.{Happening, completion, timer_expires, signal_arrives}
use no_js.Loop.Counting.{CleanCalls}

-- A request that is answered once: it is not marked as repeating, and its callback frees it and
-- submits nothing by itself.
abbrev pub IsOneShot : Callback → Request → Type 0
IsOneShot (make_callback e) r =
    ((o : Option Object) × (r.user ≡ request_context o)) × ((again r.flag == 1) ≡ false)
IsOneShot open_after r = Unit
IsOneShot timer_cb r = (id : ℕ) × (r.user ≡ timer_id id)
IsOneShot signal_cb r = ⊥
IsOneShot inotify_handler r = ⊥
IsOneShot null_callback r = ⊥

-- Nothing starts again by itself: every request is answered once, no timer is set, and no signal has
-- a listener.
pub record IsQuiet (s : Environment) : Type 0 where
  pub shots : All (λ e. IsOneShot e.1.cb e.1) s.heap
  pub timers : s.timer_map ≡ []
  pub signals : s.signal_map ≡ []
  pub running : s.stop ≡ 0

-- How many requests are answered.
abbrev pub answers : List Happening → ℕ
answers [] = 0
answers (completion p res ∷ hs) = 1 + answers hs
answers (timer_expires id ∷ hs) = answers hs
answers (signal_arrives sig ∷ hs) = answers hs

-- The function that the answer to a request calls.
abbrev pub function_of : Callback → UserData → Option ℕ
function_of (make_callback e) (request_context (some o)) = get_function o (event_name e)
function_of _ _ = none

-- What a call leads to, if there is one.
abbrev pub cost_if : (ℕ → ℕ) → Option ℕ → ℕ
cost_if cost none = 0
cost_if cost (some f) = cost f

-- A request with all that the call of its function leads to; and the requests of a table.
unfoldable pub weight : (ℕ → ℕ) → Request → ℕ
weight cost r = 1 + cost_if cost (function_of r.cb r.user)

unfoldable pub total : (ℕ → ℕ) → Dict Request → ℕ
unfolding weight
total cost [] = 0
total cost ((p, r) ∷ h) = weight cost r + total cost h

pub total-erase :
    (cost : ℕ → ℕ) (p : ℕ) (h : Dict Request) {r : Request}
    → find p h ≡ some r
    → total cost (erase p h) + weight cost r ≡ total cost h
unfolding total find erase
total-erase cost p [] e = absurd (cc)
total-erase cost p ((k, r') ∷ h) {r} e = ground (arith, total-erase cost p h {r = r})

pub total-update :
    (cost : ℕ → ℕ) (p : ℕ) (r' : Request) (h : Dict Request) {r : Request}
    → find p h ≡ some r
    → weight cost r' ≡ weight cost r
    → total cost (update p r' h) ≡ total cost h
unfolding total find update
total-update cost p r' [] e same = absurd (cc)
total-update cost p r' ((k, q) ∷ h) {r} e same = ground (arith, total-update cost p r' h {r = r})

pub find-nil {ℓ} : {V : Type ℓ} (k : ℕ) (m : Dict V) → m ≡ [] → find k m ≡ none
unfolding find
find-nil k m e = rw e

-- The result that is written into a request changes nothing.
pub shot_again :
    (cb : Callback) (r : Request) (res : ℤ) → IsOneShot cb r → IsOneShot cb (record r { res = res })
shot_again (make_callback e) r res shot = shot
shot_again open_after r res shot = shot
shot_again timer_cb r res shot = shot
shot_again signal_cb r res shot = shot
shot_again inotify_handler r res shot = shot
shot_again null_callback r res shot = shot

-- A request is freed in a quiet state.
pub freed-IsQuiet :
    (p : ℕ) (s : Environment) {t : Environment}
    → IsQuiet s
    → t.heap ≡ erase p s.heap
    → t.timer_map ≡ s.timer_map
    → t.signal_map ≡ s.signal_map
    → t.stop ≡ s.stop
    → IsQuiet t
freed-IsQuiet p s quiet heap timers signals stop = record {
  shots = rw heap (All-erase (λ x. IsOneShot x.1.cb x.1) p s.heap quiet.shots);
  timers = timers ∙ quiet.timers;
  signals = signals ∙ quiet.signals;
  running = stop ∙ quiet.running;
}

-- The functions of a program that ends: they make clean calls and leave nothing that starts again by
-- itself, and `cost f` bounds the requests that a call of `f` leads to, with those that their own
-- functions lead to.
pub record IsFinite (js : JavaScript) (cost : ℕ → ℕ) : Type 0 where
  pub clean : (f : ℕ) (v : ℤ) (s : Environment) → CleanCalls s (js f v s)
  pub quiet : (f : ℕ) (v : ℤ) (s : Environment) → IsQuiet s → IsQuiet (js f v s)
  pub bound :
      (f : ℕ) (v : ℤ) (s : Environment) → total cost (js f v s).heap ≤ total cost s.heap + cost f
