-- ===== src/Inotify/Listeners.antt =====
-- A listener of a watch, from `on` to `off`.
use no_js.Base.{
  ℕ, suc, ◌+◌, ◌<◌, ◌≡◌, ◌≢◌, refl, ◌∙◌, Option, none, some, List, [], ◌∷◌, ◌++◌, All, Returns,
  ◌>>=◌, arith, ◌==◌, ==_refl, Bool-cases, if_both, inl, inr,
}
use no_js.Base.Dict.{
  Dict, find, insert, update, erase, erase-insert, update-update, find-insert, find-update_self,
  occurs-find,
}
use no_js.Base.Int.{ℤ, pos, int_mod, incr, decr}
use no_js.Env.{Environment, InotifyContext, holder, event_name, onchange}
use no_js.Uring.{prepare}
use no_js.Uring.Launch.{launch_lem}
use no_js.Inotify.{
  inotify_request, start_read, submit_read_request, add_watcher, on, remove_listener, remove_watch,
  keep_or_remove, off_listeners, off,
}

-- The tables of a state that a read leaves as they are.
abbrev pub SameTables : Environment → Environment → Type 0
SameTables s t = (t.inotify_map ≡ s.inotify_map) × (t.count ≡ s.count) × (t.last_id ≡ s.last_id)

start_read-tables : (s : Environment) → Returns (SameTables s) (start_read s)
unfolding start_read prepare
start_read-tables s =
    rw
      (
        launch_lem (inotify_request s.inotify_fd s.next_address)
            (record s { next_address = suc s.next_address; buffers = s.buffers + 1 }) refl,
        ◌>>=◌,
      )
      (_, refl, (refl, refl, refl))

pub submit_read_request-tables : (s : Environment) → Returns (SameTables s) (submit_read_request s)
unfolding submit_read_request
submit_read_request-tables s =
    if_both (Returns (SameTables s)) s.need_submit (start_read-tables s)
      (s, refl, (refl, refl, refl))

remove_listener-append :
    (id : ℕ) (c : InotifyContext) (cs : List InotifyContext)
    → All (λ (d : InotifyContext). d.id < id) cs
    → c.id ≡ id
    → remove_listener id (cs ++ c ∷ []) ≡ cs
unfolding remove_listener
remove_listener-append id c [] below same = ground arith
remove_listener-append id c (d ∷ cs) below same =
    ground (arith, remove_listener-append id c cs below.1 same)

remove_watch-tables :
    (wd : ℕ) (s : Environment)
    → let t = (remove_watch wd (pos 0) s).1 in
      (t.inotify_map ≡ erase wd s.inotify_map) × (t.count ≡ decr s.count)
unfolding remove_watch
remove_watch-tables wd s = elim (Bool-cases (decr s.count == 0)) [
  | inl last ↦ rw last (refl, refl)
  | inr left ↦ rw left (refl, refl)
]

keep_listeners :
    (wd : ℕ) (cs : List InotifyContext) (ret : ℤ) (s : Environment)
    → cs ≢ []
    → (keep_or_remove wd cs ret s).1 ≡ record s { inotify_map = update wd cs s.inotify_map }
unfolding keep_or_remove
keep_listeners wd [] ret s some_left = absurd (some_left refl)
keep_listeners wd (c ∷ cs) ret s some_left = refl

-- Whether a watch has other listeners.
abbrev pub others : Option (List InotifyContext) → ℕ
others none = 0
others (some cs) = 1

-- The listeners of a watch, if it has any: at least one, with ids that have been given.
abbrev pub AreListeners : ℕ → Option (List InotifyContext) → Type 0
AreListeners last none = Unit
AreListeners last (some cs) = (cs ≢ []) × All (λ (d : InotifyContext). d.id < last + 1) cs

-- The watch's entry with the new listener, and what is left when it is removed.
off-added :
    (wd last : ℕ) (c : InotifyContext) (m : Dict (List InotifyContext))
    (before : Option (List InotifyContext)) (t : Environment)
    → find wd m ≡ before
    → AreListeners last before
    → c.id ≡ last + 1
    → 0 < t.count
    → t.count < int_mod
    → let u =
        (off
          (some wd)
          (some c.id)
          (pos 0)
          (record t { inotify_map = add_watcher wd c before m })).1 in
      (u.inotify_map ≡ m) × (u.count + 1 ≡ t.count + others before)
unfolding off off_listeners add_watcher
off-added wd last c m none t absent given new positive small =
    let there : find wd (insert wd (c ∷ []) m) ≡ some (c ∷ []) =
      find-insert wd wd (c ∷ []) m absent ∙ rw (==_refl wd) refl in
    let (map, count) = remove_watch-tables wd (record t { inotify_map = insert wd (c ∷ []) m }) in
    rw (there, off)
      (rw (==_refl c.id)
        (unfold keep_or_remove in (map ∙ erase-insert wd (c ∷ []) m absent, omega (arith, count))))
off-added wd last c m (some cs) t known (some_left, below) new positive small =
    let there : find wd (update wd (cs ++ c ∷ []) m) ≡ some (cs ++ c ∷ []) =
      find-update_self wd (cs ++ c ∷ []) m (occurs-find wd m known) in
    rw (there, off)
      (rw (remove_listener-append c.id c cs (rw new below) refl) (
        rw (keep_listeners wd cs (pos 0) _ some_left)
          (update-update wd (cs ++ c ∷ []) m known, refl)))

-- A listener is added to a watch that has no listeners, or some with ids that were given before, and
-- removed again by the ids that it was given, where the kernel accepts both calls and `count` does
-- not wrap around: the table of listeners is as it was before. But `count` is as before only if the
-- watch has no others: else the new listener stays counted.
pub on-off :
    (f wd : ℕ) (before : Option (List InotifyContext)) (s : Environment)
    → find wd s.inotify_map ≡ before
    → AreListeners s.last_id before
    → s.count + 1 < int_mod
    → Returns
        (λ (v : Option (ℕ × ℕ) × Environment).
          (v.0 ≡ some (wd, s.last_id + 1))
          × ((off (some wd) (some (s.last_id + 1)) (pos 0) v.1).1.inotify_map ≡ s.inotify_map)
          × ((off (some wd) (some (s.last_id + 1)) (pos 0) v.1).1.count ≡ s.count + others before))
        (on f (some wd) s)
unfolding on
on-off f wd before s known listeners small =
    let (t, e, (map, count, last)) =
      submit_read_request-tables (record s { count = incr s.count }) in
    let c : InotifyContext = record {
      id = s.last_id + 1;
      object = holder (event_name onchange) f;
    } in
    let (restored, counted) =
      off-added wd s.last_id c s.inotify_map before (record t { last_id = s.last_id + 1 }) known
        listeners refl (omega arith) (omega arith) in
    rw (e, ◌>>=◌)
      (
        _,
        refl,
        (
          rw last refl,
          rw (last, map, known) restored,
          rw (last, map, known) (omega (arith, counted)),
        ),
      )
