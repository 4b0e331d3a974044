-- ===== src/Libs/Inotify/Watches.antt =====
-- What `watch` and `unwatch` leave behind.
use mathlib.Core.List.{append-nil, append_assoc}
use no_js.Base.{
  ℕ, ◌+◌, ◌<◌, ◌≡◌, refl, ◌∙◌, Option, none, some, List, [], ◌∷◌, Returns, ◌>>=◌, ==_refl, Result,
  ok, ◌++◌, map, sym, ap,
}
use no_js.Base.Dict.{find, find-insert, erase-insert}
use no_js.Base.Int.{ℤ, pos, int_mod}
use no_js.Env.{Environment, InotifyContext}
use no_js.Inotify.{off}
use no_js.Inotify.Listeners.{AreListeners, on-off}
use no_js.Libs.Inotify.{
  Watched, Library, set_queue, add_entry, watch, off_ctx, splice, off_if_empty, unwatch_entry,
  unwatch,
}

-- Calls of `watch` for one file, one after another: the callback of each, the number of the function
-- for the native listener, and what `inotify_add_watch` answers.
abbrev pub watch_all : ℕ → List (ℕ × ℕ × Option ℕ) → Library → Result Library
watch_all filename [] l = ok l
watch_all filename ((cb, f, wd) ∷ calls) l = watch filename cb f wd l >>= watch_all filename calls

-- Calls of `watch` for a file that has an entry fill its array, and do nothing else.
watch_all-queued :
    (filename : ℕ) (w : Watched) (calls : List (ℕ × ℕ × Option ℕ)) (l : Library)
    → find filename l.map ≡ some w
    → Returns
        (λ again.
          (find filename again.map ≡ some w)
          × (again.queues w.queue ≡ l.queues w.queue ++ map (λ c. c.0) calls)
          × (again.env ≡ l.env))
        (watch_all filename calls l)
unfolding watch set_queue
watch_all-queued filename w [] l there = (l, refl, (there, sym (append-nil _), refl))
watch_all-queued filename w ((cb, f, wd) ∷ calls) l there =
    let pushed = set_queue w.queue (l.queues w.queue ++ cb ∷ []) l in
    let (again, e, (there', queued, same)) = watch_all-queued filename w calls pushed there in
    rw (there, watch)
      (
        again,
        e,
        (
          there',
          queued
              ∙ rw (==_refl w.queue)
                  (append_assoc (l.queues w.queue) (cb ∷ []) (map (λ c. c.0) calls)),
          same,
        ),
      )

module _ (filename cb f wd : ℕ) (l : Library) (before : Option (List InotifyContext))
    (absent : find filename l.map ≡ none) (known : find wd l.env.inotify_map ≡ before)
    (listeners : AreListeners l.env.last_id before) (small : l.env.count + 1 < int_mod) where
  abbrev ctx : ℕ × ℕ
  ctx = (wd, l.env.last_id + 1)

  abbrev entry : Watched
  entry = record { ctx = some ctx; queue = l.next_queue }

  -- The file is watched, and `off` of its native listener undoes `on`.
  abbrev IsWatched : Library → Type 0
  IsWatched l' =
      (t : Environment) × (l' ≡ add_entry filename cb (some ctx) t l)
      × ((off (some wd) (some (l.env.last_id + 1)) (pos 0) t).1.inotify_map ≡ l.env.inotify_map)

  watch_new : Returns IsWatched (watch filename cb f (some wd) l)
  unfolding watch
  watch_new =
      let ((v, t), e, (given, restored, counted)) =
        on-off f wd before l.env known listeners small in
      rw (absent, watch) (rw (e, ◌>>=◌) (_, refl, (t, rw given refl, restored)))

  found : (t : Environment) → find filename (add_entry filename cb (some ctx) t l).map ≡ some entry
  unfolding add_entry set_queue
  found t = find-insert filename filename entry l.map absent ∙ rw (==_refl filename) refl

  spliced :
      (t : Environment)
      → splice cb ((add_entry filename cb (some ctx) t l).queues l.next_queue) ≡ []
  unfolding splice add_entry set_queue
  spliced t = rw (==_refl l.next_queue) (rw (==_refl cb) refl)

  -- A file that is not watched yet is watched, and then no longer, where the kernel accepts both and
  -- `count` does not wrap around: the module and the native table of listeners are as they were.
  pub unwatch-watch :
      Returns
        (λ watched.
          Returns
            (λ (r : Option ℤ × Library).
              (r.1.map ≡ l.map) × (r.1.env.inotify_map ≡ l.env.inotify_map))
            (unwatch filename none (pos 0) watched))
        (watch filename cb f (some wd) l)
  unfolding unwatch unwatch_entry off_ctx
  unwatch-watch =
      let (l', e, (t, is, restored)) = watch_new in
      (
        l',
        e,
        rw is (
            rw (found t, unwatch)
              (
                _,
                refl,
                (
                  unfold add_entry set_queue in erase-insert filename entry l.map absent,
                  unfold add_entry set_queue in restored,
                ),
              )),
      )

  -- The callback of a file that it alone watches is taken away, and other ones watch the file then,
  -- however many: the new callbacks are in the array of the file, and the native table has no listener
  -- that was not there before the first one.
  pub watch-after_unwatch :
      (calls : List (ℕ × ℕ × Option ℕ))
      → Returns
          (λ watched.
            Returns
              (λ (r : Option ℤ × Library).
                Returns
                  (λ again.
                    (w : Watched) × (find filename again.map ≡ some w)
                    × (again.queues w.queue ≡ map (λ c. c.0) calls)
                    × (again.env.inotify_map ≡ l.env.inotify_map))
                  (watch_all filename calls r.1))
              (unwatch filename (some cb) (pos 0) watched))
          (watch filename cb f (some wd) l)
  unfolding unwatch unwatch_entry off_if_empty off_ctx set_queue add_entry
  watch-after_unwatch calls =
      let (l', e, (t, is, restored)) = watch_new in
      (
        l',
        e,
        rw is (
            rw (found t, unwatch)
              (rw (spliced t) (
                _,
                refl,
                let (again, ran, (there, queued, same)) =
                      watch_all-queued filename entry calls _ (found t) in
                    (
                      again,
                      ran,
                      (
                        entry,
                        there,
                        queued ∙ rw (==_refl l.next_queue) refl,
                        ap (λ (u : Environment). u.inotify_map) same ∙ restored,
                      ),
                    ),
              ))),
      )
