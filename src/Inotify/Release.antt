-- ===== src/Inotify/Release.antt =====
-- What `count` counts as watches go and listeners come.
use no_js.Base.{
  ℕ, ◌≡◌, ◌≢◌, refl, false, Option, none, some, List, [], ◌∷◌, Option-cases, inl, inr, ◌++◌,
  ==_refl, Returns,
}
use no_js.Base.Dict.{Dict, find, erase, find-insert, find-update_self, occurs-find}
use no_js.Base.Int.{pos, incr, decr}
use no_js.Env.{Environment, InotifyContext}
use no_js.Inotify.{on, off, off_listeners, remove_watch, submit_read_request, add_watcher}

pub off_last_watch :
    (wd : ℕ) (cs : List InotifyContext) (s : Environment)
    → find wd s.inotify_map ≡ some cs
    → s.count ≡ 1
    → (off (some wd) none (pos 0) s).1
      ≡ record s { inotify_map = erase wd s.inotify_map; count = 0; pending = decr s.pending }
unfolding off off_listeners remove_watch
off_last_watch wd cs s known one = rw (known, off) (rw one refl)

pub off_other_watch :
    (wd : ℕ) (cs : List InotifyContext) (s : Environment)
    → find wd s.inotify_map ≡ some cs
    → s.count ≡ 2
    → (off (some wd) none (pos 0) s).1
      ≡ record s { inotify_map = erase wd s.inotify_map; count = 1 }
unfolding off off_listeners remove_watch
off_other_watch wd cs s known two = rw (known, off) (rw two refl)

add_watcher-ne-none :
    (wd : ℕ) (c : InotifyContext) (m : Dict (List InotifyContext))
    → find wd (add_watcher wd c (find wd m) m) ≢ none
unfolding add_watcher
add_watcher-ne-none wd c m = elim (Option-cases (find wd m)) [
  | inl absent ↦ rw absent (rw (find-insert wd wd (c ∷ []) m absent) (rw (==_refl wd) (λ e. cc)))
  | inr (cs, there) ↦
      rw there (rw (find-update_self wd (cs ++ c ∷ []) m (occurs-find wd m there)) (λ e. cc))
]

-- A listener that is added while a read is under way: nothing is submitted.
pub on_under_way :
    (f wd : ℕ) (s : Environment)
    → s.need_submit ≡ false
    → Returns
        (λ (v : Option (ℕ × ℕ) × Environment).
          (v.1.ring ≡ s.ring)
          × (v.1.timer_map ≡ s.timer_map)
          × (v.1.pending ≡ s.pending)
          × (v.1.stop ≡ s.stop)
          × (v.1.count ≡ incr s.count)
          × (v.1.need_submit ≡ false)
          × (find wd v.1.inotify_map ≢ none))
        (on f (some wd) s)
unfolding on submit_read_request
on_under_way f wd s quiet =
    rw quiet (_, refl, (refl, refl, refl, refl, refl, refl, add_watcher-ne-none wd _ s.inotify_map))
