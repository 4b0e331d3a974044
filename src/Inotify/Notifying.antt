-- ===== src/Inotify/Notifying.antt =====
-- The loops of `inotifyHandler` call every listener of every event, when no listener changes them.
use mathlib.Core.List.{append_assoc}
use no_js.Base.{
  ℕ, zero, suc, ◌+◌, ◌<◌, ◌≡◌, refl, ◌∙◌, arith, Option, none, some, List, [], ◌∷◌, ◌++◌, ok, ◌>>=◌,
  or_fault, length, length-append, get_elem?, Option-cases, inl, inr,
}
use no_js.Base.Dict.{find}
use no_js.Base.Int.{ℤ, pos}
use no_js.Env.{Environment, InotifyContext, onchange, event_name, get_function, Object}
use no_js.Async.{JavaScript, make_context_callback, call_if, call_function}
use no_js.Inotify.{InotifyEvent, call_found, call_at, call_listeners, at_event}
use no_js.Inotify.Events.{handle_all}

-- Each listed watch has fewer listeners than the loop over them has rounds.
abbrev pub Fits : ℕ → Environment → Type 0
Fits fuel s =
    (wd : ℕ) (cs : List InotifyContext) → find wd s.inotify_map ≡ some cs → length cs < fuel

module _ (js : JavaScript) where
  -- The listeners of a watch are called in their order.
  unfoldable pub notify : List InotifyContext → Environment → Environment
  notify [] s = s
  notify (c ∷ cs) s = notify cs (make_context_callback js onchange c.object (pos 0) s)

  unfoldable pub notify_found : Option (List InotifyContext) → Environment → Environment
  unfolding notify
  notify_found none s = s
  notify_found (some cs) s = notify cs s

  -- The events in their order, each for the listeners of its watch.
  unfoldable pub notify_all : List InotifyEvent → Environment → Environment
  unfolding notify_found
  notify_all [] s = s
  notify_all (e ∷ es) s = notify_all es (notify_found (find e.wd s.inotify_map) s)

module _ (js : JavaScript)
    (js-watches : (f : ℕ) (v : ℤ) (s : Environment) → (js f v s).inotify_map ≡ s.inotify_map) where
  call_if-watches :
      (f : Option ℕ) (v : ℤ) (s : Environment) → (call_if js f v s).inotify_map ≡ s.inotify_map
  unfolding call_if call_function
  call_if-watches none v s = refl
  call_if-watches (some f) v s = js-watches f v _

  context-watches :
      (ob : Object) (s : Environment)
      → (make_context_callback js onchange ob (pos 0) s).inotify_map ≡ s.inotify_map
  unfolding make_context_callback
  context-watches ob s = call_if-watches (get_function ob (event_name onchange)) (pos 0) s

  notify-watches :
      (cs : List InotifyContext) (s : Environment) → (notify js cs s).inotify_map ≡ s.inotify_map
  unfolding notify
  notify-watches [] s = refl
  notify-watches (c ∷ cs) s = notify-watches cs _ ∙ context-watches c.object s

  get_elem?-middle :
      (before : List InotifyContext) (c : InotifyContext) (after : List InotifyContext)
      → get_elem? (before ++ c ∷ after) (length before) ≡ some c
  get_elem?-middle [] c after = refl
  get_elem?-middle (d ∷ before) c after = get_elem?-middle before c after

  call_at_end :
      (cs : List InotifyContext) (i : ℕ) (s : Environment)
      → i ≡ length cs
      → call_at js i cs s ≡ ok none
  unfolding call_at
  call_at_end cs i s e = ground arith

  call_at_middle :
      (before : List InotifyContext) (c : InotifyContext) (after : List InotifyContext) (i : ℕ)
      (s : Environment)
      → i ≡ length before
      → call_at js i (before ++ c ∷ after) s
        ≡ ok (some (make_context_callback js onchange c.object (pos 0) s))
  unfolding call_at call_found
  call_at_middle before c after i s e =
      ground (arith, length-append before (c ∷ after), get_elem?-middle before c after)

  call_listeners_from :
      (fuel wd : ℕ) (before after : List InotifyContext) (i : ℕ) (s : Environment)
      → i ≡ length before
      → length after < fuel
      → find wd s.inotify_map ≡ some (before ++ after)
      → call_listeners js fuel wd i s ≡ ok (notify js after s)
  unfolding call_listeners notify
  call_listeners_from zero wd before after i s e h there = absurd (omega arith)
  call_listeners_from (suc fuel) wd before [] i s e h there =
      rw (there, or_fault)
        (rw (call_at_end (before ++ []) i s (omega (arith, length-append before [])), ◌>>=◌) refl)
  call_listeners_from (suc fuel) wd before (c ∷ after) i s e h there =
      rw (there, or_fault)
        (rw (call_at_middle before c after i s e, ◌>>=◌)
          (call_listeners_from fuel wd (before ++ c ∷ []) after (i + 1)
            (make_context_callback js onchange c.object (pos 0) s)
            (omega (arith, length-append before (c ∷ []))) (omega arith)
            (rw (context-watches c.object s, append_assoc) there)))

  at_event-notify_found :
      (fuel wd : ℕ) (s : Environment)
      → Fits fuel s
      → at_event js fuel wd (find wd s.inotify_map) s
        ≡ ok (notify_found js (find wd s.inotify_map) s)
  unfolding at_event notify_found
  at_event-notify_found fuel wd s fits = elim (Option-cases (find wd s.inotify_map)) [
    | inl absent ↦ rw absent refl
    | inr (cs, there) ↦
        rw there (call_listeners_from fuel wd [] cs 0 s refl (fits wd cs there) there)
  ]

  notify_found-watches :
      (cs : Option (List InotifyContext)) (s : Environment)
      → (notify_found js cs s).inotify_map ≡ s.inotify_map
  unfolding notify_found
  notify_found-watches none s = refl
  notify_found-watches (some cs) s = notify-watches cs s

  pub handle_all-notify_all :
      (fuel : ℕ) (es : List InotifyEvent) (s : Environment)
      → Fits fuel s
      → handle_all js fuel es s ≡ ok (notify_all js es s)
  unfolding handle_all notify_all
  handle_all-notify_all fuel [] s fits = refl
  handle_all-notify_all fuel (e ∷ es) s fits =
      rw (at_event-notify_found fuel e.wd s fits, ◌>>=◌)
        (handle_all-notify_all fuel es _
          (rw (notify_found-watches (find e.wd s.inotify_map) s) fits))
