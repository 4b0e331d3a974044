-- ===== src/Inotify/Events.antt =====
-- Which events of a buffer `inotifyHandler` handles.
use no_js.Base.{
  ℕ, ◌+◌, ◌%◌, ◌<◌, ◌≤◌, ◌≡◌, refl, true, false, List, [], ◌∷◌, Result, ok, ◌>>=◌, arith, ltb,
  Result-cases, inl, inr,
}
use no_js.Base.Dict.{find}
use no_js.Base.Int.{pos}
use no_js.Env.{Environment}
use no_js.Async.{JavaScript}
use no_js.Inotify.{InotifyEvent, event_size, signed_char, before_end, at_event, handle_events}

-- The bytes that events take.
abbrev pub total_size : List InotifyEvent → ℕ
total_size [] = 0
total_size (e ∷ es) = event_size + e.len + total_size es

-- Every event in its order, for the listeners of its watch.
unfoldable pub handle_all : JavaScript → ℕ → List InotifyEvent → Environment → Result Environment
handle_all js fuel [] s = ok s
handle_all js fuel (e ∷ es) s =
    at_event js fuel e.wd (find e.wd s.inotify_map) s >>= handle_all js fuel es

module _ (js : JavaScript) (fuel : ℕ) where
  handle_events_from :
      (p n : ℕ) (es : List InotifyEvent) (s : Environment)
      → p + total_size es ≡ n
      → handle_events js fuel (pos n) p es s ≡ handle_all js fuel es s
  unfolding handle_events before_end handle_all
  handle_events_from p n [] s e = ground arith
  handle_events_from p n (ev ∷ es) s e =
      let within : ltb p n ≡ true = ground arith in
      rw within (elim (Result-cases (at_event js fuel ev.wd (find ev.wd s.inotify_map) s)) [
        | inl (t, done) ↦
            rw done (handle_events_from (p + event_size + ev.len) n es t (omega arith))
        | inr (x, failed) ↦ rw failed refl
      ])

  signed_char_small : (n : ℕ) → n < 128 → signed_char (pos n) ≡ pos n
  unfolding signed_char
  signed_char_small n h = ground arith

  signed_char_wrapped : (n p : ℕ) → 128 ≤ n % 256 → before_end p (signed_char (pos n)) ≡ false
  unfolding signed_char before_end
  signed_char_wrapped n p h = ground arith

  -- The events of a buffer of up to 127 bytes are all handled, in their order. Of a buffer whose
  -- number of bytes is 128 to 255 modulo 256, which a `char` takes as negative, no event is
  -- handled.
  pub handle_events-size :
      (n : ℕ) (es : List InotifyEvent) (s : Environment)
      → total_size es ≡ n
      → (n < 128 → handle_events js fuel (signed_char (pos n)) 0 es s ≡ handle_all js fuel es s)
        × (128 ≤ n % 256 → handle_events js fuel (signed_char (pos n)) 0 es s ≡ ok s)
  handle_events-size n es s e = (small, large es)
    where
      small : n < 128 → handle_events js fuel (signed_char (pos n)) 0 es s ≡ handle_all js fuel es s
      small h = rw (signed_char_small n h) (handle_events_from 0 n es s (omega arith))

      large :
          (es : List InotifyEvent)
          → 128 ≤ n % 256
          → handle_events js fuel (signed_char (pos n)) 0 es s ≡ ok s
      large [] h = unfold handle_events in rw (signed_char_wrapped n 0 h) refl
      large (ev ∷ es) h = unfold handle_events in rw (signed_char_wrapped n 0 h) refl
