-- ===== src/Loop/Watching.antt =====
-- From the end of a read of file events to the next read (core/inotify.cc, `inotifyHandler`).
use no_js.Base.{
  ℕ, suc, ◌+◌, ◌<◌, ◌≡◌, refl, ◌∙◌, Option, none, some, List, [], ◌∷◌, ok, ◌>>=◌, or_fault, true,
  false, length,
}
use no_js.Base.Dict.{Dict, find, erase, find-update_self, occurs-find}
use no_js.Base.Int.{ℤ, pos}
use no_js.Env.{
  Environment, Request, InotifyContext, environment, onchange, event_name, get_function, prep_read,
  Object, Block, Sqe,
}
use no_js.Uring.{load, free, prepare}
use no_js.Uring.Launch.{launched, launch_lem}
use no_js.Async.{JavaScript, make_context_callback, call_if, call_function}
use no_js.Inotify.{
  Machine, InotifyEvent, inotify_request, buffer_size, start_read, submit_read_request,
  inotify_callback, handle_events, signed_char,
}
use no_js.Inotify.Events.{total_size, handle_events-size}
use no_js.Inotify.Notifying.{Fits, notify, notify_found, notify_all, handle_all-notify_all}
use no_js.Loop.{complete, dispatch, received}
use no_js.Loop.Calls.{Calls}
use no_js.Loop.CallOwnership.{Calls-Keeps, Keeps}

-- The next read of events, into a new buffer.
pub reading_again : Environment → Environment
reading_again u =
    let b : Block = record { base = u.next_address; len = buffer_size } in
    record (launched (inotify_request u.inotify_fd u.next_address)
      (prep_read u.inotify_fd b (pos 0))
      (record u {
        next_address = suc u.next_address;
        buffers = u.buffers + 1;
        need_submit = true;
      })) { need_submit = false }

submit_read_request-reading_again :
    (u : Environment) → submit_read_request (record u { need_submit = true }) ≡ ok (reading_again u)
unfolding submit_read_request start_read prepare reading_again
submit_read_request-reading_again u =
    rw
      (
        launch_lem (inotify_request u.inotify_fd u.next_address)
            (record u {
              next_address = suc u.next_address;
              buffers = u.buffers + 1;
              need_submit = true;
            })
            refl,
        ◌>>=◌,
      )
      refl

-- The request of a read of events into the buffer at `b`, which gave `n` bytes.
abbrev pub answered : ℤ → ℕ → ℕ → Request
answered fd b n = record (inotify_request fd b) { res = pos n }

-- A request that is released.
unfoldable pub without_request : ℕ → Environment → Environment
without_request p u = record u { heap = erase p u.heap }

module _ (js : JavaScript) (js-Calls : (f : ℕ) (v : ℤ) (s : Environment) → Calls s (js f v s))
    (js-watches : (f : ℕ) (v : ℤ) (s : Environment) → (js f v s).inotify_map ≡ s.inotify_map) where
  module _ (P : Dict Request → Dict Sqe → ℕ → Type 0)
      (P-Calls : (s t : Environment)
        → Calls s t
        → P s.heap s.ring s.next_address
        → P t.heap t.ring t.next_address) where
    -- What no native call breaks holds still when listeners have been called.
    abbrev pub Holds : Environment → Type 0
    Holds s = P s.heap s.ring s.next_address

    context-Holds :
        (ob : Object) (s : Environment)
        → Holds s
        → Holds (make_context_callback js onchange ob (pos 0) s)
    unfolding make_context_callback
    context-Holds ob s k = call_if-Holds (get_function ob (event_name onchange))
      where
        call_if-Holds : (f : Option ℕ) → Holds (call_if js f (pos 0) s)
        call_if-Holds none = unfold call_if in k
        call_if-Holds (some f) =
            unfold call_if call_function in P-Calls _ _ (js-Calls f (pos 0) _) k

    notify-Holds : (cs : List InotifyContext) (s : Environment) → Holds s → Holds (notify js cs s)
    unfolding notify
    notify-Holds [] s k = k
    notify-Holds (c ∷ cs) s k = notify-Holds cs _ (context-Holds c.object s k)

    notify_found-Holds :
        (cs : Option (List InotifyContext)) (s : Environment)
        → Holds s
        → Holds (notify_found js cs s)
    unfolding notify_found
    notify_found-Holds none s k = k
    notify_found-Holds (some cs) s k = notify-Holds cs s k

    pub notify_all-Holds :
        (es : List InotifyEvent) (s : Environment) → Holds s → Holds (notify_all js es s)
    unfolding notify_all
    notify_all-Holds [] s k = k
    notify_all-Holds (e ∷ es) s k =
        notify_all-Holds es _ (notify_found-Holds (find e.wd s.inotify_map) s k)

  pub notify_all-Keeps :
      (p : ℕ) (r : Request) (es : List InotifyEvent) (s : Environment)
      → Keeps p r s.heap s.ring s.next_address
      → let t = notify_all js es s in Keeps p r t.heap t.ring t.next_address
  notify_all-Keeps p r es s k =
      notify_all-Holds (Keeps p r) (λ s t cs k'. Calls-Keeps p r cs k'.0 k'.1) es s k

  pub handle_events-notify_all :
      (fuel n : ℕ) (es : List InotifyEvent) (s : Environment)
      → total_size es ≡ n
      → n < 128
      → Fits fuel s
      → handle_events js fuel (signed_char (pos n)) 0 es s ≡ ok (notify_all js es s)
  handle_events-notify_all fuel n es s total small fits =
      (handle_events-size js fuel n es s total).0 small
      ∙ handle_all-notify_all js js-watches fuel es s fits

  inotify_callback-notify_all :
      (m : Machine) (p n b : ℕ) (fd : ℤ) (es : List InotifyEvent) (s : Environment)
      → find p s.heap ≡ some (answered fd b n)
      → p < s.next_address
      → m.events_of (answered fd b n) ≡ es
      → total_size es ≡ n
      → n < 128
      → Fits m.fuel s
      → m.after_free (answered fd b n) ≡ some environment
      → inotify_callback js m p s ≡ ok (reading_again (without_request p (notify_all js es s)))
  unfolding inotify_callback load free without_request
  inotify_callback-notify_all m p n b fd es s found below events total small fits readable =
      let u = notify_all js es s in
      let kept : find p u.heap ≡ some (answered fd b n) =
        (notify_all-Keeps p (answered fd b n) es s (found, below)).0 in
      let handled = handle_events-notify_all m.fuel n es s total small fits in
      rw (found, or_fault)
        (rw events (
          rw (handled, ◌>>=◌)
            (rw (kept, or_fault)
              (rw (readable, or_fault)
                (submit_read_request-reading_again (record u { heap = erase p u.heap }))))))

  -- When functions do nothing but call native functions, and not those that change the listeners; when
  -- every watch has fewer listeners than the loop over them has rounds, and the freed request can still
  -- be read as the environment's: as the read of events at an allocated address completes with the
  -- size of its events, of up to 127 bytes, every listener of the watch of each event is called, in the
  -- order of the events and of the listeners; then the request is released, and the next read is
  -- submitted, into a new buffer.
  pub complete-notify_all :
      (m : Machine) (p n b : ℕ) (fd : ℤ) (es : List InotifyEvent) (s : Environment)
      → find p s.heap ≡ some (inotify_request fd b)
      → p < s.next_address
      → m.events_of (answered fd b n) ≡ es
      → total_size es ≡ n
      → n < 128
      → ((wd : ℕ) (cs : List InotifyContext) → find wd s.inotify_map ≡ some cs → length cs < m.fuel)
      → m.after_free (answered fd b n) ≡ some environment
      → complete js m (p, pos n) s
        ≡ ok (
            reading_again
              (without_request p (notify_all js es (received p (pos n) (inotify_request fd b) s))))
  unfolding complete load dispatch
  complete-notify_all m p n b fd es s found below events total small fits readable =
      rw (found, or_fault)
        (inotify_callback-notify_all m p n b fd es (received p (pos n) (inotify_request fd b) s)
          (find-update_self p (answered fd b n) s.heap (occurs-find p s.heap found)) below events
          total small fits readable)
