-- ===== src/Loop/Quiet.antt =====
-- What a completion does in a state in which nothing starts again by itself (`RunIOUring`, with
-- core/async.h).
use no_js.Base.{
  ℕ, ◌+◌, ◌≤◌, ◌<◌, ltb, Bool-cases, inl, inr, ◌≡◌, ◌≢◌, refl, arith, Option, none, some, [], ◌∷◌,
  ok, or_fault, Returns,
}
use no_js.Base.Dict.{find, find-update_self, occurs-find, All-update, All-find}
use no_js.Base.Int.{ℤ}
use no_js.Env.{
  Environment, Request, Callback, make_callback, open_after, timer_cb, signal_cb, inotify_handler,
  null_callback, Event, event_name, Object, get_function, request_context,
}
use no_js.Uring.{load, free}
use no_js.Uring.Ownership.{IsOwned, in_ring-find}
use no_js.Async.{
  JavaScript, context_of, again, call_function, call_if, call_object, make_context_callback,
  destroy,
}
use no_js.Async
use no_js.Timer.{timer_callback, timer_of, expire_if}
use no_js.Signal.{signal_handler, notify_listeners, listeners_of}
use no_js.Fs.{open_after_callback}
use no_js.Inotify.{Machine}
use no_js.Loop.{
  dispatch, complete, received, Happening, completion, timer_expires, signal_arrives, happen,
}
use no_js.Loop.Run.{CleanCalls-Calls}
use no_js.Loop.CallOwnership.{Calls-Keeps}
use no_js.Loop.Safety.{MayHappen}
use no_js.Loop.Work.{
  IsOneShot, IsQuiet, IsFinite, answers, function_of, cost_if, weight, total, total-erase,
  total-update, find-nil, shot_again, freed-IsQuiet,
}

module _ (js : JavaScript) (cost : ℕ → ℕ) (finite : IsFinite js cost) where
  -- A quiet state in which the outstanding work is at most a number.
  abbrev Works : ℕ → Environment → Type 0
  Works n t = IsQuiet t × (total cost t.heap ≤ n)

  call_if-Works :
      (f : Option ℕ) (v : ℤ) (s : Environment)
      → IsQuiet s
      → Works (total cost s.heap + cost_if cost f) (call_if js f v s)
  unfolding call_if call_function
  call_if-Works none v s q = (q, omega arith)
  call_if-Works (some f) v s q =
      let s' = record s { calls = (f, v) ∷ s.calls } in
      let q' : IsQuiet s' = record {
        shots = q.shots;
        timers = q.timers;
        signals = q.signals;
        running = q.running;
      } in
      (finite.quiet f v s' q', finite.bound f v s')

  call_object-Works :
      (e : Event) (o : Option Object) (v : ℤ) (s : Environment)
      → IsQuiet s
      → Works
          (total cost s.heap + cost_if cost (function_of (make_callback e) (request_context o)))
          (call_object js e o v s)
  unfolding call_object make_context_callback
  call_object-Works e none v s q = (q, omega arith)
  call_object-Works e (some o) v s q = call_if-Works (get_function o (event_name e)) v s q

  call_object-kept :
      (e : Event) (o : Option Object) (v : ℤ) (p : ℕ) (r : Request) (s : Environment)
      → find p s.heap ≡ some r
      → p < s.next_address
      → find p (call_object js e o v s).heap ≡ some r
  unfolding call_object make_context_callback
  call_object-kept e none v p r s found below = found
  call_object-kept e (some o) v p r s found below = call_if-kept (get_function o (event_name e))
    where
      call_if-kept : (f : Option ℕ) → find p (call_if js f v s).heap ≡ some r
      call_if-kept none = unfold call_if in found
      call_if-kept (some f) =
          unfold call_if call_function in
          (Calls-Keeps p r (CleanCalls-Calls (finite.clean f v _)) found below).0

  -- The answer to a request takes its weight away, and adds at most what its function costs.
  abbrev Answered : ℕ → Environment → Environment → Type 0
  Answered p s t = IsQuiet t × (total cost t.heap + 1 ≤ total cost s.heap)

  make_callback-Answered :
      (e : Event) (p : ℕ) (r : Request) (s : Environment)
      → IsQuiet s
      → find p s.heap ≡ some r
      → p < s.next_address
      → r.cb ≡ make_callback e
      → IsOneShot (make_callback e) r
      → Returns (Answered p s) (Async.make_callback js e p s)
  unfolding Async.make_callback load context_of destroy free
  make_callback-Answered e p r s q found below cb ((o, context), once) =
      let u = call_object js e o r.res s in
      let kept : find p u.heap ≡ some r = call_object-kept e o r.res p r s found below in
      let (quiet, added) = call_object-Works e o r.res s q in
      let weighs : weight cost r
          ≡ 1 + cost_if cost (function_of (make_callback e) (request_context o)) =
        unfold weight in rw (cb, context) refl in
      rw (found, or_fault)
        (rw (context, context_of)
          (rw (kept, or_fault)
            (rw once (
              _,
              refl,
              (
                freed-IsQuiet p u quiet refl refl refl refl,
                omega (arith, total-erase cost p u.heap kept, weighs, added),
              ),
            ))))

  freed-Answered :
      (p : ℕ) (r : Request) (s : Environment)
      → IsQuiet s
      → find p s.heap ≡ some r
      → Returns (Answered p s) (free p s)
  unfolding free load weight
  freed-Answered p r s q found =
      rw (found, or_fault)
        (
          _,
          refl,
          (freed-IsQuiet p s q refl refl refl refl, omega (arith, total-erase cost p s.heap found)),
        )

  dispatch-Answered :
      (m : Machine) (cb : Callback) (p : ℕ) (r : Request) (s : Environment)
      → IsQuiet s
      → find p s.heap ≡ some r
      → p < s.next_address
      → r.cb ≡ cb
      → IsOneShot cb r
      → Returns (Answered p s) (dispatch js m cb p s)
  unfolding dispatch open_after_callback timer_callback timer_of expire_if load
  dispatch-Answered m (make_callback e) p r s q found below cb shot =
      make_callback-Answered e p r s q found below cb shot
  dispatch-Answered m open_after p r s q found below cb shot = freed-Answered p r s q found
  dispatch-Answered m timer_cb p r s q found below cb (id, is) =
      rw (found, or_fault)
        (rw (is, timer_of)
          (rw (find-nil id s.timer_map q.timers, expire_if) (freed-Answered p r s q found)))
  dispatch-Answered m signal_cb p r s q found below cb shot = absurd shot
  dispatch-Answered m inotify_handler p r s q found below cb shot = absurd shot
  dispatch-Answered m null_callback p r s q found below cb shot = absurd shot

  below_next :
      (p : ℕ) (s : Environment) {r : Request}
      → IsOwned [] s
      → find p s.heap ≡ some r
      → p < s.next_address
  below_next p s o found = elim (Bool-cases (ltb p s.next_address)) [
    | inl below ↦ ground (arith, below)
    | inr above ↦ absurd (ground (arith, above, o.fresh p, occurs-find p s.heap found))
  ]

  complete-Answered :
      (m : Machine) (p : ℕ) (res : ℤ) (s : Environment)
      → IsOwned [] s
      → IsQuiet s
      → find p s.ring ≢ none
      → Returns
          (λ t. IsQuiet t × (total cost t.heap + 1 ≤ total cost s.heap))
          (complete js m (p, res) s)
  unfolding complete load
  complete-Answered m p res s o q there =
      let (r, found) = in_ring-find p s o there in
      let r' : Request = record r { res = res } in
      let w = received p res r s in
      let shot = shot_again r.cb r res (All-find (λ x. IsOneShot x.cb x) p s.heap q.shots found) in
      let q' : IsQuiet w = record {
        shots = All-update (λ x. IsOneShot x.cb x) p r' s.heap shot q.shots;
        timers = q.timers;
        signals = q.signals;
        running = q.running;
      } in
      let same : total cost w.heap ≡ total cost s.heap =
        total-update cost p r' s.heap found (unfold weight in refl) in
      let (t, e, (quiet, less)) =
        dispatch-Answered m r.cb p r' w q'
          (find-update_self p r' s.heap (occurs-find p s.heap found)) (below_next p s o found) refl
          shot in
      rw (found, or_fault) (t, e, (quiet, omega (arith, less, same)))

  quiet_signal : (sig : ℕ) (s : Environment) → s.signal_map ≡ [] → signal_handler sig s ≡ ok s
  unfolding signal_handler listeners_of notify_listeners
  quiet_signal sig s e = rw (find-nil sig s.signal_map e, listeners_of) refl

  pub happen-IsQuiet :
      (m : Machine) (h : Happening) (s : Environment)
      → IsOwned [] s
      → IsQuiet s
      → MayHappen h s
      → Returns
          (λ t. IsQuiet t × (total cost t.heap + answers (h ∷ []) ≤ total cost s.heap))
          (happen js m h s)
  unfolding happen
  happen-IsQuiet m (completion p res) s o quiet may = complete-Answered m p res s o quiet may.0
  happen-IsQuiet m (timer_expires id) s o quiet may =
      absurd (may (find-nil id s.timer_map quiet.timers))
  happen-IsQuiet m (signal_arrives sig) s o quiet may =
      (s, quiet_signal sig s quiet.signals, (quiet, omega arith))
