-- ===== src/Libs/Inotify/Changes.antt =====
-- The callbacks that a change of a file calls.
use no_js.Base.{
  ℕ, zero, suc, ◌+◌, ◌<◌, ◌≡◌, refl, sym, ap, ◌∙◌, arith, none, some, List, [], ◌∷◌, ◌++◌, ok,
  length, length-append, get_elem?, ==_refl,
}
use mathlib.Core.List.{append-nil, append_assoc}
use no_js.Base.Dict.{find}
use no_js.Base.Int.{ℤ, pos}
use no_js.Libs.Inotify.{
  Watched, Library, set_queue, splice, off_if_empty, unwatch_entry, unwatch, returns, call_queue,
  changed,
}

-- The callbacks of a list, one after another.
abbrev pub call_each : (ℕ → Library → Library) → List ℕ → Library → Library
call_each call [] l = l
call_each call (cb ∷ cbs) l = call_each call cbs (call cb l)

get_elem?-append :
    (done : List ℕ) (cb : ℕ) (cbs : List ℕ) → get_elem? (done ++ cb ∷ cbs) (length done) ≡ some cb
get_elem?-append [] cb cbs = refl
get_elem?-append (d ∷ done) cb cbs = get_elem?-append done cb cbs

get_elem?_end : (done : List ℕ) → get_elem? done (length done) ≡ none
get_elem?_end [] = refl
get_elem?_end (d ∷ done) = get_elem?_end done

module _ (call : ℕ → Library → Library) (q : ℕ)
    (keeps : (cb : ℕ) (l : Library) → (call cb l).queues q ≡ l.queues q) where
  call_queue-call_each :
      (cbs done : List ℕ) (fuel : ℕ) (l : Library)
      → l.queues q ≡ done ++ cbs
      → length cbs < fuel
      → call_queue call fuel q (length done) l ≡ returns (call_each call cbs l)
  unfolding call_queue
  call_queue-call_each cbs done zero l e enough = absurd (omega arith)
  call_queue-call_each [] done (suc fuel) l e enough =
      let here : get_elem? (l.queues q) (length done) ≡ none =
        ap (λ r. get_elem? r (length done)) (e ∙ append-nil done) ∙ get_elem?_end done in
      rw (here, call_queue) refl
  call_queue-call_each (cb ∷ cbs) done (suc fuel) l e enough =
      let next : length done + 1 ≡ length (done ++ cb ∷ []) =
        omega (arith, length-append done (cb ∷ [])) in
      let here : get_elem? (l.queues q) (length done) ≡ some cb =
        ap (λ r. get_elem? r (length done)) e ∙ get_elem?-append done cb cbs in
      rw (here, call_queue)
        (rw next (
          call_queue-call_each cbs (done ++ cb ∷ []) fuel (call cb l)
            (keeps cb l ∙ e ∙ sym (append_assoc done (cb ∷ []) cbs)) (omega arith)))

-- When no callback changes the array of a file that is watched: a change of the file calls each of its
-- callbacks once, in the order in which they were added, in more rounds than there are callbacks.
pub changed-call_each :
    (call : ℕ → Library → Library) (fuel filename : ℕ) (w : Watched) (l : Library)
    → find filename l.map ≡ some w
    → ((cb : ℕ) (l : Library) → (call cb l).queues w.queue ≡ l.queues w.queue)
    → length (l.queues w.queue) < fuel
    → changed call fuel filename l ≡ returns (call_each call (l.queues w.queue) l)
unfolding changed
changed-call_each call fuel filename w l known keeps enough =
    rw (known, changed)
      (call_queue-call_each call w.queue keeps (l.queues w.queue) [] fuel l refl enough)

-- What `unwatch` leaves of the array of two callbacks, when the first is taken away.
unwatch_first :
    (filename cb cb' : ℕ) (ret : ℤ) (w : Watched) (l l' : Library)
    → find filename l.map ≡ some w
    → l.queues w.queue ≡ cb ∷ cb' ∷ []
    → unwatch filename (some cb) ret l ≡ ok (some (pos 0), l')
    → l'.queues w.queue ≡ cb' ∷ []
unfolding unwatch
unwatch_first filename cb cb' ret w l l' known two own =
    let left : unwatch filename (some cb) ret l
        ≡ ok (some (pos 0), set_queue w.queue (cb' ∷ []) l) =
      rw (known, unwatch)
        (unfold unwatch_entry splice off_if_empty in (rw two (rw (==_refl cb) refl))) in
    let same : set_queue w.queue (cb' ∷ []) l ≡ l' = cc (sym left ∙ own) in
    rw (← same) (unfold set_queue in rw (==_refl w.queue) refl)

-- A file with two callbacks, of which the first takes itself away as it is called: a change of the
-- file calls the first, and not the second.
pub changed_skips :
    (call : ℕ → Library → Library) (fuel filename cb cb' : ℕ) (ret : ℤ) (w : Watched) (l : Library)
    → find filename l.map ≡ some w
    → l.queues w.queue ≡ cb ∷ cb' ∷ []
    → unwatch filename (some cb) ret l ≡ ok (some (pos 0), call cb l)
    → changed call (suc (suc fuel)) filename l ≡ returns (call cb l)
unfolding changed call_queue
changed_skips call fuel filename cb cb' ret w l known two own =
    let first : get_elem? (l.queues w.queue) 0 ≡ some cb = rw two refl in
    let left = unwatch_first filename cb cb' ret w l (call cb l) known two own in
    let second : get_elem? ((call cb l).queues w.queue) 1 ≡ none = rw left refl in
    rw (known, changed) (rw (first, call_queue) (rw (second, call_queue) refl))
