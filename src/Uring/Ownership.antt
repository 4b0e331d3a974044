-- ===== src/Uring/Ownership.antt =====
-- Who owns a request: the kernel from its submission to its completion, the callback from then on
-- to its release.
use no_js.Base.{
  ℕ, suc, ◌+◌, ◌≤◌, ◌≡◌, ◌≢◌, refl, ok, some, none, List, [], ◌∷◌, All, arith, ◌==◌, if◌then◌else◌,
  Option-cases, inl, inr, Returns, ◌>>=◌, or_fault,
}
use no_js.Base.Dict.{
  Dict, find, erase, update, occurs, find-occurs, occurs-find, occurs-erase, occurs-update,
  All-erase, All-find, All-update,
}
use no_js.Env.{
  Request, Environment, Sqe, Callback, make_callback, open_after, timer_cb, signal_cb,
  inotify_handler, null_callback, UserData, request_context, timer_id, signal_context, environment,
}
use no_js.Uring.{load, free, prepare, enter, submit_request}
use no_js.Uring.Launch.{launch, launched, launch_lem}

-- The data that a callback casts `data` to.
abbrev pub Fits : Callback → UserData → Type 0
Fits (make_callback e) (request_context o) = Unit
Fits (make_callback e) d = ⊥
Fits timer_cb (timer_id t) = Unit
Fits timer_cb d = ⊥
Fits signal_cb (signal_context c) = Unit
Fits signal_cb d = ⊥
Fits inotify_handler environment = Unit
Fits inotify_handler d = ⊥
Fits open_after d = Unit
Fits null_callback d = Unit

-- A request whose structure and data fit its operation and its callback.
pub record IsFormed (r : Request) : Type 0 where
  pub submits : (q : Sqe) × (prepare r.op r.body ≡ ok (some q))
  pub fits : Fits r.cb r.user

-- How often an address stands in a list.
abbrev pub times : ℕ → List ℕ → ℕ
times a [] = 0
times a (x ∷ xs) = (if x == a then 1 else 0) + times a xs

-- The allocated requests are those in the ring and those in `held` (by the callbacks that run), each
-- once; every one of them is well formed, and the next address is above all of them.
pub record IsOwnedBy (held : List ℕ) (heap : Dict Request) (ring : Dict Sqe) (next : ℕ)
    : Type 0 where
  pub balance : (a : ℕ) → occurs a heap ≡ occurs a ring + times a held
  pub once : (a : ℕ) → occurs a heap ≤ 1
  pub fresh : (a : ℕ) → next ≤ a → occurs a heap ≡ 0
  pub formed : All (λ e. IsFormed e.1) heap

abbrev pub IsOwned : List ℕ → Environment → Type 0
IsOwned held s = IsOwnedBy held s.heap s.ring s.next_address

module _ (held : List ℕ) where
  pub launched-IsOwned :
      (h : Dict Request) (g : Dict Sqe) (n : ℕ) (r : Request) (q : Sqe)
      → IsFormed r
      → IsOwnedBy held h g n
      → IsOwnedBy held ((n, r) ∷ h) ((n, q) ∷ g) (suc n)
  unfolding occurs
  launched-IsOwned h g n r q f o = record {
    balance = λ a. omega (arith, o.balance a);
    once = λ a. ground (arith, o.once a, o.fresh a);
    fresh = λ a k. ground (arith, o.fresh a);
    formed = (f, o.formed);
  }

  pub bump-IsOwned :
      (h : Dict Request) (g : Dict Sqe) (n : ℕ) → IsOwnedBy held h g n → IsOwnedBy held h g (suc n)
  bump-IsOwned h g n o = record {
    balance = o.balance;
    once = o.once;
    fresh = λ a k. o.fresh a (omega arith);
    formed = o.formed;
  }

  -- What a callback holds is allocated.
  pub held-find :
      (p : ℕ) (s : Environment) → IsOwned (p ∷ held) s → (r : Request) × (find p s.heap ≡ some r)
  held-find p s o = elim (Option-cases (find p s.heap)) [
    | inl e ↦ absurd (find-occurs p s.heap (ground (arith, o.balance p)) e)
    | inr found ↦ found
  ]

  pub find-IsFormed :
      (p : ℕ) (r : Request) (s : Environment) → IsOwned held s → find p s.heap ≡ some r → IsFormed r
  find-IsFormed p r s o e = All-find IsFormed p s.heap o.formed e

  -- The completion of an entry hands its request to the callback.
  pub completed-IsOwned :
      (p : ℕ) (r : Request) (s : Environment)
      → IsFormed r
      → find p s.ring ≢ none
      → IsOwned held s
      → IsOwnedBy (p ∷ held) (update p r s.heap) (erase p s.ring) s.next_address
  completed-IsOwned p r s f e o = record {
    balance = λ a.
        ground (arith, o.balance a, occurs-update a p r s.heap, occurs-erase a p s.ring, present);
    once = λ a. ground (arith, o.once a, occurs-update a p r s.heap);
    fresh = λ a h. ground (arith, o.fresh a h, occurs-update a p r s.heap);
    formed = All-update IsFormed p r s.heap f o.formed;
  }
    where
      present : 1 ≤ occurs p s.ring
      present = elim (Option-cases (find p s.ring)) [
        | inl absent ↦ absurd (e absent)
        | inr (q, there) ↦ occurs-find p s.ring there
      ]

  -- `free` of a request that the callback holds.
  pub erased-IsOwned :
      (p : ℕ) (s : Environment)
      → IsOwned (p ∷ held) s
      → IsOwnedBy held (erase p s.heap) s.ring s.next_address
  erased-IsOwned p s o = record {
    balance = λ a. ground (arith, o.balance a, o.once a, occurs-erase a p s.heap);
    once = λ a. ground (arith, o.once a, occurs-erase a p s.heap);
    fresh = λ a h. ground (arith, o.fresh a h, occurs-erase a p s.heap);
    formed = All-erase _ p s.heap o.formed;
  }

  -- A held request that is submitted again is the kernel's again.
  pub entered-IsOwned :
      (p : ℕ) (q : Sqe) (s : Environment) → IsOwned (p ∷ held) s → IsOwned held (enter p (some q) s)
  unfolding enter occurs
  entered-IsOwned p q s o = record {
    balance = λ a. ground (arith, o.balance a);
    once = o.once;
    fresh = o.fresh;
    formed = o.formed;
  }

  pub free-IsOwned :
      (p : ℕ) (s : Environment) → IsOwned (p ∷ held) s → Returns (IsOwned held) (free p s)
  unfolding free load
  free-IsOwned p s o =
      let (r, e) = held-find p s o in
      (record s { heap = erase p s.heap }, rw (e, or_fault) refl, erased-IsOwned p s o)

  pub submit_request-IsOwned :
      (p : ℕ) (s : Environment) → IsOwned (p ∷ held) s → Returns (IsOwned held) (submit_request p s)
  unfolding submit_request load
  submit_request-IsOwned p s o =
      let (r, e) = held-find p s o in
      let (q, prepared) = (All-find IsFormed p s.heap o.formed e).submits in
      (enter p (some q) s, rw (e, or_fault) (rw (prepared, ◌>>=◌) refl), entered-IsOwned p q s o)

  pub launch-Returns :
      (r : Request) (s : Environment)
      → IsFormed r
      → IsOwned held s
      → Returns (IsOwned held) (launch r s)
  launch-Returns r s f o =
      let (q, e) = f.submits in
      (launched r q s, launch_lem r s e, launched-IsOwned s.heap s.ring s.next_address r q f o)

-- What is in the ring is allocated.
pub in_ring-find :
    (p : ℕ) (s : Environment)
    → IsOwned [] s
    → find p s.ring ≢ none
    → (r : Request) × (find p s.heap ≡ some r)
in_ring-find p s o there = elim (Option-cases (find p s.ring)) [
  | inl absent ↦ absurd (there absent)
  | inr (q, e) ↦ elim (Option-cases (find p s.heap)) [
    | inl freed ↦
        absurd (find-occurs p s.heap (omega (arith, o.balance p, occurs-find p s.ring e)) freed)
    | inr found ↦ found
  ]
]
