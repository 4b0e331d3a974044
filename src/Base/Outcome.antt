-- ===== src/Base/Outcome.antt =====
-- What a piece of native code may do instead of returning: the end of the process, and the
-- undefined behaviour that the model keeps visible.
use mathlib.Core.Path.{◌≡◌, refl, subst}
use mathlib.Core.Logic.{◌⊎◌, inl, inr}
use mathlib.Core.Option.{Option, none, some}

-- `freed_memory`: a pointer to a block that is not allocated is followed or freed.
-- `dangling_context`: a pointer to a destroyed context object is followed.
-- `wrong_struct`: a request is cast to a structure that it does not have.
-- `bad_argument`: a JavaScript value is cast to a type that it does not have.
-- `out_of_range`: a read past the end of a vector or a buffer.
-- `null_pointer`: a null pointer is followed.
-- `exited`: the process ends.
pub data Fault : Type 0 where
  freed_memory dangling_context wrong_struct bad_argument out_of_range null_pointer exited : Fault

pub data Result {ℓ} (A : Type ℓ) : Type ℓ where
  ok : A → Result A
  fault : Fault → Result A

infixl 5 ◌>>=◌
abbrev pub ◌>>=◌ {ℓ κ} : {A : Type ℓ} {B : Type κ} → Result A → (A → Result B) → Result B
ok a >>= f = f a
fault e >>= f = fault e

abbrev pub or_fault {ℓ} : {A : Type ℓ} → Option A → Fault → Result A
or_fault none e = fault e
or_fault (some a) e = ok a

-- A call that returned, in a state that satisfies `P`.
abbrev pub Returns {ℓ κ} : {A : Type ℓ} → (A → Type κ) → Result A → Type (ℓ ⊔ κ)
Returns {A} P r = (a : A) × (r ≡ ok a) × P a

-- Partial correctness: if the call returned, its result satisfies `P`.
abbrev pub Every {ℓ κ} : {A : Type ℓ} → (A → Type κ) → Result A → Type κ
Every P (ok a) = P a
Every P (fault e) = Unit

pub Every->>= {ℓ κ ι} :
    {A : Type ℓ} {B : Type κ} (P : B → Type ι) (m : Result A) (f : A → Result B)
    → ((a : A) → Every P (f a))
    → Every P (m >>= f)
Every->>= P (ok a) f h = h a
Every->>= P (fault e) f h = tt

pub Every-ok {ℓ ι} :
    {A : Type ℓ} (P : A → Type ι) (m : Result A) {a : A} → Every P m → m ≡ ok a → P a
Every-ok P m h e = subst (Every P) e h

pub Returns->>= {ℓ κ ι η} :
    {A : Type ℓ} {B : Type κ} (P : A → Type ι) (Q : B → Type η) (m : Result A) (f : A → Result B)
    → Returns P m
    → ((a : A) → P a → Returns Q (f a))
    → Returns Q (m >>= f)
Returns->>= P Q m f (a, e, p) h = let (b, e', q) = h a p in (b, rw e e', q)

pub Every-bind {ℓ κ ι η} :
    {A : Type ℓ} {B : Type κ} (P : A → Type ι) (Q : B → Type η) (m : Result A) (f : A → Result B)
    → Every P m
    → ((a : A) → P a → Every Q (f a))
    → Every Q (m >>= f)
Every-bind P Q (ok a) f p h = h a p
Every-bind P Q (fault e) f p h = tt

pub bind_ok {ℓ κ} :
    {A : Type ℓ} {B : Type κ} (m : Result A) (f : A → Result B) {a : A} {r : Result B}
    → m ≡ ok a
    → f a ≡ r
    → (m >>= f) ≡ r
bind_ok m f e h = rw e h

-- A weaker condition.
pub Every-mono {ℓ κ ι} :
    {A : Type ℓ} (P : A → Type κ) (Q : A → Type ι) (m : Result A)
    → ((a : A) → P a → Q a)
    → Every P m
    → Every Q m
Every-mono P Q (ok a) h p = h a p
Every-mono P Q (fault e) h p = tt

pub Result-cases {ℓ} :
    {A : Type ℓ} (m : Result A) → ((a : A) × (m ≡ ok a)) ⊎ ((e : Fault) × (m ≡ fault e))
Result-cases (ok a) = inl (a, refl)
Result-cases (fault e) = inr (e, refl)
