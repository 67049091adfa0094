-- ===== src/Prelude/Outcome.antt =====
-- What a Go function that returns `(value, error)` can do: return a value, return an error,
-- panic on an index out of range or a failed type assertion, or not return. A loop on fuel gives
-- `hang` where its fuel runs out.
use mathlib.Core.Path.{◌≡◌, refl}
use mathlib.Core.Bool.{Bool, true, false}
use mathlib.Core.Option.{Option, none, some}

pub data Outcome {ℓ κ} (E : Type ℓ) (A : Type κ) : Type (ℓ ⊔ κ) where
  ok : A → Outcome E A
  err : E → Outcome E A
  panic : Outcome E A
  hang : Outcome E A

infixl 5 ◌>>=◌ ◌>>◌
abbrev pub ◌>>=◌ {ℓ κ μ} :
    {E : Type ℓ} {A : Type κ} {B : Type μ} → Outcome E A → (A → Outcome E B) → Outcome E B
ok a >>= f = f a
err e >>= f = err e
panic >>= f = panic
hang >>= f = hang

abbrev pub ◌>>◌ {ℓ μ} : {E : Type ℓ} {B : Type μ} → Outcome E (Unit {0}) → Outcome E B → Outcome E B
m >> k = m >>= λ _. k

-- `if test { return err }`
abbrev pub reject_if {ℓ} : {E : Type ℓ} → Bool → E → Outcome E (Unit {0})
reject_if true e = err e
reject_if false e = ok tt

-- An access that Go checks at run time.
abbrev pub panic_if {ℓ} : {E : Type ℓ} → Bool → Outcome E (Unit {0})
panic_if true = panic
panic_if false = ok tt

abbrev pub is_ok {ℓ κ} : {E : Type ℓ} {A : Type κ} → Outcome E A → Bool
is_ok (ok a) = true
is_ok (err e) = false
is_ok panic = false
is_ok hang = false

-- The value of a loop that may run out of fuel.
abbrev pub or_hang {ℓ κ} : {E : Type ℓ} {A : Type κ} → Option A → Outcome E A
or_hang none = hang
or_hang (some a) = ok a

-- A map lookup whose absence is an error.
abbrev pub or_err {ℓ κ} : {E : Type ℓ} {A : Type κ} → Option A → E → Outcome E A
or_err none e = err e
or_err (some a) e = ok a

-- What follows a step that does not succeed is not reached.
pub not_ok-bind {ℓ κ μ} :
    {E : Type ℓ} {A : Type κ} {B : Type μ} (m : Outcome E A) (f : A → Outcome E B)
    → is_ok m ≡ false
    → is_ok (m >>= f) ≡ false
not_ok-bind (ok a) f h = cc
not_ok-bind (err e) f h = refl
not_ok-bind panic f h = refl
not_ok-bind hang f h = refl

-- The value is returned, and the predicate holds of it.
abbrev pub Yields {ℓ κ} : {E : Type ℓ} {A : Type κ} → (A → Type 0) → Outcome E A → Type 0
Yields P (ok a) = P a
Yields P (err e) = ⊥
Yields P panic = ⊥
Yields P hang = ⊥

pub Yields-bind {ℓ κ μ} :
    {E : Type ℓ} {A : Type κ} {B : Type μ} {P : A → Type 0} (Q : B → Type 0) (m : Outcome E A)
    (f : A → Outcome E B)
    → Yields P m
    → ((a : A) → P a → Yields Q (f a))
    → Yields Q (m >>= f)
Yields-bind Q (ok a) f p next = next a p
Yields-bind Q (err e) f p next = elim p [ ]
Yields-bind Q panic f p next = elim p [ ]
Yields-bind Q hang f p next = elim p [ ]

pub Yields-returned {ℓ κ} :
    {E : Type ℓ} {A : Type κ} (P : A → Type 0) (m : Outcome E A)
    → Yields P m
    → (a : A) × (m ≡ ok a) × P a
Yields-returned P (ok a) p = (a, refl, p)
Yields-returned P (err e) p = elim p [ ]
Yields-returned P panic p = elim p [ ]
Yields-returned P hang p = elim p [ ]
