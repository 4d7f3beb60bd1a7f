-- ===== src/Base/Fallible.antt =====
-- Go's `(value, error)`: a value, or an error with no value.
use mathlib.Core.Path.{◌≡◌, refl}
use mathlib.Core.Bool.{Bool, true, false}
use gosmo.Base.Tests.{if◌then◌else◌}
use mathlib.Core.Logic.{◌⊎◌, inl, inr}

pub data Result {ε ℓ} (E : Type ε) (A : Type ℓ) : Type (ε ⊔ ℓ) where
  err : E → Result E A
  ok : A → Result E A

-- `if err != nil { return nil, err }`, and on with the value
infixl 5 ◌>>=◌
abbrev pub ◌>>=◌ {ε ℓ κ} :
    {E : Type ε} {A : Type ℓ} {B : Type κ} → Result E A → (A → Result E B) → Result E B
r >>= next = elim r [ err why ↦ err why | ok v ↦ next v ]

pub Result-cases {ε ℓ} :
    {E : Type ε} {A : Type ℓ} (r : Result E A) → ((e : E) × (r ≡ err e)) ⊎ ((a : A) × (r ≡ ok a))
Result-cases (err e) = inl (e, refl)
Result-cases (ok a) = inr (a, refl)

-- A result behind a guard: the guard did not refuse.
pub guard_ok {ε ℓ} :
    {E : Type ε} {A : Type ℓ} (b : Bool) (e : E) (r : Result E A) (a : A)
    → (if b then err e else r) ≡ ok a
    → (b ≡ false) × (r ≡ ok a)
guard_ok true e r a h = absurd (cc h)
guard_ok false e r a h = (refl, h)

pub ok_inj {ε ℓ} : {E : Type ε} {A : Type ℓ} (a b : A) → ◌≡◌ {A = Result E A} (ok a) (ok b) → a ≡ b
ok_inj a b h = cc h

pub bind_ok {ε ℓ κ} :
    {E : Type ε} {A : Type ℓ} {B : Type κ} (r : Result E A) (next : A → Result E B) (b : B)
    → (r >>= next) ≡ ok b
    → (a : A) × (r ≡ ok a) × (next a ≡ ok b)
bind_ok (err e) next b h = absurd (cc h)
bind_ok (ok a) next b h = (a, refl, h)
