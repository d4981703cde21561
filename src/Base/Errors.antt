-- ===== src/Base/Errors.antt =====
-- Go's `(value, error)` results: either a value or an error, chained by `do`.
use mathlib.Core.Path.{◌≡◌, refl, subst}
use mathlib.Core.Bool.{Bool, true, false}

pub data Result {ℓ κ} (E : Type ℓ) (A : Type κ) : Type (ℓ ⊔ κ) where
  ok : A → Result E A
  err : E → Result E A

infixl 5 ◌>>=◌ ◌>>◌
abbrev pub ◌>>=◌ {μ ν ρ} :
    {X : Type μ} {Y : Type ν} {Z : Type ρ} → Result X Y → (Y → Result X Z) → Result X Z
err x >>= next = err x
ok y >>= next = next y

-- The error unless the test holds.
abbrev pub guard {μ} : {X : Type μ} → Bool → X → Result X (Unit {0})
guard false x = err x
guard true x = ok tt

abbrev pub ◌>>◌ {μ ρ} : {X : Type μ} {Z : Type ρ} → Result X (Unit {0}) → Result X Z → Result X Z
first >> next = first >>= λ _. next

pub guard_only {μ} : {X : Type μ} (t : Bool) (x : X) → guard t x ≡ ok tt → t ≡ true
guard_only false x h = cc
guard_only true x h = refl

pub guard-eq-ok {μ ρ} :
    {X : Type μ} {Z : Type ρ} (t : Bool) (x : X) (next : Result X Z) {z : Z}
    → (guard t x >> next) ≡ ok z
    → (t ≡ true) × (next ≡ ok z)
guard-eq-ok false x next h = cc
guard-eq-ok true x next h = (refl, h)

pub >>=-eq-ok {μ ν ρ} :
    {X : Type μ} {Y : Type ν} {Z : Type ρ} (first : Result X Y) (next : Y → Result X Z) {z : Z}
    → (first >>= next) ≡ ok z
    → (y : Y) × (first ≡ ok y) × (next y ≡ ok z)
>>=-eq-ok (err x) next h = cc
>>=-eq-ok (ok y) next h = (y, refl, h)

-- What holds of the value of a success.
abbrev pub OnOk {ℓ κ μ} : {E : Type ℓ} {A : Type κ} → (A → Type μ) → Result E A → Type μ
OnOk P (ok a) = P a
OnOk P (err e) = Unit

pub OnOk-eq {ℓ κ μ} :
    {E : Type ℓ} {A : Type κ} (P : A → Type μ) (m : Result E A) {a : A} → OnOk P m → m ≡ ok a → P a
OnOk-eq P m h e = subst (OnOk P) e h

-- A rule for `do`: what holds after the first step is what the rest may use.
pub OnOk->>= {ℓ κ μ ν ρ} :
    {E : Type ℓ} {A : Type κ} {B : Type μ} (P : A → Type ν) (Q : B → Type ρ) (m : Result E A)
    (f : A → Result E B)
    → OnOk P m
    → ((a : A) → P a → OnOk Q (f a))
    → OnOk Q (m >>= f)
OnOk->>= P Q (ok a) f h k = k a h
OnOk->>= P Q (err e) f h k = tt

pub OnOk-guard {ℓ μ ρ} :
    {E : Type ℓ} {B : Type μ} (Q : B → Type ρ) (t : Bool) (e : E) (m : Result E B)
    → (t ≡ true → OnOk Q m)
    → OnOk Q (guard t e >> m)
OnOk-guard Q true e m k = k refl
OnOk-guard Q false e m k = tt

-- A test of the value of a success.
abbrev pub succeeds_with {ℓ κ} : {E : Type ℓ} {A : Type κ} → (A → Bool) → Result E A → Bool
succeeds_with p (ok a) = p a
succeeds_with p (err e) = false

pub succeeds_not {ℓ κ} :
    {E : Type ℓ} {A : Type κ} (p : A → Bool) (r : Result E A)
    → ((a : A) → r ≡ ok a → p a ≡ false)
    → succeeds_with p r ≡ false
succeeds_not p (ok a) h = h a refl
succeeds_not p (err e) h = refl
