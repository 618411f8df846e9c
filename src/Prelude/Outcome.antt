-- ===== src/Prelude/Outcome.antt =====
-- What a Go call gives: a value, an error, or a run-time panic.
use mathlib.Core.Path.{◌≡◌, refl}
use mathlib.Core.Bool.{Bool, true, false}
use certspotter.Prelude.Tests.{if◌then◌else◌}

pub data Result {ℓ κ} (E : Type ℓ) (A : Type κ) : Type (ℓ ⊔ κ) where
  ok : A → Result E A
  err : E → Result E A
  panic : Result E A

infixl 5 ◌>>=◌ ◌>>◌
abbrev pub ◌>>=◌ {ℓ κ ν} :
    {E : Type ℓ} {A : Type κ} {B : Type ν} → Result E A → (A → Result E B) → Result E B
ok a >>= f = f a
err e >>= f = err e
panic >>= f = panic

abbrev pub ◌>>◌ {ℓ κ} : {E : Type ℓ} {B : Type κ} → Result E (Unit {0}) → Result E B → Result E B
m >> k = m >>= λ _. k

-- Inversion of a successful bind.
pub >>=-eq-ok {ℓ κ ν} :
    {E : Type ℓ} {A : Type κ} {B : Type ν} (first : Result E A) (next : A → Result E B) {last : B}
    → (first >>= next) ≡ ok last
    → (value : A) × (first ≡ ok value) × (next value ≡ ok last)
>>=-eq-ok panic next run = cc
>>=-eq-ok (err e) next run = cc
>>=-eq-ok (ok value) next run = (value, refl, run)

-- No panic
abbrev pub Returns {ℓ κ} : {E : Type ℓ} {A : Type κ} → Result E A → Type 0
Returns (ok a) = Unit {0}
Returns (err e) = Unit {0}
Returns panic = ⊥

pub >>=-Returns {ℓ κ ν} :
    {E : Type ℓ} {A : Type κ} {B : Type ν} (m : Result E A) (next : A → Result E B)
    → Returns m
    → ((a : A) → m ≡ ok a → Returns (next a))
    → Returns (m >>= next)
>>=-Returns (ok a) next r s = s a refl
>>=-Returns (err e) next r s = tt
>>=-Returns panic next r s = r

pub if-Returns {ℓ κ} :
    {E : Type ℓ} {A : Type κ} (b : Bool) (m n : Result E A)
    → Returns m
    → Returns n
    → Returns (if b then m else n)
if-Returns true m n r s = r
if-Returns false m n r s = s
