-- ===== src/Prelude/Results.antt =====
-- Go's `(value, error)` results: a value or an error of the model's own error types.
use mathlib.Core.Path.{◌≡◌, refl}
use mathlib.Core.Logic.{◌⊎◌, inl, inr}
use mathlib.Core.Bool.{Bool, true, false}

pub data Result {ℓ κ} (E : Type ℓ) (A : Type κ) : Type (ℓ ⊔ κ) where
  ok : A → Result E A
  err : E → Result E A

infixl 5 ◌>>=◌ ◌>>◌
abbrev pub ◌>>=◌ {ℓ κ ι} :
    {E : Type ℓ} {A : Type κ} {B : Type ι} → Result E A → (A → Result E B) → Result E B
ok a >>= f = f a
err e >>= f = err e

abbrev pub ◌>>◌ {ℓ ι} : {E : Type ℓ} {B : Type ι} → Result E (Unit {0}) → Result E B → Result E B
m >> k = m >>= λ _. k

-- `if test { return error }`
abbrev pub fail_if {ℓ} : {E : Type ℓ} → Bool → E → Result E (Unit {0})
fail_if true e = err e
fail_if false e = ok tt

-- `fmt.Errorf("...: %w", err)`
abbrev pub wrap {ℓ κ ι} : {E : Type ℓ} {F : Type κ} {A : Type ι} → (E → F) → Result E A → Result F A
wrap f (ok a) = ok a
wrap f (err e) = err (f e)

abbrev pub is_ok {ℓ κ} : {E : Type ℓ} {A : Type κ} → Result E A → Bool
is_ok (ok a) = true
is_ok (err e) = false

pub Result-cases {ℓ κ} :
    {E : Type ℓ} {A : Type κ} (r : Result E A) → ((a : A) × (r ≡ ok a)) ⊎ ((e : E) × (r ≡ err e))
Result-cases (ok a) = inl (a, refl)
Result-cases (err e) = inr (e, refl)

-- A sequence of checks passes exactly when each does.
pub >>-eq-ok {ℓ} :
    {E : Type ℓ} (m k : Result E (Unit {0})) → (m >> k) ≡ ok tt → (m ≡ ok tt) × (k ≡ ok tt)
>>-eq-ok (ok tt) k h = (refl, h)
>>-eq-ok (err e) k h = cc

pub >>-ok {ℓ} : {E : Type ℓ} (m k : Result E (Unit {0})) → m ≡ ok tt → k ≡ ok tt → (m >> k) ≡ ok tt
>>-ok (ok tt) k h h' = h'
>>-ok (err e) k h h' = cc

pub fail_if-eq-ok {ℓ} : {E : Type ℓ} (b : Bool) (e : E) → fail_if b e ≡ ok tt → b ≡ false
fail_if-eq-ok true e h = cc
fail_if-eq-ok false e h = refl

pub fail_if-ok {ℓ} : {E : Type ℓ} (b : Bool) (e : E) → b ≡ false → fail_if b e ≡ ok tt
fail_if-ok true e h = cc
fail_if-ok false e h = refl

pub wrap-eq-ok {ℓ κ} :
    {E : Type ℓ} {F : Type κ} (f : E → F) (m : Result E (Unit {0})) → wrap f m ≡ ok tt → m ≡ ok tt
wrap-eq-ok f (ok tt) h = refl
wrap-eq-ok f (err e) h = cc

-- Code that succeeds: its first part has, and then the rest on what that gave.
pub >>=-eq-ok {ℓ κ ι} :
    {E : Type ℓ} {A : Type κ} {B : Type ι} (first : Result E A) (next : A → Result E B) {end : B}
    → (first >>= next) ≡ ok end
    → (value : A) × (first ≡ ok value) × (next value ≡ ok end)
>>=-eq-ok (err problem) next passed = cc
>>=-eq-ok (ok value) next passed = (value, refl, passed)

pub ok-injective {ℓ κ} :
    {E : Type ℓ} {A : Type κ} {a b : A} → ◌≡◌ {A = Result E A} (ok a) (ok b) → a ≡ b
ok-injective h = cc

pub wrap-eq-ok_value {ℓ κ ι} :
    {E : Type ℓ} {F : Type κ} {A : Type ι} (f : E → F) (m : Result E A) {a : A}
    → wrap f m ≡ ok a
    → m ≡ ok a
wrap-eq-ok_value f (ok a) h = cc
wrap-eq-ok_value f (err e) h = cc
