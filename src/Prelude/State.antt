-- ===== src/Prelude/State.antt =====
-- Calls that change a state and may fail: the state goes on from an error too.
use mathlib.Core.Path.{◌≡◌, refl, ap}
use native.Mathlib.Omega.{arith}
use nebari_infrastructure_co.Prelude.Results.{Result, ok, err}

abbrev pub M : Type 0 → Type 0 → Type 0 → Type 0
M S E A = S → Result E A × S

module _ {S E : Type 0} where
  abbrev pub continue : {A B : Type 0} → Result E A × S → (A → M S E B) → Result E B × S
  continue (ok a, s) f = f a s
  continue (err e, s) f = (err e, s)

  infixl 5 ◌>>=◌ ◌>>◌
  abbrev pub ◌>>=◌ : {A B : Type 0} → M S E A → (A → M S E B) → M S E B
  ◌>>=◌ m f s = continue (m s) f

  abbrev pub ◌>>◌ : {B : Type 0} → M S E (Unit {0}) → M S E B → M S E B
  m >> k = m >>= λ _. k

  -- A result that is at hand, with no call.
  abbrev pub lift : {A : Type 0} → Result E A → M S E A
  lift r s = (r, s)

  abbrev pub rewrap : {F A : Type 0} → (F → E) → Result F A × S → Result E A × S
  rewrap f (ok a, s) = (ok a, s)
  rewrap f (err e, s) = (err (f e), s)

  abbrev pub wrap_call : {F A : Type 0} → (F → E) → M S F A → M S E A
  wrap_call f m s = rewrap f (m s)

  continue-eq-ok :
      {A B : Type 0} (r : Result E A × S) (f : A → M S E B) {b : B} {t : S}
      → continue r f ≡ (ok b, t)
      → (a : A) × (u : S) × (r ≡ (ok a, u)) × (f a u ≡ (ok b, t))
  continue-eq-ok (ok a, s) f h = (a, s, refl, h)
  continue-eq-ok (err e, s) f h = absurd (cc (ap (λ p. p.0) h))

  -- A sequence of calls that succeeds: each has.
  pub >>=-eq-ok :
      {A B : Type 0} (m : M S E A) (f : A → M S E B) (s : S) {b : B} {t : S}
      → (m >>= f) s ≡ (ok b, t)
      → (a : A) × (u : S) × (m s ≡ (ok a, u)) × (f a u ≡ (ok b, t))
  >>=-eq-ok m f s h = continue-eq-ok (m s) f h

  rewrap-eq-ok :
      {F A : Type 0} (f : F → E) (r : Result F A × S) {a : A} {t : S}
      → rewrap f r ≡ (ok a, t)
      → r ≡ (ok a, t)
  rewrap-eq-ok f (ok a, s) h = ground arith
  rewrap-eq-ok f (err e, s) h = absurd (cc (ap (λ p. p.0) h))

  pub wrap_call-eq-ok :
      {F A : Type 0} (f : F → E) (m : M S F A) (s : S) {a : A} {t : S}
      → wrap_call f m s ≡ (ok a, t)
      → m s ≡ (ok a, t)
  wrap_call-eq-ok f m s h = rewrap-eq-ok f (m s) h

  -- A result at hand leaves the state.
  pub lift-eq-ok :
      {A B : Type 0} (r : Result E A) (f : A → M S E B) (s : S) {b : B} {t : S}
      → (lift r >>= f) s ≡ (ok b, t)
      → (a : A) × (r ≡ ok a) × (f a s ≡ (ok b, t))
  lift-eq-ok (ok a) f s h = (a, refl, h)
  lift-eq-ok (err e) f s h = absurd (cc (ap (λ p. p.0) h))
