-- ===== src/Nic/Keeps.antt =====
-- Calls that leave the world as it was, and how they compose.
use nebari_infrastructure_co.Prelude.{◌≡◌, refl, false, Result, ok, err, is_ok}
use nebari_infrastructure_co.Prelude.State.{M, continue, rewrap}

module _ {W E : Type 0} where
  pub continue-1 :
      {A B : Type 0} (r : Result E A × W) (f : A → M W E B) (w : W)
      → r.1 ≡ w
      → ((a : A) → r.0 ≡ ok a → (f a w).1 ≡ w)
      → (continue r f).1 ≡ w
  continue-1 (ok a, u) f w h k = rw h (k a refl)
  continue-1 (err e, u) f w h k = h

  pub rewrap-1 : {F A : Type 0} (f : F → E) (r : Result F A × W) → (rewrap f r).1 ≡ r.1
  rewrap-1 f (ok a, w) = refl
  rewrap-1 f (err e, w) = refl

  -- An error at hand ends the calls before they change anything.
  pub continue-err :
      {A B : Type 0} (r : Result E A) (f : A → M W E B) (w : W)
      → is_ok r ≡ false
      → ((continue (r, w) f).1 ≡ w) × (is_ok (continue (r, w) f).0 ≡ false)
  continue-err (ok a) f w h = cc
  continue-err (err e) f w h = (refl, refl)
