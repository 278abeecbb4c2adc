-- ===== src/Prelude/Yields.antt =====
-- Calls that keep a property of the state, and what they give when they succeed.
use mathlib.Core.Path.{◌≡◌, refl}
use mathlib.Core.List.{List, [], ◌∷◌, Memᴰ}
use nebari_infrastructure_co.Prelude.Lists.{All}
use nebari_infrastructure_co.Prelude.Results.{Result, ok, err}
use nebari_infrastructure_co.Prelude.State.{M, ◌>>=◌, lift, wrap_call, continue, rewrap}

pub All-of_Mem {ℓ κ} :
    {A : Type ℓ} (Q : A → Type κ) (xs : List A) → ((x : A) → Memᴰ x xs → Q x) → All Q xs
All-of_Mem Q [] h = tt
All-of_Mem Q (x ∷ xs) h = (h x (Memᴰ.head refl), All-of_Mem Q xs (λ y m. h y (Memᴰ.tail m)))

abbrev pub Anything : Unit {0} → Type 0
Anything x = Unit

module _ {S : Type 0} (P : S → Type 0) where
  abbrev pub Gives : {E A : Type 0} → (A → Type 0) → Result E A × S → Type 0
  Gives {A} Q r = P r.1 × ((a : A) → r.0 ≡ ok a → Q a)

  abbrev pub Yields : {E A : Type 0} → (A → Type 0) → M S E A → Type 0
  Yields Q m = (s : S) → P s → Gives Q (m s)

  continue-Gives :
      {E A B : Type 0} {Q : A → Type 0} {R : B → Type 0} (r : Result E A × S) (f : A → M S E B)
      → Gives Q r
      → ((a : A) → Q a → Yields R (f a))
      → Gives R (continue r f)
  continue-Gives (ok a, s) f (kept, given) h = h a (given a refl) s kept
  continue-Gives (err e, s) f (kept, given) h = (kept, λ b k. absurd (cc))

  pub >>=-Yields :
      {E A B : Type 0} {Q : A → Type 0} {R : B → Type 0} (m : M S E A) (f : A → M S E B)
      → Yields Q m
      → ((a : A) → Q a → Yields R (f a))
      → Yields R (m >>= f)
  >>=-Yields m f first h s kept = continue-Gives (m s) f (first s kept) h

  rewrap-Gives :
      {E F A : Type 0} {Q : A → Type 0} (g : F → E) (r : Result F A × S)
      → Gives Q r
      → Gives Q (rewrap g r)
  rewrap-Gives g (ok a, s) (kept, given) = (kept, λ b k. given b (cc k))
  rewrap-Gives g (err e, s) (kept, given) = (kept, λ b k. absurd (cc))

  pub wrap_call-Yields :
      {E F A : Type 0} {Q : A → Type 0} (g : F → E) (m : M S F A)
      → Yields Q m
      → Yields Q (wrap_call g m)
  wrap_call-Yields g m h s kept = rewrap-Gives g (m s) (h s kept)

  pub lift-Yields :
      {E A : Type 0} {Q : A → Type 0} (r : Result E A)
      → ((a : A) → r ≡ ok a → Q a)
      → Yields {E = E} Q (lift r)
  lift-Yields r h s kept = (kept, h)
