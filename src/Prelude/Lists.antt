-- ===== src/Prelude/Lists.antt =====
-- Lists measured by native numbers, and predicates and tests over lists.
use Prim.Native.Nat.{ℕ, zero, suc, ◌+◌}
use Prim.Native.String.{String}
use mathlib.Core.Path.{◌≡◌}
use mathlib.Core.Bool.{Bool, true, false, ◌&&◌, ◌||◌}
use mathlib.Core.List.{List, [], ◌∷◌, ◌++◌, reverse, reverse-cons}
use native.Mathlib.Omega.{arith}
use nebari_infrastructure_co.Prelude.Tests.{if◌then◌else◌}
use text.Mathlib.Text.{◌==◌}

module _ {ℓ} {A : Type ℓ} where
  abbrev pub length : List A → ℕ
  length [] = 0
  length (x ∷ xs) = suc (length xs)

  pub length-append : (xs ys : List A) → length (xs ++ ys) ≡ length xs + length ys
  length-append [] ys = omega arith
  length-append (x ∷ xs) ys = omega (arith, length-append xs ys)

  abbrev pub take : ℕ → List A → List A
  take zero xs = []
  take (suc n) [] = []
  take (suc n) (x ∷ xs) = x ∷ take n xs

  abbrev pub all : (A → Bool) → List A → Bool
  all p [] = true
  all p (x ∷ xs) = p x && all p xs

  -- The elements that pass the test, in their order.
  unfoldable pub select : (A → Bool) → List A → List A
  select p [] = []
  select p (x ∷ xs) = let rest = select p xs in if p x then x ∷ rest else rest

  abbrev pub any : (A → Bool) → List A → Bool
  any p [] = false
  any p (x ∷ xs) = p x || any p xs

-- Go's `slices.Contains` at strings.
abbrev pub contains : List String → String → Bool
contains [] s = false
contains (x ∷ xs) s = x == s || contains xs s

module _ {ℓ κ} {A : Type ℓ} (P : A → Type κ) where
  abbrev pub All : List A → Type κ
  All [] = Unit
  All (x ∷ xs) = P x × All xs

  pub All-append : (xs ys : List A) → All xs → All ys → All (xs ++ ys)
  All-append [] ys _ k = k
  All-append (x ∷ xs) ys (p, h) k = (p, All-append xs ys h k)

  pub All-reverse : (xs : List A) → All xs → All (reverse xs)
  All-reverse [] h = h
  All-reverse (x ∷ xs) (p, h) =
      rw reverse-cons (All-append (reverse xs) (x ∷ []) (All-reverse xs h) (p, tt))
