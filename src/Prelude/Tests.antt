-- ===== src/Prelude/Tests.antt =====
-- Boolean tests, the conditional, and the splits on computed values.
use Prim.Native.Nat.{ℕ, compare, Ordering}
use Prim.Native.Char.{Char, code}
use mathlib.Core.Path.{◌≡◌, refl}
use mathlib.Core.Logic.{◌⊎◌, ◌↔◌, inl, inr}
use mathlib.Core.Bool.{Bool, true, false}
use mathlib.Core.Option.{Option, none, some}
use native.Mathlib.Omega.{arith}

abbrev pub ltb : ℕ → ℕ → Bool
ltb a b = elim (compare a b) [ Ordering.lt ↦ true | _ ↦ false ]

abbrev pub leb : ℕ → ℕ → Bool
leb a b = elim (compare a b) [ Ordering.gt ↦ false | _ ↦ true ]

abbrev pub nat_eq : ℕ → ℕ → Bool
nat_eq a b = elim (compare a b) [ Ordering.eq ↦ true | _ ↦ false ]

pub nat_eq_iff : (a b : ℕ) → (nat_eq a b ≡ true) ↔ (a ≡ b)
nat_eq_iff a b = ground arith

-- A character against a byte literal.
abbrev pub is_char : ℕ → Char → Bool
is_char n c = nat_eq (code c) n

infix 1 if◌then◌else◌
abbrev pub if◌then◌else◌ {ℓ} : {A : Type ℓ} → Bool → A → A → A
if true then x else y = x
if false then x else y = y

abbrev pub is_some {ℓ} : {A : Type ℓ} → Option A → Bool
is_some none = false
is_some (some a) = true

pub Bool-cases : (b : Bool) → (b ≡ true) ⊎ (b ≡ false)
Bool-cases true = inl refl
Bool-cases false = inr refl

pub Option-cases {ℓ} : {A : Type ℓ} (o : Option A) → (o ≡ none) ⊎ ((a : A) × (o ≡ some a))
Option-cases none = inl refl
Option-cases (some a) = inr (a, refl)
