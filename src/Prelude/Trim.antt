-- ===== src/Prelude/Trim.antt =====
-- What `trim_left` and `trim_right` leave.
use native.Mathlib.Omega.{arith}
use Prim.Native.Char.{code, Char}
use Prim.Native.String.{String, ◌++◌ as ◌<>◌}
use mathlib.Core.Path.{◌≡◌, refl}
use mathlib.Core.Logic.{◌≢◌, inl, inr}
use mathlib.Core.Bool.{Bool, true, false}
use text.Mathlib.TextLemmas.{nil-append, cons-append}
use nebari_infrastructure_co.Prelude.Tests.{nat_eq, Bool-cases}
use nebari_infrastructure_co.Prelude.Text.{
  is_space, has_prefix, trim_space, has_part, trim_left, trim_right, cons_or_drop,
}

-- Whether the text begins, or ends, with a character of the kind.
abbrev pub begins : (Char → Bool) → String → Bool
begins p String.[] = false
begins p (String.◌∷◌ c s) = p c

abbrev pub ends_from : (Char → Bool) → Char → String → Bool
ends_from p c String.[] = p c
ends_from p c (String.◌∷◌ d s) = ends_from p d s

abbrev pub ends : (Char → Bool) → String → Bool
ends p String.[] = false
ends p (String.◌∷◌ c s) = ends_from p c s

module _ (p : Char → Bool) where
  pub begins-trim_left : (s : String) → begins p (trim_left p s) ≡ false
  unfolding trim_left
  begins-trim_left String.[] = refl
  begins-trim_left (String.◌∷◌ c s) = elim (Bool-cases (p c)) [
    | inl drop ↦ rw drop (begins-trim_left s)
    | inr keep ↦ rw keep keep
  ]

  begins-cons_or_drop :
      (c : Char) (s : String) → p c ≡ false → begins p (cons_or_drop p c s) ≡ false
  begins-cons_or_drop c String.[] h = rw h h
  begins-cons_or_drop c (String.◌∷◌ d s) h = h

  pub begins-trim_right : (s : String) → begins p s ≡ false → begins p (trim_right p s) ≡ false
  unfolding trim_right
  begins-trim_right String.[] h = refl
  begins-trim_right (String.◌∷◌ c s) h = begins-cons_or_drop c (trim_right p s) h

  ends-cons_or_drop :
      (c : Char) (s : String) → ends p s ≡ false → ends p (cons_or_drop p c s) ≡ false
  ends-cons_or_drop c String.[] h = elim (Bool-cases (p c)) [
    | inl drop ↦ rw drop refl
    | inr keep ↦ rw keep keep
  ]
  ends-cons_or_drop c (String.◌∷◌ d s) h = h

  pub ends-trim_right : (s : String) → ends p (trim_right p s) ≡ false
  unfolding trim_right
  ends-trim_right String.[] = refl
  ends-trim_right (String.◌∷◌ c s) = ends-cons_or_drop c (trim_right p s) (ends-trim_right s)

  pub trim_left_of_begins : (s : String) → begins p s ≡ false → trim_left p s ≡ s
  unfolding trim_left
  trim_left_of_begins String.[] h = refl
  trim_left_of_begins (String.◌∷◌ c s) h = rw h

  pub trim_right_snoc :
      (s : String) (c : Char)
      → ends p s ≡ false
      → p c ≡ true
      → trim_right p (s <> String.◌∷◌ c "") ≡ s
  unfolding trim_right
  trim_right_snoc String.[] c h k = rw nil-append (rw k refl)
  trim_right_snoc (String.◌∷◌ d String.[]) c h k = rw (cons-append, nil-append, k, h)
  trim_right_snoc (String.◌∷◌ d (String.◌∷◌ e s)) c h k =
      rw cons-append (rw (trim_right_snoc (String.◌∷◌ e s) c h k) refl)

  pub begins-append : (s t : String) → s ≢ "" → begins p s ≡ false → begins p (s <> t) ≡ false
  begins-append String.[] t full h = absurd (full refl)
  begins-append (String.◌∷◌ c s) t full h = rw cons-append h

  trim_right_empty : (s : String) → begins p s ≡ false → trim_right p s ≡ "" → s ≡ ""
  unfolding trim_right
  trim_right_empty String.[] h e = refl
  trim_right_empty (String.◌∷◌ c s) h e = absurd (kept (trim_right p s) e)
    where
      kept : (t : String) → cons_or_drop p c t ≢ ""
      kept String.[] k = cc (rw h at k)
      kept (String.◌∷◌ d t) k = cc

no_part_of_spaces :
    (s : String) → trim_left is_space s ≡ "" → has_part "-----BEGIN CERTIFICATE-----" s ≡ false
unfolding trim_left has_part has_prefix
no_part_of_spaces String.[] e = refl
no_part_of_spaces (String.◌∷◌ c s) e = elim (Bool-cases (is_space c)) [
  | inl space ↦ rw (no_part_of_spaces s (rw space at e)) (elim (Bool-cases (nat_eq 45 (code c))) [
    | inl dash ↦ absurd (ground arith)
    | inr other ↦ rw other refl
  ])
  | inr visible ↦ absurd (cc (rw visible at e))
]

-- A text of spaces alone has no certificate.
pub trim_space-begin :
    (s : String) → trim_space s ≡ "" → has_part "-----BEGIN CERTIFICATE-----" s ≡ false
unfolding trim_space
trim_space-begin s e =
    no_part_of_spaces s
      (trim_right_empty is_space (trim_left is_space s) (begins-trim_left is_space s) e)
