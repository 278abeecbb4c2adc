-- ===== src/FilePath/Joined.antt =====
-- Joining names to an absolute path.
use nebari_infrastructure_co.Prelude.{
  Char, String, ◌<>◌, ◌≡◌, refl, inl, inr, Bool, true, List, [], ◌∷◌, ◌++◌, Bool-cases, All,
}
use mathlib.Core.List.{reverse, reverse-reverse}
use text.Mathlib.TextLemmas.{nil-append, cons-append}
use nebari_infrastructure_co.FilePath.{
  is_slash, parts, onto_first, step, resolve, join_slash, is_abs, clean,
}
use nebari_infrastructure_co.FilePath.Parts.{parts-join_slash, parts_of_slash}
use nebari_infrastructure_co.FilePath.Rooted.{IsName, resolve_of_IsName, names-NoSlash}

abbrev IsFull : List String → Type 0
IsFull [] = ⊥
IsFull (p ∷ ps) = Unit

onto_first-IsFull : (c : Char) (ps : List String) → IsFull (onto_first c ps)
onto_first-IsFull c [] = tt
onto_first-IsFull c (p ∷ ps) = tt

parts-IsFull : (s : String) → IsFull (parts s)
unfolding parts
parts-IsFull String.[] = tt
parts-IsFull (String.◌∷◌ c s) = elim (Bool-cases (is_slash c)) [
  | inl cut ↦ rw cut tt
  | inr keep ↦ rw keep (onto_first-IsFull c (parts s))
]

onto_first-append :
    (c : Char) (ps qs : List String) → IsFull ps → onto_first c (ps ++ qs) ≡ onto_first c ps ++ qs
onto_first-append c [] qs h = absurd h
onto_first-append c (p ∷ ps) qs h = refl

-- A slash between two texts cuts there.
parts-slash : (s t : String) → parts (s <> ("/" <> t)) ≡ parts s ++ parts t
unfolding parts
parts-slash String.[] t = rw (nil-append, parts_of_slash) refl
parts-slash (String.◌∷◌ c s) t = rw (cons-append c s) (elim (Bool-cases (is_slash c)) [
  | inl cut ↦ rw (cut, parts-slash s t) refl
  | inr keep ↦ rw (keep, parts-slash s t) (onto_first-append c (parts s) (parts t) (parts-IsFull s))
])

resolve-append :
    (rooted : Bool) (stack ps qs : List String)
    → resolve rooted stack (ps ++ qs) ≡ resolve rooted (reverse (resolve rooted stack ps)) qs
unfolding resolve
resolve-append rooted stack [] qs = rw reverse-reverse refl
resolve-append rooted stack (p ∷ ps) qs = resolve-append rooted (step rooted stack p) ps qs

is_abs-append : (s t : String) → is_abs s ≡ true → is_abs (s <> t) ≡ true
unfolding is_abs
is_abs-append String.[] t h = cc
is_abs-append (String.◌∷◌ c s) t h = rw (cons-append c s) h

-- The names that an absolute path goes down by.
pub names_of : String → List String
names_of s = resolve true [] (parts s)

-- Names below an absolute path are names after those of the path.
pub clean-below :
    (s p : String) (ps : List String)
    → is_abs s ≡ true
    → All IsName (p ∷ ps)
    → clean (s <> ("/" <> join_slash (p ∷ ps))) ≡ "/" <> join_slash (names_of s ++ (p ∷ ps))
unfolding clean names_of
clean-below s p ps abs h =
    rw
      (
        is_abs-append s ("/" <> join_slash (p ∷ ps)) abs,
        parts-slash s (join_slash (p ∷ ps)),
        parts-join_slash p ps (names-NoSlash (p ∷ ps) h),
        resolve-append true [] (parts s) (p ∷ ps),
        resolve_of_IsName true (reverse (resolve true [] (parts s))) (p ∷ ps) h,
        reverse-reverse,
      )
      refl

pub clean-names_of : (s : String) → is_abs s ≡ true → clean s ≡ "/" <> join_slash (names_of s)
unfolding clean names_of
clean-names_of s abs = rw abs refl
