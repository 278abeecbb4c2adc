-- ===== src/FilePath/Parts.antt =====
-- Splitting at slashes and joining again.
use nebari_infrastructure_co.Prelude.{
  Char, String, ◌<>◌, ◌≡◌, refl, inl, inr, false, List, [], ◌∷◌, Bool-cases, All,
}
use text.Mathlib.TextLemmas.{nil-append, cons-append}
use nebari_infrastructure_co.FilePath.{is_slash, parts, onto_first, join_slash}

abbrev pub NoSlash : String → Type 0
NoSlash String.[] = Unit
NoSlash (String.◌∷◌ c s) = (is_slash c ≡ false) × NoSlash s

All-onto_first :
    (c : Char) (ps : List String)
    → is_slash c ≡ false
    → All NoSlash ps
    → All NoSlash (onto_first c ps)
All-onto_first c [] h k = ((h, tt), tt)
All-onto_first c (p ∷ ps) h (k, ks) = ((h, k), ks)

pub parts-NoSlash : (s : String) → All NoSlash (parts s)
unfolding parts
parts-NoSlash String.[] = (tt, tt)
parts-NoSlash (String.◌∷◌ c s) = elim (Bool-cases (is_slash c)) [
  | inl cut ↦ rw cut (tt, parts-NoSlash s)
  | inr keep ↦ rw keep (All-onto_first c (parts s) keep (parts-NoSlash s))
]

-- A part without slashes, alone and before a slash.
pub parts_of_NoSlash : (p : String) → NoSlash p → parts p ≡ p ∷ []
unfolding parts
parts_of_NoSlash String.[] h = refl
parts_of_NoSlash (String.◌∷◌ c p) (h, k) = rw (h, parts_of_NoSlash p k)

pub parts_before_slash : (p s : String) → NoSlash p → parts (p <> ("/" <> s)) ≡ p ∷ parts s
unfolding parts
parts_before_slash String.[] s h = rw (nil-append, cons-append, nil-append)
parts_before_slash (String.◌∷◌ c p) s (h, k) = rw (cons-append c p, h, parts_before_slash p s k)

-- Joined parts split into the same parts.
pub parts-join_slash :
    (p : String) (ps : List String) → All NoSlash (p ∷ ps) → parts (join_slash (p ∷ ps)) ≡ p ∷ ps
unfolding join_slash
parts-join_slash p [] (h, _) = parts_of_NoSlash p h
parts-join_slash p (q ∷ ps) (h, k) =
    rw (parts_before_slash p (join_slash (q ∷ ps)) h, parts-join_slash q ps k)

pub parts_of_slash : (s : String) → parts ("/" <> s) ≡ "" ∷ parts s
unfolding parts
parts_of_slash s = rw (cons-append, nil-append)
