-- ===== src/FilePath/Relative.antt =====
-- What `clean` makes of a relative path: never an absolute one.
use nebari_infrastructure_co.Prelude.{
  String, ◌≡◌, refl, ◌≢◌, inl, inr, false, List, [], ◌∷◌, arith, ◌==◌, eq_iff, Bool-cases, All,
  All-reverse,
}
use text.Mathlib.TextLemmas.{cons-append}
use nebari_infrastructure_co.FilePath.{parts, step, resolve, join_slash, is_abs, clean, relative}
use nebari_infrastructure_co.FilePath.Parts.{NoSlash, parts-NoSlash}

abbrev IsPart : String → Type 0
IsPart part = (part ≢ "") × NoSlash part

dots-IsPart : IsPart ".."
dots-IsPart = (ground (arith, eq_iff ".." ""), (refl, (refl, tt)))

step-IsPart :
    (stack : List String) (part : String)
    → All IsPart stack
    → NoSlash part
    → All IsPart (step false stack part)
unfolding step
step-IsPart [] part h k = ground (arith, eq_iff part "", dots-IsPart)
step-IsPart (top ∷ stack) part h k = ground (arith, eq_iff part "", dots-IsPart)

resolve-IsPart :
    (stack ps : List String)
    → All IsPart stack
    → All NoSlash ps
    → All IsPart (resolve false stack ps)
unfolding resolve
resolve-IsPart stack [] h k = All-reverse IsPart stack h
resolve-IsPart stack (p ∷ ps) h (k, ks) =
    resolve-IsPart (step false stack p) ps (step-IsPart stack p h k) ks

is_abs-join : (ps : List String) → All IsPart ps → is_abs (join_slash ps) ≡ false
unfolding is_abs join_slash
is_abs-join [] h = refl
is_abs-join (String.[] ∷ ps) ((full, _), _) = absurd (full refl)
is_abs-join (String.◌∷◌ c p ∷ []) ((_, (h, _)), _) = h
is_abs-join (String.◌∷◌ c p ∷ q ∷ ps) ((_, (h, _)), _) = rw (cons-append c p) h

is_abs-relative : (s : String) → is_abs s ≡ false → is_abs (relative s) ≡ false
is_abs-relative s h = elim (Bool-cases (s == "")) [
  | inl e ↦ rw e (unfold is_abs in refl)
  | inr e ↦ rw e h
]

-- `clean` makes no relative path absolute.
pub is_abs-clean_of_relative : (s : String) → is_abs s ≡ false → is_abs (clean s) ≡ false
unfolding clean
is_abs-clean_of_relative s h =
    let kept = resolve false [] (parts s) in
    rw (h, clean)
      (is_abs-relative (join_slash kept)
        (is_abs-join kept (resolve-IsPart [] (parts s) tt (parts-NoSlash s))))
