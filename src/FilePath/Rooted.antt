-- ===== src/FilePath/Rooted.antt =====
-- What `clean` makes of an absolute path.
use nebari_infrastructure_co.Prelude.{
  String, ◌<>◌, ◌≡◌, refl, sym, ◌≢◌, Bool, true, List, [], ◌∷◌, ◌++◌, append_assoc, append-nil,
  arith, eq_iff, All, All-reverse,
}
use mathlib.Core.List.{reverse, reverse-cons}
use text.Mathlib.TextLemmas.{cons-append}
use nebari_infrastructure_co.FilePath.{parts, step, resolve, join_slash, is_abs, clean}
use nebari_infrastructure_co.FilePath.Parts.{
  NoSlash, parts-NoSlash, parts-join_slash, parts_of_slash,
}

-- The name of an entry of a directory: not empty, not "." or "..", and without slashes.
abbrev pub IsName : String → Type 0
IsName part = (part ≢ "") × (part ≢ ".") × (part ≢ "..") × NoSlash part

-- An absolute path that goes down from the root by names alone.
abbrev pub IsRooted : String → Type 0
IsRooted path = (names : List String) × All IsName names × (path ≡ "/" <> join_slash names)

step-IsName :
    (stack : List String) (part : String)
    → All IsName stack
    → NoSlash part
    → All IsName (step true stack part)
unfolding step
step-IsName [] part h k = ground (arith, eq_iff part "", eq_iff part ".", eq_iff part "..")
step-IsName (top ∷ stack) part h k =
    ground (arith, eq_iff part "", eq_iff part ".", eq_iff part "..", eq_iff top "..")

resolve-IsName :
    (stack ps : List String)
    → All IsName stack
    → All NoSlash ps
    → All IsName (resolve true stack ps)
unfolding resolve
resolve-IsName stack [] h k = All-reverse IsName stack h
resolve-IsName stack (p ∷ ps) h (k, ks) =
    resolve-IsName (step true stack p) ps (step-IsName stack p h k) ks

step_of_IsName :
    (rooted : Bool) (stack : List String) (part : String)
    → IsName part
    → step rooted stack part ≡ part ∷ stack
unfolding step
step_of_IsName rooted stack part h =
    ground (arith, eq_iff part "", eq_iff part ".", eq_iff part "..")

pub resolve_of_IsName :
    (rooted : Bool) (stack ps : List String)
    → All IsName ps
    → resolve rooted stack ps ≡ reverse stack ++ ps
unfolding resolve
resolve_of_IsName rooted stack [] h = sym (append-nil _)
resolve_of_IsName rooted stack (p ∷ ps) (h, k) =
    rw (step_of_IsName rooted stack p h, resolve_of_IsName rooted (p ∷ stack) ps k)
      (simp (reverse-cons, append_assoc))

pub names-NoSlash : (ps : List String) → All IsName ps → All NoSlash ps
names-NoSlash [] h = tt
names-NoSlash (p ∷ ps) ((_, _, _, h), k) = (h, names-NoSlash ps k)

resolve_of_join :
    (ps : List String) → All IsName ps → resolve true [] (parts ("/" <> join_slash ps)) ≡ ps
unfolding resolve step
resolve_of_join [] h = unfold parts join_slash in refl
resolve_of_join (p ∷ ps) h =
    rw (parts_of_slash, parts-join_slash p ps (names-NoSlash (p ∷ ps) h))
      (resolve_of_IsName true [] (p ∷ ps) h)

is_abs_slash : (s : String) → is_abs ("/" <> s) ≡ true
unfolding is_abs
is_abs_slash s = rw cons-append refl

-- `clean` leads an absolute path to one that goes down from the root by names alone.
pub clean-IsRooted : (s : String) → is_abs s ≡ true → IsRooted (clean s)
unfolding clean
clean-IsRooted s h =
    (resolve true [] (parts s), resolve-IsName [] (parts s) tt (parts-NoSlash s), rw (h, clean))

clean_of_names :
    (ps : List String) → All IsName ps → clean ("/" <> join_slash ps) ≡ "/" <> join_slash ps
unfolding clean
clean_of_names ps h = rw (is_abs_slash, resolve_of_join ps h, clean)

-- Such a path is left as it is.
pub clean_of_IsRooted : (s : String) → IsRooted s → clean s ≡ s
clean_of_IsRooted s (ps, h, e) = rw e (clean_of_names ps h)

pub IsRooted-is_abs : (s : String) → IsRooted s → is_abs s ≡ true
IsRooted-is_abs s (ps, h, e) = rw e (is_abs_slash (join_slash ps))
