-- ===== src/FilePath.antt =====
-- Go's path/filepath on Unix, as far as the program calls it: `Clean`, `IsAbs`, `Join`.
pub mod Parts
pub mod Rooted
pub mod Joined
pub mod Relative
use nebari_infrastructure_co.Prelude.{
  ◌/◌, Char, String, ◌<>◌, ◌≡◌, refl, Bool, true, false, not, ◌&&◌, ◌||◌, List, [], ◌∷◌, ◌==◌,
  is_char, if◌then◌else◌,
}
use mathlib.Core.List.{reverse}

abbrev pub is_slash : Char → Bool
is_slash c = is_char b'/' c

abbrev onto_first : Char → List String → List String
onto_first c [] = String.◌∷◌ c "" ∷ []
onto_first c (p ∷ ps) = String.◌∷◌ c p ∷ ps

-- The text between slashes, empty parts included.
unfoldable pub parts : String → List String
parts String.[] = "" ∷ []
parts (String.◌∷◌ c s) = let rest = parts s in if is_slash c then "" ∷ rest else onto_first c rest

-- ".." against the parts kept so far, the last one first.
abbrev pub up : Bool → List String → List String
up true [] = []
up false [] = ".." ∷ []
up rooted (top ∷ stack) = if top == ".." then ".." ∷ top ∷ stack else stack

unfoldable pub step : Bool → List String → String → List String
step rooted stack part =
    if part == "" || part == "."
    then stack
    else if part == ".."
    then up rooted stack
    else part ∷ stack

unfoldable pub resolve : Bool → List String → List String → List String
unfolding step
resolve rooted stack [] = reverse stack
resolve rooted stack (part ∷ ps) = resolve rooted (step rooted stack part) ps

unfoldable pub join_slash : List String → String
join_slash [] = ""
join_slash (p ∷ []) = p
join_slash (p ∷ q ∷ ps) = p <> ("/" <> join_slash (q ∷ ps))

-- `filepath.IsAbs`.
unfoldable pub is_abs : String → Bool
is_abs String.[] = false
is_abs (String.◌∷◌ c s) = is_slash c

abbrev relative : String → String
relative s = if s == "" then "." else s

-- `filepath.Clean`.
unfoldable pub clean : String → String
unfolding resolve parts join_slash is_abs
clean s =
    let kept = join_slash (resolve (is_abs s) [] (parts s)) in
    if is_abs s then "/" <> kept else relative kept

abbrev pub not_empty : List String → List String
not_empty [] = []
not_empty (p ∷ ps) = let rest = not_empty ps in if p == "" then rest else p ∷ rest

abbrev pub clean_unless_empty : String → String
clean_unless_empty s = if s == "" then "" else clean s

-- `filepath.Join`: empty elements are left out, and nothing is made of none.
unfoldable pub join : List String → String
unfolding clean
join elements = clean_unless_empty (join_slash (not_empty elements))

abbrev up_to_last_slash : String → String
up_to_last_slash String.[] = ""
up_to_last_slash (String.◌∷◌ c s) =
    let rest = up_to_last_slash s in
    if rest == "" && not (is_slash c) then "" else String.◌∷◌ c rest

-- `filepath.Dir`.
unfoldable pub dir : String → String
unfolding clean
dir s = clean (up_to_last_slash s)

tests :
    (clean "/a/../../b//./c" ≡ "/b/c")
    × (clean "a/../../b" ≡ "../b")
    × (clean "" ≡ ".")
    × (clean "/.." ≡ "/")
    × (join ("/home/u/" ∷ "" ∷ "x" ∷ []) ≡ "/home/u/x")
    × (dir "/w/nic-config.yaml" ≡ "/w")
unfolding join dir
tests = (refl, refl, refl, refl, refl, refl)
