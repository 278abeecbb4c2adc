-- ===== src/Hetzner/K3s.antt =====
-- The release of k3s for a version of Kubernetes: pkg/providers/cluster/hetzner/k3s.go. The run of
-- `hetzner-k3s releases` is a parameter, what it writes or its error.
pub mod Newest
pub mod Tags
pub mod Names
use nebari_infrastructure_co.Prelude.{
  String, ◌<>◌, ◌≡◌, refl, Bool, false, not, ◌&&◌, ◌||◌, Option, none, some, List, [], ◌∷◌, ◌++◌,
  ◌==◌, if◌then◌else◌, contains, Result, ok, err,
}
use mathlib.Core.List.{reverse}
use nebari_infrastructure_co.Prelude.Text.{trim_prefix, has_prefix, has_part, split_on, trim_space}
use nebari_infrastructure_co.Hetzner.Patterns.{is_digit}

-- The text after some digits, as many as there are.
unfoldable pub skip_digits : String → String
skip_digits String.[] = ""
skip_digits (String.◌∷◌ c s) =
    let rest = skip_digits s in if is_digit c then rest else String.◌∷◌ c s

-- `-(?:rc|alpha|beta)\d*\+k3s` at the beginning of the text.
abbrev pub begins_prerelease : String → String → Bool
begins_prerelease word s = has_prefix word s && has_prefix "+k3s" (skip_digits (trim_prefix word s))

abbrev pub is_prerelease_here : String → Bool
is_prerelease_here s =
    begins_prerelease "-rc" s || begins_prerelease "-alpha" s || begins_prerelease "-beta" s

-- `isPrerelease`: the pattern stands somewhere.
unfoldable pub is_prerelease : String → Bool
unfolding skip_digits has_prefix trim_prefix
is_prerelease String.[] = is_prerelease_here ""
is_prerelease (String.◌∷◌ c s) = is_prerelease_here (String.◌∷◌ c s) || is_prerelease s

pub data K3sError : Type 0 where
  bad_format : String → K3sError
  no_release : String → List String → K3sError
  run_failed : String → K3sError
  no_tags : K3sError

-- The text that the tag of a release for the version begins with.
unfoldable pub match_prefix : String → Option String
unfolding split_on trim_prefix
match_prefix version = elim (split_on b'.' (trim_prefix "v" version)) [
  | a ∷ b ∷ [] ↦ some ("v" <> (a <> ("." <> (b <> "."))))
  | a ∷ b ∷ c ∷ [] ↦ some ("v" <> (a <> ("." <> (b <> ("." <> (c <> "+"))))))
  | _ ↦ none
]

abbrev pub is_match : String → String → Bool
is_match prefix tag = not (is_prerelease tag) && has_prefix prefix tag

unfoldable pub first_match : String → List String → Option String
unfolding is_prerelease has_prefix
first_match prefix [] = none
first_match prefix (tag ∷ tags) =
    let rest = first_match prefix tags in if is_match prefix tag then some tag else rest

-- `parts[0] + "." + parts[1]`, if there are two parts.
abbrev pub minor_of : List String → Option String
minor_of [] = none
minor_of (a ∷ []) = none
minor_of (a ∷ b ∷ more) = some (a <> ("." <> b))

abbrev pub add_new : Option String → List String → List String
add_new none minors = minors
add_new (some m) minors = if contains minors m then minors else minors ++ (m ∷ [])

-- The loop of `extractAvailableMinors`: what `minors` holds is what `seen` holds.
unfoldable pub minors_from : List String → List String → List String
unfolding is_prerelease split_on trim_prefix
minors_from minors [] = minors
minors_from minors (tag ∷ tags) =
    minors_from
      (if is_prerelease tag
        then minors
        else add_new (minor_of (split_on b'.' (trim_prefix "v" tag))) minors)
      tags

unfoldable pub extract_available_minors : List String → List String
unfolding minors_from
extract_available_minors = minors_from []

abbrev pub or_no_release : String → List String → Option String → Result K3sError String
or_no_release version minors none = err (no_release version minors)
or_no_release version minors (some tag) = ok tag

abbrev pub resolve_prefix : String → List String → Option String → Result K3sError String
resolve_prefix version releases none = err (bad_format version)
resolve_prefix version releases (some prefix) =
    or_no_release version (extract_available_minors releases)
      (first_match prefix (reverse releases))

unfoldable pub resolve_k3s_version : String → List String → Result K3sError String
unfolding match_prefix first_match extract_available_minors has_part
resolve_k3s_version version releases =
    let resolved = resolve_prefix version releases (match_prefix version) in
    if has_part "+k3s" version then ok version else resolved

-- How much of `^v\d+\.\d+\.\d+(-(?:rc|alpha|beta)\d*)?\+k3s\d+$` follows: the text after one digit or
-- more, or after a word.
abbrev pub some_digits : Option String → Option String
some_digits none = none
some_digits (some String.[]) = none
some_digits (some (String.◌∷◌ c s)) = if is_digit c then some (skip_digits s) else none

abbrev pub word : String → Option String → Option String
word w none = none
word w (some s) = if has_prefix w s then some (trim_prefix w s) else none

abbrev pub optional_part : Option String → Option String
optional_part none = none
optional_part (some s) =
    if has_prefix "-rc" s
    then some (skip_digits (trim_prefix "-rc" s))
    else if has_prefix "-alpha" s
    then some (skip_digits (trim_prefix "-alpha" s))
    else if has_prefix "-beta" s
    then some (skip_digits (trim_prefix "-beta" s))
    else some s

abbrev pub at_end : Option String → Bool
at_end none = false
at_end (some s) = s == ""

-- `k3sVersionPattern`
unfoldable pub is_k3s_version : String → Bool
unfolding skip_digits has_prefix trim_prefix
is_k3s_version s =
    let numbers =
      some_digits (word "." (some_digits (word "." (some_digits (word "v" (some s)))))) in
    at_end (some_digits (word "+k3s" (optional_part numbers)))

unfoldable pub valid_tags : List String → List String
unfolding is_k3s_version trim_space
valid_tags [] = []
valid_tags (line ∷ lines) =
    let rest = valid_tags lines in
    let tag = trim_space line in if is_k3s_version tag then tag ∷ rest else rest

abbrev pub not_none : List String → Result K3sError (List String)
not_none [] = err no_tags
not_none (t ∷ ts) = ok (t ∷ ts)

-- `getHetznerK3sReleases`
unfoldable pub get_hetzner_k3s_releases : Result String String → Result K3sError (List String)
unfolding valid_tags split_on
get_hetzner_k3s_releases (err e) = err (run_failed e)
get_hetzner_k3s_releases (ok out) = not_none (valid_tags (split_on b'\n' out))

tags_test :
    get_hetzner_k3s_releases (ok "Releases:\nv1.31.2+k3s1\n v1.32.0-rc1+k3s1\n")
    ≡ ok ("v1.31.2+k3s1" ∷ "v1.32.0-rc1+k3s1" ∷ [])
unfolding get_hetzner_k3s_releases
tags_test = refl
