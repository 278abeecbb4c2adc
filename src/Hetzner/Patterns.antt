-- ===== src/Hetzner/Patterns.antt =====
-- The patterns `safeIdentifier` and `safeK8sVersion` of pkg/providers/cluster/hetzner/config.go.
use nebari_infrastructure_co.Prelude.{
  ℕ, Char, code, String, ◌≡◌, refl, Bool, true, false, ◌&&◌, ◌||◌, Option, none, some, leb, is_char,
  if◌then◌else◌,
}

abbrev pub is_digit : Char → Bool
is_digit c = leb b'0' (code c) && leb (code c) b'9'

abbrev pub is_alphanumeric : Char → Bool
is_alphanumeric c =
    is_digit c
    || (leb b'a' (code c) && leb (code c) b'z')
    || (leb b'A' (code c) && leb (code c) b'Z')

abbrev pub is_safe : Char → Bool
is_safe c = is_alphanumeric c || is_char b'.' c || is_char b'_' c || is_char b'-' c

unfoldable pub all_safe : String → Bool
all_safe String.[] = true
all_safe (String.◌∷◌ c s) = is_safe c && all_safe s

-- `^[a-zA-Z0-9][a-zA-Z0-9._-]*$`
unfoldable pub safe_identifier : String → Bool
unfolding all_safe
safe_identifier String.[] = false
safe_identifier (String.◌∷◌ c s) = is_alphanumeric c && all_safe s

-- How much of the pattern stands before a character: nothing; the `v`; some digits of the major number;
-- its dot; some of the minor number; its dot; some of the patch number; a part of the `+k3s`; some digits
-- of the revision.
pub data Position : Type 0 where
  start after_v in_major after_major in_minor after_minor in_patch : Position
  plus plus_k plus_k3 plus_k3s in_revision : Position

abbrev pub digit_to : Position → Char → Option Position
digit_to p c = if is_digit c then some p else none

abbrev pub char_to : ℕ → Position → Char → Option Position
char_to n p c = if is_char n c then some p else none

abbrev pub or_else : Option Position → Option Position → Option Position
or_else none q = q
or_else (some p) q = some p

abbrev pub advance : Position → Char → Option Position
advance start c = or_else (char_to b'v' after_v c) (digit_to in_major c)
advance after_v c = digit_to in_major c
advance in_major c = or_else (digit_to in_major c) (char_to b'.' after_major c)
advance after_major c = digit_to in_minor c
advance in_minor c =
    or_else (digit_to in_minor c) (or_else (char_to b'.' after_minor c) (char_to b'+' plus c))
advance after_minor c = digit_to in_patch c
advance in_patch c = or_else (digit_to in_patch c) (char_to b'+' plus c)
advance plus c = char_to b'k' plus_k c
advance plus_k c = char_to b'3' plus_k3 c
advance plus_k3 c = char_to b's' plus_k3s c
advance plus_k3s c = digit_to in_revision c
advance in_revision c = digit_to in_revision c

abbrev pub may_end : Position → Bool
may_end in_minor = true
may_end in_patch = true
may_end in_revision = true
may_end p = false

unfoldable pub matches_from : Position → String → Bool
matches_from p String.[] = may_end p
matches_from p (String.◌∷◌ c s) = elim (advance p c) [ none ↦ false | some q ↦ matches_from q s ]

-- `^v?\d+\.\d+(\.\d+)?(\+k3s\d+)?$`
unfoldable pub safe_k8s_version : String → Bool
unfolding matches_from
safe_k8s_version = matches_from start

version_test :
    (safe_k8s_version "v1.32.0+k3s1" ≡ true)
    × (safe_k8s_version "1.32" ≡ true)
    × (safe_k8s_version "1.32." ≡ false)
unfolding safe_k8s_version
version_test = (refl, refl, refl)
