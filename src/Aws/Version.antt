-- ===== src/Aws/Version.antt =====
-- The check of an upgrade of Kubernetes: pkg/providers/cluster/aws/version.go.
pub mod Upgrade
use nebari_infrastructure_co.Prelude.{
  ℕ, zero, suc, ◌+◌, ◌-◌, ◌*◌, ◌^◌, Char, code, String, ◌≡◌, refl, Bool, false, not, ◌&&◌, Option,
  none, some, List, [], ◌∷◌, ◌==◌, leb, nat_eq, is_char, if◌then◌else◌, Result, ok, err, ◌>>=◌,
  ◌>>◌, fail_if, wrap,
}
use nebari_infrastructure_co.Prelude.Int.{ℤ, pos, negsuc, int_lt}
use nebari_infrastructure_co.Prelude.Text.{split_on}

abbrev pub is_digit : Char → Bool
is_digit c = leb b'0' (code c) && leb (code c) b'9'

-- The number that the digits go on from another.
unfoldable pub digits_from : ℕ → String → Option ℕ
digits_from n String.[] = some n
digits_from n (String.◌∷◌ c s) =
    let rest = digits_from (n * 10 + (code c - b'0')) s in if is_digit c then rest else none

abbrev pub digits : String → Option ℕ
digits String.[] = none
digits (String.◌∷◌ c s) = digits_from 0 (String.◌∷◌ c s)

abbrev pub max_int : ℕ
max_int = 2 ^ 63 - 1

abbrev pub in_range : Option ℕ → Option ℤ
in_range none = none
in_range (some n) = if leb n max_int then some (pos n) else none

-- -(n + 1) for n + 1
abbrev pub negated : ℕ → ℤ
negated zero = pos 0
negated (suc n) = negsuc n

abbrev pub in_range_negative : Option ℕ → Option ℤ
in_range_negative none = none
in_range_negative (some n) = if leb n (suc max_int) then some (negated n) else none

-- `strconv.Atoi`
unfoldable pub atoi : String → Option ℤ
unfolding digits_from
atoi String.[] = none
atoi (String.◌∷◌ c s) =
    if is_char b'-' c
    then in_range_negative (digits s)
    else if is_char b'+' c
    then in_range (digits s)
    else in_range (digits (String.◌∷◌ c s))

pub data VersionError : Type 0 where
  no_minor bad_major bad_minor : String → VersionError
  bad_current bad_desired : String → VersionError → VersionError
  other_major downgrade : String → String → VersionError
  skips_minor : String → String → ℤ → ℤ → VersionError

abbrev pub or_error : VersionError → Option ℤ → Result VersionError ℤ
or_error e none = err e
or_error e (some n) = ok n

abbrev pub parse_parts : String → List String → Result VersionError (ℤ × ℤ)
parse_parts version [] = err (no_minor version)
parse_parts version (major ∷ []) = err (no_minor version)
parse_parts version (major ∷ minor ∷ more) = or_error (bad_major version) (atoi major) >>= λ a.
    or_error (bad_minor version) (atoi minor) >>= λ b. ok (a, b)

unfoldable pub parse_k8s_version : String → Result VersionError (ℤ × ℤ)
unfolding split_on atoi
parse_k8s_version version = parse_parts version (split_on b'.' version)

-- n + 1 of a 64-bit `int`, from the last of which it wraps around to the first.
abbrev pub next : ℤ → ℤ
next (pos n) = if nat_eq n max_int then negsuc max_int else pos (suc n)
next (negsuc zero) = pos 0
next (negsuc (suc n)) = negsuc n

abbrev pub int_eq : ℤ → ℤ → Bool
int_eq (pos a) (pos b) = nat_eq a b
int_eq (negsuc a) (negsuc b) = nat_eq a b
int_eq a b = false

abbrev pub compare_versions : String → String → ℤ × ℤ → ℤ × ℤ → Result VersionError (Unit {0})
compare_versions current desired (major, minor) (desired_major, desired_minor) =
    fail_if (not (int_eq major desired_major)) (other_major current desired)
    >> fail_if (int_lt desired_minor minor) (downgrade current desired)
    >> fail_if (int_lt (next minor) desired_minor)
        (skips_minor current desired (next minor) desired_minor)

unfoldable pub validate_k8s_version_upgrade : String → String → Result VersionError (Unit {0})
unfolding parse_k8s_version
validate_k8s_version_upgrade current desired =
    let checked = wrap (bad_current current) (parse_k8s_version current) >>= λ c.
    wrap (bad_desired desired) (parse_k8s_version desired) >>= compare_versions current desired c in
    if current == desired then ok tt else checked

version_test :
    (validate_k8s_version_upgrade "1.33" "1.34" ≡ ok tt)
    × (validate_k8s_version_upgrade "1.34" "1.30" ≡ err (downgrade "1.34" "1.30"))
unfolding validate_k8s_version_upgrade
version_test = (refl, refl)
