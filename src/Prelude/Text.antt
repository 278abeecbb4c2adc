-- ===== src/Prelude/Text.antt =====
-- The operations of Go's `strings` package that the program calls, over the characters of a text.
use text.Mathlib.TextLemmas.{length-cons}
use Prim.Native.Char.{Char, code}
use Prim.Native.String.{String, count}
use Prim.Native.Nat.{ℕ, suc, ◌+◌}
use mathlib.Core.Path.{◌≡◌, refl, ap}
use mathlib.Core.Logic.{inl, inr}
use native.Mathlib.Omega.{arith}
use mathlib.Core.Bool.{Bool, true, false, ◌&&◌, ◌||◌}
use text.Mathlib.Text.{◌==◌}
use mathlib.Core.List.{List, [], ◌∷◌}
use nebari_infrastructure_co.Prelude.Tests.{Bool-cases, is_char, nat_eq, leb, if◌then◌else◌}

abbrev pub codes : String → List ℕ
codes String.[] = []
codes (String.◌∷◌ c s) = code c ∷ codes s

-- The code of a character, that of the small letter for a capital of ASCII.
abbrev pub fold_code : Char → ℕ
fold_code c = if leb 65 (code c) && leb (code c) 90 then code c + 32 else code c

-- Two texts with the same characters, but for the case of letters of ASCII.
unfoldable pub equal_fold : String → String → Bool
equal_fold String.[] String.[] = true
equal_fold String.[] (String.◌∷◌ d t) = false
equal_fold (String.◌∷◌ c s) String.[] = false
equal_fold (String.◌∷◌ c s) (String.◌∷◌ d t) = nat_eq (fold_code c) (fold_code d) && equal_fold s t

pub equal_fold_refl : (s : String) → equal_fold s s ≡ true
unfolding equal_fold
equal_fold_refl String.[] = refl
equal_fold_refl (String.◌∷◌ c s) = ground (arith, equal_fold_refl s)

pub count-equal_fold : (s t : String) → equal_fold s t ≡ true → count s ≡ count t
unfolding equal_fold
count-equal_fold String.[] String.[] h = refl
count-equal_fold String.[] (String.◌∷◌ d t) h = absurd (cc)
count-equal_fold (String.◌∷◌ c s) String.[] h = absurd (cc)
count-equal_fold (String.◌∷◌ c s) (String.◌∷◌ d t) h = elim (Bool-cases (equal_fold s t)) [
  | inl same ↦ rw (length-cons c s, length-cons d t) (ap suc (count-equal_fold s t same))
  | inr other ↦ absurd (ground arith)
]

-- `strings.HasPrefix(s, p)`, the prefix first.
unfoldable pub has_prefix : String → String → Bool
has_prefix String.[] s = true
has_prefix (String.◌∷◌ c p) String.[] = false
has_prefix (String.◌∷◌ c p) (String.◌∷◌ d s) = nat_eq (code c) (code d) && has_prefix p s

-- `strings.TrimPrefix`, the prefix first.
abbrev pub drop_chars : String → String → String
drop_chars String.[] s = s
drop_chars (String.◌∷◌ _ p) String.[] = ""
drop_chars (String.◌∷◌ _ p) (String.◌∷◌ _ s) = drop_chars p s

unfoldable pub trim_prefix : String → String → String
unfolding has_prefix
trim_prefix p s = if has_prefix p s then drop_chars p s else s

-- `strings.Contains(s, t)`, the part first.
unfoldable pub has_part : String → String → Bool
unfolding has_prefix
has_part t String.[] = has_prefix t ""
has_part t (String.◌∷◌ c s) = has_prefix t (String.◌∷◌ c s) || has_part t s

-- `strings.TrimLeft` by a test on characters.
unfoldable pub trim_left : (Char → Bool) → String → String
trim_left p String.[] = ""
trim_left p (String.◌∷◌ c s) = let rest = trim_left p s in if p c then rest else String.◌∷◌ c s

abbrev pub cons_or_drop : (Char → Bool) → Char → String → String
cons_or_drop p c String.[] = if p c then "" else String.◌∷◌ c ""
cons_or_drop p c (String.◌∷◌ d s) = String.◌∷◌ c (String.◌∷◌ d s)

-- `strings.TrimRight` by a test on characters.
unfoldable pub trim_right : (Char → Bool) → String → String
trim_right p String.[] = ""
trim_right p (String.◌∷◌ c s) = cons_or_drop p c (trim_right p s)

-- Go's `unicode.IsSpace`.
abbrev pub is_space : Char → Bool
is_space c =
    (leb 9 (code c) && leb (code c) 13)
    || is_char b' ' c
    || is_char 0x85 c
    || is_char 0xA0 c
    || is_char 0x1680 c
    || (leb 0x2000 (code c) && leb (code c) 0x200a)
    || is_char 0x2028 c
    || is_char 0x2029 c
    || is_char 0x202f c
    || is_char 0x205f c
    || is_char 0x3000 c

-- `strings.TrimSpace`.
unfoldable pub trim_space : String → String
unfolding trim_left trim_right
trim_space s = trim_right is_space (trim_left is_space s)

trim_space_test : trim_space "  a b " ≡ "a b"
unfolding trim_space
trim_space_test = refl

has_part_test : has_part "KEY" "A KEY" ≡ true
unfolding has_part
has_part_test = refl

-- `strings.HasSuffix(s, t)`, the suffix first.
unfoldable pub has_suffix : String → String → Bool
has_suffix t String.[] = t == ""
has_suffix t (String.◌∷◌ c s) = t == String.◌∷◌ c s || has_suffix t s

abbrev pub onto_part : Char → List String → List String
onto_part c [] = String.◌∷◌ c "" ∷ []
onto_part c (p ∷ ps) = String.◌∷◌ c p ∷ ps

-- `strings.Split` at one character, given by its code.
unfoldable pub split_on : ℕ → String → List String
split_on n String.[] = "" ∷ []
split_on n (String.◌∷◌ c s) =
    let rest = split_on n s in if is_char n c then "" ∷ rest else onto_part c rest

split_on_test : split_on b'.' "1.32." ≡ "1" ∷ "32" ∷ "" ∷ []
unfolding split_on
split_on_test = refl
