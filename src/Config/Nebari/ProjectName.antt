-- ===== src/Config/Nebari/ProjectName.antt =====
-- An accepted project name is the name of a directory entry.
use nebari_infrastructure_co.Prelude.{ℕ, Char, code, String, ◌≡◌, refl, ap, ◌≢◌, true, false, arith}
use mathlib.Core.Bool.{and-eq-true_iff}
use text.Mathlib.TextLemmas.{cons≢nil}
use nebari_infrastructure_co.FilePath.{is_slash}
use nebari_infrastructure_co.FilePath.Parts.{NoSlash}
use nebari_infrastructure_co.FilePath.Rooted.{IsName}
use nebari_infrastructure_co.Config.Nebari.{
  is_alphanumeric, is_name_char, all_chars, safe_project_name,
}

not_slash : (c : Char) → is_name_char c ≡ true → is_slash c ≡ false
not_slash c h = ground arith

name_char_of_alphanumeric : (c : Char) → is_alphanumeric c ≡ true → is_name_char c ≡ true
name_char_of_alphanumeric c h = rw h refl

abbrev head_code : String → ℕ
head_code String.[] = 0
head_code (String.◌∷◌ c s) = code c

not_dot : (c : Char) → is_alphanumeric c ≡ true → code c ≢ b'.'
not_dot c h = ground arith

NoSlash-of_all_chars : (s : String) → all_chars is_name_char s ≡ true → NoSlash s
NoSlash-of_all_chars String.[] h = tt
NoSlash-of_all_chars (String.◌∷◌ c s) h =
    let (here, later) = (and-eq-true_iff (is_name_char c) (all_chars is_name_char s)).0 h in
    (not_slash c here, NoSlash-of_all_chars s later)

-- A project name that passes the check can stand as one part of a path: it is not empty, "." or
-- "..", and holds no slash.
pub safe_project_name-IsName : (s : String) → safe_project_name s ≡ true → IsName s
unfolding safe_project_name
safe_project_name-IsName String.[] h = cc
safe_project_name-IsName (String.◌∷◌ c s) h =
    let (here, later) = (and-eq-true_iff (is_alphanumeric c) (all_chars is_name_char s)).0 h in
    (
      cons≢nil,
      λ e. not_dot c here (ap head_code e),
      λ e. not_dot c here (ap head_code e),
      (not_slash c (name_char_of_alphanumeric c here), NoSlash-of_all_chars s later),
    )
