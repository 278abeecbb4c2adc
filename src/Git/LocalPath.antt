-- ===== src/Git/LocalPath.antt =====
-- The local path of a repository.
use nebari_infrastructure_co.Prelude.{
  String, ◌<>◌, ◌≡◌, refl, inl, inr, true, arith, Bool-cases, ok,
}
use text.Mathlib.TextLemmas.{}
use nebari_infrastructure_co.Prelude.Text.{trim_prefix}
use nebari_infrastructure_co.Prelude.Prefix.{has_prefix-append, drop_chars-append}
use nebari_infrastructure_co.FilePath.{clean, is_abs}
use nebari_infrastructure_co.FilePath.Relative.{is_abs-clean_of_relative}
use nebari_infrastructure_co.FilePath.Rooted.{
  IsRooted, clean-IsRooted, clean_of_IsRooted, IsRooted-is_abs,
}
use nebari_infrastructure_co.Git.{GitConfig, get_local_path}

-- A local path that the program takes from a URL goes down from the root by names alone: no part
-- of it is empty, "." or "..", or holds a slash.
pub get_local_path-IsRooted :
    (c : GitConfig) (path : String) → get_local_path c ≡ ok path → IsRooted path
unfolding get_local_path
get_local_path-IsRooted c path h =
    let t = trim_prefix "file://" c.url in
    let found : (is_abs (clean t) ≡ true) × (path ≡ clean t) = ground arith in
    let (abs, same) = found in
    elim (Bool-cases (is_abs t)) [
      | inl is ↦ rw same (clean-IsRooted t is)
      | inr rel ↦ absurd (cc (is_abs-clean_of_relative t rel))
    ]

-- A URL made of the scheme and a path that goes down from the root by names alone gives that path
-- back.
pub get_local_path-file_url :
    (c : GitConfig) (path : String)
    → c.url ≡ "file://" <> path
    → IsRooted path
    → get_local_path c ≡ ok path
unfolding get_local_path trim_prefix
get_local_path-file_url c path e r =
    rw
      (
        e,
        has_prefix-append "file://" path,
        drop_chars-append "file://" path,
        clean_of_IsRooted path r,
        IsRooted-is_abs path r,
      )
      refl
