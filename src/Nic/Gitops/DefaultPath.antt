-- ===== src/Nic/Gitops/DefaultPath.antt =====
-- Where the repository stands that pkg/nic/deploy.go makes by default.
use nebari_infrastructure_co.Prelude.{
  String, ◌<>◌, ◌≡◌, refl, subst, inl, inr, true, false, some, List, [], ◌∷◌, ◌++◌, arith, ◌==◌,
  eq_iff, Bool-cases, All, ok,
}
use text.Mathlib.TextLemmas.{cons-append}
use nebari_infrastructure_co.FilePath.{is_abs, clean, join_slash, join}
use nebari_infrastructure_co.FilePath.Rooted.{IsName, IsRooted, clean-IsRooted}
use nebari_infrastructure_co.FilePath.Joined.{names_of, clean-below}
use nebari_infrastructure_co.Git.{default_local_path, get_local_path}
use nebari_infrastructure_co.Git.LocalPath.{get_local_path-file_url}
use nebari_infrastructure_co.Config.Nebari.{safe_project_name}
use nebari_infrastructure_co.Config.Nebari.ProjectName.{safe_project_name-IsName}
use nebari_infrastructure_co.Nic.Gitops.{default_git_config}

not_nil : (s : String) → is_abs s ≡ true → (s == "") ≡ false
unfolding is_abs
not_nil s h = elim (Bool-cases (s == "")) [
  | inl empty ↦ absurd (cc (rw ((eq_iff s "").0 empty) at h))
  | inr full ↦ full
]

directory : String → List String
directory name = ".nic" ∷ "gitops" ∷ name ∷ []

directory-names : (name : String) → IsName name → All IsName (directory name)
unfolding directory
directory-names name h = (
  ((λ e. cc), (λ e. cc), (λ e. cc), (refl, (refl, (refl, (refl, tt))))),
  (((λ e. cc), (λ e. cc), (λ e. cc), (refl, (refl, (refl, (refl, (refl, (refl, tt))))))), (h, tt)),
)

is_abs-append : (s t : String) → is_abs s ≡ true → is_abs (s <> t) ≡ true
unfolding is_abs
is_abs-append String.[] t h = cc
is_abs-append (String.◌∷◌ c s) t h = rw (cons-append) h

joined :
    (home name : String)
    → is_abs home ≡ true
    → IsName name
    → join (home ∷ directory name) ≡ clean (home <> ("/" <> join_slash (directory name)))
unfolding join directory join_slash
joined home name abs n =
    let full = not_nil home abs in
    let named : (name == "") ≡ false = ground (arith, eq_iff name "", n.0) in
    let path = home <> ("/" <> join_slash (directory name)) in
    rw (full, named, not_nil path (is_abs-append home _ abs), clean) refl

-- With an absolute home directory and a safe project name, the repository that is made by default
-- is a local one whose directory is `.nic/gitops/<project>` below the home directory, and no other.
pub get_local_path-default_git_config :
    (home temp_dir name : String)
    → is_abs home ≡ true
    → safe_project_name name ≡ true
    → get_local_path (default_git_config (some home) temp_dir name)
      ≡ ok ("/" <> join_slash (names_of home ++ (".nic" ∷ "gitops" ∷ name ∷ [])))
unfolding default_git_config default_local_path directory
get_local_path-default_git_config home temp_dir name abs safe =
    let n = safe_project_name-IsName name safe in
    let path = home <> ("/" <> join_slash (directory name)) in
    let j = joined home name abs n in
    let below = clean-below home ".nic" ("gitops" ∷ name ∷ []) abs (directory-names name n) in
    rw (not_nil home abs, j, below)
      (get_local_path-file_url _ _ refl
        (subst IsRooted below (clean-IsRooted path (is_abs-append home _ abs))))
