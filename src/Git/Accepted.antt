-- ===== src/Git/Accepted.antt =====
-- Which repository settings are accepted.
use nebari_infrastructure_co.Prelude.{
  String, ◌≡◌, refl, ◌≢◌, ◌↔◌, ◌⊎◌, inl, inr, Bool, true, false, Option, none, some, arith, ◌==◌,
  eq_iff, Bool-cases, Result, ok, err, ◌>>=◌, ◌>>◌, fail_if, wrap, >>-eq-ok, wrap-eq-ok,
}
use nebari_infrastructure_co.Git.{
  AuthConfig, GitConfig, GitError, validate_auth, check_argocd_auth, is_local_path, get_local_path,
  validate, not_directory, path_not_directory, in_auth, in_argocd_auth,
}

-- One of the two credential variables is named, and the other is not.
abbrev pub HasOneCredential : AuthConfig → Type 0
HasOneCredential a =
    ((a.ssh_key_env ≢ "") × (a.token_env ≡ "")) ⊎ ((a.ssh_key_env ≡ "") × (a.token_env ≢ ""))

-- Credentials are accepted exactly when one of the two variables is named and the other is not.
pub validate_auth_iff : (a : AuthConfig) → (validate_auth a ≡ ok tt) ↔ HasOneCredential a
unfolding validate_auth
validate_auth_iff a = (
  λ h. ground (arith, eq_iff a.ssh_key_env "", eq_iff a.token_env ""),
  λ h. ground (arith, eq_iff a.ssh_key_env "", eq_iff a.token_env ""),
)

abbrev pub HasOneOrNone : Option AuthConfig → Type 0
HasOneOrNone none = Unit
HasOneOrNone (some a) = HasOneCredential a

argocd_iff : (a : Option AuthConfig) → (check_argocd_auth a ≡ ok tt) ↔ HasOneOrNone a
argocd_iff none = (λ _. tt, λ _. refl)
argocd_iff (some a) = (
  λ h. (validate_auth_iff a).0 (wrap-eq-ok in_argocd_auth (validate_auth a) h),
  λ h. rw ((validate_auth_iff a).1 h) refl,
)

module _ (stat : String → Option Bool) where
  -- A directory of this machine, which may be missing.
  abbrev pub IsLocal : GitConfig → Type 0
  IsLocal c =
      (is_local_path c ≡ true)
      × ((path : String) × (get_local_path c ≡ ok path) × (stat path ≢ some false))

  abbrev pub IsRemote : GitConfig → Type 0
  IsRemote c = (is_local_path c ≡ false) × HasOneCredential c.auth × HasOneOrNone c.argocd_auth

  local_of_validate :
      (c : GitConfig) (r : Result GitError String)
      → get_local_path c ≡ r
      → (r >>= λ path. fail_if (not_directory stat path) (path_not_directory path)) ≡ ok tt
      → (path : String) × (get_local_path c ≡ ok path) × (stat path ≢ some false)
  local_of_validate c (ok path) e h = (path, e, ground arith)
  local_of_validate c (err x) e h = cc

  remote_of_validate :
      (c : GitConfig)
      → (wrap in_auth (validate_auth c.auth) >> check_argocd_auth c.argocd_auth) ≡ ok tt
      → HasOneCredential c.auth × HasOneOrNone c.argocd_auth
  remote_of_validate c h =
      let (a, b) = >>-eq-ok (wrap in_auth (validate_auth c.auth)) _ h in
      (
        (validate_auth_iff c.auth).0 (wrap-eq-ok in_auth (validate_auth c.auth) a),
        (argocd_iff c.argocd_auth).0 b,
      )

  accepted_of_validate :
      (c : GitConfig) → validate stat c ≡ ok tt → (c.url ≢ "") × (IsLocal c ⊎ IsRemote c)
  unfolding validate
  accepted_of_validate c h = elim (Bool-cases (c.url == "")) [
    | inl e ↦ absurd (ground arith)
    | inr e ↦ elim (Bool-cases (is_local_path c)) [
      | inl l ↦ (
        ground (arith, eq_iff c.url ""),
        inl (l, local_of_validate c (get_local_path c) refl (rw (e, l) at h)),
      )
      | inr l ↦
          let (a, b) = remote_of_validate c (rw (e, l) at h) in
          (ground (arith, eq_iff c.url ""), inr (l, a, b))
    ]
  ]

  validate_of_accepted :
      (c : GitConfig) → (c.url ≢ "") × (IsLocal c ⊎ IsRemote c) → validate stat c ≡ ok tt
  unfolding validate
  validate_of_accepted c (url, inl (l, (path, e, dir))) =
      rw (l, e) (ground (arith, eq_iff c.url ""))
  validate_of_accepted c (url, inr (l, a, b)) =
      rw (l, (validate_auth_iff c.auth).1 a, (argocd_iff c.argocd_auth).1 b)
        (ground (arith, eq_iff c.url ""))

  -- A repository is accepted exactly when it has a URL and is local or remote: a file:// URL with
  -- an absolute path, at which there is no other thing than a directory; or any other URL, with
  -- one credential variable for NIC, and one for Argo CD if that has its own.
  pub git-validate_iff :
      (c : GitConfig) → (validate stat c ≡ ok tt) ↔ ((c.url ≢ "") × (IsLocal c ⊎ IsRemote c))
  unfolding validate
  git-validate_iff c = (accepted_of_validate c, validate_of_accepted c)
