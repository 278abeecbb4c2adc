-- ===== src/Nic/Gitops/Scrubbed.antt =====
-- What the configuration holds that pkg/nic/deploy.go writes into the repository.
use nebari_infrastructure_co.Prelude.{
  eq_iff, sym, false, String, ◌≡◌, refl, ap, inl, inr, Option, none, some, arith, ◌==◌, Bool-cases,
}
use nebari_infrastructure_co.Git.{GitConfig, redacted_copy}
use nebari_infrastructure_co.Config.Nebari.{NebariConfig}
use nebari_infrastructure_co.Config.TrustBundle.Resolved.{resolve-inline_of_resolve}
use nebari_infrastructure_co.Config.TrustBundle.{ReadError, resolve_pem, TrustBundleConfig}
use nebari_infrastructure_co.Nic.Gitops.{ok, Result, scrubbed_config, scrub_git, scrub_bundle}

-- The repository with its place, branch and path, and with nothing that names a credential.
abbrev pub IsRedacted : Option GitConfig → Option GitConfig → Type 0
IsRedacted none none = Unit
IsRedacted none (some h) = ⊥
IsRedacted (some g) none = ⊥
IsRedacted (some g) (some h) =
    (h.url ≡ g.url)
    × (h.branch ≡ g.branch)
    × (h.path ≡ g.path)
    × (h.auth.ssh_key_env ≡ "")
    × (h.auth.token_env ≡ "")
    × (h.auth.insecure_skip_host_key_verification ≡ false)
    × (h.argocd_auth ≡ none)

-- A configuration that stands for another one with a repository, on a machine without the files of the
-- bundle: the repository names no credential, the bundle is resolved to the same text whatever files there
-- are, and all else is as it was.
pub record IsScrubbed (of out : NebariConfig) (g : Option GitConfig) (pem : String) : Type 0 where
  pub repository : IsRedacted g out.git_repository
  pub bundle :
      (read_file : String → Result ReadError String)
      → resolve_pem read_file out.trust_bundle ≡ ok pem
  pub project_name : out.project_name ≡ of.project_name
  pub domain : out.domain ≡ of.domain
  pub cluster : out.cluster ≡ of.cluster
  pub dns : out.dns ≡ of.dns
  pub certificate : out.certificate ≡ of.certificate
  pub backups : out.backups ≡ of.backups

scrub_git-IsRedacted : (g : Option GitConfig) → IsRedacted g (scrub_git g)
scrub_git-IsRedacted none = tt
scrub_git-IsRedacted (some g) = (refl, refl, refl, refl, refl, refl, refl)

resolve_pem-scrub_bundle :
    (read_file other : String → Result ReadError String) (t : Option TrustBundleConfig)
    (pem : String)
    → resolve_pem read_file t ≡ ok pem
    → resolve_pem other (scrub_bundle t pem) ≡ ok pem
unfolding resolve_pem
resolve_pem-scrub_bundle read_file other none pem h = h
resolve_pem-scrub_bundle read_file other (some t) pem h = elim (Bool-cases (pem == "")) [
  | inl empty ↦ rw empty (ap (λ s. ok s) (sym ((eq_iff pem "").0 empty)))
  | inr full ↦ rw full (resolve-inline_of_resolve read_file other t pem h full)
]

-- When the bundle of a configuration is resolved to a text, the configuration that is committed with the
-- text has: the repository that is in force, with its URL, branch and path and without credentials; a
-- bundle that is resolved to the same text whatever files there are; and all other parts as they were,
-- those that name files or variables of the environment among them.
pub scrubbed_config-IsScrubbed :
    (read_file : String → Result ReadError String) (cfg : NebariConfig) (g : Option GitConfig)
    (pem : String)
    → resolve_pem read_file cfg.trust_bundle ≡ ok pem
    → IsScrubbed cfg (scrubbed_config cfg g pem) g pem
unfolding scrubbed_config
scrubbed_config-IsScrubbed read_file cfg g pem h = record {
  repository = scrub_git-IsRedacted g;
  bundle = λ other. resolve_pem-scrub_bundle read_file other cfg.trust_bundle pem h;
  project_name = refl;
  domain = refl;
  cluster = refl;
  dns = refl;
  certificate = refl;
  backups = refl;
}

scrub_git_again : (g : Option GitConfig) → scrub_git (scrub_git g) ≡ scrub_git g
scrub_git_again none = refl
scrub_git_again (some g) = refl

scrub_bundle_again :
    (t : Option TrustBundleConfig) (pem : String)
    → scrub_bundle (scrub_bundle t pem) pem ≡ scrub_bundle t pem
scrub_bundle_again none pem = refl
scrub_bundle_again (some t) pem = grind arith

-- To scrub the committed configuration again, with its own repository and the same bundle, changes
-- nothing; and the repository in it is what `RedactedCopy` gives.
pub scrubbed_config_again :
    (cfg : NebariConfig) (g : GitConfig) (pem : String)
    → let out = scrubbed_config cfg (some g) pem in
      (scrubbed_config out out.git_repository pem ≡ out)
      × (out.git_repository ≡ some (redacted_copy g))
unfolding scrubbed_config redacted_copy
scrubbed_config_again cfg g pem =
    let out = scrubbed_config cfg (some g) pem in
    (ap (λ t. record out { trust_bundle = t }) (scrub_bundle_again cfg.trust_bundle pem), refl)
