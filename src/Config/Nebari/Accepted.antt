-- ===== src/Config/Nebari/Accepted.antt =====
-- When a whole configuration is accepted.
use nebari_infrastructure_co.Prelude.{
  String, ◌≡◌, refl, ◌≢◌, ◌↔◌, ◌⊎◌, Bool, true, false, not, Option, none, some, List, arith, ◌==◌,
  eq_iff, Result, ok, err, fail_if, wrap, >>-eq-ok, >>-ok, fail_if-eq-ok, fail_if-ok, wrap-eq-ok,
}
use nebari_infrastructure_co.Git
use nebari_infrastructure_co.Git.{GitConfig}
use nebari_infrastructure_co.Git.Accepted.{IsLocal, IsRemote, git-validate_iff}
use nebari_infrastructure_co.Config.Cluster
use nebari_infrastructure_co.Config.Cluster.{ClusterConfig}
use nebari_infrastructure_co.Config.Cluster.Single.{
  IsSingle as IsSingleCluster, cluster-validate_iff,
}
use nebari_infrastructure_co.Config.Dns
use nebari_infrastructure_co.Config.Dns.{DnsConfig}
use nebari_infrastructure_co.Config.Dns.Single.{IsSingle as IsSingleDns, dns-validate_iff}
use nebari_infrastructure_co.Config.Certificate
use nebari_infrastructure_co.Config.Certificate.{CertificateConfig}
use nebari_infrastructure_co.Config.Certificate.Sources.{
  IsManaged, IsBrought, certificate-validate_iff,
}
use nebari_infrastructure_co.Config.TrustBundle
use nebari_infrastructure_co.Config.TrustBundle.{TrustBundleConfig}
use nebari_infrastructure_co.Config.Nebari.ProjectName.{safe_project_name-IsName}
use nebari_infrastructure_co.Config.Backups
use nebari_infrastructure_co.Config.Backups.Enabled.{WhenEnabled, backups-validate_iff}
use nebari_infrastructure_co.Config.Nebari.{
  ValidateOptions, NebariConfig, project_name_required, project_name_invalid, invalid_cluster,
  invalid_dns, invalid_git_repository, invalid_trust_bundle, invalid_certificate, invalid_backups,
  safe_project_name, check_cluster, check_dns, check_git, check_bundle, validate,
}

abbrev pub HasCluster : List String → Option ClusterConfig → Type 0
HasCluster names none = ⊥
HasCluster names (some c) = IsSingleCluster names c

abbrev pub HasDns : List String → Option DnsConfig → Type 0
HasDns names none = Unit
HasDns names (some d) = IsSingleDns names d

abbrev pub HasGit : (String → Option Bool) → Option GitConfig → Type 0
HasGit stat none = Unit
HasGit stat (some g) = (g.url ≢ "") × (IsLocal stat g ⊎ IsRemote stat g)

abbrev pub HasCertificate : Option CertificateConfig → Type 0
HasCertificate none = Unit
HasCertificate (some c) = IsManaged c ⊎ IsBrought c

-- What an accepted configuration holds, part by part.
pub record IsAccepted (stat : String → Option Bool) (opts : ValidateOptions) (c : NebariConfig)
    : Type 0 where
  pub project_name : safe_project_name c.project_name ≡ true
  pub cluster : HasCluster opts.cluster_providers c.cluster
  pub dns : HasDns opts.dns_providers c.dns
  pub git_repository : HasGit stat c.git_repository
  pub trust_bundle : TrustBundle.validate c.trust_bundle ≡ ok tt
  pub certificate : HasCertificate c.certificate
  pub backups : WhenEnabled (Cluster.provider_name c.cluster) (Backups.longhorn_config c.backups)

cluster_iff :
    (names : List String) (c : Option ClusterConfig)
    → (check_cluster names c ≡ ok tt) ↔ HasCluster names c
cluster_iff names none = (λ h. cc, λ h. absurd h)
cluster_iff names (some c) = (
  λ h. (cluster-validate_iff names c).0 (wrap-eq-ok invalid_cluster (Cluster.validate names c) h),
  λ h. rw ((cluster-validate_iff names c).1 h) refl,
)

dns_iff :
    (names : List String) (d : Option DnsConfig) → (check_dns names d ≡ ok tt) ↔ HasDns names d
dns_iff names none = (λ _. tt, λ _. refl)
dns_iff names (some d) = (
  λ h. (dns-validate_iff names d).0 (wrap-eq-ok invalid_dns (Dns.validate names d) h),
  λ h. rw ((dns-validate_iff names d).1 h) refl,
)

git_iff :
    (stat : String → Option Bool) (g : Option GitConfig)
    → (check_git stat g ≡ ok tt) ↔ HasGit stat g
git_iff stat none = (λ _. tt, λ _. refl)
git_iff stat (some g) = (
  λ h. (git-validate_iff stat g).0 (wrap-eq-ok invalid_git_repository (Git.validate stat g) h),
  λ h. rw ((git-validate_iff stat g).1 h) refl,
)

certificate_iff :
    (c : Option CertificateConfig) → (Certificate.validate c ≡ ok tt) ↔ HasCertificate c
certificate_iff none = (λ _. tt, λ _. unfold Certificate.validate in refl)
certificate_iff (some c) = certificate-validate_iff c

bundle_iff :
    (t : Option TrustBundleConfig) → (check_bundle t ≡ ok tt) ↔ (TrustBundle.validate t ≡ ok tt)
bundle_iff none = (λ _. unfold TrustBundle.validate in refl, λ _. refl)
bundle_iff (some t) =
    (λ h. wrap-eq-ok invalid_trust_bundle (TrustBundle.validate (some t)) h, λ h. rw h refl)

accepted_of_validate :
    (stat : String → Option Bool) (opts : ValidateOptions) (c : NebariConfig)
    → validate stat opts c ≡ ok tt
    → IsAccepted stat opts c
unfolding validate
accepted_of_validate stat opts c h =
    let unsafe = not (safe_project_name c.project_name) in
    let (_, h₁) = >>-eq-ok (fail_if (c.project_name == "") project_name_required) _ h in
    let (safe, h₂) = >>-eq-ok (fail_if unsafe (project_name_invalid c.project_name)) _ h₁ in
    let (cluster, h₃) = >>-eq-ok (check_cluster opts.cluster_providers c.cluster) _ h₂ in
    let (dns, h₄) = >>-eq-ok (check_dns opts.dns_providers c.dns) _ h₃ in
    let (git, h₅) = >>-eq-ok (check_git stat c.git_repository) _ h₄ in
    let (bundle, h₆) = >>-eq-ok (check_bundle c.trust_bundle) _ h₅ in
    let (certificate, backups) =
      >>-eq-ok (wrap invalid_certificate (Certificate.validate c.certificate)) _ h₆ in
    record {
      project_name =
          ground (arith, fail_if-eq-ok unsafe (project_name_invalid c.project_name) safe);
      cluster = (cluster_iff opts.cluster_providers c.cluster).0 cluster;
      dns = (dns_iff opts.dns_providers c.dns).0 dns;
      git_repository = (git_iff stat c.git_repository).0 git;
      trust_bundle = (bundle_iff c.trust_bundle).0 bundle;
      certificate =
          (certificate_iff c.certificate).0
            (wrap-eq-ok invalid_certificate (Certificate.validate c.certificate) certificate);
      backups = (backups-validate_iff (Cluster.provider_name c.cluster) c.backups).0 (
          wrap-eq-ok invalid_backups (Backups.validate (Cluster.provider_name c.cluster) c.backups)
            backups);
    }

not_empty_of_safe : (s : String) → safe_project_name s ≡ true → (s == "") ≡ false
not_empty_of_safe s h = ground (arith, eq_iff s "", (safe_project_name-IsName s h).0)

wrap-ok {ℓ κ} :
    {E : Type ℓ} {F : Type κ} (f : E → F) (m : Result E (Unit {0})) → m ≡ ok tt → wrap f m ≡ ok tt
wrap-ok f (ok tt) h = refl
wrap-ok f (err e) h = cc

validate_of_accepted :
    (stat : String → Option Bool) (opts : ValidateOptions) (c : NebariConfig)
    → IsAccepted stat opts c
    → validate stat opts c ≡ ok tt
unfolding validate
validate_of_accepted stat opts c a =
    >>-ok (fail_if (c.project_name == "") project_name_required) _
      (fail_if-ok _ project_name_required (not_empty_of_safe c.project_name a.project_name))
      (>>-ok
        (fail_if (not (safe_project_name c.project_name)) (project_name_invalid c.project_name)) _
        (rw a.project_name refl)
        (>>-ok _ _ ((cluster_iff opts.cluster_providers c.cluster).1 a.cluster) (
          >>-ok _ _ ((dns_iff opts.dns_providers c.dns).1 a.dns) (
            >>-ok _ _ ((git_iff stat c.git_repository).1 a.git_repository) (
              >>-ok _ _ ((bundle_iff c.trust_bundle).1 a.trust_bundle) (
                >>-ok _ _
                  (wrap-ok invalid_certificate _ ((certificate_iff c.certificate).1 a.certificate))
                  (wrap-ok invalid_backups _ (
                    (backups-validate_iff (Cluster.provider_name c.cluster) c.backups).1
                      a.backups))))))))

-- A configuration is accepted exactly when its project name is safe, it has a cluster block, and
-- each block is accepted that it has: one known cluster provider, one known DNS provider, a local
-- or remote repository, a trust bundle, a certificate, and backups that are disabled or sound for
-- the cluster provider.
pub nebari-validate_iff :
    (stat : String → Option Bool) (opts : ValidateOptions) (c : NebariConfig)
    → (validate stat opts c ≡ ok tt) ↔ IsAccepted stat opts c
nebari-validate_iff stat opts c =
    (accepted_of_validate stat opts c, validate_of_accepted stat opts c)
