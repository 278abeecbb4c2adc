-- ===== src/Config/Nebari.antt =====
-- `NebariConfig` of pkg/config/config.go and its validation.
pub mod ProjectName
pub mod Accepted
use nebari_infrastructure_co.Prelude.{
  Char, code, String, Bool, true, false, not, ◌&&◌, ◌||◌, Option, none, some, List, [], ◌==◌, leb,
  is_char, Result, ok, err, ◌>>=◌, ◌>>◌, fail_if, wrap,
}
use nebari_infrastructure_co.Git
use nebari_infrastructure_co.Git.{GitConfig, GitError}
use nebari_infrastructure_co.Config.Cluster
use nebari_infrastructure_co.Config.Cluster.{ClusterConfig, ClusterError}
use nebari_infrastructure_co.Config.Dns
use nebari_infrastructure_co.Config.Dns.{DnsConfig, DnsError}
use nebari_infrastructure_co.Config.Certificate
use nebari_infrastructure_co.Config.Certificate.{CertificateConfig, CertificateError}
use nebari_infrastructure_co.Config.TrustBundle
use nebari_infrastructure_co.Config.TrustBundle.{TrustBundleConfig, BundleError}
use nebari_infrastructure_co.Config.Backups
use nebari_infrastructure_co.Config.Backups.{BackupsConfig, BackupsError}

pub record ValidateOptions : Type 0 where
  pub cluster_providers : List String
  pub dns_providers : List String

pub record NebariConfig : Type 0 where
  pub project_name : String
  pub domain : String
  pub cluster : Option ClusterConfig
  pub dns : Option DnsConfig
  pub git_repository : Option GitConfig
  pub certificate : Option CertificateConfig
  pub trust_bundle : Option TrustBundleConfig
  pub backups : Option BackupsConfig

pub data ConfigError : Type 0 where
  project_name_required : ConfigError
  project_name_invalid : String → ConfigError
  cluster_required : ConfigError
  invalid_cluster : ClusterError → ConfigError
  invalid_dns : DnsError → ConfigError
  invalid_git_repository : GitError → ConfigError
  invalid_trust_bundle : BundleError → ConfigError
  invalid_certificate : CertificateError → ConfigError
  invalid_backups : BackupsError → ConfigError

abbrev pub is_alphanumeric : Char → Bool
is_alphanumeric c =
    (leb b'a' (code c) && leb (code c) b'z')
    || (leb b'A' (code c) && leb (code c) b'Z')
    || (leb b'0' (code c) && leb (code c) b'9')

abbrev pub is_name_char : Char → Bool
is_name_char c = is_alphanumeric c || is_char b'_' c || is_char b'-' c

abbrev pub all_chars : (Char → Bool) → String → Bool
all_chars p String.[] = true
all_chars p (String.◌∷◌ c s) = p c && all_chars p s

-- `safeProjectName.MatchString`: `^[a-zA-Z0-9][a-zA-Z0-9_-]*$`.
unfoldable pub safe_project_name : String → Bool
safe_project_name String.[] = false
safe_project_name (String.◌∷◌ c s) = is_alphanumeric c && all_chars is_name_char s

abbrev pub check_cluster : List String → Option ClusterConfig → Result ConfigError (Unit {0})
check_cluster names none = err cluster_required
check_cluster names (some c) = wrap invalid_cluster (Cluster.validate names c)

abbrev pub check_dns : List String → Option DnsConfig → Result ConfigError (Unit {0})
check_dns names none = ok tt
check_dns names (some d) = wrap invalid_dns (Dns.validate names d)

abbrev pub check_git : (String → Option Bool) → Option GitConfig → Result ConfigError (Unit {0})
check_git stat none = ok tt
check_git stat (some g) = wrap invalid_git_repository (Git.validate stat g)

abbrev pub check_bundle : Option TrustBundleConfig → Result ConfigError (Unit {0})
check_bundle none = ok tt
check_bundle (some t) = wrap invalid_trust_bundle (TrustBundle.validate (some t))

-- `NebariConfig.Validate`.
unfoldable pub validate :
    (String → Option Bool) → ValidateOptions → NebariConfig → Result ConfigError (Unit {0})
validate stat opts c = do
  fail_if (c.project_name == "") project_name_required
  fail_if (not (safe_project_name c.project_name)) (project_name_invalid c.project_name)
  check_cluster opts.cluster_providers c.cluster
  check_dns opts.dns_providers c.dns
  check_git stat c.git_repository
  check_bundle c.trust_bundle
  wrap invalid_certificate (Certificate.validate c.certificate)
  wrap invalid_backups (Backups.validate (Cluster.provider_name c.cluster) c.backups)
