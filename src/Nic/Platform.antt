-- ===== src/Nic/Platform.antt =====
-- What pkg/nic calls: the interfaces of pkg/providers/cluster, pkg/providers/dns and pkg/git, and the
-- functions of pkg/argocd, pkg/endpoint, the file system and the Kubernetes client. The world `W` is
-- what these calls change.
use nebari_infrastructure_co.Prelude.Int.{ℤ}
use nebari_infrastructure_co.Prelude.{ℕ, String, Bool, Option, List, Result}
use nebari_infrastructure_co.Prelude.State.{M}
use nebari_infrastructure_co.Config.Value.{Fields}
use nebari_infrastructure_co.Config.Cluster.{ClusterConfig}
use nebari_infrastructure_co.Config.TrustBundle.{ReadError}
use nebari_infrastructure_co.Config.Backups.{LonghornBackupConfig}
use nebari_infrastructure_co.Config.Nebari.{NebariConfig}
use nebari_infrastructure_co.Git.{GitConfig}

-- `cluster.BackupBucketSpec`.
pub record BackupBucketSpec : Type 0 where
  pub name : String
  pub storage_account : String
  pub create : Bool
  pub pod_identity : Bool
  pub force_destroy : Bool

-- `cluster.DeployOptions`; a duration is its nanoseconds.
pub record ClusterDeployOptions : Type 0 where
  pub dry_run : Bool
  pub timeout : ℤ
  pub trust_bundle : String
  pub backup_bucket : Option BackupBucketSpec

-- `cluster.DestroyOptions`.
pub record ClusterDestroyOptions : Type 0 where
  pub dry_run : Bool
  pub force : Bool
  pub timeout : ℤ
  pub trust_bundle : String
  pub backup_bucket : Option BackupBucketSpec

-- `cluster.InfraSettings`.
pub record InfraSettings : Type 0 where
  pub storage_class : String
  pub needs_metal_lb : Bool
  pub load_balancer_annotations : List (String × String)
  pub metal_lb_address_pool : String
  pub keycloak_base_path : String
  pub https_port : ℤ
  pub efs_storage_class : String
  pub supports_local_git_ops : Bool
  pub longhorn_enabled : Bool

-- `cluster.Provider`, with the optional `backupRoleARNResolver`.
pub record ClusterProvider (W : Type 0) : Type 0 where
  pub infra_settings : Option ClusterConfig → InfraSettings
  pub summary : Option ClusterConfig → List (String × String)
  pub deploy : String → Option ClusterConfig → ClusterDeployOptions → M W String (Unit {0})
  pub destroy : String → Option ClusterConfig → ClusterDestroyOptions → M W String (Unit {0})
  pub get_kubeconfig : String → Option ClusterConfig → M W String String
  pub backup_pod_identity_role_arn : Option (String → Option ClusterConfig → M W String String)

-- `dns.Provider`.
pub record DnsProvider (W : Type 0) : Type 0 where
  pub provision_records : String → Option Fields → String → M W String (Unit {0})
  pub destroy_records : String → Option Fields → M W String (Unit {0})

-- `git.Client`.
pub record GitClient (W : Type 0) : Type 0 where
  pub validate_auth : M W String (Unit {0})
  pub init : M W String (Unit {0})
  pub work_dir : String
  pub commit_and_push : String → M W String (Unit {0})
  pub is_bootstrapped : M W String Bool
  pub write_bootstrap_marker : M W String (Unit {0})
  pub cleanup : M W String (Unit {0})

-- `endpoint.LoadBalancerEndpoint`.
pub record LoadBalancerEndpoint : Type 0 where
  pub hostname : String
  pub ip : String

-- `foundationalSecrets` of pkg/nic/deploy.go.
pub record FoundationalSecrets : Type 0 where
  pub keycloak_admin : String
  pub keycloak_db : String
  pub postgres_admin : String
  pub postgres_user : String
  pub realm_admin : String
  pub redis : String

-- What `argocd.FoundationalConfig` is filled with; its constants are left out.
pub record FoundationalConfig : Type 0 where
  pub secrets : FoundationalSecrets
  pub argo_cd_client_secret : String
  pub longhorn_client_secret : String
  pub metal_lb_enabled : Bool
  pub metal_lb_address_pool : String
  pub backups : Option LonghornBackupConfig
  pub backup_role_arn : String

-- The calls that go outside pkg/nic and pkg/config. `R` and `K` are a parsed kubeconfig and a
-- Kubernetes client; `install` is given the domain, the base path and the secret that
-- `ConfigWithOIDC` takes.
pub record Platform (W R K : Type 0) : Type 0 where
  pub stat : W → String → Option Bool
  pub read_file : W → String → Result ReadError String
  pub user_home_dir : W → Option String
  pub temp_dir : W → String
  pub preflight_gateway_tls : W → NebariConfig → Result String (Unit {0})
  pub ensure_local_git_ops_dir : String → M W String (Unit {0})
  pub mkdir_all : String → M W String (Unit {0})
  pub write_config : String → NebariConfig → M W String (Unit {0})
  pub new_git_client : GitConfig → M W String (GitClient W)
  pub write_all_to_git :
      GitClient W → NebariConfig → GitConfig → InfraSettings → String → M W String (Unit {0})
  pub random_bytes : ℕ → M W String (List ℕ)
  pub install :
      NebariConfig
      → ClusterProvider W
      → Option GitConfig
      → String
      → String × (String × String)
      → M W String (Unit {0})
  pub install_foundational_services :
      NebariConfig
      → ClusterProvider W
      → Option GitConfig
      → FoundationalConfig
      → M W String (Unit {0})
  pub rest_config_from_kube_config : String → Result String R
  pub new_for_config : R → Result String K
  pub get_load_balancer_endpoint : K → M W String (Option LoadBalancerEndpoint)
