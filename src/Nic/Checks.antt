-- ===== src/Nic/Checks.antt =====
-- pkg/nic/validate.go and pkg/nic/backups.go: what is checked before any provider is called; and
-- `backupBucketSpec` of pkg/nic/deploy.go.
pub mod Accepted
pub mod Bucket
use nebari_infrastructure_co.Prelude.{
  String, Bool, true, false, not, ◌&&◌, Option, none, some, ◌==◌, if◌then◌else◌, Result, ok, ◌>>=◌,
  ◌>>◌, fail_if, wrap,
}
use nebari_infrastructure_co.Config.Cluster
use nebari_infrastructure_co.Config.Nebari
use nebari_infrastructure_co.Config.Nebari.{NebariConfig, ValidateOptions, ConfigError}
use nebari_infrastructure_co.Config.Backups.{
  S3BackupTarget, AzureBackupTarget, LonghornBackupConfig, BackupsConfig, longhorn_config,
  longhorn_enabled, pod_identity_auth, s3_retain_on_destroy, azure_retain_on_destroy,
}
use nebari_infrastructure_co.Registry.{Registry, RegistryError}
use nebari_infrastructure_co.Registry
use nebari_infrastructure_co.Nic.Platform.{BackupBucketSpec, ClusterProvider, InfraSettings}

-- `longhorn.StorageClassName`.
abbrev pub longhorn_storage_class : String
longhorn_storage_class = "longhorn"

pub data CheckError : Type 0 where
  configuration_invalid : ConfigError → CheckError
  cluster_provider_missing : String → RegistryError → CheckError
  backups_need_longhorn : String → String → CheckError

-- `ensureBackupsHaveLonghorn`.
unfoldable pub ensure_backups_have_longhorn : NebariConfig → String → Result CheckError (Unit {0})
ensure_backups_have_longhorn cfg storage_class =
    if not (longhorn_enabled cfg.backups)
    then ok tt
    else fail_if (not (storage_class == longhorn_storage_class))
        (backups_need_longhorn (Cluster.provider_name cfg.cluster) storage_class)

module _ {W D : Type 0} (reg : Registry (ClusterProvider W) D) where
  -- `validateOptions`.
  unfoldable pub validate_options : ValidateOptions
  validate_options = record {
    cluster_providers = Registry.list reg.cluster_providers;
    dns_providers = Registry.list reg.dns_providers;
  }

  abbrev pub find_provider : NebariConfig → Result CheckError (ClusterProvider W)
  find_provider cfg =
      let name = Cluster.provider_name cfg.cluster in
      wrap (cluster_provider_missing name) (Registry.get name reg.cluster_providers)

  abbrev pub check_config : (String → Option Bool) → NebariConfig → Result CheckError (Unit {0})
  check_config stat cfg = wrap configuration_invalid (Nebari.validate stat validate_options cfg)

  -- `Client.Validate`.
  unfoldable pub validate_client :
      (String → Option Bool) → NebariConfig → Result CheckError (Unit {0})
  validate_client stat cfg = do
    check_config stat cfg
    provider ← find_provider cfg
    ensure_backups_have_longhorn cfg (provider.infra_settings cfg.cluster).storage_class

abbrev s3_bucket_spec : String → S3BackupTarget → Option BackupBucketSpec
s3_bucket_spec provider s3 =
    let create = s3.create_bucket && s3.endpoint == "" in
    let pod_identity = pod_identity_auth provider (some s3) in
    if not create && not pod_identity
    then none
    else some (record {
      name = s3.bucket;
      storage_account = "";
      create = create;
      pod_identity = pod_identity;
      force_destroy = not (s3_retain_on_destroy (some s3));
    })

abbrev azure_bucket_spec : Option AzureBackupTarget → Option BackupBucketSpec
azure_bucket_spec none = none
azure_bucket_spec (some az) =
    if az.create_container && az.endpoint == ""
    then some (record {
      name = az.container;
      storage_account = az.storage_account;
      create = true;
      pod_identity = false;
      force_destroy = not (azure_retain_on_destroy (some az));
    })
    else none

abbrev target_spec :
    String → Option S3BackupTarget → Option AzureBackupTarget → Option BackupBucketSpec
target_spec provider (some s3) azure = s3_bucket_spec provider s3
target_spec provider none azure = azure_bucket_spec azure

abbrev longhorn_spec : String → Option LonghornBackupConfig → Option BackupBucketSpec
longhorn_spec provider none = none
longhorn_spec provider (some lh) = target_spec provider lh.s3 lh.azure

-- `backupBucketSpec`.
unfoldable pub backup_bucket_spec : NebariConfig → Option BackupBucketSpec
unfolding pod_identity_auth s3_retain_on_destroy azure_retain_on_destroy
backup_bucket_spec cfg =
    if not (longhorn_enabled cfg.backups)
    then none
    else longhorn_spec (Cluster.provider_name cfg.cluster) (longhorn_config cfg.backups)
