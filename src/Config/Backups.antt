-- ===== src/Config/Backups.antt =====
-- pkg/config/backups.go: the Longhorn backup settings.
pub mod Url
pub mod Targets
pub mod Enabled
pub mod Prefix
use nebari_infrastructure_co.Prelude.{
  ℕ, ◌+◌, String, Bool, true, false, not, ◌&&◌, ◌||◌, Option, none, some, ◌==◌, nat_eq,
  if◌then◌else◌, is_some, Result, ok, err, ◌>>=◌, ◌>>◌, fail_if,
}
use nebari_infrastructure_co.Prelude.Text
use nebari_infrastructure_co.Prelude.Int.{ℤ, is_positive}
use nebari_infrastructure_co.Config.Cron.{five_field_cron}

pub record CaCertRef : Type 0 where
  pub kind : String
  pub name : String
  pub namespace : String
  pub key : String

pub record S3BackupTarget : Type 0 where
  pub bucket : String
  pub region : String
  pub prefix : String
  pub create_bucket : Bool
  pub retain_on_destroy : Option Bool
  pub endpoint : String
  pub virtual_hosted_style : Bool
  pub access_key_id_env : String
  pub secret_access_key_env : String
  pub ca_cert : Option CaCertRef

pub record AzureBackupTarget : Type 0 where
  pub container : String
  pub storage_account : String
  pub prefix : String
  pub create_container : Bool
  pub retain_on_destroy : Option Bool
  pub endpoint : String
  pub account_name_env : String
  pub account_key_env : String

pub record ScheduleConfig : Type 0 where
  pub cron : String
  pub retain : ℤ
  pub concurrency : ℤ

pub record BackupSchedules : Type 0 where
  pub snapshot : ScheduleConfig
  pub backup : ScheduleConfig

pub record LonghornBackupConfig : Type 0 where
  pub enabled : Option Bool
  pub s3 : Option S3BackupTarget
  pub azure : Option AzureBackupTarget
  pub allow_recurring_job_while_volume_detached : Option Bool
  pub schedules : BackupSchedules

pub record BackupsConfig : Type 0 where
  pub longhorn : Option LonghornBackupConfig

pub data BackupsError : Type 0 where
  not_one_target : BackupsError
  bad_cron bad_retain bad_concurrency : String → BackupsError
  s3_bucket_required s3_region_required s3_credentials_required s3_half_credentials : BackupsError
  create_bucket_with_endpoint : BackupsError
  create_bucket_unsupported : String → BackupsError
  azure_container_required azure_storage_account_required : BackupsError
  azure_account_name_required azure_account_key_required : BackupsError
  create_container_with_endpoint : BackupsError
  create_container_unsupported : String → BackupsError
  ca_cert_kind : String → BackupsError
  ca_cert_name_required ca_cert_key_required : BackupsError

-- A `*bool` with the value that nil stands for.
abbrev or_default : Bool → Option Bool → Bool
or_default d none = d
or_default d (some b) = b

-- `LonghornBackupConfig.IsEnabled`.
unfoldable pub is_enabled : Option LonghornBackupConfig → Bool
is_enabled none = false
is_enabled (some c) = or_default true c.enabled

-- `LonghornConfig`.
unfoldable pub longhorn_config : Option BackupsConfig → Option LonghornBackupConfig
longhorn_config none = none
longhorn_config (some c) = c.longhorn

-- `LonghornEnabled`.
unfoldable pub longhorn_enabled : Option BackupsConfig → Bool
unfolding is_enabled
longhorn_enabled none = false
longhorn_enabled (some c) = is_enabled c.longhorn

-- `AllowDetached`.
unfoldable pub allow_detached : Option LonghornBackupConfig → Bool
allow_detached none = true
allow_detached (some c) = or_default true c.allow_recurring_job_while_volume_detached

abbrev pub provider_name_aws : String
provider_name_aws = "aws"

-- `PodIdentityAuth`.
unfoldable pub pod_identity_auth : String → Option S3BackupTarget → Bool
pod_identity_auth provider_name none = false
pod_identity_auth provider_name (some t) =
    provider_name == provider_name_aws
    && t.endpoint == ""
    && t.access_key_id_env == ""
    && t.secret_access_key_env == ""

-- `S3BackupTarget.RetainOnDestroyEnabled`.
unfoldable pub s3_retain_on_destroy : Option S3BackupTarget → Bool
s3_retain_on_destroy none = true
s3_retain_on_destroy (some t) = or_default true t.retain_on_destroy

-- `AzureBackupTarget.RetainOnDestroyEnabled`.
unfoldable pub azure_retain_on_destroy : Option AzureBackupTarget → Bool
azure_retain_on_destroy none = true
azure_retain_on_destroy (some t) = or_default true t.retain_on_destroy

-- `providersWithBucketModule`.
abbrev pub has_bucket_module : String → Bool
has_bucket_module name = name == provider_name_aws || name == "azure"

unfoldable pub validate_schedule : String → ScheduleConfig → Result BackupsError (Unit {0})
validate_schedule name s = do
  fail_if (not (five_field_cron s.cron)) (bad_cron name)
  fail_if (not (is_positive s.retain)) (bad_retain name)
  fail_if (not (is_positive s.concurrency)) (bad_concurrency name)

-- `CACertRef.validate`.
unfoldable pub validate_ca_cert : CaCertRef → Result BackupsError (Unit {0})
validate_ca_cert r = do
  fail_if (not (r.kind == "secret" || r.kind == "configmap")) (ca_cert_kind r.kind)
  fail_if (r.name == "") ca_cert_name_required
  fail_if (r.key == "") ca_cert_key_required

abbrev check_ca_cert : Option CaCertRef → Result BackupsError (Unit {0})
check_ca_cert none = ok tt
check_ca_cert (some r) = validate_ca_cert r

abbrev check_credentials : String → S3BackupTarget → Result BackupsError (Unit {0})
check_credentials provider_name t =
    if t.access_key_id_env == "" && t.secret_access_key_env == ""
    then fail_if (not (pod_identity_auth provider_name (some t))) s3_credentials_required
    else fail_if (t.access_key_id_env == "" || t.secret_access_key_env == "") s3_half_credentials

abbrev check_create_bucket : String → S3BackupTarget → Result BackupsError (Unit {0})
check_create_bucket provider_name t =
    if t.create_bucket
    then (do
      fail_if (not (t.endpoint == "")) create_bucket_with_endpoint
      fail_if (not (has_bucket_module provider_name)) (create_bucket_unsupported provider_name))
    else ok tt

-- `S3BackupTarget.validate`.
unfoldable pub validate_s3 : String → S3BackupTarget → Result BackupsError (Unit {0})
unfolding pod_identity_auth validate_ca_cert
validate_s3 provider_name t = do
  fail_if (t.bucket == "") s3_bucket_required
  fail_if (t.region == "") s3_region_required
  check_credentials provider_name t
  check_create_bucket provider_name t
  check_ca_cert t.ca_cert

-- `AzureBackupTarget.validate`.
unfoldable pub validate_azure : String → AzureBackupTarget → Result BackupsError (Unit {0})
validate_azure provider_name t = do
  fail_if (t.container == "") azure_container_required
  fail_if (t.storage_account == "") azure_storage_account_required
  fail_if (t.account_name_env == "") azure_account_name_required
  fail_if (t.account_key_env == "") azure_account_key_required
  fail_if (t.create_container && not (t.endpoint == "")) create_container_with_endpoint
  fail_if (t.create_container && not (provider_name == "azure"))
      (create_container_unsupported provider_name)

abbrev one_if : Bool → ℕ
one_if b = if b then 1 else 0

-- The end of `LonghornBackupConfig.Validate`; with neither target its caller has failed before.
abbrev validate_target :
    String → Option S3BackupTarget → Option AzureBackupTarget → Result BackupsError (Unit {0})
validate_target provider_name (some t) azure = validate_s3 provider_name t
validate_target provider_name none (some t) = validate_azure provider_name t
validate_target provider_name none none = err not_one_target

-- `LonghornBackupConfig.Validate`.
unfoldable pub validate_longhorn : String → LonghornBackupConfig → Result BackupsError (Unit {0})
validate_longhorn provider_name c = do
  fail_if (not (nat_eq (one_if (is_some c.s3) + one_if (is_some c.azure)) 1)) not_one_target
  validate_schedule "snapshot" c.schedules.snapshot
  validate_schedule "backup" c.schedules.backup
  validate_target provider_name c.s3 c.azure

abbrev validate_if_enabled : String → Option LonghornBackupConfig → Result BackupsError (Unit {0})
validate_if_enabled provider_name none = ok tt
validate_if_enabled provider_name (some c) =
    if not (is_enabled (some c)) then ok tt else validate_longhorn provider_name c

-- `BackupsConfig.Validate`.
unfoldable pub validate : String → Option BackupsConfig → Result BackupsError (Unit {0})
validate provider_name none = ok tt
validate provider_name (some c) = validate_if_enabled provider_name c.longhorn
