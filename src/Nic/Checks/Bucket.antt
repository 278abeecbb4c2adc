-- ===== src/Nic/Checks/Bucket.antt =====
-- What the bucket request of pkg/nic/deploy.go asks for.
use nebari_infrastructure_co.Prelude.{
  String, ◌≡◌, ◌≢◌, ◌⊎◌, inl, inr, true, not, Option, none, some, arith, eq_iff, if◌then◌else◌,
  Bool-cases, ok,
}
use nebari_infrastructure_co.Config.Cluster
use nebari_infrastructure_co.Config.Backups.{
  S3BackupTarget, AzureBackupTarget, LonghornBackupConfig, BackupsConfig, longhorn_config,
  is_enabled, longhorn_enabled, has_bucket_module, pod_identity_auth,
}
use nebari_infrastructure_co.Config.Backups
use nebari_infrastructure_co.Config.Backups.Targets.{IsSoundS3}
use nebari_infrastructure_co.Config.Backups.Enabled.{
  HasSoundTarget, WhenEnabled, backups-validate_iff,
}
use nebari_infrastructure_co.Config.Nebari.{NebariConfig}
use nebari_infrastructure_co.Nic.Platform.{BackupBucketSpec}
use nebari_infrastructure_co.Nic.Checks.{
  backup_bucket_spec, s3_bucket_spec, azure_bucket_spec, target_spec, longhorn_spec,
}

-- A request with a name for the bucket that fits the provider: it creates a bucket, which the provider has a
-- module for, or binds a role, which only AWS has.
pub record IsSupported (provider : String) (b : BackupBucketSpec) : Type 0 where
  pub named : b.name ≢ ""
  pub asks : (b.create ≡ true) ⊎ (b.pod_identity ≡ true)
  pub creates : b.create ≡ true → has_bucket_module provider ≡ true
  pub binds : b.pod_identity ≡ true → provider ≡ "aws"

s3-IsSupported :
    (p : String) (t : S3BackupTarget) (b : BackupBucketSpec)
    → IsSoundS3 p t
    → s3_bucket_spec p t ≡ some b
    → IsSupported p b
unfolding pod_identity_auth
s3-IsSupported p t b s h =
    let named = s.bucket in
    let created = s.created in
    record {
      named = ground arith;
      asks = ground arith;
      creates = λ on. ground (arith, eq_iff p "aws", eq_iff p "azure");
      binds = λ on. ground (arith, eq_iff p "aws");
    }

azure-IsSupported :
    (p : String) (t : Option AzureBackupTarget) (b : BackupBucketSpec)
    → HasSoundTarget p none t
    → azure_bucket_spec t ≡ some b
    → IsSupported p b
azure-IsSupported p none b s h = absurd s
azure-IsSupported p (some t) b s h =
    let named = s.container in
    let created = s.created in
    record {
      named = ground arith;
      asks = ground arith;
      creates = λ on. ground (arith, eq_iff p "aws", eq_iff p "azure");
      binds = λ on. absurd (ground arith);
    }

target-IsSupported :
    (p : String) (s3 : Option S3BackupTarget) (azure : Option AzureBackupTarget)
    (b : BackupBucketSpec)
    → HasSoundTarget p s3 azure
    → target_spec p s3 azure ≡ some b
    → IsSupported p b
target-IsSupported p (some t) none b s h = s3-IsSupported p t b s h
target-IsSupported p (some t) (some u) b s h = absurd s
target-IsSupported p none azure b s h = azure-IsSupported p azure b s h

longhorn-IsSupported :
    (p : String) (c : Option LonghornBackupConfig) (b : BackupBucketSpec)
    → WhenEnabled p c
    → is_enabled c ≡ true
    → longhorn_spec p c ≡ some b
    → IsSupported p b
longhorn-IsSupported p none b s on h = cc
longhorn-IsSupported p (some c) b s on h = elim s [
  | inl off ↦ absurd (cc)
  | inr sound ↦ target-IsSupported p c.s3 c.azure b sound.target h
]

enabled_of_spec :
    (p : String) (c : Option BackupsConfig) (b : BackupBucketSpec)
    → (if not (longhorn_enabled c) then none else longhorn_spec p (longhorn_config c)) ≡ some b
    → (is_enabled (longhorn_config c) ≡ true) × (longhorn_spec p (longhorn_config c) ≡ some b)
unfolding longhorn_enabled longhorn_config
enabled_of_spec p none b h = cc
enabled_of_spec p (some c) b h = elim (Bool-cases (is_enabled c.longhorn)) [
  | inl on ↦ (on, rw (on) at h)
  | inr off ↦ absurd (cc (rw (off) at h))
]

-- Of a configuration whose backup settings are accepted for its provider, a bucket request names a
-- bucket, asks for its creation or for a role, asks for its creation only from a provider that has a
-- module for buckets, and for a role only from AWS.
pub backup_bucket_spec-IsSupported :
    (cfg : NebariConfig) (b : BackupBucketSpec)
    → Backups.validate (Cluster.provider_name cfg.cluster) cfg.backups ≡ ok tt
    → backup_bucket_spec cfg ≡ some b
    → IsSupported (Cluster.provider_name cfg.cluster) b
unfolding backup_bucket_spec
backup_bucket_spec-IsSupported cfg b valid h =
    let p = Cluster.provider_name cfg.cluster in
    let s = (backups-validate_iff p cfg.backups).0 valid in
    let (on, spec) = enabled_of_spec p cfg.backups b h in
    longhorn-IsSupported p (longhorn_config cfg.backups) b s on spec
