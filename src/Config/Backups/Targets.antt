-- ===== src/Config/Backups/Targets.antt =====
-- When the backup settings are accepted.
use nebari_infrastructure_co.Prelude.{
  String, ◌≡◌, refl, ◌≢◌, ◌↔◌, ◌⊎◌, true, false, Option, none, some, arith, ◌==◌, eq_iff, ok,
  fail_if, >>-eq-ok, >>-ok, fail_if-eq-ok, fail_if-ok,
}
use nebari_infrastructure_co.Config.Backups.{
  CaCertRef, S3BackupTarget, AzureBackupTarget, pod_identity_auth, validate_ca_cert, validate_s3,
  validate_azure, s3_bucket_required, s3_region_required, check_credentials, check_create_bucket,
  check_ca_cert,
}

-- The provider can reach the target with the cluster's own role: the provider is aws and the
-- target has no endpoint of its own.
abbrev pub IsNativeS3 : String → S3BackupTarget → Type 0
IsNativeS3 p t = (p ≡ "aws") × (t.endpoint ≡ "")

abbrev pub IsSoundRef : CaCertRef → Type 0
IsSoundRef r = ((r.kind ≡ "secret") ⊎ (r.kind ≡ "configmap")) × (r.name ≢ "") × (r.key ≢ "")

abbrev pub HasSoundRef : Option CaCertRef → Type 0
HasSoundRef none = Unit
HasSoundRef (some r) = IsSoundRef r

abbrev pub HasCredentials : String → S3BackupTarget → Type 0
HasCredentials p t =
    ((t.access_key_id_env ≢ "") × (t.secret_access_key_env ≢ ""))
    ⊎ ((t.access_key_id_env ≡ "") × (t.secret_access_key_env ≡ "") × IsNativeS3 p t)

abbrev pub CanCreateBucket : String → S3BackupTarget → Type 0
CanCreateBucket p t =
    (t.create_bucket ≡ false) ⊎ ((t.endpoint ≡ "") × ((p ≡ "aws") ⊎ (p ≡ "azure")))

pub record IsSoundS3 (p : String) (t : S3BackupTarget) : Type 0 where
  pub bucket : t.bucket ≢ ""
  pub region : t.region ≢ ""
  pub credentials : HasCredentials p t
  pub created : CanCreateBucket p t
  pub ca_cert : HasSoundRef t.ca_cert

ca_cert_of_validate : (r : CaCertRef) → validate_ca_cert r ≡ ok tt → IsSoundRef r
unfolding validate_ca_cert
ca_cert_of_validate r h = (
  ground (arith, eq_iff r.kind "secret", eq_iff r.kind "configmap"),
  ground (arith, eq_iff r.name ""),
  ground (arith, eq_iff r.name "", eq_iff r.key ""),
)

validate_of_ca_cert : (r : CaCertRef) → IsSoundRef r → validate_ca_cert r ≡ ok tt
unfolding validate_ca_cert
validate_of_ca_cert r (kind, name, key) =
    ground
      (arith, eq_iff r.kind "secret", eq_iff r.kind "configmap", eq_iff r.name "", eq_iff r.key "")

credentials_of_check :
    (p : String) (t : S3BackupTarget) → check_credentials p t ≡ ok tt → HasCredentials p t
unfolding pod_identity_auth
credentials_of_check p t h = ground (
  arith,
  eq_iff t.access_key_id_env "",
  eq_iff t.secret_access_key_env "",
  eq_iff p "aws",
  eq_iff t.endpoint "",
)

check_of_credentials :
    (p : String) (t : S3BackupTarget) → HasCredentials p t → check_credentials p t ≡ ok tt
unfolding pod_identity_auth
check_of_credentials p t h = ground (
  arith,
  eq_iff t.access_key_id_env "",
  eq_iff t.secret_access_key_env "",
  eq_iff p "aws",
  eq_iff t.endpoint "",
)

created_of_check :
    (p : String) (t : S3BackupTarget) → check_create_bucket p t ≡ ok tt → CanCreateBucket p t
created_of_check p t h = ground (arith, eq_iff p "aws", eq_iff p "azure", eq_iff t.endpoint "")

check_of_created :
    (p : String) (t : S3BackupTarget) → CanCreateBucket p t → check_create_bucket p t ≡ ok tt
check_of_created p t h = ground (arith, eq_iff p "aws", eq_iff p "azure", eq_iff t.endpoint "")

ref_of_check : (r : Option CaCertRef) → check_ca_cert r ≡ ok tt → HasSoundRef r
ref_of_check none h = tt
ref_of_check (some r) h = ca_cert_of_validate r h

check_of_ref : (r : Option CaCertRef) → HasSoundRef r → check_ca_cert r ≡ ok tt
check_of_ref none h = refl
check_of_ref (some r) h = validate_of_ca_cert r h

s3_of_validate : (p : String) (t : S3BackupTarget) → validate_s3 p t ≡ ok tt → IsSoundS3 p t
unfolding validate_s3
s3_of_validate p t h =
    let (bucket, h₁) = >>-eq-ok (fail_if (t.bucket == "") s3_bucket_required) _ h in
    let (region, h₂) = >>-eq-ok (fail_if (t.region == "") s3_region_required) _ h₁ in
    let (credentials, h₃) = >>-eq-ok (check_credentials p t) _ h₂ in
    let (created, ref) = >>-eq-ok (check_create_bucket p t) _ h₃ in
    record {
      bucket = ground (arith, eq_iff t.bucket "", fail_if-eq-ok _ s3_bucket_required bucket);
      region = ground (arith, eq_iff t.region "", fail_if-eq-ok _ s3_region_required region);
      credentials = credentials_of_check p t credentials;
      created = created_of_check p t created;
      ca_cert = ref_of_check t.ca_cert ref;
    }

validate_of_s3 : (p : String) (t : S3BackupTarget) → IsSoundS3 p t → validate_s3 p t ≡ ok tt
unfolding validate_s3
validate_of_s3 p t s =
    >>-ok _ _ (fail_if-ok (t.bucket == "") s3_bucket_required (ground (arith, eq_iff t.bucket "")))
      (>>-ok _ _
        (fail_if-ok (t.region == "") s3_region_required (ground (arith, eq_iff t.region "")))
        (>>-ok _ _ (check_of_credentials p t s.credentials)
          (>>-ok _ _ (check_of_created p t s.created) (check_of_ref t.ca_cert s.ca_cert))))

-- An S3 target is accepted exactly when bucket and region are named, the two credential variables
-- are both named, or neither is and the target is a native one of the aws provider, the bucket is
-- not to be created or can be (no endpoint, and a provider with a module for it), and a
-- certificate reference, if there is one, has a known kind, a name and a key.
pub validate_s3_iff : (p : String) (t : S3BackupTarget) → (validate_s3 p t ≡ ok tt) ↔ IsSoundS3 p t
validate_s3_iff p t = (s3_of_validate p t, validate_of_s3 p t)

-- Of an accepted S3 target, one of the credential variables is unset exactly when it uses the
-- cluster's own role, and then both are.
pub pod_identity_iff :
    (p : String) (t : S3BackupTarget)
    → validate_s3 p t ≡ ok tt
    → ((pod_identity_auth p (some t) ≡ true)
        ↔ ((t.access_key_id_env ≡ "") ⊎ (t.secret_access_key_env ≡ "")))
unfolding pod_identity_auth
pod_identity_iff p t h =
    let c = (s3_of_validate p t h).credentials in
    (
      λ a. ground (arith, eq_iff t.access_key_id_env ""),
      λ e. ground (
        arith,
        eq_iff t.access_key_id_env "",
        eq_iff t.secret_access_key_env "",
        eq_iff p "aws",
        eq_iff t.endpoint "",
      ),
    )

pub record IsSoundAzure (p : String) (t : AzureBackupTarget) : Type 0 where
  pub container : t.container ≢ ""
  pub storage_account : t.storage_account ≢ ""
  pub account_name : t.account_name_env ≢ ""
  pub account_key : t.account_key_env ≢ ""
  pub created : (t.create_container ≡ false) ⊎ ((t.endpoint ≡ "") × (p ≡ "azure"))

-- An Azure target is accepted exactly when container, storage account and both credential
-- variables are named, and the container is not to be created or can be: no endpoint, and the
-- azure provider.
pub validate_azure_iff :
    (p : String) (t : AzureBackupTarget) → (validate_azure p t ≡ ok tt) ↔ IsSoundAzure p t
unfolding validate_azure
validate_azure_iff p t = (
  λ h. record {
    container = ground (arith, eq_iff t.container "");
    storage_account = ground (arith, eq_iff t.container "", eq_iff t.storage_account "");
    account_name =
        ground
          (arith, eq_iff t.container "", eq_iff t.storage_account "", eq_iff t.account_name_env "");
    account_key = ground (arith, eq_iff t.account_key_env "");
    created = ground (arith, eq_iff t.endpoint "", eq_iff p "azure");
  },
  λ s. ground (
    arith,
    eq_iff t.container "",
    eq_iff t.storage_account "",
    eq_iff t.account_name_env "",
    eq_iff t.account_key_env "",
    eq_iff t.endpoint "",
    eq_iff p "azure",
  ),
)
