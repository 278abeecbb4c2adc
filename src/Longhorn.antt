-- ===== src/Longhorn.antt =====
-- pkg/storage/longhorn/backup.go: the credential secret of the Longhorn backup target.
pub mod Keys
use nebari_infrastructure_co.Prelude.{
  String, Bool, not, ◌||◌, Option, none, some, List, [], ◌∷◌, ◌==◌, if◌then◌else◌, Result, ok, err,
  ◌>>=◌, ◌>>◌, wrap,
}
use nebari_infrastructure_co.Prelude.Dict
use nebari_infrastructure_co.Config.Backups.{
  CaCertRef, S3BackupTarget, AzureBackupTarget, LonghornBackupConfig,
}

pub record Credentials : Type 0 where
  pub access_key_id : String
  pub secret_access_key : String
  pub ca_cert : String
  pub iam_role_arn : String
  pub account_name : String
  pub account_key : String

abbrev pub no_credentials : Credentials
no_credentials = record {
  access_key_id = "";
  secret_access_key = "";
  ca_cert = "";
  iam_role_arn = "";
  account_name = "";
  account_key = "";
}

pub data CredentialError : Type 0 where
  variable_not_configured : CredentialError
  variable_not_set : String → CredentialError
  s3_access_key s3_secret_key s3_ca_cert : CredentialError → CredentialError
  azure_account_name azure_account_key : CredentialError → CredentialError
  no_backup_target : CredentialError
  secret_unreadable config_map_unreadable : String → String → String → CredentialError
  secret_without_key config_map_without_key : String → String → String → CredentialError
  unsupported_kind : String → CredentialError

-- `data[key] = value` under a condition.
abbrev pub set_if : Bool → String → String → List (String × String) → List (String × String)
set_if test key value entries = if test then (key, value) ∷ entries else entries

abbrev pub s3_data : S3BackupTarget → Credentials → List (String × String)
s3_data t creds =
    let keys_given = not (creds.access_key_id == "") || not (creds.secret_access_key == "") in
    set_if keys_given "AWS_ACCESS_KEY_ID" creds.access_key_id (
      set_if keys_given "AWS_SECRET_ACCESS_KEY" creds.secret_access_key (
        set_if (not (creds.iam_role_arn == "")) "AWS_IAM_ROLE_ARN" creds.iam_role_arn (
          set_if (not (t.endpoint == "")) "AWS_ENDPOINTS" t.endpoint (
            set_if t.virtual_hosted_style "VIRTUAL_HOSTED_STYLE" "true"
              (set_if (not (creds.ca_cert == "")) "AWS_CERT" creds.ca_cert [])))))

abbrev pub azure_data : AzureBackupTarget → Credentials → List (String × String)
azure_data t creds =
    ("AZBLOB_ACCOUNT_NAME", creds.account_name)
    ∷ ("AZBLOB_ACCOUNT_KEY", creds.account_key)
    ∷ set_if (not (t.endpoint == "")) "AZBLOB_ENDPOINT" t.endpoint []

abbrev pub target_data :
    Option S3BackupTarget → Option AzureBackupTarget → Credentials → List (String × String)
target_data (some t) azure creds = s3_data t creds
target_data none (some t) creds = azure_data t creds
target_data none none creds = []

-- `CredentialSecretData`.
unfoldable pub credential_secret_data : LonghornBackupConfig → Credentials → List (String × String)
credential_secret_data c creds = target_data c.s3 c.azure creds

abbrev longhorn_namespace : String
longhorn_namespace = "longhorn-system"

-- The environment, and the data of a Secret or a ConfigMap by namespace and name.
module _ (getenv : String → String)
    (read_secret read_config_map : String → String → Result String (List (String × String))) where
  -- `getenvRequired`.
  unfoldable pub getenv_required : String → Result CredentialError String
  getenv_required name =
      if name == ""
      then err variable_not_configured
      else if getenv name == ""
      then err (variable_not_set name)
      else ok (getenv name)

  abbrev key_of :
      (String → CredentialError)
      → CredentialError
      → String
      → Result String (List (String × String))
      → Result CredentialError String
  key_of unreadable missing key (err e) = err (unreadable e)
  key_of unreadable missing key (ok entries) = elim (Dict.lookup key entries) [
    | none ↦ err missing
    | some v ↦ ok v
  ]

  -- `fetchCACert`.
  unfoldable pub fetch_ca_cert : CaCertRef → Result CredentialError String
  fetch_ca_cert ref =
      let ns = if ref.namespace == "" then longhorn_namespace else ref.namespace in
      if ref.kind == "secret"
      then key_of (secret_unreadable ns ref.name) (secret_without_key ns ref.name ref.key) ref.key
          (read_secret ns ref.name)
      else if ref.kind == "configmap"
      then key_of (config_map_unreadable ns ref.name) (config_map_without_key ns ref.name ref.key)
          ref.key (read_config_map ns ref.name)
      else err (unsupported_kind ref.kind)

  abbrev pub s3_keys : S3BackupTarget → Result CredentialError Credentials
  s3_keys t =
      if not (t.access_key_id_env == "") || not (t.secret_access_key_env == "")
      then (do
        ak ← wrap s3_access_key (getenv_required t.access_key_id_env)
        sk ← wrap s3_secret_key (getenv_required t.secret_access_key_env)
        ok (record no_credentials { access_key_id = ak; secret_access_key = sk }))
      else ok no_credentials

  abbrev pub with_ca_cert : Option CaCertRef → Credentials → Result CredentialError Credentials
  with_ca_cert none creds = ok creds
  with_ca_cert (some ref) creds = do
    pem ← wrap s3_ca_cert (fetch_ca_cert ref)
    ok (record creds { ca_cert = pem })

  abbrev azure_keys : AzureBackupTarget → Result CredentialError Credentials
  azure_keys t = do
    an ← wrap azure_account_name (getenv_required t.account_name_env)
    ak ← wrap azure_account_key (getenv_required t.account_key_env)
    ok (record no_credentials { account_name = an; account_key = ak })

  abbrev pub target_keys :
      Option S3BackupTarget → Option AzureBackupTarget → Result CredentialError Credentials
  target_keys (some t) azure = s3_keys t >>= with_ca_cert t.ca_cert
  target_keys none (some t) = azure_keys t
  target_keys none none = err no_backup_target

  -- `ResolveCredentials`.
  unfoldable pub resolve_credentials : LonghornBackupConfig → Result CredentialError Credentials
  unfolding getenv_required fetch_ca_cert
  resolve_credentials c = target_keys c.s3 c.azure

  -- `BuildCredentialSecret`: the data of the secret.
  unfoldable pub build_credential_secret :
      LonghornBackupConfig → String → Result CredentialError (List (String × String))
  unfolding resolve_credentials credential_secret_data
  build_credential_secret c iam_role_arn = do
    creds ← resolve_credentials c
    ok (credential_secret_data c (record creds { iam_role_arn = iam_role_arn }))
