-- ===== src/Aws/StateBucket.antt =====
-- The bucket of the infrastructure's state: pkg/providers/cluster/aws/state.go. The calls of the S3
-- service and the hash of the account are parameters.
pub mod Emptied
pub mod Named
pub mod Secured
pub mod Service
use nebari_infrastructure_co.Prelude.{
  ℕ, ◌+◌, Char, code, String, ◌<>◌, Bool, true, false, Option, none, some, List, [], ◌∷◌, ◌++◌,
  ◌==◌, ltb, if◌then◌else◌, Result, ok, err,
}
use nebari_infrastructure_co.Prelude.State.{M, ◌>>=◌, ◌>>◌, lift, wrap_call}
use nebari_infrastructure_co.Aws.Batches.{batches}

-- `len` of a text: its bytes in UTF-8.
abbrev pub char_bytes : Char → ℕ
char_bytes c =
    if ltb (code c) 0x80
    then 1
    else if ltb (code c) 0x800
    then 2
    else if ltb (code c) 0x10000
    then 3
    else 4

unfoldable pub byte_count : String → ℕ
byte_count String.[] = 0
byte_count (String.◌∷◌ c s) = char_bytes c + byte_count s

abbrev pub max_bucket_name_length : ℕ
max_bucket_name_length = 63

pub data BucketNameError : Type 0 where
  account_id_failed too_long : String → BucketNameError

-- The first argument gives the first four bytes of the SHA-256 of an account, in hexadecimal.
abbrev pub bucket_name : (String → String) → String → String → String → String
bucket_name account_suffix account_id region project_name =
    "nic-tfstate-" <> (project_name <> ("-" <> (region <> ("-" <> account_suffix account_id))))

unfoldable pub generate_bucket_name :
    (String → String) → String → String → String → Result BucketNameError String
unfolding byte_count
generate_bucket_name account_suffix account_id region project_name =
    let name = bucket_name account_suffix account_id region project_name in
    if ltb max_bucket_name_length (byte_count name) then err (too_long name) else ok name

unfoldable pub state_key : String → String
state_key project_name = project_name <> "/terraform.tfstate"

-- The account that the identity of the caller has, "" when it has none.
unfoldable pub get_state_bucket_name :
    (String → String)
    → Result String (Option String)
    → String
    → String
    → Result BucketNameError String
unfolding generate_bucket_name
get_state_bucket_name account_suffix (err e) region project_name = err (account_id_failed e)
get_state_bucket_name account_suffix (ok none) region project_name =
    generate_bucket_name account_suffix "" region project_name
get_state_bucket_name account_suffix (ok (some account)) region project_name =
    generate_bucket_name account_suffix account region project_name

-- The errors of the service that the program tells apart.
pub data S3Error : Type 0 where
  not_found no_such_bucket : S3Error
  other_error : String → S3Error

pub record ObjectIdentifier : Type 0 where
  pub key : Option String
  pub version_id : Option String

pub record VersionsPage : Type 0 where
  pub versions : List ObjectIdentifier
  pub delete_markers : List ObjectIdentifier

pub record PublicAccessBlock : Type 0 where
  pub block_public_acls : Bool
  pub block_public_policy : Bool
  pub ignore_public_acls : Bool
  pub restrict_public_buckets : Bool

-- `S3Client`, and `version_pages` for its paginator over the versions of a bucket: the pages in turn,
-- and the error in place of a page that cannot be had. `delete_objects` gives the objects that the errors
-- in the service's answer name.
pub record S3Client : Type 1 where
  pub State : Type 0
  pub head_bucket : String → M State S3Error (Unit {0})
  pub create_bucket : String → Option String → M State S3Error (Unit {0})
  pub put_bucket_versioning : String → Bool → M State S3Error (Unit {0})
  pub put_public_access_block : String → PublicAccessBlock → M State S3Error (Unit {0})
  pub version_pages : String → State → List (Result S3Error VersionsPage)
  pub delete_objects : String → List ObjectIdentifier → M State S3Error (List ObjectIdentifier)
  pub delete_bucket : String → M State S3Error (Unit {0})

pub data BucketError : Type 0 where
  check_failed create_failed versioning_failed block_failed : S3Error → BucketError
  list_failed delete_objects_failed delete_failed : S3Error → BucketError

abbrev pub is_missing : S3Error → Bool
is_missing not_found = true
is_missing no_such_bucket = true
is_missing (other_error e) = false

abbrev pub head_result : {S : Type 0} → Result S3Error (Unit {0}) × S → Result BucketError Bool × S
head_result (ok tt, s) = (ok true, s)
head_result (err e, s) = (if is_missing e then ok false else err (check_failed e), s)

-- The loop over the pages.
unfoldable pub collect_versions :
    List (Result S3Error VersionsPage)
    → List ObjectIdentifier
    → Result BucketError (List ObjectIdentifier)
collect_versions [] found = ok found
collect_versions (err e ∷ pages) found = err (list_failed e)
collect_versions (ok page ∷ pages) found =
    collect_versions pages ((found ++ page.versions) ++ page.delete_markers)

module _ (client : S3Client) where
  unfoldable pub state_bucket_exists : String → M client.State BucketError Bool
  state_bucket_exists bucket s = head_result (client.head_bucket bucket s)

  -- No location for the default region.
  abbrev pub location_constraint : String → Option String
  location_constraint region = if region == "us-east-1" then none else some region

  abbrev pub create_state_bucket : String → String → M client.State BucketError (Unit {0})
  create_state_bucket region bucket =
      wrap_call create_failed (client.create_bucket bucket (location_constraint region))
      >> wrap_call versioning_failed (client.put_bucket_versioning bucket true)
      >> wrap_call block_failed (
          client.put_public_access_block bucket (record {
            block_public_acls = true;
            block_public_policy = true;
            ignore_public_acls = true;
            restrict_public_buckets = true;
          }))

  unfoldable pub ensure_state_bucket : String → String → M client.State BucketError (Unit {0})
  unfolding state_bucket_exists
  ensure_state_bucket region bucket = state_bucket_exists bucket >>= λ exists.
      if exists then lift (ok tt) else create_state_bucket region bucket

  unfoldable pub delete_batches :
      String → List (List ObjectIdentifier) → M client.State BucketError (Unit {0})
  delete_batches bucket [] = lift (ok tt)
  delete_batches bucket (batch ∷ rest) =
      wrap_call delete_objects_failed (client.delete_objects bucket batch) >>= λ _.
      delete_batches bucket rest

  abbrev pub delete_all : String → M client.State BucketError (Unit {0})
  delete_all bucket s =
      (lift (collect_versions (client.version_pages bucket s) []) >>= λ versions.
      delete_batches bucket (batches 1000 versions)
      >> wrap_call delete_failed (client.delete_bucket bucket))
        s

  unfoldable pub destroy_state_bucket : String → M client.State BucketError (Unit {0})
  unfolding state_bucket_exists collect_versions batches delete_batches
  destroy_state_bucket bucket =
      state_bucket_exists bucket >>= λ exists. if exists then delete_all bucket else lift (ok tt)
