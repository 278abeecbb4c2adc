-- ===== src/Git.antt =====
-- pkg/git/config.go: the settings of the GitOps repository, its validation, and the credentials.
pub mod Accepted
pub mod LocalPath
pub mod Credentials
pub mod Permissions
use nebari_infrastructure_co.Prelude.{
  String, ◌<>◌, Bool, false, not, ◌&&◌, Option, none, some, [], ◌∷◌, ◌==◌, if◌then◌else◌, Result,
  ok, err, ◌>>=◌, ◌>>◌, fail_if, wrap,
}
use nebari_infrastructure_co.Prelude.Text.{has_prefix, trim_prefix}
use nebari_infrastructure_co.FilePath

pub record AuthConfig : Type 0 where
  pub ssh_key_env : String
  pub token_env : String
  pub insecure_skip_host_key_verification : Bool

pub record GitConfig : Type 0 where
  pub url : String
  pub branch : String
  pub path : String
  pub auth : AuthConfig
  pub argocd_auth : Option AuthConfig

abbrev pub no_auth : AuthConfig
no_auth = record { ssh_key_env = ""; token_env = ""; insecure_skip_host_key_verification = false }

pub data GitError : Type 0 where
  url_required : GitError
  not_local_url path_not_absolute : String → GitError
  path_not_directory : String → GitError
  auth_missing auth_both : GitError
  in_auth in_argocd_auth : GitError → GitError
  ssh_key_env_not_configured token_env_not_configured : GitError
  variable_empty : String → GitError
  bad_ssh_key : String → GitError
  no_known_hosts : String → GitError
  no_authentication : GitError

abbrev pub default_branch : String
default_branch = "main"

-- `DefaultLocalPath`, from the answers of `os.UserHomeDir` and `os.TempDir`.
unfoldable pub default_local_path : Option String → String → String → String
default_local_path none temp_dir project_name =
    FilePath.join (temp_dir ∷ ("nebari-gitops-" <> project_name) ∷ [])
default_local_path (some home_dir) temp_dir project_name =
    if home_dir == ""
    then FilePath.join (temp_dir ∷ ("nebari-gitops-" <> project_name) ∷ [])
    else FilePath.join (home_dir ∷ ".nic" ∷ "gitops" ∷ project_name ∷ [])

-- `AuthConfig.Validate`.
unfoldable pub validate_auth : AuthConfig → Result GitError (Unit {0})
validate_auth a = do
  fail_if (a.ssh_key_env == "" && a.token_env == "") auth_missing
  fail_if (not (a.ssh_key_env == "") && not (a.token_env == "")) auth_both

-- `IsLocalPath`.
unfoldable pub is_local_path : GitConfig → Bool
unfolding has_prefix
is_local_path c = has_prefix "file://" c.url

-- `GetLocalPath`.
unfoldable pub get_local_path : GitConfig → Result GitError String
unfolding is_local_path
get_local_path c = do
  fail_if (not (is_local_path c)) (not_local_url c.url)
  let path = FilePath.clean (trim_prefix "file://" c.url)
  fail_if (not (FilePath.is_abs path)) (path_not_absolute path)
  ok path

abbrev check_argocd_auth : Option AuthConfig → Result GitError (Unit {0})
check_argocd_auth none = ok tt
check_argocd_auth (some a) = wrap in_argocd_auth (validate_auth a)

-- `os.Stat` answers nothing for an error, and else whether the path is a directory.
module _ (stat : String → Option Bool) where
  abbrev not_directory : String → Bool
  not_directory path = elim (stat path) [ none ↦ false | some is_dir ↦ not is_dir ]

  -- `Config.Validate`.
  unfoldable pub validate : GitConfig → Result GitError (Unit {0})
  validate c =
      if c.url == ""
      then err url_required
      else if is_local_path c
      then (do path ← get_local_path c; fail_if (not_directory path) (path_not_directory path))
      else (do wrap in_auth (validate_auth c.auth); check_argocd_auth c.argocd_auth)

-- `GetBranch`.
unfoldable pub get_branch : GitConfig → String
get_branch c = if c.branch == "" then default_branch else c.branch

-- `GetArgoCDAuth`.
unfoldable pub get_argocd_auth : GitConfig → AuthConfig
get_argocd_auth c = elim c.argocd_auth [ none ↦ c.auth | some a ↦ a ]

-- `RedactedCopy`.
unfoldable pub redacted_copy : GitConfig → GitConfig
redacted_copy c = record {
  url = c.url;
  branch = c.branch;
  path = c.path;
  auth = no_auth;
  argocd_auth = none;
}

-- `AuthType`.
unfoldable pub auth_type : AuthConfig → String
auth_type a =
    if not (a.ssh_key_env == "") then "ssh" else if not (a.token_env == "") then "token" else "none"

-- `os.Getenv`, which answers "" for a variable that is not set.
module _ (getenv : String → String) where
  unfoldable pub get_ssh_key : AuthConfig → Result GitError String
  get_ssh_key a = do
    fail_if (a.ssh_key_env == "") ssh_key_env_not_configured
    let key = getenv a.ssh_key_env
    fail_if (key == "") (variable_empty a.ssh_key_env)
    ok key

  unfoldable pub get_token : AuthConfig → Result GitError String
  get_token a = do
    fail_if (a.token_env == "") token_env_not_configured
    let token = getenv a.token_env
    fail_if (token == "") (variable_empty a.token_env)
    ok token
