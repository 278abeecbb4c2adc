-- ===== src/Nic/Gitops.antt =====
-- The GitOps part of pkg/nic/deploy.go: the effective repository, the bootstrap, and the
-- configuration that is written into it.
pub mod Scrubbed
pub mod DefaultPath
use nebari_infrastructure_co.Prelude.{
  String, ◌<>◌, Bool, not, ◌&&◌, Option, none, some, [], ◌∷◌, ◌==◌, if◌then◌else◌, Result, ok, err,
  wrap,
}
use nebari_infrastructure_co.Prelude.State.{M, ◌>>=◌, ◌>>◌, lift, wrap_call}
use nebari_infrastructure_co.FilePath
use nebari_infrastructure_co.Git
use nebari_infrastructure_co.Git.{
  AuthConfig, GitConfig, GitError, default_local_path, default_branch, get_local_path,
  is_local_path,
}
use nebari_infrastructure_co.Config.Nebari.{NebariConfig}
use nebari_infrastructure_co.Config.TrustBundle.{TrustBundleConfig}
use nebari_infrastructure_co.Nic.Platform.{InfraSettings, GitClient, Platform}

pub data GitOpsError : Type 0 where
  invalid_local_path : GitError → GitOpsError
  local_dir_failed no_git_client git_authentication_failed init_failed : String → GitOpsError
  bootstrap_check_failed config_dir_failed config_write_failed : String → GitOpsError
  manifests_failed marker_failed commit_failed push_failed : String → GitOpsError

abbrev pub no_auth : AuthConfig
no_auth = Git.no_auth

-- `defaultGitConfig`.
unfoldable pub default_git_config : Option String → String → String → GitConfig
default_git_config home temp_dir project_name = record {
  url = "file://" <> default_local_path home temp_dir project_name;
  branch = default_branch;
  path = "";
  auth = no_auth;
  argocd_auth = none;
}

abbrev pub scrub_git : Option GitConfig → Option GitConfig
scrub_git none = none
scrub_git (some g) = some (record g { auth = no_auth; argocd_auth = none })

abbrev pub scrub_bundle : Option TrustBundleConfig → String → Option TrustBundleConfig
scrub_bundle none pem = none
scrub_bundle (some t) pem = if pem == "" then none else some (record { path = ""; inline = pem })

-- `scrubbedConfig`.
unfoldable pub scrubbed_config : NebariConfig → Option GitConfig → String → NebariConfig
scrubbed_config cfg git_config trust_bundle_pem = record cfg {
  git_repository = scrub_git git_config;
  trust_bundle = scrub_bundle cfg.trust_bundle trust_bundle_pem;
}

-- `defer`: the call runs at the end on every path, and its error is only reported.
abbrev pub finally : {W E A : Type 0} → M W String (Unit {0}) → M W E A → M W E A
finally cleanup m w = let r = m w in (r.0, (cleanup r.1).1)

module _ {W R K : Type 0} (platform : Platform W R K) where
  abbrev create_default : String → M W GitOpsError (Option GitConfig)
  create_default project_name w =
      (do
        let g = default_git_config (platform.user_home_dir w) (platform.temp_dir w) project_name
        path ← lift (wrap invalid_local_path (get_local_path g))
        wrap_call local_dir_failed (platform.ensure_local_git_ops_dir path)
        lift (ok (some g)))
        w

  -- `getOrCreateGitConfig`.
  unfoldable pub get_or_create_git_config : NebariConfig → Bool → M W GitOpsError (Option GitConfig)
  get_or_create_git_config cfg supports_local_git_ops = elim cfg.git_repository [
    | some g ↦ lift (ok (some g))
    | none ↦ if not supports_local_git_ops then lift (ok none) else create_default cfg.project_name
  ]

  -- `writeConfigToRepo`; the YAML encoder does not fail on these types.
  unfoldable pub write_config_to_repo :
      NebariConfig → GitConfig → String → String → M W GitOpsError (Unit {0})
  write_config_to_repo cfg git_config work_dir trust_bundle_pem = do
    let config_dest = FilePath.join (work_dir ∷ "nic-config.yaml" ∷ [])
    wrap_call config_dir_failed (platform.mkdir_all (FilePath.dir config_dest))
    wrap_call config_write_failed
        (platform.write_config config_dest (scrubbed_config cfg (some git_config) trust_bundle_pem))

  abbrev pub write_manifests :
      NebariConfig
      → GitConfig
      → Bool
      → InfraSettings
      → String
      → GitClient W
      → M W GitOpsError (Unit {0})
  write_manifests cfg git_config regen_apps settings pem client = do
    write_config_to_repo cfg git_config client.work_dir pem
    wrap_call manifests_failed (platform.write_all_to_git client cfg git_config settings pem)
    wrap_call marker_failed client.write_bootstrap_marker
    let message =
        if regen_apps
        then "Regenerate foundational ArgoCD applications"
        else "Bootstrap foundational ArgoCD applications"
    wrap_call (if is_local_path git_config then commit_failed else push_failed)
        (client.commit_and_push message)

  abbrev pub run_bootstrap :
      NebariConfig
      → GitConfig
      → Bool
      → InfraSettings
      → String
      → GitClient W
      → M W GitOpsError (Unit {0})
  run_bootstrap cfg git_config regen_apps settings pem client = do
    wrap_call git_authentication_failed client.validate_auth
    wrap_call init_failed client.init
    bootstrapped ← wrap_call bootstrap_check_failed client.is_bootstrapped
    if bootstrapped && not regen_apps
        then lift (ok tt)
        else write_manifests cfg git_config regen_apps settings pem client

  abbrev forget : {E A : Type 0} → Result E A → Result E (Unit {0})
  forget (ok a) = ok tt
  forget (err e) = err e

  abbrev check_local_path : GitConfig → Result GitOpsError (Unit {0})
  check_local_path g =
      if is_local_path g then wrap invalid_local_path (forget (get_local_path g)) else ok tt

  -- `bootstrapGitOps`.
  unfoldable pub bootstrap_git_ops :
      NebariConfig → GitConfig → Bool → InfraSettings → String → M W GitOpsError (Unit {0})
  unfolding write_config_to_repo
  bootstrap_git_ops cfg git_config regen_apps settings pem = do
    lift (check_local_path git_config)
    client ← wrap_call no_git_client (platform.new_git_client git_config)
    finally client.cleanup (run_bootstrap cfg git_config regen_apps settings pem client)
