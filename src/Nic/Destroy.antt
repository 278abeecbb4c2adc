-- ===== src/Nic/Destroy.antt =====
-- pkg/nic/destroy.go. What it reports to the user is left out, but for the directory that it says it
-- retains.
pub mod Order
use nebari_infrastructure_co.Prelude.{
  String, Bool, not, Option, none, some, List, if◌then◌else◌, is_some, Result, ok, err, wrap,
}
use nebari_infrastructure_co.Prelude.Int.{ℤ}
use nebari_infrastructure_co.Prelude.State.{M, ◌>>=◌, ◌>>◌, lift, wrap_call}
use nebari_infrastructure_co.Git.{GitConfig, is_local_path, get_local_path}
use nebari_infrastructure_co.Config.Cluster
use nebari_infrastructure_co.Config.Dns
use nebari_infrastructure_co.Config.Dns.{DnsConfig}
use nebari_infrastructure_co.Config.Nebari.{NebariConfig}
use nebari_infrastructure_co.Config.TrustBundle.{
  TrustBundleConfig, BundleError, read_bundle, ReadError, not_exist, resolve_base64,
}
use nebari_infrastructure_co.Registry
use nebari_infrastructure_co.Registry.{Registry, RegistryError}
use nebari_infrastructure_co.Nic.Platform.{Platform, ClusterProvider, DnsProvider, InfraSettings}
use nebari_infrastructure_co.Nic.Checks.{
  CheckError, check_config, find_provider, backup_bucket_spec,
}
use nebari_infrastructure_co.Nic.Gitops.{default_git_config}

pub record DestroySummary : Type 0 where
  pub provider : String
  pub project_name : String
  pub details : List (String × String)

pub record DestroyOptions (W : Type 0) : Type 0 where
  pub dry_run : Bool
  pub force : Bool
  pub timeout : ℤ
  pub confirm : Option (DestroySummary → M W String (Unit {0}))

pub data DestroyError : Type 0 where
  check_failed : CheckError → DestroyError
  not_confirmed : String → DestroyError
  trust_bundle_failed : BundleError → DestroyError
  destroy_failed : String → DestroyError

pub data DnsCleanupError : Type 0 where
  no_dns_provider : RegistryError → DnsCleanupError
  cleanup_failed : String → DnsCleanupError

-- A bundle whose file is gone does not stop the destruction.
abbrev pub allow_missing : Result BundleError String → Result BundleError String
allow_missing (err (read_bundle path not_exist)) = ok ""
allow_missing r = r

abbrev pub forgive : {W : Type 0} → Bool → M W DestroyError (Unit {0}) → M W DestroyError (Unit {0})
forgive force m w = let r = m w in (if force then ok tt else r.0, r.1)

-- A call whose error is only reported.
abbrev pub ignore_error : {W E F : Type 0} → M W E (Unit {0}) → M W F (Unit {0})
ignore_error m w = (ok tt, (m w).1)

module _ {W : Type 0} (reg : Registry (ClusterProvider W) (DnsProvider W)) where
  -- `destroyDNS`.
  unfoldable pub destroy_dns : NebariConfig → DnsConfig → Bool → M W DnsCleanupError (Unit {0})
  destroy_dns cfg dns dry_run = if dry_run then lift (ok tt) else (do
    p ← lift (wrap no_dns_provider (Registry.get (Dns.provider_name (some dns)) reg.dns_providers))
    wrap_call cleanup_failed (p.destroy_records cfg.domain (Dns.provider_config (some dns))))

  abbrev pub clean_up_dns : NebariConfig → Bool → M W DestroyError (Unit {0})
  clean_up_dns cfg dry_run = elim cfg.dns [
    | none ↦ lift (ok tt)
    | some dns ↦ ignore_error (destroy_dns cfg dns dry_run)
  ]

abbrev pub ask :
    {W : Type 0} → NebariConfig → DestroyOptions W → ClusterProvider W → M W DestroyError (Unit {0})
ask cfg opts provider = elim opts.confirm [
  | none ↦ lift (ok tt)
  | some confirm ↦
      if opts.dry_run
      then lift (ok tt)
      else wrap_call not_confirmed (
          confirm (record {
            provider = Cluster.provider_name cfg.cluster;
            project_name = cfg.project_name;
            details = provider.summary cfg.cluster;
          }))
]

module _ {W R K : Type 0} (platform : Platform W R K) where
  abbrev reported_dir : W → GitConfig → Option String
  reported_dir w g = if not (is_local_path g) then none else elim (get_local_path g) [
    | err _ ↦ none
    | ok path ↦ if is_some (platform.stat w path) then some path else none
  ]

  -- `reportRetainedGitOpsDir`: the directory that it reports.
  unfoldable pub retained_git_ops_dir : NebariConfig → ClusterProvider W → W → Option String
  retained_git_ops_dir cfg provider w = elim cfg.git_repository [
    | some g ↦ reported_dir w g
    | none ↦
        if (provider.infra_settings cfg.cluster).supports_local_git_ops
        then reported_dir w
            (default_git_config (platform.user_home_dir w) (platform.temp_dir w) cfg.project_name)
        else none
  ]

  abbrev pub bundle_at_hand : Option TrustBundleConfig → M W DestroyError String
  bundle_at_hand t w =
      (wrap trust_bundle_failed (allow_missing (resolve_base64 (platform.read_file w) t)), w)

  abbrev tear_down :
      NebariConfig → DestroyOptions W → ClusterProvider W → String → M W DestroyError (Unit {0})
  tear_down cfg opts provider ca_bundle = forgive opts.force (
      wrap_call destroy_failed (
        provider.destroy cfg.project_name cfg.cluster (record {
          dry_run = opts.dry_run;
          force = opts.force;
          timeout = opts.timeout;
          trust_bundle = ca_bundle;
          backup_bucket = backup_bucket_spec cfg;
        })))

  abbrev pub report :
      NebariConfig → DestroyOptions W → ClusterProvider W → M W DestroyError (Option String)
  report cfg opts provider w =
      (ok (if opts.dry_run then none else retained_git_ops_dir cfg provider w), w)

  module _ (reg : Registry (ClusterProvider W) (DnsProvider W)) where
    abbrev pub checked : NebariConfig → W → Result DestroyError (ClusterProvider W)
    checked cfg w = elim (check_config reg (platform.stat w) cfg) [
      | err e ↦ err (check_failed e)
      | ok _ ↦ wrap check_failed (find_provider reg cfg)
    ]

    abbrev pub after_bundle :
        NebariConfig
        → DestroyOptions W
        → ClusterProvider W
        → String
        → M W DestroyError (Option String)
    after_bundle cfg opts provider ca_bundle =
        tear_down cfg opts provider ca_bundle >> report cfg opts provider

    abbrev pub after_dns :
        NebariConfig → DestroyOptions W → ClusterProvider W → M W DestroyError (Option String)
    after_dns cfg opts provider = bundle_at_hand cfg.trust_bundle >>= after_bundle cfg opts provider

    abbrev pub after_prompt :
        NebariConfig → DestroyOptions W → ClusterProvider W → M W DestroyError (Option String)
    after_prompt cfg opts provider =
        clean_up_dns reg cfg opts.dry_run >> after_dns cfg opts provider

    -- `Destroy` after its checks.
    unfoldable pub destroy_checked :
        NebariConfig → DestroyOptions W → ClusterProvider W → M W DestroyError (Option String)
    unfolding destroy_dns
    destroy_checked cfg opts provider = ask cfg opts provider >> after_prompt cfg opts provider

    -- `Client.Destroy`: the directory that it reports as retained.
    unfoldable pub destroy : NebariConfig → DestroyOptions W → M W DestroyError (Option String)
    unfolding destroy_checked
    destroy cfg opts w = (lift (checked cfg w) >>= destroy_checked cfg opts) w
