-- ===== src/Nic/Deploy.antt =====
-- `Client.Deploy` of pkg/nic/deploy.go. What it reports to the user is left out.
pub mod DryRun
pub mod Outcome
use nebari_infrastructure_co.Prelude.{
  String, Bool, true, false, not, ◌&&◌, Option, none, some, ◌==◌, if◌then◌else◌, ok, err, is_ok,
}
use nebari_infrastructure_co.Prelude.Int.{ℤ}
use nebari_infrastructure_co.Prelude.State.{M, ◌>>=◌, ◌>>◌, lift, wrap_call}
use nebari_infrastructure_co.Git.{GitConfig}
use nebari_infrastructure_co.Config.Cluster
use nebari_infrastructure_co.Config.Dns
use nebari_infrastructure_co.Config.Dns.{DnsConfig}
use nebari_infrastructure_co.Config.Nebari.{NebariConfig}
use nebari_infrastructure_co.Config.TrustBundle.{BundleError, resolve_pem, encode_pem}
use nebari_infrastructure_co.Config.Backups.{
  LonghornBackupConfig, longhorn_config, pod_identity_auth,
}
use nebari_infrastructure_co.Registry
use nebari_infrastructure_co.Registry.{Registry}
use nebari_infrastructure_co.Nic.Platform.{
  Platform, ClusterProvider, DnsProvider, InfraSettings, FoundationalConfig, LoadBalancerEndpoint,
}
use nebari_infrastructure_co.Nic.Checks.{
  CheckError, check_config, find_provider, ensure_backups_have_longhorn, backup_bucket_spec,
}
use nebari_infrastructure_co.Nic.Gitops.{GitOpsError, get_or_create_git_config, bootstrap_git_ops}
use nebari_infrastructure_co.Nic.Prepare.{
  DeployError, check_failed, gateway_tls, trust_bundle_failed, deploy_failed, gitops_config_failed,
  gitops_bootstrap_failed, secret_failed, Prepared, prepare, kubernetes_client,
}
use nebari_infrastructure_co.Nic.Secrets.{generate_secure_password, generate_foundational_secrets}

pub record DeployOptions : Type 0 where
  pub dry_run : Bool
  pub timeout : ℤ
  pub regen_apps : Bool

pub record DeployResult : Type 0 where
  pub argo_cd_installed : Bool
  pub keycloak_installed : Bool
  pub lb_endpoint : Option LoadBalancerEndpoint

-- A call whose error is only reported: what it answered, or nothing.
abbrev pub attempt : {W E A : Type 0} → M W E A → W → Option A × W
attempt m w = let r = m w in (elim r.0 [ ok a ↦ some a | err _ ↦ none ], r.1)

-- To go on, with the world that an earlier call left, when it answered something.
abbrev pub when : {W A B : Type 0} → (A → W → Option B × W) → Option A × W → Option B × W
when f (none, w) = (none, w)
when f (some a, w) = f a w

abbrev pub nothing_installed : DeployResult
nothing_installed = record {
  argo_cd_installed = false;
  keycloak_installed = false;
  lb_endpoint = none;
}

module _ {W R K : Type 0} (platform : Platform W R K) where
  module _ (reg : Registry (ClusterProvider W) (DnsProvider W)) where
    abbrev provision_dns :
        NebariConfig → DnsConfig → Option LoadBalancerEndpoint → W → Option LoadBalancerEndpoint × W
    provision_dns cfg dns none w = (none, w)
    provision_dns cfg dns (some lb) w =
        let target = if lb.hostname == "" then lb.ip else lb.hostname in
        if target == ""
        then (some lb, w)
        else elim (Registry.get (Dns.provider_name (some dns)) reg.dns_providers) [
          | err _ ↦ (some lb, w)
          | ok p ↦ (
            some lb,
            (p.provision_records cfg.domain (Dns.provider_config (some dns)) target w).1,
          )
        ]

    abbrev provision_if_configured :
        NebariConfig → Option LoadBalancerEndpoint → W → Option LoadBalancerEndpoint × W
    provision_if_configured cfg lb w = elim cfg.dns [
      | none ↦ (lb, w)
      | some dns ↦ provision_dns cfg dns lb w
    ]

    -- `lookupEndpointAndProvisionDNS`.
    unfoldable pub look_up_endpoint_and_provision_dns :
        NebariConfig → ClusterProvider W → W → Option LoadBalancerEndpoint × W
    look_up_endpoint_and_provision_dns cfg provider w = when (provision_if_configured cfg) (
        attempt
          (do
            kubeconfig ← provider.get_kubeconfig cfg.project_name cfg.cluster
            client ← lift (kubernetes_client platform kubeconfig)
            platform.get_load_balancer_endpoint client)
          w)

  abbrev resolver_answer :
      NebariConfig
      → Option (String → Option Cluster.ClusterConfig → M W String String)
      → W
      → String × W
  resolver_answer cfg none w = ("", w)
  resolver_answer cfg (some resolve) w =
      let r = resolve cfg.project_name cfg.cluster w in
      (elim r.0 [ ok arn ↦ arn | err _ ↦ "" ], r.1)

  abbrev uses_pod_identity : NebariConfig → Option LonghornBackupConfig → Bool
  uses_pod_identity cfg none = false
  uses_pod_identity cfg (some lh) = pod_identity_auth (Cluster.provider_name cfg.cluster) lh.s3

  -- `resolveBackupRoleARN`.
  unfoldable pub resolve_backup_role_arn : NebariConfig → ClusterProvider W → W → String × W
  resolve_backup_role_arn cfg provider w =
      if not (uses_pod_identity cfg (longhorn_config cfg.backups))
      then ("", w)
      else resolver_answer cfg provider.backup_pod_identity_role_arn w

  abbrev pub longhorn_secret : InfraSettings → M W DeployError String
  longhorn_secret settings =
      if settings.longhorn_enabled
      then wrap_call secret_failed (generate_secure_password platform.random_bytes)
      else lift (ok "")

  abbrev flags : Bool → Bool → DeployResult
  flags argo_cd keycloak = record {
    argo_cd_installed = argo_cd;
    keycloak_installed = keycloak;
    lb_endpoint = none;
  }

  -- The error of a call that does not end the deployment.
  abbrev pub succeeds : M W String (Unit {0}) → M W DeployError Bool
  succeeds m w = let r = m w in (ok (is_ok r.0), r.1)

  abbrev pub install_services :
      NebariConfig → Prepared W → Option GitConfig → String → M W DeployError DeployResult
  install_services cfg p git_config argo_cd_secret = do
    secrets ← wrap_call secret_failed (generate_foundational_secrets platform.random_bytes)
    longhorn ← longhorn_secret p.settings
    role_arn ← (λ w. let r = resolve_backup_role_arn cfg p.provider w in (ok r.0, r.1))
    installed ← succeeds (
        platform.install_foundational_services cfg p.provider git_config (record {
          secrets = secrets;
          argo_cd_client_secret = argo_cd_secret;
          longhorn_client_secret = longhorn;
          metal_lb_enabled = p.settings.needs_metal_lb;
          metal_lb_address_pool = p.settings.metal_lb_address_pool;
          backups = longhorn_config cfg.backups;
          backup_role_arn = role_arn;
        }))
    lift (ok (flags true installed))

  -- The installation of Argo CD and the services on it.
  unfoldable pub install_argo_cd :
      NebariConfig → Prepared W → Option GitConfig → M W DeployError DeployResult
  install_argo_cd cfg p git_config = do
    secret ← wrap_call secret_failed (generate_secure_password platform.random_bytes)
    installed ← succeeds (
        platform.install cfg p.provider git_config p.trust_pem
          (cfg.domain, (p.settings.keycloak_base_path, secret)))
    if installed then install_services cfg p git_config secret else lift (ok nothing_installed)

  abbrev bootstrap_if_needed :
      NebariConfig → DeployOptions → Prepared W → Option GitConfig → M W DeployError (Unit {0})
  bootstrap_if_needed cfg opts p none = lift (ok tt)
  bootstrap_if_needed cfg opts p (some g) =
      if opts.dry_run
      then lift (ok tt)
      else wrap_call gitops_bootstrap_failed
          (bootstrap_git_ops platform cfg g opts.regen_apps p.settings p.trust_pem)

  abbrev install_if_real :
      NebariConfig → DeployOptions → Prepared W → Option GitConfig → M W DeployError DeployResult
  install_if_real cfg opts p git_config =
      if opts.dry_run then lift (ok nothing_installed) else install_argo_cd cfg p git_config

  module _ (reg : Registry (ClusterProvider W) (DnsProvider W)) where
    abbrev look_up_if_real :
        NebariConfig → DeployOptions → Prepared W → DeployResult → M W DeployError DeployResult
    look_up_if_real cfg opts p result w =
        if not (cfg.domain == "") && not opts.dry_run
        then (let r = look_up_endpoint_and_provision_dns reg cfg p.provider w in
            (ok (record result { lb_endpoint = r.0 }), r.1))
        else (ok result, w)

    abbrev pub run_provider : NebariConfig → DeployOptions → Prepared W → M W DeployError (Unit {0})
    run_provider cfg opts p = wrap_call deploy_failed (
        p.provider.deploy cfg.project_name cfg.cluster (record {
          dry_run = opts.dry_run;
          timeout = opts.timeout;
          trust_bundle = encode_pem p.trust_pem;
          backup_bucket = backup_bucket_spec cfg;
        }))

    abbrev pub effective_git : NebariConfig → Prepared W → M W DeployError (Option GitConfig)
    effective_git cfg p =
        wrap_call gitops_config_failed
          (get_or_create_git_config platform cfg p.settings.supports_local_git_ops)

    abbrev pub after_bootstrap :
        NebariConfig → DeployOptions → Prepared W → Option GitConfig → M W DeployError DeployResult
    after_bootstrap cfg opts p git_config =
        install_if_real cfg opts p git_config >>= look_up_if_real cfg opts p

    abbrev pub after_git :
        NebariConfig → DeployOptions → Prepared W → Option GitConfig → M W DeployError DeployResult
    after_git cfg opts p git_config =
        bootstrap_if_needed cfg opts p git_config >> after_bootstrap cfg opts p git_config

    abbrev pub after_provider :
        NebariConfig → DeployOptions → Prepared W → M W DeployError DeployResult
    after_provider cfg opts p = effective_git cfg p >>= after_git cfg opts p

    -- `Deploy` after its checks.
    unfoldable pub deploy_prepared :
        NebariConfig → DeployOptions → Prepared W → M W DeployError DeployResult
    deploy_prepared cfg opts p = run_provider cfg opts p >> after_provider cfg opts p

    -- `Client.Deploy`.
    unfoldable pub deploy : NebariConfig → DeployOptions → M W DeployError DeployResult
    unfolding deploy_prepared
    deploy cfg opts w = (lift (prepare platform reg cfg w) >>= deploy_prepared cfg opts) w
