-- ===== src/Nic/Prepare.antt =====
-- What `Client.Deploy` of pkg/nic/deploy.go does before it calls the provider, and the steps of it
-- that change nothing.
use nebari_infrastructure_co.Prelude.{String, Result, ok, ◌>>=◌, ◌>>◌, wrap}
use nebari_infrastructure_co.Config.Nebari.{NebariConfig}
use nebari_infrastructure_co.Config.TrustBundle.{BundleError, resolve_pem}
use nebari_infrastructure_co.Registry.{Registry}
use nebari_infrastructure_co.Nic.Platform.{Platform, ClusterProvider, DnsProvider, InfraSettings}
use nebari_infrastructure_co.Nic.Checks.{
  CheckError, check_config, find_provider, ensure_backups_have_longhorn,
}
use nebari_infrastructure_co.Nic.Gitops.{GitOpsError}

pub data DeployError : Type 0 where
  check_failed : CheckError → DeployError
  gateway_tls : String → DeployError
  trust_bundle_failed : BundleError → DeployError
  deploy_failed : String → DeployError
  gitops_config_failed gitops_bootstrap_failed : GitOpsError → DeployError
  secret_failed : String → DeployError

-- What the checks before the deployment find.
pub record Prepared (W : Type 0) : Type 0 where
  pub provider : ClusterProvider W
  pub settings : InfraSettings
  pub trust_pem : String

module _ {W R K : Type 0} (platform : Platform W R K) where
  module _ (reg : Registry (ClusterProvider W) (DnsProvider W)) where
    -- The checks of `Deploy` up to the first call of the provider that changes anything.
    unfoldable pub prepare : NebariConfig → W → Result DeployError (Prepared W)
    prepare cfg w = do
      wrap check_failed (check_config reg (platform.stat w) cfg)
      wrap gateway_tls (platform.preflight_gateway_tls w cfg)
      provider ← wrap check_failed (find_provider reg cfg)
      let settings = provider.infra_settings cfg.cluster
      wrap check_failed (ensure_backups_have_longhorn cfg settings.storage_class)
      pem ← wrap trust_bundle_failed (resolve_pem (platform.read_file w) cfg.trust_bundle)
      ok (record { provider = provider; settings = settings; trust_pem = pem })

  abbrev pub kubernetes_client : String → Result String K
  kubernetes_client kubeconfig =
      platform.rest_config_from_kube_config kubeconfig >>= platform.new_for_config
