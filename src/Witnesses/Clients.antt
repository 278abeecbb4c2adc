-- ===== src/Witnesses/Clients.antt =====
-- The theorems on the client and the registry at the sample configuration and platform.
use nebari_infrastructure_co.Prelude.{
  ◌⊎◌, String, ◌≡◌, refl, ◌↔◌, true, false, ◌||◌, none, [], ◌∷◌, ok, is_ok,
}
use nebari_infrastructure_co.Prelude.Dict
use nebari_infrastructure_co.Prelude.Int.{pos}
use nebari_infrastructure_co.Config.Cluster
use nebari_infrastructure_co.Config.Nebari
use nebari_infrastructure_co.Config.Nebari.{NebariConfig}
use nebari_infrastructure_co.Config.Backups
use nebari_infrastructure_co.Config.TrustBundle.{resolve_base64}
use nebari_infrastructure_co.Registry
use nebari_infrastructure_co.Registry.{ProviderList, RegistryError}
use nebari_infrastructure_co.Nic.Platform.{ClusterDeployOptions, ClusterProvider, BackupBucketSpec}
use nebari_infrastructure_co.Nic.Checks.{
  validate_options, find_provider, validate_client, backup_bucket_spec,
}
use nebari_infrastructure_co.Nic.Checks.Accepted.{
  IsDeployable, find_provider-is_ok, validate_client_iff,
}
use nebari_infrastructure_co.Nic.Checks.Bucket.{IsSupported, backup_bucket_spec-IsSupported}
use nebari_infrastructure_co.Nic.Deploy.{DeployOptions, deploy}
use nebari_infrastructure_co.Nic.Deploy.DryRun.{deploy-rejected, deploy-dry_run}
use nebari_infrastructure_co.Nic.Destroy.{DestroyOptions, destroy, checked, clean_up_dns}
use nebari_infrastructure_co.Nic.Destroy.Order.{destroy-runs}
use nebari_infrastructure_co.Witnesses.Samples.{
  no_files, config, registry, platform, aws_provider, Log,
}

abbrev empty_list : ProviderList String
empty_list = record { name = "DNSProviders"; registered_providers = ("cloudflare", "c") ∷ [] }

abbrev longer_list : ProviderList String
longer_list = record {
  name = "DNSProviders";
  registered_providers = ("cloudflare", "c") ∷ ("other", "o") ∷ [];
}

validate_client_iff_example :
    (validate_client registry no_files config ≡ ok tt) ↔ IsDeployable registry no_files config
validate_client_iff_example = validate_client_iff registry no_files config

find_provider-is_ok_example : is_ok (find_provider registry config) ≡ true
unfolding Nebari.validate Nebari.safe_project_name Cluster.validate validate_options Registry.list
    Dict.keys nebari_infrastructure_co.Config.Dns.validate nebari_infrastructure_co.Git.validate
    nebari_infrastructure_co.Git.is_local_path nebari_infrastructure_co.Git.validate_auth
    nebari_infrastructure_co.Config.Certificate.validate Backups.validate Backups.is_enabled
    Backups.validate_longhorn Backups.validate_schedule
    nebari_infrastructure_co.Config.Cron.five_field_cron Backups.validate_s3
find_provider-is_ok_example = find_provider-is_ok registry no_files config refl (λ e. cc)

abbrev asked : BackupBucketSpec
asked = record {
  name = "b";
  storage_account = "";
  create = true;
  pod_identity = true;
  force_destroy = false;
}

backup_bucket_spec-IsSupported_example : IsSupported (Cluster.provider_name config.cluster) asked
unfolding backup_bucket_spec Backups.validate Backups.is_enabled Backups.validate_longhorn
    Backups.validate_schedule nebari_infrastructure_co.Config.Cron.five_field_cron
    Backups.validate_s3 Cluster.provider_name Backups.longhorn_enabled Backups.longhorn_config
backup_bucket_spec-IsSupported_example = backup_bucket_spec-IsSupported config asked refl refl

abbrev unnamed : NebariConfig
unnamed = record config { project_name = "../x" }

abbrev real : DeployOptions
real = record { dry_run = false; timeout = pos 0; regen_apps = false }

abbrev preview : DeployOptions
preview = record { dry_run = true; timeout = pos 0; regen_apps = false }

deploy-rejected_example :
    ((deploy platform registry unnamed real []).1 ≡ [])
    × (is_ok (deploy platform registry unnamed real []).0 ≡ false)
unfolding validate_client Nebari.validate Nebari.safe_project_name
deploy-rejected_example = deploy-rejected platform registry unnamed real [] refl

deploy-dry_run_example :
    (((deploy platform registry config preview []).1 ≡ [])
      × (is_ok (deploy platform registry config preview []).0 ≡ false))
    ⊎ ((provider : ClusterProvider Log) × (call : ClusterDeployOptions) × (find_provider registry
            config
          ≡ ok provider)
        × (call.dry_run ≡ true)
        × ((deploy platform registry config preview []).1
            ≡ (provider.deploy config.project_name config.cluster call []).1))
deploy-dry_run_example = deploy-dry_run platform registry config preview [] refl refl

abbrev forced : DestroyOptions Log
forced = record { dry_run = false; force = true; timeout = pos 0; confirm = none }

config_found : checked platform registry config [] ≡ ok aws_provider
unfolding Nebari.validate Nebari.safe_project_name Cluster.validate validate_options Registry.list
    Dict.keys nebari_infrastructure_co.Config.Dns.validate nebari_infrastructure_co.Git.validate
    nebari_infrastructure_co.Git.is_local_path nebari_infrastructure_co.Git.validate_auth
    nebari_infrastructure_co.Config.Certificate.validate Backups.validate Backups.is_enabled
    Backups.validate_longhorn Backups.validate_schedule
    nebari_infrastructure_co.Config.Cron.five_field_cron Backups.validate_s3 Registry.get
    Dict.lookup Cluster.provider_name
config_found = refl

destroy-runs_example :
    ((destroy platform registry config forced []).1 ≡ "destroy" ∷ "clean up" ∷ [])
    × (is_ok (destroy platform registry config forced []).0 ≡ true || false)
unfolding resolve_base64 nebari_infrastructure_co.Nic.Destroy.destroy_dns Registry.get Dict.lookup
    nebari_infrastructure_co.Config.Dns.provider_name
destroy-runs_example =
    destroy-runs platform registry config forced [] aws_provider "" config_found refl refl
