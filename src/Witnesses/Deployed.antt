-- ===== src/Witnesses/Deployed.antt =====
-- The theorem on the outcome of a deployment, at one that installs everything.
use mathlib.Core.Path.{◌∙◌}
use nebari_infrastructure_co.Prelude.{◌≡◌, refl, ap, ◌∙◌, true, false, none, [], ok}
use nebari_infrastructure_co.Prelude.Dict
use nebari_infrastructure_co.Prelude.Int.{pos}
use nebari_infrastructure_co.Prelude.State.{continue}
use nebari_infrastructure_co.Config.Cluster
use nebari_infrastructure_co.Config.Nebari
use nebari_infrastructure_co.Config.Backups
use nebari_infrastructure_co.Registry
use nebari_infrastructure_co.Nic.Checks.{validate_options}
use nebari_infrastructure_co.Nic.Prepare.{Prepared, prepare}
use nebari_infrastructure_co.Nic.Deploy.{DeployOptions, DeployResult, deploy_prepared, deploy}
use nebari_infrastructure_co.Nic.Deploy.Outcome.{HasOutcome, deploy-HasOutcome}
use nebari_infrastructure_co.Witnesses.Samples.{
  config, registry, platform, aws_provider, settings, Log,
}

abbrev options : DeployOptions
options = record { dry_run = false; timeout = pos 0; regen_apps = false }

abbrev prepared : Prepared Log
prepared = record { provider = aws_provider; settings = settings; trust_pem = "" }

abbrev installed : DeployResult
installed = record { argo_cd_installed = true; keycloak_installed = true; lb_endpoint = none }

config_prepared : prepare platform registry config [] ≡ ok prepared
unfolding prepare Nebari.validate Nebari.safe_project_name Cluster.validate validate_options
    Registry.list Dict.keys nebari_infrastructure_co.Config.Dns.validate
    nebari_infrastructure_co.Git.validate nebari_infrastructure_co.Git.is_local_path
    nebari_infrastructure_co.Git.validate_auth nebari_infrastructure_co.Config.Certificate.validate
    Backups.validate Backups.is_enabled Backups.validate_longhorn Backups.validate_schedule
    nebari_infrastructure_co.Config.Cron.five_field_cron Backups.validate_s3 Registry.get
    Dict.lookup Cluster.provider_name
    nebari_infrastructure_co.Nic.Checks.ensure_backups_have_longhorn Backups.longhorn_enabled
    nebari_infrastructure_co.Config.TrustBundle.resolve_pem
config_prepared = refl

abbrev final : Log
final = (deploy_prepared platform registry config options prepared []).1

all_installed : deploy_prepared platform registry config options prepared [] ≡ (ok installed, final)
unfolding deploy_prepared nebari_infrastructure_co.Nic.Gitops.get_or_create_git_config
    nebari_infrastructure_co.Nic.Gitops.bootstrap_git_ops nebari_infrastructure_co.Git.is_local_path
    nebari_infrastructure_co.Nic.Deploy.install_argo_cd
    nebari_infrastructure_co.Nic.Secrets.generate_secure_password
    nebari_infrastructure_co.Nic.Secrets.generate_foundational_secrets
all_installed = refl

config_deployed : deploy platform registry config options [] ≡ (ok installed, final)
unfolding deploy
config_deployed =
    ap (λ r. continue (r, []) (deploy_prepared platform registry config options)) config_prepared
    ∙ all_installed

deploy-HasOutcome_example : HasOutcome config options installed
deploy-HasOutcome_example =
    deploy-HasOutcome platform registry config options [] final installed config_deployed
