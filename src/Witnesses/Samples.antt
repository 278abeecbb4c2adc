-- ===== src/Witnesses/Samples.antt =====
-- A configuration for AWS with its blocks, and a platform whose world is the list of the calls that
-- changed something.
use nebari_infrastructure_co.Prelude.{
  String, Bool, true, false, Option, none, some, List, [], ◌∷◌, if◌then◌else◌, ok, err,
}
use nebari_infrastructure_co.Prelude.Int.{pos}
use nebari_infrastructure_co.Config.Value.{word, mapping, field, end_mapping}
use nebari_infrastructure_co.Config.Cluster.{ClusterConfig}
use nebari_infrastructure_co.Config.Dns.{DnsConfig}
use nebari_infrastructure_co.Config.Backups.{
  S3BackupTarget, AzureBackupTarget, ScheduleConfig, LonghornBackupConfig,
}
use nebari_infrastructure_co.Config.Nebari.{NebariConfig}
use nebari_infrastructure_co.Git.{AuthConfig, GitConfig, no_auth}
use nebari_infrastructure_co.Registry.{Registry}
use nebari_infrastructure_co.Nic.Platform.{
  ClusterProvider, DnsProvider, GitClient, InfraSettings, Platform,
}

abbrev pub no_files : String → Option Bool
no_files path = none

abbrev pub token_auth : AuthConfig
token_auth = record {
  ssh_key_env = "";
  token_env = "TOKEN";
  insecure_skip_host_key_verification = false;
}

abbrev pub remote : GitConfig
remote = record {
  url = "https://example.com/r.git";
  branch = "";
  path = "";
  auth = token_auth;
  argocd_auth = none;
}

abbrev pub local : GitConfig
local = record {
  url = "file:///srv//gitops/./p";
  branch = "";
  path = "";
  auth = no_auth;
  argocd_auth = none;
}

abbrev pub aws : ClusterConfig
aws = record { providers = ("aws", mapping end_mapping) ∷ [] }

abbrev pub dns : DnsConfig
dns = record {
  providers = ("cloudflare", mapping (field "zone_name" (word "example.com") end_mapping)) ∷ [];
}

abbrev pub daily : ScheduleConfig
daily = record { cron = "0 2 * * *"; retain = pos 7; concurrency = pos 1 }

abbrev pub bucket : S3BackupTarget
bucket = record {
  bucket = "b";
  region = "r";
  prefix = "//x/";
  create_bucket = true;
  retain_on_destroy = none;
  endpoint = "";
  virtual_hosted_style = false;
  access_key_id_env = "";
  secret_access_key_env = "";
  ca_cert = none;
}

abbrev pub container : AzureBackupTarget
container = record {
  container = "c";
  storage_account = "s";
  prefix = "";
  create_container = true;
  retain_on_destroy = none;
  endpoint = "";
  account_name_env = "N";
  account_key_env = "K";
}

abbrev pub longhorn : LonghornBackupConfig
longhorn = record {
  enabled = none;
  s3 = some bucket;
  azure = none;
  allow_recurring_job_while_volume_detached = none;
  schedules = record { snapshot = daily; backup = daily };
}

abbrev pub config : NebariConfig
config = record {
  project_name = "p";
  domain = "";
  cluster = some aws;
  dns = some dns;
  git_repository = some remote;
  certificate = none;
  trust_bundle = none;
  backups = some (record { longhorn = some longhorn });
}

abbrev pub Log : Type 0
Log = List String

abbrev pub settings : InfraSettings
settings = record {
  storage_class = "longhorn";
  needs_metal_lb = false;
  load_balancer_annotations = [];
  metal_lb_address_pool = "";
  keycloak_base_path = "";
  https_port = pos 0;
  efs_storage_class = "";
  supports_local_git_ops = false;
  longhorn_enabled = true;
}

abbrev pub aws_provider : ClusterProvider Log
aws_provider = record {
  infra_settings = λ _. settings;
  summary = λ _. [];
  deploy = λ _ _ opts w. (ok tt, if opts.dry_run then w else "deploy" ∷ w);
  destroy = λ _ _ opts w. (err "no access", if opts.dry_run then w else "destroy" ∷ w);
  get_kubeconfig = λ _ _ w. (ok "kubeconfig", w);
  backup_pod_identity_role_arn = none;
}

abbrev pub dns_provider : DnsProvider Log
dns_provider = record {
  provision_records = λ _ _ _ w. (ok tt, "provision" ∷ w);
  destroy_records = λ _ _ w. (err "no zone", "clean up" ∷ w);
}

abbrev pub registry : Registry (ClusterProvider Log) (DnsProvider Log)
registry = record {
  cluster_providers = record {
    name = "ClusterProviders";
    registered_providers = ("aws", aws_provider) ∷ [];
  };
  dns_providers = record {
    name = "DNSProviders";
    registered_providers = ("cloudflare", dns_provider) ∷ [];
  };
}

abbrev git_client : GitClient Log
git_client = record {
  validate_auth = λ w. (ok tt, w);
  init = λ w. (ok tt, w);
  work_dir = "/w";
  commit_and_push = λ m w. (ok tt, m ∷ w);
  is_bootstrapped = λ w. (ok false, w);
  write_bootstrap_marker = λ w. (ok tt, w);
  cleanup = λ w. (ok tt, w);
}

abbrev pub platform : Platform Log String String
platform = record {
  stat = λ _ _. none;
  read_file = λ _ path. ok path;
  user_home_dir = λ _. some "/home/u";
  temp_dir = λ _. "/tmp";
  preflight_gateway_tls = λ _ _. ok tt;
  ensure_local_git_ops_dir = λ path w. (ok tt, path ∷ w);
  mkdir_all = λ path w. (ok tt, path ∷ w);
  write_config = λ path _ w. (ok tt, path ∷ w);
  new_git_client = λ _ w. (ok git_client, w);
  write_all_to_git = λ _ _ _ _ _ w. (ok tt, w);
  random_bytes = λ _ w. (ok [], w);
  install = λ _ _ _ _ _ w. (ok tt, "install" ∷ w);
  install_foundational_services = λ _ _ _ _ w. (ok tt, "services" ∷ w);
  rest_config_from_kube_config = λ k. ok k;
  new_for_config = λ r. ok r;
  get_load_balancer_endpoint = λ _ w. (ok none, w);
}
