-- ===== src/Nic/Checks/Accepted.antt =====
-- When a configuration passes the checks of pkg/nic/validate.go.
use nebari_infrastructure_co.Prelude.{
  String, ◌≡◌, ◌≢◌, ◌↔◌, ◌⊎◌, inl, inr, Bool, true, false, Option, none, some, List, [], arith,
  eq_iff, contains, ok, is_ok, >>-eq-ok, wrap-eq-ok, >>=-eq-ok,
}
use nebari_infrastructure_co.Config.Cluster
use nebari_infrastructure_co.Config.Cluster.{ClusterConfig}
use nebari_infrastructure_co.Config.Nebari
use nebari_infrastructure_co.Config.Nebari.{NebariConfig, ConfigError}
use nebari_infrastructure_co.Config.Nebari.Accepted.{HasCluster, IsAccepted, nebari-validate_iff}
use nebari_infrastructure_co.Config.Backups.{longhorn_enabled}
use nebari_infrastructure_co.Registry.{Registry}
use nebari_infrastructure_co.Registry
use nebari_infrastructure_co.Registry.Lookup.{list_iff}
use nebari_infrastructure_co.Nic.Platform.{ClusterProvider}
use nebari_infrastructure_co.Nic.Checks.{
  configuration_invalid, validate_options, find_provider, check_config, validate_client,
  ensure_backups_have_longhorn, longhorn_storage_class,
}

provider_name-known :
    (names : List String) (c : Option ClusterConfig)
    → HasCluster names c
    → names ≢ []
    → contains names (Cluster.provider_name c) ≡ true
unfolding Cluster.provider_name
provider_name-known names none a h = absurd a
provider_name-known names (some c) a h = elim a.known [ inl e ↦ absurd (h e) | inr k ↦ rw a.only k ]

module _ {W D : Type 0} (reg : Registry (ClusterProvider W) D) (stat : String → Option Bool) where
  -- Of a configuration that is accepted with the names of a registry that knows a cluster provider,
  -- the provider is found.
  pub find_provider-is_ok :
      (cfg : NebariConfig)
      → Nebari.validate stat (validate_options reg) cfg ≡ ok tt
      → Registry.list reg.cluster_providers ≢ []
      → is_ok (find_provider reg cfg) ≡ true
  unfolding validate_options
  find_provider-is_ok cfg h nonempty =
      let name = Cluster.provider_name cfg.cluster in
      let names = Registry.list reg.cluster_providers in
      let a = (nebari-validate_iff stat (validate_options reg) cfg).0 h in
      let known = provider_name-known names cfg.cluster a.cluster nonempty in
      ground (arith, list_iff reg.cluster_providers name)

  -- What `Client.Validate` accepts.
  pub record IsDeployable (cfg : NebariConfig) : Type 0 where
    pub config : IsAccepted stat (validate_options reg) cfg
    pub provider : ClusterProvider W
    pub found : find_provider reg cfg ≡ ok provider
    pub storage :
        (longhorn_enabled cfg.backups ≡ false)
        ⊎ ((provider.infra_settings cfg.cluster).storage_class ≡ longhorn_storage_class)

  storage_iff :
      (cfg : NebariConfig) (class : String)
      → (ensure_backups_have_longhorn cfg class ≡ ok tt)
        ↔ ((longhorn_enabled cfg.backups ≡ false) ⊎ (class ≡ longhorn_storage_class))
  unfolding ensure_backups_have_longhorn
  storage_iff cfg class = (
    λ h. ground (arith, eq_iff class longhorn_storage_class),
    λ h. ground (arith, eq_iff class longhorn_storage_class),
  )

  IsDeployable-of_validate :
      (cfg : NebariConfig) → validate_client reg stat cfg ≡ ok tt → IsDeployable cfg
  unfolding validate_client
  IsDeployable-of_validate cfg h =
      let (config, h₁) = >>-eq-ok (check_config reg stat cfg) _ h in
      let (provider, found, h₂) = >>=-eq-ok (find_provider reg cfg) _ h₁ in
      record {
        config = (nebari-validate_iff stat (validate_options reg) cfg).0 (
            wrap-eq-ok configuration_invalid (Nebari.validate stat (validate_options reg) cfg)
              config);
        provider = provider;
        found = found;
        storage = (storage_iff cfg (provider.infra_settings cfg.cluster).storage_class).0 h₂;
      }

  validate_of_deployable :
      (cfg : NebariConfig) → IsDeployable cfg → validate_client reg stat cfg ≡ ok tt
  unfolding validate_client
  validate_of_deployable cfg d =
      rw ((nebari-validate_iff stat (validate_options reg) cfg).1 d.config, d.found)
        ((storage_iff cfg (d.provider.infra_settings cfg.cluster).storage_class).1 d.storage)

  -- The client's validation passes exactly when the configuration is accepted with the registered
  -- names, its cluster provider is registered, and its Longhorn backups, if enabled, stand on a
  -- provider whose storage class is Longhorn.
  pub validate_client_iff :
      (cfg : NebariConfig) → (validate_client reg stat cfg ≡ ok tt) ↔ IsDeployable cfg
  validate_client_iff cfg = (IsDeployable-of_validate cfg, validate_of_deployable cfg)
