-- ===== src/Config/Cluster/Single.antt =====
-- When a cluster block is accepted.
use nebari_infrastructure_co.Prelude.{
  String, ◌≡◌, refl, sym, subst, ◌↔◌, ◌⊎◌, true, some, List, [], ◌∷◌, arith, contains, ok,
}
use nebari_infrastructure_co.Config.Value.{mapping, Fields, ProviderMap}
use nebari_infrastructure_co.Config.Cluster.{
  ClusterConfig, validate, provider_name, provider_config,
}

-- The block holds one provider, whose value is a mapping and whose name is known where a list of
-- known names is given.
pub record IsSingle (valid_providers : List String) (c : ClusterConfig) : Type 0 where
  pub name : String
  pub fields : Fields
  pub only : c.providers ≡ (name, mapping fields) ∷ []
  pub known : (valid_providers ≡ []) ⊎ (contains valid_providers name ≡ true)

module _ (valid : List String) where
  IsSingle-of_validate :
      (ps : ProviderMap)
      → validate valid (record { providers = ps }) ≡ ok tt
      → IsSingle valid (record { providers = ps })
  unfolding validate
  IsSingle-of_validate ((n, mapping fs) ∷ []) h = record {
    name = n;
    fields = fs;
    only = refl;
    known = ground arith;
  }
  IsSingle-of_validate ps h = absurd (ground arith)

  validate_of_known :
      (name : String) (fields : Fields)
      → (valid ≡ []) ⊎ (contains valid name ≡ true)
      → validate valid (record { providers = (name, mapping fields) ∷ [] }) ≡ ok tt
  unfolding validate
  validate_of_known name fields h = ground arith

-- A cluster block is accepted exactly when it holds one provider, whose value is a mapping and whose
-- name is in the list of valid names where that list is not empty.
pub cluster-validate_iff :
    (valid_providers : List String) (c : ClusterConfig)
    → (validate valid_providers c ≡ ok tt) ↔ IsSingle valid_providers c
cluster-validate_iff valid_providers c = (
  IsSingle-of_validate valid_providers c.providers,
  λ s.
      subst (λ ps. validate valid_providers (record { providers = ps }) ≡ ok tt) (sym s.only)
        (validate_of_known valid_providers s.name s.fields s.known),
)

-- Of an accepted block, the name and the configuration are those of its only provider.
pub cluster-validate_name :
    (valid_providers : List String) (c : ClusterConfig)
    → validate valid_providers c ≡ ok tt
    → (fields : Fields) × (provider_config (some c) ≡ some fields)
      × (c.providers ≡ (provider_name (some c), mapping fields) ∷ [])
unfolding provider_name provider_config
cluster-validate_name valid_providers c h =
    let s = (cluster-validate_iff valid_providers c).0 h in (s.fields, ground arith, ground arith)
