-- ===== src/Registry.antt =====
-- pkg/registry: the lists of providers that are known by name. Each call holds the list's lock, so
-- calls are steps one after the other.
pub mod Lookup
use nebari_infrastructure_co.Prelude.{
  String, none, some, List, [], ◌∷◌, Result, ok, err, ◌>>=◌, ◌>>◌,
}
use nebari_infrastructure_co.Prelude.Dict

pub data RegistryError : Type 0 where
  already_registered not_registered : String → String → RegistryError

-- The map of a `ProviderList`; a new provider stands last.
pub record ProviderList {ℓ} (V : Type ℓ) : Type ℓ where
  pub name : String
  pub registered_providers : List (String × V)

module _ {ℓ} {V : Type ℓ} where
  unfoldable pub new_provider_list : String → ProviderList V
  new_provider_list name = record { name = name; registered_providers = [] }

  -- `Register`.
  unfoldable pub register : String → V → ProviderList V → Result RegistryError (ProviderList V)
  register name value p = elim (Dict.lookup name p.registered_providers) [
    | some _ ↦ err (already_registered p.name name)
    | none ↦ ok (record p { registered_providers = Dict.insert name value p.registered_providers })
  ]

  -- `Get`.
  unfoldable pub get : String → ProviderList V → Result RegistryError V
  get name p = elim (Dict.lookup name p.registered_providers) [
    | none ↦ err (not_registered p.name name)
    | some provider ↦ ok provider
  ]

  -- `List`, in the order that `range` visits the map.
  unfoldable pub list : ProviderList V → List String
  list p = Dict.keys p.registered_providers

  -- Registering several providers in turn.
  unfoldable pub register_all :
      List (String × V) → ProviderList V → Result RegistryError (ProviderList V)
  register_all [] p = ok p
  register_all ((name, value) ∷ rest) p = do q ← register name value p; register_all rest q

pub record Registry {ℓ κ} (C : Type ℓ) (D : Type κ) : Type (ℓ ⊔ κ) where
  pub cluster_providers : ProviderList C
  pub dns_providers : ProviderList D

-- `NewRegistry`.
unfoldable pub new_registry {ℓ κ} : {C : Type ℓ} {D : Type κ} → Registry C D
new_registry = record {
  cluster_providers = new_provider_list "ClusterProviders";
  dns_providers = new_provider_list "DNSProviders";
}
