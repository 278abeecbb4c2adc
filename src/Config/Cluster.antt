-- ===== src/Config/Cluster.antt =====
-- `ClusterConfig` of pkg/config/config.go: the cluster block and its validation.
pub mod Single
use nebari_infrastructure_co.Prelude.{
  String, List, [], ◌∷◌, Option, none, some, Bool, true, false, not, ◌&&◌, ltb, nat_eq, length,
  contains, is_some, Result, ok, err, ◌>>=◌, ◌>>◌, fail_if,
}
use nebari_infrastructure_co.Config.Value.{
  Value, null, word, plain, not_finite, sequence, mapping, Fields, ProviderMap,
}

pub record ClusterConfig : Type 0 where
  pub providers : ProviderMap

pub data ClusterError : Type 0 where
  no_provider many_providers : ClusterError
  invalid_provider : String → List String → ClusterError
  not_a_mapping : String → ClusterError

abbrev first_name : ProviderMap → String
first_name [] = ""
first_name ((name, _) ∷ _) = name

-- `ProviderName`, on a pointer that may be nil.
unfoldable pub provider_name : Option ClusterConfig → String
provider_name none = ""
provider_name (some c) = first_name c.providers

abbrev as_mapping : Value → Option Fields
as_mapping (mapping fs) = some fs
as_mapping _ = none

abbrev first_config : ProviderMap → Option Fields
first_config [] = none
first_config ((_, v) ∷ _) = as_mapping v

-- `ProviderConfig`, on a pointer that may be nil.
unfoldable pub provider_config : Option ClusterConfig → Option Fields
provider_config none = none
provider_config (some c) = first_config c.providers

unfoldable pub validate : List String → ClusterConfig → Result ClusterError (Unit {0})
unfolding provider_name provider_config
validate valid_providers c = do
  fail_if (nat_eq (length c.providers) 0) no_provider
  fail_if (ltb 1 (length c.providers)) many_providers
  let name = provider_name (some c)
  fail_if (ltb 0 (length valid_providers) && not (contains valid_providers name))
      (invalid_provider name valid_providers)
  fail_if (not (is_some (provider_config (some c)))) (not_a_mapping name)
