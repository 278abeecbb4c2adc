-- ===== src/Registry/Lookup.antt =====
-- What registering changes, and what can be looked up.
use nebari_infrastructure_co.Prelude.{String, ◌≡◌, ◌↔◌, true, false, arith, contains, is_ok}
use nebari_infrastructure_co.Prelude.Dict
use nebari_infrastructure_co.Registry.{ProviderList, register, get, list}

module _ {ℓ} {V : Type ℓ} (p : ProviderList V) where
  -- A name is registered with success exactly when it was not registered.
  pub register_iff :
      (name : String) (value : V)
      → (is_ok (register name value p) ≡ true) ↔ (is_ok (get name p) ≡ false)
  unfolding register get
  register_iff name value = ground arith

  inserted : String → V → ProviderList V
  inserted name value = record p {
    registered_providers = Dict.insert name value p.registered_providers;
  }

  -- A name can be looked up exactly when it is listed.
  pub list_iff : (name : String) → contains (list p) name ≡ is_ok (get name p)
  unfolding list get
  list_iff name = ground (arith, Dict.contains-keys p.registered_providers name)
