-- ===== src/Config/Value.antt =====
-- The values that the YAML decoder puts into a `map[string]any` (pkg/config/config.go).
use nebari_infrastructure_co.Prelude.{String, List}

mutual
  pub data Value : Type 0 where
    null : Value
    word : String → Value
    -- A boolean, a time or a finite number, as it was written.
    plain : String → Value
    -- An infinite number, or one that is none, which JSON cannot write.
    not_finite : Value
    sequence : Items → Value
    mapping : Fields → Value

  pub data Items : Type 0 where
    end_sequence : Items
    item : Value → Items → Items

  pub data Fields : Type 0 where
    end_mapping : Fields
    field : String → Value → Fields → Fields

-- `Providers map[string]any`: no key stands twice, since the decoder refuses a repeated key. The
-- order is the one in which `range` visits the keys; Go leaves it open.
abbrev pub ProviderMap : Type 0
ProviderMap = List (String × Value)
