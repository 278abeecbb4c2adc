-- ===== src/Nic/Secrets.antt =====
-- The random secrets of pkg/nic/deploy.go.
use nebari_infrastructure_co.Prelude.{ℕ, zero, suc, String, List, ok}
use nebari_infrastructure_co.Prelude.State.{M, ◌>>=◌, lift}
use nebari_infrastructure_co.Base64
use nebari_infrastructure_co.Nic.Platform.{FoundationalSecrets}

-- The first characters of a text.
abbrev pub take_chars : ℕ → String → String
take_chars zero s = ""
take_chars (suc n) String.[] = ""
take_chars (suc n) (String.◌∷◌ c s) = String.◌∷◌ c (take_chars n s)

abbrev pub password_of : List ℕ → String
password_of bytes = take_chars 43 (Base64.encode_url bytes)

-- `io.ReadFull` of a reader: as many bytes as asked for, or an error.
module _ {W : Type 0} (read_full : ℕ → M W String (List ℕ)) where
  -- `generateSecurePassword`.
  unfoldable pub generate_secure_password : M W String String
  generate_secure_password = do b ← read_full 32; lift (ok (password_of b))

  -- `generateFoundationalSecrets`.
  unfoldable pub generate_foundational_secrets : M W String FoundationalSecrets
  generate_foundational_secrets = do
    keycloak_admin ← generate_secure_password
    keycloak_db ← generate_secure_password
    postgres_admin ← generate_secure_password
    postgres_user ← generate_secure_password
    realm_admin ← generate_secure_password
    redis ← generate_secure_password
    lift (
        ok (record {
          keycloak_admin = keycloak_admin;
          keycloak_db = keycloak_db;
          postgres_admin = postgres_admin;
          postgres_user = postgres_user;
          realm_admin = realm_admin;
          redis = redis;
        }))
