-- ===== src/Config/Certificate.antt =====
-- `CertificateConfig` of pkg/config/config.go: TLS certificate settings, their validation and the
-- secret that the gateway refers to.
pub mod Sources
use nebari_infrastructure_co.Prelude.{
  ℕ, ◌+◌, String, Bool, true, false, not, ◌||◌, Option, none, some, ◌==◌, nat_eq, if◌then◌else◌,
  is_some, Result, ok, err, ◌>>=◌, ◌>>◌, fail_if,
}

pub record AcmeConfig : Type 0 where
  pub email : String
  pub server : String

pub record ExistingSecretRef : Type 0 where
  pub name : String
  pub namespace : String

pub record CertFiles : Type 0 where
  pub cert_file : String
  pub key_file : String

pub record CertEnv : Type 0 where
  pub cert_env : String
  pub key_env : String

pub record CertificateConfig : Type 0 where
  pub type : String
  pub acme : Option AcmeConfig
  pub secret_name : String
  pub existing_secret : Option ExistingSecretRef
  pub files : Option CertFiles
  pub env : Option CertEnv

abbrev pub certificate_type_self_signed : String
certificate_type_self_signed = "selfsigned"

abbrev pub certificate_type_lets_encrypt : String
certificate_type_lets_encrypt = "letsencrypt"

abbrev pub certificate_type_existing : String
certificate_type_existing = "existing"

abbrev pub default_gateway_tls_secret_name : String
default_gateway_tls_secret_name = "nebari-gateway-tls"

abbrev pub default_gateway_tls_namespace : String
default_gateway_tls_namespace = "envoy-gateway-system"

pub data CertificateError : Type 0 where
  invalid_type : String → CertificateError
  acme_with_existing : CertificateError
  source_count : ℕ → CertificateError
  secret_name_required secret_name_with_existing : CertificateError
  incomplete_files incomplete_env : CertificateError

abbrev one_if : Bool → ℕ
one_if b = if b then 1 else 0

abbrev check_secret : String → Option ExistingSecretRef → Result CertificateError (Unit {0})
check_secret secret_name none = ok tt
check_secret secret_name (some r) = do
  fail_if (r.name == "") secret_name_required
  fail_if (not (secret_name == "")) secret_name_with_existing

abbrev check_files : Option CertFiles → Result CertificateError (Unit {0})
check_files none = ok tt
check_files (some f) = fail_if (f.cert_file == "" || f.key_file == "") incomplete_files

abbrev check_env : Option CertEnv → Result CertificateError (Unit {0})
check_env none = ok tt
check_env (some e) = fail_if (e.cert_env == "" || e.key_env == "") incomplete_env

-- `validateExisting`.
unfoldable pub validate_existing : CertificateConfig → Result CertificateError (Unit {0})
validate_existing c = do
  fail_if (is_some c.acme) acme_with_existing
  let sources =
      one_if (is_some c.existing_secret) + one_if (is_some c.files) + one_if (is_some c.env)
  fail_if (not (nat_eq sources 1)) (source_count sources)
  check_secret c.secret_name c.existing_secret
  check_files c.files
  check_env c.env

-- `Validate`, on a pointer that may be nil.
unfoldable pub validate : Option CertificateConfig → Result CertificateError (Unit {0})
validate none = ok tt
validate (some c) =
    if c.type == ""
      || c.type == certificate_type_self_signed
      || c.type == certificate_type_lets_encrypt
    then ok tt
    else if c.type == certificate_type_existing
    then validate_existing c
    else err (invalid_type c.type)

-- `ResolvedSecretName`.
unfoldable pub resolved_secret_name : Option CertificateConfig → String
resolved_secret_name none = default_gateway_tls_secret_name
resolved_secret_name (some c) =
    if not (c.secret_name == "") then c.secret_name else default_gateway_tls_secret_name

abbrev own_secret : Bool → Option ExistingSecretRef → Option ExistingSecretRef
own_secret true r = r
own_secret false r = none

abbrev point_to : Option ExistingSecretRef → String × String → String × String
point_to none p = p
point_to (some r) p = (r.name, if not (r.namespace == "") then r.namespace else p.1)

-- `GatewaySecretRef`: the name and the namespace.
unfoldable pub gateway_secret_ref : Option CertificateConfig → String × String
unfolding resolved_secret_name
gateway_secret_ref none = (resolved_secret_name none, default_gateway_tls_namespace)
gateway_secret_ref (some c) =
    point_to (own_secret (c.type == certificate_type_existing) c.existing_secret)
      (resolved_secret_name (some c), default_gateway_tls_namespace)

-- `IsCrossNamespaceSecret`.
unfoldable pub is_cross_namespace_secret : Option CertificateConfig → Bool
unfolding gateway_secret_ref
is_cross_namespace_secret c = not ((gateway_secret_ref c).1 == default_gateway_tls_namespace)
