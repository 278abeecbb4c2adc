-- ===== src/Config/Certificate/Sources.antt =====
-- Which certificate settings are accepted, and what the gateway then refers to.
use nebari_infrastructure_co.Prelude.{
  String, ◌≡◌, refl, ◌≢◌, ◌↔◌, ◌⊎◌, inl, inr, Bool, true, false, not, Option, none, some, arith,
  ◌==◌, eq_iff, if◌then◌else◌, Bool-cases, ok,
}
use nebari_infrastructure_co.Config.Certificate.{
  AcmeConfig, ExistingSecretRef, CertFiles, CertEnv, CertificateConfig, validate, validate_existing,
  gateway_secret_ref, is_cross_namespace_secret, default_gateway_tls_secret_name, own_secret,
  point_to, default_gateway_tls_namespace,
}

-- The settings are for a certificate that cert-manager makes.
abbrev pub IsManaged : CertificateConfig → Type 0
IsManaged c = (c.type ≡ "") ⊎ (c.type ≡ "selfsigned") ⊎ (c.type ≡ "letsencrypt")

abbrev pub HasSecret : CertificateConfig → Type 0
HasSecret c =
    (r : ExistingSecretRef) × (c.existing_secret ≡ some r)
    × (c.files ≡ none)
    × (c.env ≡ none)
    × (r.name ≢ "")
    × (c.secret_name ≡ "")

abbrev pub HasFiles : CertificateConfig → Type 0
HasFiles c =
    (f : CertFiles) × (c.existing_secret ≡ none)
    × (c.files ≡ some f)
    × (c.env ≡ none)
    × (f.cert_file ≢ "")
    × (f.key_file ≢ "")

abbrev pub HasEnv : CertificateConfig → Type 0
HasEnv c =
    (e : CertEnv) × (c.existing_secret ≡ none)
    × (c.files ≡ none)
    × (c.env ≡ some e)
    × (e.cert_env ≢ "")
    × (e.key_env ≢ "")

-- The user brings the certificate, from one complete source and without ACME settings.
pub record IsBrought (c : CertificateConfig) : Type 0 where
  pub existing : c.type ≡ "existing"
  pub no_acme : c.acme ≡ none
  pub source : HasSecret c ⊎ HasFiles c ⊎ HasEnv c

module _ (t n : String) where
  abbrev made :
      Option AcmeConfig
      → Option ExistingSecretRef
      → Option CertFiles
      → Option CertEnv
      → CertificateConfig
  made a s f e = record {
    type = t;
    acme = a;
    secret_name = n;
    existing_secret = s;
    files = f;
    env = e;
  }

  source_of_validate :
      (a : Option AcmeConfig) (s : Option ExistingSecretRef) (f : Option CertFiles)
      (e : Option CertEnv)
      → validate_existing (made a s f e) ≡ ok tt
      → (a ≡ none) × (HasSecret (made a s f e) ⊎ HasFiles (made a s f e) ⊎ HasEnv (made a s f e))
  unfolding validate_existing
  source_of_validate none (some r) none none h = (
    refl,
    inl (r, refl, refl, refl, ground (arith, eq_iff r.name ""), ground (arith, eq_iff n "")),
  )
  source_of_validate none none (some f) none h = (
    refl,
    inr (
        inl (
          f,
          refl,
          refl,
          refl,
          ground (arith, eq_iff f.cert_file ""),
          ground (arith, eq_iff f.cert_file "", eq_iff f.key_file ""),
        )),
  )
  source_of_validate none none none (some e) h = (
    refl,
    inr (
        inr (
          e,
          refl,
          refl,
          refl,
          ground (arith, eq_iff e.cert_env ""),
          ground (arith, eq_iff e.cert_env "", eq_iff e.key_env ""),
        )),
  )
  source_of_validate a s f e h = absurd (ground arith)

  validate_existing_of_source :
      (a : Option AcmeConfig) (s : Option ExistingSecretRef) (f : Option CertFiles)
      (e : Option CertEnv)
      → a ≡ none
      → HasSecret (made a s f e) ⊎ HasFiles (made a s f e) ⊎ HasEnv (made a s f e)
      → validate_existing (made a s f e) ≡ ok tt
  unfolding validate_existing
  validate_existing_of_source a s f e no_acme (inl (r, is_s, is_f, is_e, named, unset)) =
      rw (no_acme, is_s, is_f, is_e) (ground (arith, eq_iff r.name "", eq_iff n ""))
  validate_existing_of_source a s f e no_acme (inr (inl (r, is_s, is_f, is_e, cert, key))) =
      rw (no_acme, is_s, is_f, is_e) (ground (arith, eq_iff r.cert_file "", eq_iff r.key_file ""))
  validate_existing_of_source a s f e no_acme (inr (inr (r, is_s, is_f, is_e, cert, key))) =
      rw (no_acme, is_s, is_f, is_e) (ground (arith, eq_iff r.cert_env "", eq_iff r.key_env ""))

validate_existing_iff :
    (c : CertificateConfig)
    → (validate_existing c ≡ ok tt) ↔ ((c.acme ≡ none) × (HasSecret c ⊎ HasFiles c ⊎ HasEnv c))
validate_existing_iff c = (
  source_of_validate c.type c.secret_name c.acme c.existing_secret c.files c.env,
  λ (no_acme, source).
      validate_existing_of_source c.type c.secret_name c.acme c.existing_secret c.files c.env
        no_acme source,
)

accepted_of_validate :
    (c : CertificateConfig) → validate (some c) ≡ ok tt → IsManaged c ⊎ IsBrought c
unfolding validate
accepted_of_validate c h = elim (Bool-cases (c.type == "existing")) [
  | inl is ↦
      let e = (eq_iff c.type "existing").0 is in
      let (no_acme, source) = (validate_existing_iff c).0 (simp e at h) in
      inr (record { existing = e; no_acme = no_acme; source = source })
  | inr other ↦
      inl
        (ground (arith, eq_iff c.type "", eq_iff c.type "selfsigned", eq_iff c.type "letsencrypt"))
]

pub certificate-validate_iff :
    (c : CertificateConfig) → (validate (some c) ≡ ok tt) ↔ (IsManaged c ⊎ IsBrought c)
unfolding validate
certificate-validate_iff c = (
  accepted_of_validate c,
  elim [
    | inl managed ↦
        ground (arith, eq_iff c.type "", eq_iff c.type "selfsigned", eq_iff c.type "letsencrypt")
    | inr b ↦ simp b.existing ((validate_existing_iff c).1 (b.no_acme, b.source))
  ],
)

-- The secret of the user that the gateway refers to has a name, if there is one.
owned_secret :
    (c : CertificateConfig)
    → IsManaged c ⊎ IsBrought c
    → let own = own_secret (c.type == "existing") c.existing_secret in
      (own ≡ none) ⊎ ((r : ExistingSecretRef) × (own ≡ some r) × (r.name ≢ ""))
owned_secret c (inl (inl e)) = inl (rw e)
owned_secret c (inl (inr (inl e))) = inl (rw e)
owned_secret c (inl (inr (inr e))) = inl (rw e)
owned_secret c (inr b) = elim b.source [
  | inl (r, is_s, is_f, is_e, named, unset) ↦ inr (r, rw (b.existing, is_s), named)
  | inr (inl (f, is_s, _, _, _, _)) ↦ inl (rw (b.existing, is_s))
  | inr (inr (e, is_s, _, _, _, _)) ↦ inl (rw (b.existing, is_s))
]

-- Of accepted settings, or none, the gateway refers to a secret with a name, in a namespace with a
-- name.
pub gateway_secret_ref-named :
    (c : Option CertificateConfig)
    → validate c ≡ ok tt
    → ((gateway_secret_ref c).0 ≢ "") × ((gateway_secret_ref c).1 ≢ "")
unfolding gateway_secret_ref
gateway_secret_ref-named none h = (
  ground (arith, eq_iff default_gateway_tls_secret_name ""),
  ground (arith, eq_iff default_gateway_tls_namespace ""),
)
gateway_secret_ref-named (some c) h = elim (owned_secret c (accepted_of_validate c h)) [
  | inl e ↦ rw e (
    ground (arith, eq_iff c.secret_name "", eq_iff default_gateway_tls_secret_name ""),
    ground (arith, eq_iff default_gateway_tls_namespace ""),
  )
  | inr (r, e, named) ↦
      rw e (named, ground (arith, eq_iff r.namespace "", eq_iff default_gateway_tls_namespace ""))
]

other_namespace :
    (empty : Bool) (n : String)
    → not
        ((if not empty then n else default_gateway_tls_namespace) == default_gateway_tls_namespace)
      ≡ true
    → (empty ≡ false) × (not (n == default_gateway_tls_namespace) ≡ true)
other_namespace true n h = cc
other_namespace false n h = (refl, h)

cross_namespace_of :
    (existing : Bool) (s : Option ExistingSecretRef) (n : String)
    → not (
        (point_to (own_secret existing s) (n, default_gateway_tls_namespace)).1
        == default_gateway_tls_namespace)
      ≡ true
    → (existing ≡ true)
      × ((r : ExistingSecretRef) × (s ≡ some r)
          × (r.namespace ≢ "")
          × (r.namespace ≢ default_gateway_tls_namespace))
cross_namespace_of true (some r) n h =
    let (set, other) = other_namespace (r.namespace == "") r.namespace h in
    (
      refl,
      (
        r,
        refl,
        ground (arith, eq_iff r.namespace ""),
        ground (arith, eq_iff r.namespace default_gateway_tls_namespace),
      ),
    )
cross_namespace_of true none n h = cc
cross_namespace_of false s n h = cc

-- The gateway refers to another namespace than its own exactly when the type is existing and a
-- secret of the user is set with another, non-empty namespace.
pub is_cross_namespace_iff :
    (c : CertificateConfig)
    → (is_cross_namespace_secret (some c) ≡ true) ↔ (
        (c.type ≡ "existing")
        × ((r : ExistingSecretRef) × (c.existing_secret ≡ some r)
            × (r.namespace ≢ "")
            × (r.namespace ≢ default_gateway_tls_namespace)))
unfolding is_cross_namespace_secret
is_cross_namespace_iff c = (
  λ h.
      let (existing, r) = cross_namespace_of (c.type == "existing") c.existing_secret _ h in
      ((eq_iff _ _).0 existing, r),
  λ (e, (r, is, set, other)).
      simp (e, is)
        (ground (arith, eq_iff r.namespace "", eq_iff r.namespace default_gateway_tls_namespace)),
)
