-- ===== src/Longhorn/Keys.antt =====
-- Which keys the credential secret holds.
use mathlib.Core.Path.{◌∙◌}
use nebari_infrastructure_co.Prelude.{
  String, ◌≡◌, refl, subst, ◌≢◌, ◌⊎◌, inl, inr, Bool, true, false, not, ◌||◌, Option, none, some,
  List, [], arith, ◌==◌, eq_iff, Bool-cases, Result, ok, wrap, >>=-eq-ok, ok-injective,
  wrap-eq-ok_value,
}
use nebari_infrastructure_co.Prelude.Dict
use nebari_infrastructure_co.Config.Backups.{S3BackupTarget, LonghornBackupConfig, CaCertRef}
use nebari_infrastructure_co.Longhorn.{
  Credentials, s3_access_key, s3_secret_key, s3_ca_cert, getenv_required, fetch_ca_cert, s3_keys,
  with_ca_cert, s3_data, set_if, target_keys, build_credential_secret, credential_secret_data,
  resolve_credentials,
}

-- Longhorn accepts a secret that has both access keys or a role.
abbrev pub Unlocks : List (String × String) → Type 0
Unlocks entries =
    ((k : String) × (s : String) × (Dict.lookup "AWS_ACCESS_KEY_ID" entries ≡ some k)
      × (Dict.lookup "AWS_SECRET_ACCESS_KEY" entries ≡ some s)
      × (k ≢ "")
      × (s ≢ ""))
    ⊎ ((r : String) × (Dict.lookup "AWS_IAM_ROLE_ARN" entries ≡ some r)
        × (r ≢ "")
        × (Dict.lookup "AWS_ACCESS_KEY_ID" entries ≡ none)
        × (Dict.lookup "AWS_SECRET_ACCESS_KEY" entries ≡ none))

-- Both keys are there, or none of them, and then no variable is named for the first.
abbrev HasKeys : S3BackupTarget → Credentials → Type 0
HasKeys t c =
    ((c.access_key_id ≢ "") × (c.secret_access_key ≢ ""))
    ⊎ ((c.access_key_id ≡ "") × (c.secret_access_key ≡ "") × (t.access_key_id_env ≡ ""))

lookup-set_if :
    (test : Bool) (key name value : String) (entries : List (String × String))
    → (name == key) ≡ false
    → Dict.lookup key (set_if test name value entries) ≡ Dict.lookup key entries
unfolding Dict.lookup
lookup-set_if true key name value entries h = rw h refl
lookup-set_if false key name value entries h = refl

not_empty : (s : String) → s ≢ "" → (s == "") ≡ false
not_empty s h = ground (arith, eq_iff s "")

-- A key of which the later entries of an S3 target are none.
abbrev later : S3BackupTarget → Credentials → List (String × String)
later t c = set_if (not (t.endpoint == "")) "AWS_ENDPOINTS" t.endpoint (
    set_if t.virtual_hosted_style "VIRTUAL_HOSTED_STYLE" "true"
      (set_if (not (c.ca_cert == "")) "AWS_CERT" c.ca_cert []))

lookup-later :
    (t : S3BackupTarget) (c : Credentials) (key : String)
    → ("AWS_ENDPOINTS" == key) ≡ false
    → ("VIRTUAL_HOSTED_STYLE" == key) ≡ false
    → ("AWS_CERT" == key) ≡ false
    → Dict.lookup key (later t c) ≡ none
lookup-later t c key h k l =
    lookup-set_if (not (t.endpoint == "")) key _ t.endpoint _ h
    ∙ lookup-set_if t.virtual_hosted_style key _ "true" _ k
    ∙ lookup-set_if (not (c.ca_cert == "")) key _ c.ca_cert _ l
    ∙ unfold Dict.lookup in refl

data-Unlocks :
    (t : S3BackupTarget) (c : Credentials)
    → HasKeys t c
    → (t.access_key_id_env ≢ "") ⊎ (c.iam_role_arn ≢ "")
    → Unlocks (s3_data t c)
unfolding Dict.lookup
data-Unlocks t c (inl (k, s)) way = inl (
  c.access_key_id,
  c.secret_access_key,
  rw (not_empty c.access_key_id k) refl,
  rw (not_empty c.access_key_id k) refl,
  k,
  s,
)
data-Unlocks t c (inr (k, s, unset)) (inl set) = absurd (set unset)
data-Unlocks t c (inr (k, s, unset)) (inr role) =
    let named = not_empty c.iam_role_arn role in
    inr (
      c.iam_role_arn,
      rw (k, s, named) refl,
      role,
      rw (k, s, named) (lookup-later t c "AWS_ACCESS_KEY_ID" refl refl refl),
      rw (k, s, named) (lookup-later t c "AWS_SECRET_ACCESS_KEY" refl refl refl),
    )

module _ (getenv : String → String)
    (read_secret read_config_map : String → String → Result String (List (String × String))) where
  getenv_required-full :
      (name v : String) → getenv_required getenv read_secret read_config_map name ≡ ok v → v ≢ ""
  unfolding getenv_required
  getenv_required-full name v h = ground (arith, eq_iff (getenv name) "", eq_iff name "")

  s3_keys-HasKeys :
      (t : S3BackupTarget) (c : Credentials)
      → s3_keys getenv read_secret read_config_map t ≡ ok c
      → HasKeys t c
  s3_keys-HasKeys t c h =
      let get = getenv_required getenv read_secret read_config_map in
      let a = t.access_key_id_env in
      elim (Bool-cases (not (a == "") || not (t.secret_access_key_env == ""))) [
        | inl given ↦
            let (ak, f, h₁) = >>=-eq-ok (wrap s3_access_key (get a)) _ (rw (given) at h) in
            let (sk, g, h₂) = >>=-eq-ok (wrap s3_secret_key (get t.secret_access_key_env)) _ h₁ in
            subst (HasKeys t) (ok-injective h₂) (
              inl (
                getenv_required-full a ak (wrap-eq-ok_value s3_access_key (get a) f),
                getenv_required-full t.secret_access_key_env sk
                    (wrap-eq-ok_value s3_secret_key (get t.secret_access_key_env) g),
              ))
        | inr unset ↦
            subst (HasKeys t) (ok-injective (rw (unset) at h))
              (inr (refl, refl, ground (arith, eq_iff a "")))
      ]

  ca_cert-HasKeys :
      (t : S3BackupTarget) (ref : Option CaCertRef) (c d : Credentials)
      → HasKeys t c
      → with_ca_cert getenv read_secret read_config_map ref c ≡ ok d
      → HasKeys t d
  ca_cert-HasKeys t none c d k h = subst (HasKeys t) (ok-injective h) k
  ca_cert-HasKeys t (some ref) c d k h =
      let (_, _, same) =
        >>=-eq-ok (wrap s3_ca_cert (fetch_ca_cert getenv read_secret read_config_map ref)) _ h in
      subst (HasKeys t) (ok-injective same) k

  -- A secret that is built for an S3 target, for which a variable for the access key is named or a
  -- role is given, is one that Longhorn accepts: it has both access keys, and they are not empty, or
  -- it has a role, that is not empty, and none of the access keys.
  pub build_credential_secret-Unlocks :
      (c : LonghornBackupConfig) (t : S3BackupTarget) (role : String)
      (entries : List (String × String))
      → c.s3 ≡ some t
      → (t.access_key_id_env ≢ "") ⊎ (role ≢ "")
      → build_credential_secret getenv read_secret read_config_map c role ≡ ok entries
      → Unlocks entries
  unfolding build_credential_secret resolve_credentials credential_secret_data
  build_credential_secret-Unlocks c t role entries target way h =
      let (found, keys, same) =
        >>=-eq-ok (target_keys getenv read_secret read_config_map c.s3 c.azure) _ h in
      let (first, keyed, ca) =
        >>=-eq-ok (s3_keys getenv read_secret read_config_map t)
          (with_ca_cert getenv read_secret read_config_map t.ca_cert) (rw (target) at keys) in
      let full = s3_keys-HasKeys t first keyed in
      subst Unlocks (ok-injective (rw (target) at same)) (
        data-Unlocks t (record found { iam_role_arn = role })
          (ca_cert-HasKeys t t.ca_cert first found full ca) way)
