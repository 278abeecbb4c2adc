-- ===== src/Config/TrustBundle/Resolved.antt =====
-- What a resolved bundle holds.
use nebari_infrastructure_co.Prelude.{
  String, ◌≡◌, sym, ◌≢◌, ◌⊎◌, inl, inr, true, false, arith, ◌==◌, eq_iff, Bool-cases, Result, ok,
  ◌>>=◌, ◌>>◌, wrap, >>=-eq-ok, ok-injective, wrap-eq-ok_value,
}
use nebari_infrastructure_co.Prelude.Text.{trim_space, has_part}
use nebari_infrastructure_co.Prelude.{refl}
use nebari_infrastructure_co.Prelude.Trim.{trim_space-begin}
use nebari_infrastructure_co.Config.TrustBundle.{
  TrustBundleConfig, ReadError, BundleError, check_pem, read_bundle, resolve,
}

-- A text that may be distributed: it has a certificate and no private key.
abbrev pub IsDistributable : String → Type 0
IsDistributable pem =
    (has_part "-----BEGIN CERTIFICATE-----" pem ≡ true) × (has_part "PRIVATE KEY" pem ≡ false)

distributable_of_check :
    (pem subject : String) → check_pem pem subject ≡ ok tt → IsDistributable pem
unfolding check_pem
distributable_of_check pem subject h = ground arith

checked :
    (m : Result BundleError String) (subject pem : String)
    → (m >>= λ p. check_pem p subject >> ok p) ≡ ok pem
    → (m ≡ ok pem) × IsDistributable pem
checked m subject pem h =
    let (p, found, rest) = >>=-eq-ok m _ h in
    let (_, passed, same) = >>=-eq-ok (check_pem p subject) _ rest in
    let e = ok-injective {E = BundleError} same in
    (rw (← e) found, rw (← e) (distributable_of_check p subject passed))

-- A bundle that is resolved is the empty text, and then neither path nor inline text is set, or
-- it is the content of the file at the trimmed path, or the inline text as it stands, whichever
-- one is set, and has a certificate and no private key.
pub resolve_source :
    (read_file : String → Result ReadError String) (t : TrustBundleConfig) (pem : String)
    → resolve read_file t ≡ ok pem
    → ((trim_space t.path ≡ "") × (trim_space t.inline ≡ "") × (pem ≡ ""))
      ⊎ ((trim_space t.path ≢ "")
          × (trim_space t.inline ≡ "")
          × (read_file (trim_space t.path) ≡ ok pem)
          × IsDistributable pem)
      ⊎ ((trim_space t.path ≡ "")
          × (trim_space t.inline ≢ "")
          × (pem ≡ t.inline)
          × IsDistributable pem)
unfolding resolve
resolve_source read_file t pem h = elim (Bool-cases (trim_space t.path == "")) [
  | inl no_path ↦ elim (Bool-cases (trim_space t.inline == "")) [
    | inl no_inline ↦
        let e : ok "" ≡ ok pem = rw (no_path, no_inline) at h in
        inl
          ((eq_iff _ _).0 no_path, (eq_iff _ _).0 no_inline, sym (ok-injective {E = BundleError} e))
    | inr inline ↦
        let (e, fit) = checked (ok t.inline) "inline value" pem (rw (no_path, inline) at h) in
        inr (
          inr (
            (eq_iff _ _).0 no_path,
            ground (arith, eq_iff (trim_space t.inline) ""),
            sym (ok-injective {E = BundleError} e),
            fit,
          ))
  ]
  | inr path ↦ elim (Bool-cases (trim_space t.inline == "")) [
    | inl no_inline ↦
        let place = trim_space t.path in
        let (e, fit) =
          checked (wrap (read_bundle place) (read_file place)) place pem
            (rw (path, no_inline) at h) in
        inr (
          inl (
            ground (arith, eq_iff (trim_space t.path) ""),
            (eq_iff _ _).0 no_inline,
            wrap-eq-ok_value (read_bundle place) (read_file place) e,
            fit,
          ))
    | inr inline ↦ absurd (ground arith)
  ]
]

trim_space_empty : trim_space "" ≡ ""
unfolding trim_space
trim_space_empty = refl

-- A text that may be distributed is resolved to itself where it stands inline.
resolve-inline :
    (read_file : String → Result ReadError String) (pem : String)
    → IsDistributable pem
    → resolve read_file (record { path = ""; inline = pem }) ≡ ok pem
unfolding resolve check_pem
resolve-inline read_file pem (certified, no_key) = elim (Bool-cases (trim_space pem == "")) [
  | inl blank ↦ absurd (cc (trim_space-begin pem ((eq_iff (trim_space pem) "").0 blank), certified))
  | inr visible ↦ rw (trim_space_empty, visible, certified, no_key) refl
]

-- A bundle that is resolved to a text that is not empty is resolved to it, without any file, when the text
-- stands inline.
pub resolve-inline_of_resolve :
    (read_file other : String → Result ReadError String) (t : TrustBundleConfig) (pem : String)
    → resolve read_file t ≡ ok pem
    → (pem == "") ≡ false
    → resolve other (record { path = ""; inline = pem }) ≡ ok pem
resolve-inline_of_resolve read_file other t pem h full = elim (resolve_source read_file t pem h) [
  | inl (_, _, empty) ↦ absurd (cc (rw empty at full))
  | inr (inl (_, _, _, fit)) ↦ resolve-inline other pem fit
  | inr (inr (_, _, _, fit)) ↦ resolve-inline other pem fit
]
