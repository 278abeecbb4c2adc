-- ===== src/Config/TrustBundle.antt =====
-- pkg/config/trust_bundle.go: an extra CA bundle, from a file or inline.
pub mod Resolved
use nebari_infrastructure_co.Prelude.{
  String, not, ◌&&◌, Option, none, some, ◌==◌, if◌then◌else◌, Result, ok, err, ◌>>=◌, ◌>>◌, fail_if,
  wrap,
}
use nebari_infrastructure_co.Prelude.Text.{trim_space, has_part}
use nebari_infrastructure_co.Base64

pub record TrustBundleConfig : Type 0 where
  pub path : String
  pub inline : String

-- The error of `os.ReadFile`, told apart as `errors.Is(err, fs.ErrNotExist)` does.
pub data ReadError : Type 0 where
  not_exist : ReadError
  read_failure : String → ReadError

pub data BundleError : Type 0 where
  both_set : BundleError
  read_bundle : String → ReadError → BundleError
  no_certificate private_key : String → BundleError

unfoldable pub check_pem : String → String → Result BundleError (Unit {0})
check_pem pem subject = do
  fail_if (not (has_part "-----BEGIN CERTIFICATE-----" pem)) (no_certificate subject)
  fail_if (has_part "PRIVATE KEY" pem) (private_key subject)

-- `Validate`.
unfoldable pub validate : Option TrustBundleConfig → Result BundleError (Unit {0})
validate none = ok tt
validate (some t) = do
  let path_set = not (trim_space t.path == "")
  let inline_set = not (trim_space t.inline == "")
  fail_if (path_set && inline_set) both_set
  if inline_set then check_pem t.inline "inline value" else ok tt

abbrev pub encode_pem : String → String
encode_pem pem = if pem == "" then "" else Base64.encode_std (Base64.bytes_of pem)

module _ (read_file : String → Result ReadError String) where
  abbrev load : String → String → Result BundleError String
  load path inline =
      if not (path == "") then wrap (read_bundle path) (read_file path) else ok inline

  -- `resolve`; no bytes are the empty text.
  unfoldable pub resolve : TrustBundleConfig → Result BundleError String
  resolve t =
      let path = trim_space t.path in
      let inline_set = not (trim_space t.inline == "") in
      if not (path == "") && inline_set
      then err both_set
      else if path == "" && not inline_set
      then ok ""
      else (do
        pem ← load path t.inline
        check_pem pem (if not (path == "") then path else "inline value")
        ok pem)

  -- `ResolvePEM`.
  unfoldable pub resolve_pem : Option TrustBundleConfig → Result BundleError String
  resolve_pem none = ok ""
  resolve_pem (some t) = resolve t

  -- `ResolveBase64`.
  unfoldable pub resolve_base64 : Option TrustBundleConfig → Result BundleError String
  resolve_base64 none = ok ""
  resolve_base64 (some t) = do pem ← resolve t; ok (encode_pem pem)
