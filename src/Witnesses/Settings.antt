-- ===== src/Witnesses/Settings.antt =====
-- The theorems on the configuration at the sample configuration.
use nebari_infrastructure_co.Prelude.{
  String, ◌≡◌, refl, ◌≢◌, ◌↔◌, ◌⊎◌, true, none, some, [], ◌∷◌, Result, ok,
}
use nebari_infrastructure_co.Prelude.Text
use nebari_infrastructure_co.Prelude.Text.{trim_space}
use nebari_infrastructure_co.Config.Certificate
use nebari_infrastructure_co.Config.Certificate.{CertificateConfig, ExistingSecretRef}
use nebari_infrastructure_co.Config.Certificate.Sources.{gateway_secret_ref-named}
use nebari_infrastructure_co.Config.Cron.{five_field_cron}
use nebari_infrastructure_co.Config.Cron.Shape.{IsWords, five_field_cron_iff}
use nebari_infrastructure_co.Config.Backups
use nebari_infrastructure_co.Config.Backups.Enabled.{WhenEnabled, backups-validate_iff}
use nebari_infrastructure_co.Config.TrustBundle
use nebari_infrastructure_co.Config.TrustBundle.{ReadError, resolve}
use nebari_infrastructure_co.Config.TrustBundle.Resolved.{IsDistributable, resolve_source}
use nebari_infrastructure_co.Config.Nebari
use nebari_infrastructure_co.Config.Nebari.{ValidateOptions}
use nebari_infrastructure_co.Config.Nebari.Accepted.{IsAccepted, nebari-validate_iff}
use nebari_infrastructure_co.FilePath.Rooted.{IsName}
use nebari_infrastructure_co.Config.Nebari.ProjectName.{safe_project_name-IsName}
use nebari_infrastructure_co.Witnesses.Samples.{no_files, config}

abbrev known : ValidateOptions
known = record { cluster_providers = "aws" ∷ []; dns_providers = "cloudflare" ∷ [] }

nebari-validate_iff_example :
    (Nebari.validate no_files known config ≡ ok tt) ↔ IsAccepted no_files known config
nebari-validate_iff_example = nebari-validate_iff no_files known config

abbrev existing : CertificateConfig
existing = record {
  type = "existing";
  acme = none;
  existing_secret = some (record { name = "tls"; namespace = "certs" });
  secret_name = "";
  files = none;
  env = none;
}

gateway_secret_ref-named_example :
    ((Certificate.gateway_secret_ref (some existing)).0 ≢ "")
    × ((Certificate.gateway_secret_ref (some existing)).1 ≢ "")
unfolding Certificate.validate Certificate.validate_existing
gateway_secret_ref-named_example = gateway_secret_ref-named (some existing) refl

five_field_cron_iff_example :
    (five_field_cron "0 2 * * *" ≡ true) ↔ IsWords 4 (Text.codes "0 2 * * *")
five_field_cron_iff_example = five_field_cron_iff "0 2 * * *"

backups-validate_iff_example :
    (Backups.validate "aws" config.backups ≡ ok tt)
    ↔ WhenEnabled "aws" (Backups.longhorn_config config.backups)
backups-validate_iff_example = backups-validate_iff "aws" config.backups

abbrev pem : String
pem = "-----BEGIN CERTIFICATE-----x"

resolve_source_example :
    ((trim_space " /ca.pem " ≡ "") × (trim_space "" ≡ "") × (pem ≡ ""))
    ⊎ ((trim_space " /ca.pem " ≢ "")
        × (trim_space "" ≡ "")
        × (◌≡◌ {A = Result ReadError String} (ok pem) (ok pem))
        × IsDistributable pem)
    ⊎ ((trim_space " /ca.pem " ≡ "") × (trim_space "" ≢ "") × (pem ≡ "") × IsDistributable pem)
unfolding resolve trim_space TrustBundle.check_pem Text.has_part
resolve_source_example =
    resolve_source (λ path. ok pem) (record { path = " /ca.pem "; inline = "" }) pem refl

safe_project_name-IsName_example : IsName "my-project_1"
unfolding Nebari.safe_project_name
safe_project_name-IsName_example = safe_project_name-IsName "my-project_1" refl
