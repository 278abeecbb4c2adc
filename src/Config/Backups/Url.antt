-- ===== src/Config/Backups/Url.antt =====
-- `normalizePrefix` and `BackupTargetURL` of pkg/config/backups.go.
use nebari_infrastructure_co.Prelude.{
  Char, String, ◌<>◌, ◌≡◌, refl, Bool, Option, none, some, ◌==◌, is_char, if◌then◌else◌,
}
use nebari_infrastructure_co.Prelude.Text.{trim_left, trim_right}
use nebari_infrastructure_co.Config.Backups.{
  S3BackupTarget, AzureBackupTarget, LonghornBackupConfig,
}

abbrev pub is_slash : Char → Bool
is_slash c = is_char b'/' c

unfoldable pub normalize_prefix : String → String
unfolding trim_left trim_right
normalize_prefix p =
    let q = trim_right is_slash (trim_left is_slash p) in if q == "" then "" else q <> "/"

abbrev pub target_url : Option S3BackupTarget → Option AzureBackupTarget → String
target_url (some t) azure =
    "s3://" <> (t.bucket <> ("@" <> (t.region <> ("/" <> normalize_prefix t.prefix))))
target_url none (some t) =
    "azblob://" <> (t.container <> ("@core.windows.net/" <> normalize_prefix t.prefix))
target_url none none = ""

unfoldable pub backup_target_url : Option LonghornBackupConfig → String
backup_target_url none = ""
backup_target_url (some c) = target_url c.s3 c.azure

slashes : normalize_prefix "//a/b//" ≡ "a/b/"
unfolding normalize_prefix
slashes = refl
