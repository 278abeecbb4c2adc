-- ===== src/Config/Backups/Prefix.antt =====
-- The prefix and the URL of a backup target.
use nebari_infrastructure_co.Prelude.{
  String, ◌<>◌, ◌≡◌, refl, ◌∙◌, ◌≢◌, ◌⊎◌, inl, inr, true, false, ◌||◌, Option, none, some, arith,
  ◌==◌, eq_iff, is_some, Bool-cases,
}
use text.Mathlib.TextLemmas.{append_assoc}
use nebari_infrastructure_co.Prelude.Text.{trim_left, trim_right}
use nebari_infrastructure_co.Prelude.Trim.{
  begins, ends, begins-trim_left, begins-trim_right, ends-trim_right, trim_left_of_begins,
  trim_right_snoc, begins-append,
}
use nebari_infrastructure_co.Config.Backups.{
  S3BackupTarget, AzureBackupTarget, LonghornBackupConfig,
}
use nebari_infrastructure_co.Config.Backups.Url.{
  is_slash, normalize_prefix, backup_target_url, target_url,
}

-- A prefix is normalised to nothing, or to a text that neither begins nor ends with a slash,
-- followed by one slash.
pub normalize_prefix_shape :
    (s : String)
    → (normalize_prefix s ≡ "")
      ⊎ ((q : String) × (normalize_prefix s ≡ q <> "/")
          × (q ≢ "")
          × (begins is_slash q ≡ false)
          × (ends is_slash q ≡ false))
unfolding normalize_prefix
normalize_prefix_shape s =
    let q = trim_right is_slash (trim_left is_slash s) in
    elim (Bool-cases (q == "")) [
      | inl empty ↦ inl (rw empty)
      | inr full ↦ inr (
        q,
        rw full refl,
        ground (arith, eq_iff q ""),
        begins-trim_right is_slash (trim_left is_slash s) (begins-trim_left is_slash s),
        ends-trim_right is_slash (trim_left is_slash s),
      )
    ]

normalize_prefix_of_trimmed :
    (q : String)
    → q ≢ ""
    → begins is_slash q ≡ false
    → ends is_slash q ≡ false
    → normalize_prefix (q <> "/") ≡ q <> "/"
unfolding normalize_prefix
normalize_prefix_of_trimmed q full head last =
    rw
      (
        trim_left_of_begins is_slash (q <> "/") (begins-append is_slash q "/" full head),
        trim_right_snoc is_slash q _ last refl,
      )
      (ground (arith, eq_iff q ""))

-- Normalising a prefix a second time changes nothing.
pub normalize_prefix_idem :
    (s : String) → normalize_prefix (normalize_prefix s) ≡ normalize_prefix s
normalize_prefix_idem s = elim (normalize_prefix_shape s) [
  | inl empty ↦ rw empty (unfold normalize_prefix in refl)
  | inr (q, e, full, head, last) ↦ rw e (normalize_prefix_of_trimmed q full head last)
]

slash_before_prefix : (a p : String) → (u : String) × (a <> ("/" <> normalize_prefix p) ≡ u <> "/")
slash_before_prefix a p = elim (normalize_prefix_shape p) [
  | inl empty ↦ (a, rw empty refl)
  | inr (q, e, _, _, _) ↦ (a <> ("/" <> q), rw e (simp append_assoc))
]

host_slash : "@core.windows.net" <> "/" ≡ "@core.windows.net/"
host_slash = refl

target_url-slash :
    (s : Option S3BackupTarget) (a : Option AzureBackupTarget)
    → (is_some s || is_some a) ≡ true
    → (u : String) × (target_url s a ≡ u <> "/")
target_url-slash (some t) a h =
    let (u, e) = slash_before_prefix (((("s3://" <> t.bucket) <> "@") <> t.region)) t.prefix in
    (u, (simp append_assoc) ∙ e)
target_url-slash none (some t) h =
    let (u, e) =
      slash_before_prefix ("azblob://" <> (t.container <> "@core.windows.net")) t.prefix in
    (u, (rw (← host_slash) (simp append_assoc)) ∙ e)
target_url-slash none none h = cc

-- A configured target has a URL that ends in a slash, whatever its prefix.
pub backup_target_url-slash :
    (c : LonghornBackupConfig)
    → (is_some c.s3 || is_some c.azure) ≡ true
    → (u : String) × (backup_target_url (some c) ≡ u <> "/")
unfolding backup_target_url
backup_target_url-slash c h = target_url-slash c.s3 c.azure h
