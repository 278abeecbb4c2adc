-- ===== src/Config/Backups/Enabled.antt =====
-- When the whole backups block is accepted.
use nebari_infrastructure_co.Prelude.{
  ◌+◌, String, ◌≡◌, refl, ◌↔◌, ◌⊎◌, inl, inr, true, false, not, Option, none, some, arith, nat_eq,
  is_some, Bool-cases, Result, ok, fail_if, >>-eq-ok, >>-ok,
}
use nebari_infrastructure_co.Prelude.Text
use nebari_infrastructure_co.Prelude.Int.{is_positive}
use nebari_infrastructure_co.Config.Cron.Shape.{IsWords, five_field_cron_iff}
use nebari_infrastructure_co.Config.Backups.{
  S3BackupTarget, AzureBackupTarget, ScheduleConfig, LonghornBackupConfig, BackupsConfig,
  BackupsError, is_enabled, longhorn_config, validate_schedule, validate_target, validate_longhorn,
  validate, not_one_target, one_if, validate_if_enabled,
}
use nebari_infrastructure_co.Config.Backups.Targets.{
  IsSoundS3, IsSoundAzure, validate_s3_iff, validate_azure_iff,
}

pub record IsSoundSchedule (s : ScheduleConfig) : Type 0 where
  pub cron : IsWords 4 (Text.codes s.cron)
  pub retain : is_positive s.retain ≡ true
  pub concurrency : is_positive s.concurrency ≡ true

-- One target, and that one sound.
abbrev pub HasSoundTarget : String → Option S3BackupTarget → Option AzureBackupTarget → Type 0
HasSoundTarget p (some t) none = IsSoundS3 p t
HasSoundTarget p none (some t) = IsSoundAzure p t
HasSoundTarget p _ _ = ⊥

pub record IsSoundLonghorn (p : String) (c : LonghornBackupConfig) : Type 0 where
  pub target : HasSoundTarget p c.s3 c.azure
  pub snapshot : IsSoundSchedule c.schedules.snapshot
  pub backup : IsSoundSchedule c.schedules.backup

schedule_of_validate :
    (n : String) (s : ScheduleConfig) → validate_schedule n s ≡ ok tt → IsSoundSchedule s
unfolding validate_schedule
schedule_of_validate n s h = record {
  cron = (five_field_cron_iff s.cron).0 (ground arith);
  retain = ground arith;
  concurrency = ground arith;
}

validate_of_schedule :
    (n : String) (s : ScheduleConfig) → IsSoundSchedule s → validate_schedule n s ≡ ok tt
unfolding validate_schedule
validate_of_schedule n s h = ground (arith, (five_field_cron_iff s.cron).1 h.cron)

module _ (p : String) where
  abbrev count_ok :
      Option S3BackupTarget → Option AzureBackupTarget → Result BackupsError (Unit {0})
  count_ok s a = fail_if (not (nat_eq (one_if (is_some s) + one_if (is_some a)) 1)) not_one_target

  target_of_validate :
      (s : Option S3BackupTarget) (a : Option AzureBackupTarget)
      → count_ok s a ≡ ok tt
      → validate_target p s a ≡ ok tt
      → HasSoundTarget p s a
  target_of_validate (some s) none c h = (validate_s3_iff p s).0 h
  target_of_validate none (some a) c h = (validate_azure_iff p a).0 h
  target_of_validate (some s) (some a) c h = cc
  target_of_validate none none c h = cc

  validate_of_target :
      (s : Option S3BackupTarget) (a : Option AzureBackupTarget)
      → HasSoundTarget p s a
      → (count_ok s a ≡ ok tt) × (validate_target p s a ≡ ok tt)
  validate_of_target (some s) none h = (refl, (validate_s3_iff p s).1 h)
  validate_of_target none (some a) h = (refl, (validate_azure_iff p a).1 h)
  validate_of_target (some s) (some a) h = absurd h
  validate_of_target none none h = absurd h

  -- An enabled Longhorn block is accepted exactly when it has one target, that target is sound,
  -- and both schedules are: five words of cron, and positive retain and concurrency.
  pub validate_longhorn_iff :
      (c : LonghornBackupConfig) → (validate_longhorn p c ≡ ok tt) ↔ IsSoundLonghorn p c
  unfolding validate_longhorn
  validate_longhorn_iff c = (
    λ h.
        let (count, h₁) = >>-eq-ok (count_ok c.s3 c.azure) _ h in
        let (snapshot, h₂) = >>-eq-ok (validate_schedule "snapshot" c.schedules.snapshot) _ h₁ in
        let (backup, target) = >>-eq-ok (validate_schedule "backup" c.schedules.backup) _ h₂ in
        record {
          target = target_of_validate c.s3 c.azure count target;
          snapshot = schedule_of_validate _ _ snapshot;
          backup = schedule_of_validate _ _ backup;
        },
    λ s.
        let (count, target) = validate_of_target c.s3 c.azure s.target in
        >>-ok (count_ok c.s3 c.azure) _ count (
          >>-ok (validate_schedule "snapshot" c.schedules.snapshot) _
            (validate_of_schedule _ _ s.snapshot)
            (>>-ok (validate_schedule "backup" c.schedules.backup) _
              (validate_of_schedule _ _ s.backup) target)),
  )

  abbrev pub WhenEnabled : Option LonghornBackupConfig → Type 0
  WhenEnabled none = Unit
  WhenEnabled (some c) = (is_enabled (some c) ≡ false) ⊎ IsSoundLonghorn p c

  enabled_iff :
      (c : Option LonghornBackupConfig) → (validate_if_enabled p c ≡ ok tt) ↔ WhenEnabled c
  enabled_iff none = (λ _. tt, λ _. refl)
  enabled_iff (some c) = elim (Bool-cases (is_enabled (some c))) [
    | inl on ↦ rw on (
      λ h. inr ((validate_longhorn_iff c).0 h),
      elim [ inl off ↦ cc | inr s ↦ (validate_longhorn_iff c).1 s ],
    )
    | inr off ↦ rw off (λ _. inl refl, λ _. refl)
  ]

  -- The backups block is accepted exactly when it is absent, holds no Longhorn block, or holds one
  -- that is disabled or sound.
  pub backups-validate_iff :
      (c : Option BackupsConfig) → (validate p c ≡ ok tt) ↔ WhenEnabled (longhorn_config c)
  unfolding longhorn_config validate
  backups-validate_iff none = (λ _. tt, λ _. refl)
  backups-validate_iff (some c) = enabled_iff c.longhorn
