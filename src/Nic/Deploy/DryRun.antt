-- ===== src/Nic/Deploy/DryRun.antt =====
-- What a deployment changes that is only a preview, or that the checks reject.
use mathlib.Core.Path.{◌∙◌}
use nebari_infrastructure_co.Prelude.{
  ◌⊎◌, ◌≡◌, refl, ap, subst, inl, inr, Bool, true, false, Option, none, some, ◌==◌, is_some,
  Bool-cases, Option-cases, ok, wrap, is_ok, Result-cases, >>=-eq-ok, ok-injective,
  wrap-eq-ok_value,
}
use nebari_infrastructure_co.Config.TrustBundle.{resolve_pem, encode_pem}
use nebari_infrastructure_co.Nic.Keeps.{continue-1, rewrap-1, continue-err}
use nebari_infrastructure_co.Config.Cluster.{}
use nebari_infrastructure_co.Config.Nebari.{NebariConfig}
use nebari_infrastructure_co.Git.{GitConfig}
use nebari_infrastructure_co.Registry.{Registry}
use nebari_infrastructure_co.Nic.Platform.{
  Platform, ClusterProvider, DnsProvider, ClusterDeployOptions,
}
use nebari_infrastructure_co.Nic.Checks.{
  check_config, find_provider, validate_client, ensure_backups_have_longhorn, backup_bucket_spec,
}
use nebari_infrastructure_co.Nic.Gitops.{get_or_create_git_config}
use nebari_infrastructure_co.Nic.Prepare.{
  DeployError, check_failed, gateway_tls, trust_bundle_failed, deploy_failed, gitops_config_failed,
  Prepared, prepare,
}
use nebari_infrastructure_co.Nic.Deploy.{
  DeployOptions, DeployResult, deploy_prepared, deploy, bootstrap_if_needed, install_if_real,
  look_up_if_real, nothing_installed, run_provider, effective_git, after_bootstrap, after_git,
  after_provider,
}

module _ {W R K : Type 0} (platform : Platform W R K)
    (reg : Registry (ClusterProvider W) (DnsProvider W)) where
  prepared_by :
      (cfg : NebariConfig) (w : W) (p : Prepared W)
      → prepare platform reg cfg w ≡ ok p
      → (check_config reg (platform.stat w) cfg ≡ ok tt)
        × (find_provider reg cfg ≡ ok p.provider)
        × (ensure_backups_have_longhorn cfg (p.provider.infra_settings cfg.cluster).storage_class
            ≡ ok tt)
  unfolding prepare
  prepared_by cfg w p h =
      let config = check_config reg (platform.stat w) cfg in
      let (_, c, h₁) = >>=-eq-ok (wrap check_failed config) _ h in
      let (_, _, h₂) = >>=-eq-ok (wrap gateway_tls (platform.preflight_gateway_tls w cfg)) _ h₁ in
      let (provider, found, h₃) = >>=-eq-ok (wrap check_failed (find_provider reg cfg)) _ h₂ in
      let class = (provider.infra_settings cfg.cluster).storage_class in
      let storage = ensure_backups_have_longhorn cfg class in
      let (_, s, h₄) = >>=-eq-ok (wrap check_failed storage) _ h₃ in
      let (_, _, h₅) =
        >>=-eq-ok (wrap trust_bundle_failed (resolve_pem (platform.read_file w) cfg.trust_bundle)) _
          h₄ in
      let same : provider ≡ p.provider = ap (λ q. q.provider) (ok-injective {E = DeployError} h₅) in
      let (f, k) =
        subst
          (λ q.
            (find_provider reg cfg ≡ ok q)
            × (ensure_backups_have_longhorn cfg (q.infra_settings cfg.cluster).storage_class
                ≡ ok tt))
          same
          (
            wrap-eq-ok_value check_failed (find_provider reg cfg) found,
            wrap-eq-ok_value check_failed storage s,
          ) in
      (wrap-eq-ok_value check_failed config c, f, k)

  prepared-valid :
      (cfg : NebariConfig) (w : W) (p : Prepared W)
      → prepare platform reg cfg w ≡ ok p
      → validate_client reg (platform.stat w) cfg ≡ ok tt
  unfolding validate_client
  prepared-valid cfg w p h = let (c, found, s) = prepared_by cfg w p h in rw (c, found) s

  git_kept :
      (cfg : NebariConfig) (local : Bool) (w : W)
      → is_some cfg.git_repository ≡ true
      → (get_or_create_git_config platform cfg local w).1 ≡ w
  unfolding get_or_create_git_config
  git_kept cfg local w h = elim (Option-cases cfg.git_repository) [
    | inl e ↦ absurd (cc (rw e at h))
    | inr (g, e) ↦ rw e refl
  ]

  bootstrap_kept :
      (cfg : NebariConfig) (opts : DeployOptions) (p : Prepared W) (g : Option GitConfig) (w : W)
      → opts.dry_run ≡ true
      → (bootstrap_if_needed platform cfg opts p g w).1 ≡ w
  bootstrap_kept cfg opts p none w dry = refl
  bootstrap_kept cfg opts p (some g) w dry = rw dry refl

  pub install_kept :
      (cfg : NebariConfig) (opts : DeployOptions) (p : Prepared W) (g : Option GitConfig) (w : W)
      → opts.dry_run ≡ true
      → install_if_real platform cfg opts p g w ≡ (ok nothing_installed, w)
  install_kept cfg opts p g w dry = rw dry refl

  pub look_up_kept :
      (cfg : NebariConfig) (opts : DeployOptions) (p : Prepared W) (r : DeployResult) (w : W)
      → opts.dry_run ≡ true
      → look_up_if_real platform reg cfg opts p r w ≡ (ok r, w)
  look_up_kept cfg opts p r w dry = elim (Bool-cases (cfg.domain == "")) [
    | inl e ↦ rw e refl
    | inr e ↦ rw (e, dry) refl
  ]

  -- A deployment that the client's validation rejects fails and changes nothing.
  pub deploy-rejected :
      (cfg : NebariConfig) (opts : DeployOptions) (w : W)
      → is_ok (validate_client reg (platform.stat w) cfg) ≡ false
      → ((deploy platform reg cfg opts w).1 ≡ w)
        × (is_ok (deploy platform reg cfg opts w).0 ≡ false)
  unfolding deploy
  deploy-rejected cfg opts w h =
      continue-err (prepare platform reg cfg w) _ w
        (elim (Result-cases (prepare platform reg cfg w)) [
          | inl (p, e) ↦ absurd (cc (rw (prepared-valid cfg w p e) at h))
          | inr (_, e) ↦ rw e refl
        ])

  -- The preview of a deployment that goes on after the provider's.
  pub after_git_kept :
      (cfg : NebariConfig) (opts : DeployOptions) (p : Prepared W) (g : Option GitConfig) (w : W)
      → opts.dry_run ≡ true
      → (after_git platform reg cfg opts p g w).1 ≡ w
  after_git_kept cfg opts p g w dry =
      continue-1 (bootstrap_if_needed platform cfg opts p g w)
        (λ _. after_bootstrap platform reg cfg opts p g) w (bootstrap_kept cfg opts p g w dry)
        λ _ _.
          continue-1 (install_if_real platform cfg opts p g w)
            (look_up_if_real platform reg cfg opts p) w
            (ap (λ a. a.1) (install_kept cfg opts p g w dry))
            λ r _. ap (λ a. a.1) (look_up_kept cfg opts p r w dry)

  -- What the preview does after the provider's call.
  after_provider_kept :
      (cfg : NebariConfig) (opts : DeployOptions) (p : Prepared W) (w : W)
      → opts.dry_run ≡ true
      → is_some cfg.git_repository ≡ true
      → (after_provider platform reg cfg opts p w).1 ≡ w
  after_provider_kept cfg opts p w dry named =
      continue-1 (effective_git platform reg cfg p w) (after_git platform reg cfg opts p) w
        (rewrap-1 gitops_config_failed
            (get_or_create_git_config platform cfg p.settings.supports_local_git_ops w)
          ∙ git_kept cfg p.settings.supports_local_git_ops w named)
        λ g _. after_git_kept cfg opts p g w dry

  -- When the configuration names its repository, the preview of a deployment either fails before it changes
  -- anything, or changes exactly what one call of `Deploy` of the provider that the configuration names
  -- changes, in preview too, whether the rest succeeds or fails.
  pub deploy-dry_run :
      (cfg : NebariConfig) (opts : DeployOptions) (w : W)
      → opts.dry_run ≡ true
      → is_some cfg.git_repository ≡ true
      → (((deploy platform reg cfg opts w).1 ≡ w)
          × (is_ok (deploy platform reg cfg opts w).0 ≡ false))
        ⊎ ((provider : ClusterProvider W) × (call : ClusterDeployOptions) × (find_provider reg cfg
              ≡ ok provider)
            × (call.dry_run ≡ true)
            × ((deploy platform reg cfg opts w).1
                ≡ (provider.deploy cfg.project_name cfg.cluster call w).1))
  unfolding deploy deploy_prepared
  deploy-dry_run cfg opts w dry named = elim (Result-cases (prepare platform reg cfg w)) [
    | inl (p, prepared) ↦
        let call : ClusterDeployOptions = record {
          dry_run = opts.dry_run;
          timeout = opts.timeout;
          trust_bundle = encode_pem p.trust_pem;
          backup_bucket = backup_bucket_spec cfg;
        } in
        let called = p.provider.deploy cfg.project_name cfg.cluster call w in
        inr (
          p.provider,
          call,
          (prepared_by cfg w p prepared).1,
          dry,
          rw prepared (
              continue-1 (run_provider platform reg cfg opts p w)
                (λ _. after_provider platform reg cfg opts p) called.1
                (rewrap-1 deploy_failed called)
                λ _ _. after_provider_kept cfg opts p called.1 dry named),
        )
    | inr (e, rejected) ↦ inl (rw rejected (refl, refl))
  ]
