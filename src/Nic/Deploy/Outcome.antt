-- ===== src/Nic/Deploy/Outcome.antt =====
-- What a deployment that succeeds reports.
use mathlib.Core.Path.{◌∙◌}
use nebari_infrastructure_co.Prelude.{
  String, ◌≡◌, refl, sym, ap, subst, inl, inr, true, false, Option, none, arith, ◌==◌, eq_iff,
  Bool-cases, Result, ok, is_ok, ok-injective,
}
use nebari_infrastructure_co.Prelude.State
use nebari_infrastructure_co.Prelude.State.{M, ◌>>=◌, ◌>>◌, lift, wrap_call}
use nebari_infrastructure_co.Config.Nebari.{NebariConfig}
use nebari_infrastructure_co.Git.{GitConfig}
use nebari_infrastructure_co.Registry.{Registry}
use nebari_infrastructure_co.Nic.Platform.{Platform, ClusterProvider, DnsProvider}
use nebari_infrastructure_co.Nic.Prepare.{secret_failed, Prepared, prepare}
use nebari_infrastructure_co.Nic.Secrets.{generate_secure_password, generate_foundational_secrets}
use nebari_infrastructure_co.Nic.Deploy.{
  DeployOptions, DeployResult, deploy_prepared, deploy, run_provider, after_provider, effective_git,
  after_git, bootstrap_if_needed, after_bootstrap, install_if_real, look_up_if_real,
  nothing_installed, install_argo_cd, install_services, longhorn_secret,
  look_up_endpoint_and_provision_dns,
}
use nebari_infrastructure_co.Nic.Deploy.DryRun.{install_kept, look_up_kept}

-- The services stand on Argo CD, a preview installs nothing, and no endpoint is looked up in a preview
-- or without a domain.
pub record HasOutcome (cfg : NebariConfig) (opts : DeployOptions) (r : DeployResult) : Type 0 where
  pub services : r.keycloak_installed ≡ true → r.argo_cd_installed ≡ true
  pub preview : opts.dry_run ≡ true → r ≡ nothing_installed
  pub endpoint : cfg.domain ≡ "" → r.lb_endpoint ≡ none

-- The services stand on Argo CD, and no endpoint is known yet.
abbrev Stands : DeployResult → Type 0
Stands r = (r.keycloak_installed ≡ true → r.argo_cd_installed ≡ true) × (r.lb_endpoint ≡ none)

value_of :
    {W E A : Type 0} (a b : A) (w u : W)
    → ◌≡◌ {A = Result E A × W} (ok a, w) (ok b, u)
    → (a ≡ b) × (w ≡ u)
value_of a b w u h = (ok-injective (ap (λ p. p.0) h), ap (λ p. p.1) h)

module _ {W R K : Type 0} (platform : Platform W R K) where
  services-Stands :
      (cfg : NebariConfig) (p : Prepared W) (g : Option GitConfig) (secret : String) (w u : W)
      (r : DeployResult)
      → install_services platform cfg p g secret w ≡ (ok r, u)
      → Stands r
  services-Stands cfg p g secret w u r h =
      let (_, _, _, h₁) =
        State.>>=-eq-ok
          (wrap_call secret_failed (generate_foundational_secrets platform.random_bytes)) _ w h in
      let (_, w₂, _, h₂) = State.>>=-eq-ok (longhorn_secret platform p.settings) _ _ h₁ in
      subst Stands (value_of _ r _ u h₂).0 ((λ _. refl), refl)

  install-Stands :
      (cfg : NebariConfig) (p : Prepared W) (g : Option GitConfig) (w u : W) (r : DeployResult)
      → install_argo_cd platform cfg p g w ≡ (ok r, u)
      → Stands r
  unfolding install_argo_cd
  install-Stands cfg p g w u r h =
      let (secret, w₁, _, h₁) =
        State.>>=-eq-ok (wrap_call secret_failed (generate_secure_password platform.random_bytes)) _
          w h in
      let call =
        platform.install cfg p.provider g p.trust_pem
          (cfg.domain, (p.settings.keycloak_base_path, secret)) w₁ in
      elim (Bool-cases (is_ok call.0)) [
        | inl e ↦ services-Stands cfg p g secret call.1 u r (rw (e) at h₁)
        | inr e ↦
            subst Stands (value_of nothing_installed r call.1 u (rw (e) at h₁)).0 ((λ k. k), refl)
      ]

  nothing-HasOutcome :
      (cfg : NebariConfig) (opts : DeployOptions) → HasOutcome cfg opts nothing_installed
  nothing-HasOutcome cfg opts = record {
    services = λ k. k;
    preview = λ _. refl;
    endpoint = λ _. refl;
  }

  module _ (reg : Registry (ClusterProvider W) (DnsProvider W)) where
    real-HasOutcome :
        (cfg : NebariConfig) (opts : DeployOptions) (p : Prepared W) (before r : DeployResult)
        (w u : W)
        → opts.dry_run ≡ false
        → Stands before
        → look_up_if_real platform reg cfg opts p before w ≡ (ok r, u)
        → HasOutcome cfg opts r
    real-HasOutcome cfg opts p before r w u real (services, unknown) h =
        elim (Bool-cases (cfg.domain == "")) [
          | inl e ↦ subst (HasOutcome cfg opts) (value_of before r w u (rw (e) at h)).0 (record {
            services = services;
            preview = λ dry. absurd (cc);
            endpoint = λ _. unknown;
          })
          | inr e ↦
              let r₁ = look_up_endpoint_and_provision_dns platform reg cfg p.provider w in
              subst (HasOutcome cfg opts)
                (value_of (record before { lb_endpoint = r₁.0 }) r r₁.1 u (rw (e, real) at h)).0
                (record {
                  services = services;
                  preview = λ dry. absurd (cc);
                  endpoint = λ none_set. absurd (ground (arith, none_set, eq_iff cfg.domain ""));
                })
        ]

    bootstrap-HasOutcome :
        (cfg : NebariConfig) (opts : DeployOptions) (p : Prepared W) (g : Option GitConfig)
        (w u : W) (r : DeployResult)
        → after_bootstrap platform reg cfg opts p g w ≡ (ok r, u)
        → HasOutcome cfg opts r
    bootstrap-HasOutcome cfg opts p g w u r h =
        let (r₀, w₁, i, l) =
          State.>>=-eq-ok (install_if_real platform cfg opts p g)
            (look_up_if_real platform reg cfg opts p) w h in
        elim (Bool-cases opts.dry_run) [
          | inl dry ↦
              let same =
                (value_of nothing_installed r₀ w w₁
                  (sym (install_kept platform reg cfg opts p g w dry) ∙ i)).0 in
              let kept =
                (value_of r₀ r w₁ u (sym (look_up_kept platform reg cfg opts p r₀ w₁ dry) ∙ l)).0 in
              subst (HasOutcome cfg opts) (same ∙ kept) (nothing-HasOutcome cfg opts)
          | inr real ↦
              real-HasOutcome cfg opts p r₀ r w₁ u real
                (install-Stands cfg p g w w₁ r₀ (rw (real) at i)) l
        ]

    -- A deployment that succeeds reports the services as installed only with Argo CD, reports nothing
    -- as installed and no endpoint if it is a preview, and no endpoint if there is no domain.
    pub deploy-HasOutcome :
        (cfg : NebariConfig) (opts : DeployOptions) (w u : W) (r : DeployResult)
        → deploy platform reg cfg opts w ≡ (ok r, u)
        → HasOutcome cfg opts r
    unfolding deploy deploy_prepared
    deploy-HasOutcome cfg opts w u r h =
        let (p, w₁, _, h₁) =
          State.>>=-eq-ok (lift (prepare platform reg cfg w))
            (deploy_prepared platform reg cfg opts) w h in
        let (_, w₂, _, h₂) =
          State.>>=-eq-ok (run_provider platform reg cfg opts p)
            (λ _. after_provider platform reg cfg opts p) w₁ h₁ in
        let (g, w₃, _, h₃) =
          State.>>=-eq-ok (effective_git platform reg cfg p) (after_git platform reg cfg opts p) w₂
            h₂ in
        let (_, w₄, _, h₄) =
          State.>>=-eq-ok (bootstrap_if_needed platform cfg opts p g)
            (λ _. after_bootstrap platform reg cfg opts p g) w₃ h₃ in
        bootstrap-HasOutcome cfg opts p g w₄ u r h₄
