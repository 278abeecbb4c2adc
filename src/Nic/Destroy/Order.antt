-- ===== src/Nic/Destroy/Order.antt =====
-- What a destruction changes, and in which order.
use mathlib.Core.Path.{◌∙◌}
use nebari_infrastructure_co.Prelude.{
  String, ◌≡◌, refl, sym, ap, subst, inl, inr, Bool, false, ◌||◌, none, Bool-cases, Option-cases,
  Result, ok, err, wrap, is_ok,
}
use nebari_infrastructure_co.Prelude.State.{continue, rewrap}
use nebari_infrastructure_co.Config.Nebari.{NebariConfig}
use nebari_infrastructure_co.Config.TrustBundle.{resolve_base64}
use nebari_infrastructure_co.Registry.{Registry}
use nebari_infrastructure_co.Nic.Platform.{
  Platform, ClusterProvider, DnsProvider, ClusterDestroyOptions,
}
use nebari_infrastructure_co.Nic.Checks.{backup_bucket_spec}
use nebari_infrastructure_co.Nic.Keeps.{continue-err}
use nebari_infrastructure_co.Nic.Destroy.{
  DestroyOptions, trust_bundle_failed, destroy_checked, destroy, checked, ask, clean_up_dns,
  allow_missing, after_bundle, after_dns, after_prompt, destroy_failed, forgive, report,
}

module _ {W R K : Type 0} (platform : Platform W R K)
    (reg : Registry (ClusterProvider W) (DnsProvider W)) where
  -- A destruction that the checks reject fails and changes nothing.
  pub destroy-rejected :
      (cfg : NebariConfig) (opts : DestroyOptions W) (w : W)
      → is_ok (checked platform reg cfg w) ≡ false
      → ((destroy platform reg cfg opts w).1 ≡ w)
        × (is_ok (destroy platform reg cfg opts w).0 ≡ false)
  unfolding destroy
  destroy-rejected cfg opts w h =
      continue-err (checked platform reg cfg w) (destroy_checked platform reg cfg opts) w h

  -- The request that is sent to the provider.
  abbrev pub request : NebariConfig → DestroyOptions W → String → ClusterDestroyOptions
  request cfg opts ca_bundle = record {
    dry_run = opts.dry_run;
    force = opts.force;
    timeout = opts.timeout;
    trust_bundle = ca_bundle;
    backup_bucket = backup_bucket_spec cfg;
  }

  clean_up_dns-ok :
      (cfg : NebariConfig) (dry_run : Bool) (w : W)
      → clean_up_dns reg cfg dry_run w ≡ (ok tt, (clean_up_dns reg cfg dry_run w).1)
  clean_up_dns-ok cfg dry_run w = elim (Option-cases cfg.dns) [
    | inl e ↦ rw e refl
    | inr (dns, e) ↦ rw e refl
  ]

  asked :
      (cfg : NebariConfig) (opts : DestroyOptions W) (provider : ClusterProvider W) (w : W)
      → opts.confirm ≡ none
      → ask cfg opts provider w ≡ (ok tt, w)
  asked cfg opts provider w free = rw free refl

  forgiven :
      (cfg : NebariConfig) (opts : DestroyOptions W) (provider : ClusterProvider W)
      (answer : Result String (Unit {0}) × W)
      → let r =
          continue
            (forgive opts.force (λ _. rewrap destroy_failed answer) answer.1)
            (λ _. report platform cfg opts provider) in
        (r.1 ≡ answer.1) × (is_ok r.0 ≡ opts.force || is_ok answer.0)
  forgiven cfg opts provider (ok tt, u) = elim (Bool-cases opts.force) [
    | inl e ↦ rw e (refl, refl)
    | inr e ↦ rw e (refl, refl)
  ]
  forgiven cfg opts provider (err e, u) = elim (Bool-cases opts.force) [
    | inl e ↦ rw e (refl, refl)
    | inr e ↦ rw e (refl, refl)
  ]

  -- A destruction whose checks find the provider, with no prompt and with a bundle that can be read
  -- or is gone, runs the provider once, in the world that the clean-up of the DNS records leaves,
  -- whatever came of that clean-up; and it succeeds exactly when the provider does or it is forced.
  pub destroy-runs :
      (cfg : NebariConfig) (opts : DestroyOptions W) (w : W) (provider : ClusterProvider W)
      (ca_bundle : String)
      → checked platform reg cfg w ≡ ok provider
      → opts.confirm ≡ none
      → allow_missing (
          resolve_base64
            (platform.read_file (clean_up_dns reg cfg opts.dry_run w).1)
            cfg.trust_bundle)
        ≡ ok ca_bundle
      → let answer =
          provider.destroy cfg.project_name cfg.cluster
            (request cfg opts ca_bundle)
            (clean_up_dns reg cfg opts.dry_run w).1 in
        ((destroy platform reg cfg opts w).1 ≡ answer.1)
        × (is_ok (destroy platform reg cfg opts w).0 ≡ opts.force || is_ok answer.0)
  unfolding destroy destroy_checked
  destroy-runs cfg opts w provider ca_bundle found free read =
      let options = request cfg opts ca_bundle in
      let w₁ = (clean_up_dns reg cfg opts.dry_run w).1 in
      let whole : destroy platform reg cfg opts w
          ≡ after_bundle platform reg cfg opts provider ca_bundle w₁ =
        ap (λ r. continue (r, w) (destroy_checked platform reg cfg opts)) found
        ∙ ap (λ r. continue r (λ _. after_prompt platform reg cfg opts provider))
            (asked cfg opts provider w free)
        ∙ ap (λ r. continue r (λ _. after_dns platform reg cfg opts provider))
            (clean_up_dns-ok cfg opts.dry_run w)
        ∙ ap
            (λ r.
              continue (wrap trust_bundle_failed r, w₁)
                (after_bundle platform reg cfg opts provider))
            read in
      subst
        (λ r.
          (r.1 ≡ (provider.destroy cfg.project_name cfg.cluster options w₁).1)
          × (is_ok r.0
              ≡ opts.force || is_ok (provider.destroy cfg.project_name cfg.cluster options w₁).0))
        (sym whole)
        (forgiven cfg opts provider (provider.destroy cfg.project_name cfg.cluster options w₁))
