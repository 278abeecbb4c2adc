-- ===== src/Aws/StateBucket/Secured.antt =====
-- `ensureStateBucket` of pkg/providers/cluster/aws/state.go over S3.
use nebari_infrastructure_co.Prelude.{
  String, ◌≡◌, refl, sym, ap, ◌∙◌, subst, ◌⊎◌, inl, inr, true, false, some, Bool-cases, ok,
}
use nebari_infrastructure_co.Prelude.State.{◌>>◌, >>=-eq-ok, wrap_call, wrap_call-eq-ok}
use nebari_infrastructure_co.Aws.StateBucket.{
  S3Client, create_failed, versioning_failed, block_failed, state_bucket_exists,
  create_state_bucket, ensure_state_bucket, location_constraint, PublicAccessBlock,
}
use nebari_infrastructure_co.Aws.StateBucket.Service.{IsLawful, state_bucket_exists-eq-ok}

-- What is blocked is all that there is to block.
pub record IsAllBlocked (p : PublicAccessBlock) : Type 0 where
  pub acls_refused : p.block_public_acls ≡ true
  pub policies_refused : p.block_public_policy ≡ true
  pub acls_ignored : p.ignore_public_acls ≡ true
  pub buckets_restricted : p.restrict_public_buckets ≡ true

module _ (client : S3Client) (L : IsLawful client) where
  create_state_bucket-secured :
      (region bucket : String) (s t : client.State)
      → create_state_bucket client region bucket s ≡ (ok tt, t)
      → (L.exists t bucket ≡ true)
        × (L.versioned t bucket ≡ true)
        × ((p : PublicAccessBlock) × (L.blocked t bucket ≡ some p) × IsAllBlocked p)
  create_state_bucket-secured region bucket s t h =
      let create = client.create_bucket bucket (location_constraint client region) in
      let versioning = client.put_bucket_versioning bucket true in
      let all : PublicAccessBlock = record {
        block_public_acls = true;
        block_public_policy = true;
        ignore_public_acls = true;
        restrict_public_buckets = true;
      } in
      let block = client.put_public_access_block bucket all in
      let first = wrap_call create_failed create >> wrap_call versioning_failed versioning in
      let (_, v, both, h₂) = >>=-eq-ok first _ s h in
      let (_, u, created, versioned) = >>=-eq-ok (wrap_call create_failed create) _ s both in
      let there = L.create bucket _ s u (wrap_call-eq-ok create_failed create s created) in
      let (kept, on) =
        L.versioning bucket true u v (wrap_call-eq-ok versioning_failed versioning u versioned) in
      let (kept_too, still_on, blocked) =
        L.block bucket all v t (wrap_call-eq-ok block_failed block v h₂) in
      (
        kept_too ∙ kept ∙ there,
        still_on ∙ on,
        (
          all,
          blocked,
          record {
            acls_refused = refl;
            policies_refused = refl;
            acls_ignored = refl;
            buckets_restricted = refl;
          },
        ),
      )

  -- When the bucket is ensured without an error, it is there; and either it was there before and nothing
  -- was changed, or it was not, is versioned now, and all public access to it is blocked.
  pub ensure_state_bucket-secured :
      (region bucket : String) (s t : client.State)
      → ensure_state_bucket client region bucket s ≡ (ok tt, t)
      → (L.exists t bucket ≡ true)
        × (((L.exists s bucket ≡ true) × (t ≡ s))
            ⊎ ((L.exists s bucket ≡ false)
                × (L.versioned t bucket ≡ true)
                × ((p : PublicAccessBlock) × (L.blocked t bucket ≡ some p) × IsAllBlocked p)))
  unfolding ensure_state_bucket
  ensure_state_bucket-secured region bucket s t h =
      let (exists, u, checked, rest) = >>=-eq-ok (state_bucket_exists client bucket) _ s h in
      let (same, there) = state_bucket_exists-eq-ok client L bucket s u exists checked in
      elim (Bool-cases exists) [
        | inl yes_there ↦
            let kept = sym (ap (λ p. p.1) (rw (yes_there) at rest)) ∙ same in
            let before = there ∙ yes_there in
            (subst (λ w. L.exists w bucket ≡ true) (sym kept) before, inl (before, kept))
        | inr not_there ↦
            let (now, versioned, blocked) =
              create_state_bucket-secured region bucket u t (rw (not_there) at rest) in
            (now, inr (there ∙ not_there, versioned, blocked))
      ]
