-- ===== src/Aws/StateBucket/Emptied.antt =====
-- `destroyStateBucket` of pkg/providers/cluster/aws/state.go over S3.
use nebari_infrastructure_co.Prelude.{
  String, ◌≡◌, refl, sym, ap, ◌∙◌, subst, ◌⊎◌, inl, inr, false, List, [], ◌∷◌, ◌++◌, map, arith,
  Bool-cases, Result, ok, err, ok-injective,
}
use mathlib.Core.List.{Memᴰ}
use mathlib.Core.List.Memᴰ
use nebari_infrastructure_co.Prelude.State.{>>=-eq-ok, lift-eq-ok, wrap_call, wrap_call-eq-ok}
use nebari_infrastructure_co.Aws.Batches.{batches, concat, batches-partition}
use nebari_infrastructure_co.Aws.StateBucket.{
  S3Client, S3Error, ObjectIdentifier, VersionsPage, delete_objects_failed, delete_failed,
  state_bucket_exists, collect_versions, delete_batches, delete_all, destroy_state_bucket,
}
use nebari_infrastructure_co.Aws.StateBucket.Service.{IsLawful, state_bucket_exists-eq-ok}

collect_versions-eq-ok :
    (pages : List (Result S3Error VersionsPage)) (before found : List ObjectIdentifier)
    → collect_versions pages before ≡ ok found
    → (ps : List VersionsPage) × (pages ≡ map ok ps)
      × ((o : ObjectIdentifier) → Memᴰ o before → Memᴰ o found)
      × ((o : ObjectIdentifier) (p : VersionsPage)
          → Memᴰ p ps
          → Memᴰ o p.versions ⊎ Memᴰ o p.delete_markers
          → Memᴰ o found)
unfolding collect_versions
collect_versions-eq-ok [] before found h =
    ([], refl, λ o m. subst (λ l. Memᴰ o l) (ok-injective h) m, λ o p m. absurd (Memᴰ.not-nil m))
collect_versions-eq-ok (err e ∷ pages) before found h = absurd (cc)
collect_versions-eq-ok (ok page ∷ pages) before found h =
    let (ps, same, kept, inside) =
      collect_versions-eq-ok pages ((before ++ page.versions) ++ page.delete_markers) found h in
    (
      page ∷ ps,
      ap (λ t. ok page ∷ t) same,
      λ o m. kept o (Memᴰ.append_left _ (Memᴰ.append_left _ m)),
      λ o p m on. elim (Memᴰ.cases_cons m) [
        | inl here ↦ elim (subst (λ q. Memᴰ o q.versions ⊎ Memᴰ o q.delete_markers) here on) [
          | inl version ↦ kept o (Memᴰ.append_left _ (Memᴰ.append_right _ version))
          | inr marker ↦ kept o (Memᴰ.append_right _ marker)
        ]
        | inr later ↦ inside o p later on
      ],
    )

-- An object that an answer of the service named as one that it did not delete.
pub data Refused (client : S3Client) (bucket : String) (o : ObjectIdentifier) : Type 0 where
  refused :
      {batch errors : List ObjectIdentifier} {s t : client.State}
      → client.delete_objects bucket batch s ≡ (ok errors, t)
      → Memᴰ o errors
      → Refused client bucket o

module _ (client : S3Client) (L : IsLawful client) where
  delete_batches-objects :
      (bucket : String) (parts : List (List ObjectIdentifier)) (s t : client.State)
      → delete_batches client bucket parts s ≡ (ok tt, t)
      → (o : ObjectIdentifier) → Memᴰ o (L.objects t bucket)
      → Memᴰ o (L.objects s bucket) × (Memᴰ o (concat parts) → Refused client bucket o)
  unfolding delete_batches
  delete_batches-objects bucket [] s t h o m = (
    subst (λ w. Memᴰ o (L.objects w bucket)) (sym (ap (λ p. p.1) h)) m,
    λ on. absurd (Memᴰ.not-nil on),
  )
  delete_batches-objects bucket (part ∷ parts) s t h o m =
      let (errors, u, deleted, rest) =
        >>=-eq-ok (wrap_call delete_objects_failed (client.delete_objects bucket part)) _ s h in
      let (before, not_rest) = delete_batches-objects bucket parts u t rest o m in
      let answer =
        wrap_call-eq-ok delete_objects_failed (client.delete_objects bucket part) s deleted in
      let (there, named) = L.delete_objects bucket part errors s u answer o before in
      (
        there,
        λ on. elim (Memᴰ.append_cases part on) [
          | inl a ↦ refused answer (named a)
          | inr b ↦ not_rest b
        ],
      )

  delete_all-emptied :
      (bucket : String) (s t : client.State)
      → delete_all client bucket s ≡ (ok tt, t)
      → (L.exists t bucket ≡ false)
        × ((u : client.State) × ((o : ObjectIdentifier)
              → Memᴰ o (L.objects u bucket)
              → Refused client bucket o)
            × (client.delete_bucket bucket u ≡ (ok tt, t)))
  delete_all-emptied bucket s t h =
      let (versions, collected, h₁) =
        lift-eq-ok (collect_versions (client.version_pages bucket s) []) _ s h in
      let (ps, pages, _, inside) =
        collect_versions-eq-ok (client.version_pages bucket s) [] versions collected in
      let (_, u, cleared, deleted) =
        >>=-eq-ok (delete_batches client bucket (batches 1000 versions)) _ s h₁ in
      let called = wrap_call-eq-ok delete_failed (client.delete_bucket bucket) u deleted in
      (
        L.delete_bucket bucket u t called,
        (
          u,
          λ o m.
              let (there, not_found) =
                delete_batches-objects bucket (batches 1000 versions) s u cleared o m in
              let (p, on_page, part) = L.listed bucket s ps pages o there in
              not_found (
                subst (λ l. Memᴰ o l) (sym ((batches-partition 1000 versions (omega arith)).0))
                  (inside o p on_page part)),
          called,
        ),
      )

  -- When the destruction of the bucket returns no error, the bucket is not there. Either it was not there
  -- before, and nothing was changed; or it was deleted with success in a state where each version of an
  -- object and each delete marker that was left is one that an answer of the service named in its errors.
  pub destroy_state_bucket-emptied :
      (bucket : String) (s t : client.State)
      → destroy_state_bucket client bucket s ≡ (ok tt, t)
      → (L.exists t bucket ≡ false)
        × (((L.exists s bucket ≡ false) × (t ≡ s))
            ⊎ ((u : client.State) × ((o : ObjectIdentifier)
                  → Memᴰ o (L.objects u bucket)
                  → Refused client bucket o)
                × (client.delete_bucket bucket u ≡ (ok tt, t))))
  unfolding destroy_state_bucket
  destroy_state_bucket-emptied bucket s t h =
      let (exists, u, checked, rest) = >>=-eq-ok (state_bucket_exists client bucket) _ s h in
      let (same, there) = state_bucket_exists-eq-ok client L bucket s u exists checked in
      elim (Bool-cases exists) [
        | inl yes_there ↦
            let (gone, emptied) = delete_all-emptied bucket u t (rw (yes_there) at rest) in
            (gone, inr emptied)
        | inr not_there ↦
            let kept = sym (ap (λ p. p.1) (rw (not_there) at rest)) ∙ same in
            let before = there ∙ not_there in
            (subst (λ w. L.exists w bucket ≡ false) (sym kept) before, inl (before, kept))
      ]
