-- ===== src/Aws/StateBucket/Service.antt =====
-- What S3 documents of the calls that pkg/providers/cluster/aws/state.go makes.
use nebari_infrastructure_co.Prelude.{
  String, ◌≡◌, refl, sym, ap, ◌∙◌, ◌⊎◌, inl, inr, Bool, true, false, Option, some, List, map,
  Bool-cases, Result, ok, err, ok-injective,
}
use mathlib.Core.List.{Memᴰ}
use nebari_infrastructure_co.Aws.StateBucket.{
  S3Client, S3Error, ObjectIdentifier, VersionsPage, PublicAccessBlock, is_missing, head_result,
  not_found, no_such_bucket, other_error, state_bucket_exists,
}

-- Of a bucket: whether it is there and versioned, what of it is blocked, and its objects' versions,
-- the delete markers among them. A call that succeeds has done its work, and a look changes nothing; but an
-- answer to a deletion of objects names in its errors those that it asked for and that are left.
-- Nothing is said of what the other calls do when they fail.
pub record IsLawful (c : S3Client) : Type 0 where
  pub exists : c.State → String → Bool
  pub versioned : c.State → String → Bool
  pub blocked : c.State → String → Option PublicAccessBlock
  pub objects : c.State → String → List ObjectIdentifier
  pub head_kept : (b : String) (s : c.State) → (c.head_bucket b s).1 ≡ s
  pub head_found : (b : String) (s : c.State) → (c.head_bucket b s).0 ≡ ok tt → exists s b ≡ true
  pub head_not_found :
      (b : String) (s : c.State) → (c.head_bucket b s).0 ≡ err not_found → exists s b ≡ false
  pub head_no_such_bucket :
      (b : String) (s : c.State) → (c.head_bucket b s).0 ≡ err no_such_bucket → exists s b ≡ false
  pub create :
      (b : String) (location : Option String) (s t : c.State)
      → c.create_bucket b location s ≡ (ok tt, t)
      → exists t b ≡ true
  pub versioning :
      (b : String) (on : Bool) (s t : c.State)
      → c.put_bucket_versioning b on s ≡ (ok tt, t)
      → (exists t b ≡ exists s b) × (versioned t b ≡ on)
  pub block :
      (b : String) (p : PublicAccessBlock) (s t : c.State)
      → c.put_public_access_block b p s ≡ (ok tt, t)
      → (exists t b ≡ exists s b) × (versioned t b ≡ versioned s b) × (blocked t b ≡ some p)
  pub listed :
      (b : String) (s : c.State) (pages : List VersionsPage)
      → c.version_pages b s ≡ map ok pages
      → (o : ObjectIdentifier) → Memᴰ o (objects s b)
      → (p : VersionsPage) × Memᴰ p pages × (Memᴰ o p.versions ⊎ Memᴰ o p.delete_markers)
  pub delete_objects :
      (b : String) (batch errors : List ObjectIdentifier) (s t : c.State)
      → c.delete_objects b batch s ≡ (ok errors, t)
      → (o : ObjectIdentifier) → Memᴰ o (objects t b)
      → Memᴰ o (objects s b) × (Memᴰ o batch → Memᴰ o errors)
  pub delete_bucket :
      (b : String) (s t : c.State) → c.delete_bucket b s ≡ (ok tt, t) → exists t b ≡ false

head_result-eq-ok :
    {S : Type 0} (r : Result S3Error (Unit {0}) × S) {x : Bool} {u : S}
    → head_result r ≡ (ok x, u)
    → (r.1 ≡ u)
      × (((x ≡ true) × (r.0 ≡ ok tt))
          ⊎ ((x ≡ false) × ((e : S3Error) × (r.0 ≡ err e) × (is_missing e ≡ true))))
head_result-eq-ok (ok tt, s) h = (ap (λ p. p.1) h, inl (sym (ok-injective (ap (λ p. p.0) h)), refl))
head_result-eq-ok (err e, s) {x} h = elim (Bool-cases (is_missing e)) [
  | inl missing ↦ (
    ap (λ p. p.1) h,
    inr (sym (ok-injective (rw (missing) at (ap (λ p. p.0) h))), (e, refl, missing)),
  )
  | inr other ↦ absurd (cc (rw (other) at (ap (λ p. p.0) h)))
]

missing_bucket :
    (c : S3Client) (L : IsLawful c) (bucket : String) (s : c.State) (e : S3Error)
    → (c.head_bucket bucket s).0 ≡ err e
    → is_missing e ≡ true
    → L.exists s bucket ≡ false
missing_bucket c L bucket s not_found seen missing = L.head_not_found bucket s seen
missing_bucket c L bucket s no_such_bucket seen missing = L.head_no_such_bucket bucket s seen
missing_bucket c L bucket s (other_error e) seen missing = absurd (cc)

-- A look that succeeds tells whether the bucket is there, and changes nothing.
pub state_bucket_exists-eq-ok :
    (c : S3Client) (L : IsLawful c) (bucket : String) (s u : c.State) (x : Bool)
    → state_bucket_exists c bucket s ≡ (ok x, u)
    → (u ≡ s) × (L.exists s bucket ≡ x)
unfolding state_bucket_exists
state_bucket_exists-eq-ok c L bucket s u x h =
    let (same, found) = head_result-eq-ok (c.head_bucket bucket s) h in
    (
      sym same ∙ L.head_kept bucket s,
      elim found [
        | inl (yes_there, seen) ↦ L.head_found bucket s seen ∙ sym yes_there
        | inr (not_there, (e, seen, missing)) ↦
            missing_bucket c L bucket s e seen missing ∙ sym not_there
      ],
    )
