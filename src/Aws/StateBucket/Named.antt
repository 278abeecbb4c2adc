-- ===== src/Aws/StateBucket/Named.antt =====
-- The name of the state's bucket, within the limit of S3: `generateBucketName` of
-- pkg/providers/cluster/aws/state.go.
use nebari_infrastructure_co.Prelude.{
  ◌+◌, ◌≤◌, String, ◌<>◌, ◌≡◌, refl, subst, ◌↔◌, inl, inr, true, arith, ltb, Bool-cases, ok, is_ok,
  ok-injective,
}
use text.Mathlib.TextLemmas.{nil-append, cons-append}
use nebari_infrastructure_co.Aws.StateBucket.{byte_count, generate_bucket_name, bucket_name}

byte_count-append : (a b : String) → byte_count (a <> b) ≡ byte_count a + byte_count b
unfolding byte_count
byte_count-append String.[] b = rw (nil-append b) (omega arith)
byte_count-append (String.◌∷◌ c a) b = rw (cons-append c a b) (omega (arith, byte_count-append a b))

fixed_parts : (byte_count "nic-tfstate-" ≡ 12) × (byte_count "-" ≡ 1)
unfolding byte_count
fixed_parts = (refl, refl)

module _ (account_suffix : String → String)
    (hashed : (a : String) → byte_count (account_suffix a) ≡ 8) where
  byte_count-bucket_name :
      (account_id region project_name : String)
      → byte_count (bucket_name account_suffix account_id region project_name)
        ≡ byte_count project_name + byte_count region + 22
  byte_count-bucket_name account_id region project_name =
      let suffix = account_suffix account_id in
      let end = region <> ("-" <> suffix) in
      omega (
        arith,
        fixed_parts,
        hashed account_id,
        byte_count-append "-" suffix,
        byte_count-append region ("-" <> suffix),
        byte_count-append "-" end,
        byte_count-append project_name ("-" <> end),
        byte_count-append "nic-tfstate-" (project_name <> ("-" <> end)),
      )

  -- When the hash of an account gives eight bytes of text, as four bytes in hexadecimal do: a name for
  -- the bucket is given exactly when the project and the region have 41 bytes together at most, and a
  -- name that is given has no more than the 63 bytes that S3 allows.
  pub generate_bucket_name_bounds :
      (account_id region project_name : String)
      → ((is_ok (generate_bucket_name account_suffix account_id region project_name) ≡ true)
          ↔ (byte_count project_name + byte_count region ≤ 41))
        × ((name : String)
            → generate_bucket_name account_suffix account_id region project_name ≡ ok name
            → byte_count name ≤ 63)
  unfolding generate_bucket_name
  generate_bucket_name_bounds account_id region project_name =
      elim (Bool-cases
        (ltb 63 (byte_count (bucket_name account_suffix account_id region project_name)))) [
          | inl long ↦ rw (long) (
            ground (arith, byte_count-bucket_name account_id region project_name),
            λ name given. absurd (cc),
          )
          | inr fits ↦ rw (fits) (
            ground (arith, byte_count-bucket_name account_id region project_name),
            λ name given. subst (λ n. byte_count n ≤ 63) (ok-injective given) (ground arith),
          )
        ]
