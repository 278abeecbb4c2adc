-- ===== src/Witnesses/Secrets.antt =====
-- The theorem on the credential secret at an S3 target that uses a role.
use nebari_infrastructure_co.Prelude.{String, refl, inr, List, [], ◌∷◌, Result, err}
use nebari_infrastructure_co.Longhorn.{build_credential_secret}
use nebari_infrastructure_co.Longhorn.Keys.{Unlocks, build_credential_secret-Unlocks}
use nebari_infrastructure_co.Witnesses.Samples.{bucket, longhorn}

abbrev no_object : String → String → Result String (List (String × String))
no_object namespace name = err "not found"

abbrev role_only : List (String × String)
role_only = ("AWS_IAM_ROLE_ARN", "arn:aws:iam::1:role/b") ∷ []

build_credential_secret-Unlocks_example : Unlocks role_only
unfolding build_credential_secret
build_credential_secret-Unlocks_example =
    build_credential_secret-Unlocks (λ name. "") no_object no_object longhorn bucket
      "arn:aws:iam::1:role/b" role_only refl (inr (λ e. cc)) refl
