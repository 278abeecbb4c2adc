-- ===== src/Witnesses/Repository.antt =====
-- The theorems on the GitOps repository at sample inputs.
use nebari_infrastructure_co.Prelude.{
  String, ◌<>◌, ◌≡◌, refl, ◌≢◌, ◌↔◌, ◌⊎◌, some, [], ◌∷◌, ◌++◌, ok,
}
use nebari_infrastructure_co.FilePath
use nebari_infrastructure_co.FilePath.{join_slash, is_abs}
use nebari_infrastructure_co.FilePath.Rooted.{IsRooted}
use nebari_infrastructure_co.FilePath.Joined.{names_of}
use nebari_infrastructure_co.Git
use nebari_infrastructure_co.Git.{GitConfig, get_local_path, redacted_copy}
use nebari_infrastructure_co.Git.Accepted.{IsLocal, IsRemote, git-validate_iff}
use nebari_infrastructure_co.Git.LocalPath.{get_local_path-IsRooted, get_local_path-file_url}
use nebari_infrastructure_co.Prelude.Text.{trim_prefix}
use nebari_infrastructure_co.Config.Nebari.{NebariConfig, safe_project_name}
use nebari_infrastructure_co.Nic.Gitops.{default_git_config, scrubbed_config}
use nebari_infrastructure_co.Nic.Gitops.DefaultPath.{get_local_path-default_git_config}
use nebari_infrastructure_co.Nic.Gitops.Scrubbed.{IsScrubbed, scrubbed_config-IsScrubbed}
use nebari_infrastructure_co.Witnesses.Samples.{no_files, remote, local, config}

git-validate_iff_example :
    (Git.validate no_files remote ≡ ok tt)
    ↔ ((remote.url ≢ "") × (IsLocal no_files remote ⊎ IsRemote no_files remote))
git-validate_iff_example = git-validate_iff no_files remote

get_local_path-IsRooted_example : IsRooted "/srv/gitops/p"
unfolding get_local_path is_abs FilePath.clean trim_prefix
get_local_path-IsRooted_example = get_local_path-IsRooted local "/srv/gitops/p" refl

get_local_path-default_git_config_example :
    get_local_path (default_git_config (some "/home/u/") "/tmp" "p")
    ≡ ok ("/" <> join_slash (names_of "/home/u/" ++ (".nic" ∷ "gitops" ∷ "p" ∷ [])))
get_local_path-default_git_config_example =
    get_local_path-default_git_config "/home/u/" "/tmp" "p" (unfold is_abs in refl)
      (unfold safe_project_name in refl)

-- A bundle in a file, and the text in it.
abbrev certificate_text : String
certificate_text = "-----BEGIN CERTIFICATE-----"

abbrev bundled : NebariConfig
bundled = record config { trust_bundle = some (record { path = "/ca.pem"; inline = "" }) }

scrubbed_config-IsScrubbed_example :
    IsScrubbed bundled
      (scrubbed_config bundled (some remote) certificate_text)
      (some remote)
      certificate_text
unfolding nebari_infrastructure_co.Config.TrustBundle.resolve_pem
    nebari_infrastructure_co.Config.TrustBundle.resolve
    nebari_infrastructure_co.Prelude.Text.trim_space
    nebari_infrastructure_co.Config.TrustBundle.check_pem
    nebari_infrastructure_co.Prelude.Text.has_part
scrubbed_config-IsScrubbed_example =
    scrubbed_config-IsScrubbed (λ _. ok certificate_text) bundled (some remote) certificate_text
      refl

abbrev absolute : GitConfig
absolute = record local { url = "file:///srv/p" }

get_local_path-file_url_example : get_local_path absolute ≡ ok "/srv/p"
get_local_path-file_url_example = get_local_path-file_url absolute "/srv/p" refl (
  "srv" ∷ "p" ∷ [],
  (
    ((λ e. cc), (λ e. cc), (λ e. cc), (refl, (refl, (refl, tt)))),
    (((λ e. cc), (λ e. cc), (λ e. cc), (refl, tt)), tt),
  ),
  unfold join_slash in refl,
)
