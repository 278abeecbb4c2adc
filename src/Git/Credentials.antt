-- ===== src/Git/Credentials.antt =====
-- `GetAuth` and `newHostKeyCallback` of pkg/git/config.go.
use nebari_infrastructure_co.Prelude.{
  String, Bool, Option, none, some, ◌==◌, if◌then◌else◌, Result, ok, err, ◌>>=◌, wrap,
}
use nebari_infrastructure_co.Git.{
  AuthConfig, GitError, bad_ssh_key, no_known_hosts, no_authentication, auth_type, get_ssh_key,
  get_token,
}

-- What the program takes of golang.org/x/crypto/ssh, go-git and knownhosts.
pub record SshLibrary : Type 1 where
  pub Signer : Type 0
  pub HostKey : Type 0
  pub KeyError : Type 0
  -- `ParsePrivateKey`
  pub parse_private_key : String → Result String Signer
  -- The check that `NewKnownHostsCallback` returns, if it finds a known_hosts file.
  pub known_hosts : Result String (String → HostKey → Option KeyError)
  pub is_host_unknown : KeyError → Bool
  pub is_host_key_changed : KeyError → Bool

abbrev after_suffix : String → String → String
after_suffix suffix String.[] = ""
after_suffix suffix (String.◌∷◌ c s) =
    if String.◌∷◌ c s == suffix then "" else String.◌∷◌ c (after_suffix suffix s)

-- `strings.TrimSuffix`, the suffix first.
unfoldable pub trim_suffix : String → String → String
trim_suffix suffix s = after_suffix suffix s

module _ (L : SshLibrary) where
  open L use {
    Signer, HostKey, KeyError, parse_private_key, known_hosts, is_host_unknown, is_host_key_changed,
  }

  -- Why a host is refused.
  pub data HostError : Type 0 where
    unknown_host : String → HostError
    changed_key : String → KeyError → HostError
    other_error : KeyError → HostError

  abbrev explain : String → Option KeyError → Option HostError
  explain host none = none
  explain host (some e) =
      if is_host_unknown e
      then some (unknown_host host)
      else if is_host_key_changed e
      then some (changed_key host e)
      else some (other_error e)

  abbrev pub HostCheck : Type 0
  HostCheck = String → HostKey → Option HostError

  unfoldable pub new_host_key_callback : Result GitError HostCheck
  unfolding trim_suffix
  new_host_key_callback = do
    callback ← wrap no_known_hosts known_hosts
    ok (λ hostname key. explain (trim_suffix ":22" hostname) (callback hostname key))

  pub data AuthMethod : Type 0 where
    public_keys : String → Signer → HostCheck → AuthMethod
    basic_auth : String → String → AuthMethod

  -- `InsecureIgnoreHostKey`.
  abbrev accept_all : HostCheck
  accept_all hostname key = none

  unfoldable pub get_auth : (String → String) → AuthConfig → Result GitError AuthMethod
  unfolding auth_type get_ssh_key get_token
  get_auth getenv a =
      if auth_type a == "ssh"
      then (do
        ssh_key ← get_ssh_key getenv a
        signer ← wrap bad_ssh_key (parse_private_key ssh_key)
        callback ←
            (if a.insecure_skip_host_key_verification then ok accept_all else new_host_key_callback)
        ok (public_keys "git" signer callback))
      else if auth_type a == "token"
      then (do token ← get_token getenv a; ok (basic_auth "git" token))
      else err no_authentication
