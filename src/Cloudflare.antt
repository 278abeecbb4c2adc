-- ===== src/Cloudflare.antt =====
-- pkg/providers/dns/cloudflare/provider.go: the DNS provider over a Cloudflare client.
pub mod Api
pub mod Settings
pub mod Records
pub mod Ensure
pub mod Provision
pub mod Destroy
pub mod Memory
use nebari_infrastructure_co.Prelude.{
  ℕ, String, ◌<>◌, Bool, Option, List, [], ◌∷◌, ◌==◌, if◌then◌else◌, Result, ok, err, fail_if, wrap,
}
use nebari_infrastructure_co.Prelude.Text.{codes}
use nebari_infrastructure_co.Prelude.State.{M, ◌>>=◌, ◌>>◌, lift, wrap_call}
use nebari_infrastructure_co.Config.Value.{Fields}
use Api.{Client, DnsRecord, ApiError}
use Settings.{CloudflareConfig, SettingsError, extract_cloudflare_config}

abbrev pub default_ttl : ℕ
default_ttl = 300

abbrev pub record_type_a : String
record_type_a = "A"

abbrev pub record_type_cname : String
record_type_cname = "CNAME"

pub data RecordError : Type 0 where
  list_failed create_failed : String → ApiError → RecordError
  delete_failed update_failed : String → String → ApiError → RecordError

pub data ProviderError : Type 0 where
  domain_required : ProviderError
  settings : SettingsError → ProviderError
  token_required : ProviderError
  no_client : String → ProviderError
  zone_not_found : String → ApiError → ProviderError
  ensure_failed : String → RecordError → ProviderError
  remove_failed : String → String → RecordError → ProviderError

-- `getAPIToken`.
unfoldable pub get_api_token : (String → String) → Result ProviderError String
get_api_token getenv =
    let token = getenv "CLOUDFLARE_API_TOKEN" in
    if token == "" then err token_required else ok token

-- `recordTypeForEndpoint`; `is_ip` is `net.ParseIP(endpoint) != nil`.
unfoldable pub record_type_for_endpoint : (String → Bool) → String → String
record_type_for_endpoint is_ip endpoint =
    if is_ip endpoint then record_type_a else record_type_cname

module _ (c : Client) where
  open c use {
    State, resolve_zone_id, list_dns_records, create_dns_record, update_dns_record,
    delete_dns_record,
  }

  -- The loop over the duplicates in `ensureRecord`.
  unfoldable pub delete_duplicates :
      String → String → List DnsRecord → M State RecordError (Unit {0})
  delete_duplicates zone name [] = lift (ok tt)
  delete_duplicates zone name (dup ∷ dups) = do
    wrap_call (delete_failed name dup.id) (delete_dns_record zone dup.id)
    delete_duplicates zone name dups

  abbrev settle :
      String → String → String → String → List DnsRecord → M State RecordError (Unit {0})
  settle zone name type content [] =
      wrap_call (create_failed name) (create_dns_record zone name type content default_ttl)
  settle zone name type content (rec ∷ dups) = do
    delete_duplicates zone name dups
    if rec.content == content
        then lift (ok tt)
        else wrap_call (update_failed name rec.id)
            (update_dns_record zone rec.id name type content default_ttl)

  -- `ensureRecord`.
  unfoldable pub ensure_record : String → String → String → String → M State RecordError (Unit {0})
  ensure_record zone name type content = do
    existing ← wrap_call (list_failed name) (list_dns_records zone name type)
    settle zone name type content existing

  -- The loop of `deleteRecordIfExists`.
  unfoldable pub delete_all : String → List DnsRecord → M State RecordError (Unit {0})
  delete_all zone [] = lift (ok tt)
  delete_all zone (rec ∷ recs) = do
    wrap_call (delete_failed rec.name rec.id) (delete_dns_record zone rec.id)
    delete_all zone recs

  -- `deleteRecordIfExists`.
  unfoldable pub delete_record_if_exists : String → String → String → M State RecordError (Unit {0})
  delete_record_if_exists zone name type = do
    existing ← wrap_call (list_failed name) (list_dns_records zone name type)
    delete_all zone existing

-- The provider: the environment, and the client that `getClient` gives for a token.
pub record Environment : Type 1 where
  pub getenv : String → String
  pub is_ip : String → Bool
  pub client : Client
  pub get_client : String → Result String (Unit {0})

module _ (e : Environment) where
  open e use {getenv, is_ip, client.{State, resolve_zone_id}, get_client}

  -- The steps that `ProvisionRecords` and `DestroyRecords` share, up to the zone's identifier.
  unfoldable pub open_zone : String → Option Fields → M State ProviderError String
  open_zone domain dns_config = do
    lift (fail_if (domain == "") domain_required)
    cfg ← lift (wrap settings (extract_cloudflare_config domain dns_config))
    token ← lift (get_api_token getenv)
    lift (wrap no_client (get_client token))
    wrap_call (zone_not_found cfg.zone_name) (resolve_zone_id cfg.zone_name)

  -- `ProvisionRecords`.
  unfoldable pub provision_records :
      String → Option Fields → String → M State ProviderError (Unit {0})
  provision_records domain dns_config lb_endpoint = do
    zone ← open_zone domain dns_config
    let type = record_type_for_endpoint is_ip lb_endpoint
    wrap_call (ensure_failed domain) (ensure_record e.client zone domain type lb_endpoint)
    let wildcard = "*." <> domain
    wrap_call (ensure_failed wildcard) (ensure_record e.client zone wildcard type lb_endpoint)

  abbrev pub remove : String → String → String → M State ProviderError (Unit {0})
  remove zone name type =
      wrap_call (remove_failed type name) (delete_record_if_exists e.client zone name type)

  -- `DestroyRecords`: the loops over two names and two types, in their order.
  unfoldable pub destroy_records : String → Option Fields → M State ProviderError (Unit {0})
  destroy_records domain dns_config = do
    zone ← open_zone domain dns_config
    let wildcard = "*." <> domain
    remove zone domain record_type_a
    remove zone domain record_type_cname
    remove zone wildcard record_type_a
    remove zone wildcard record_type_cname
