-- ===== src/Witnesses/Records.antt =====
-- The theorems on the DNS records at a zone that holds a foreign record, one that is out of date and a
-- duplicate.
use nebari_infrastructure_co.Prelude.{
  select, String, ◌≡◌, refl, not, Option, some, [], ◌∷◌, ◌==◌, ok,
}
use nebari_infrastructure_co.Config.Value.{Fields, field, word, end_mapping}
use nebari_infrastructure_co.Cloudflare.{
  Environment, ensure_record, delete_record_if_exists, open_zone, provision_records,
  destroy_records, record_type_for_endpoint,
}
use nebari_infrastructure_co.Cloudflare.Api.{DnsRecord}
use nebari_infrastructure_co.Cloudflare.Memory.{
  Memory, memory_client, memory_client-IsLawful, stored_of,
}
use nebari_infrastructure_co.Cloudflare.Provision.{IsProvisioned, provision_records-IsProvisioned}
use nebari_infrastructure_co.Cloudflare.Destroy.{is_managed, destroy_records-removes}

abbrev stale : DnsRecord
stale = record { id = "1"; name = "d.org"; type = "A"; content = "1.1.1.1"; ttl = 60 }

abbrev duplicate : DnsRecord
duplicate = record { id = "2"; name = "d.org"; type = "A"; content = "9.9.9.9"; ttl = 60 }

abbrev foreign : DnsRecord
foreign = record { id = "3"; name = "mail.d.org"; type = "A"; content = "2.2.2.2"; ttl = 60 }

abbrev before : Memory
before = record { stored = stale ∷ duplicate ∷ foreign ∷ []; distinct = (refl, (refl, (refl, tt))) }

abbrev environment : Environment
environment = record {
  getenv = λ _. "secret";
  is_ip = λ s. s == "9.9.9.9";
  client = memory_client;
  get_client = λ _. ok tt;
}

abbrev dns_settings : Option Fields
dns_settings = some (field "zone_name" (word "d.org") end_mapping)

abbrev ensured : Memory
ensured = (ensure_record memory_client "z" "d.org" "A" "9.9.9.9" before).1

abbrev provisioned : Memory
provisioned = (provision_records environment "d.org" dns_settings "9.9.9.9" before).1

provision_records-IsProvisioned_example :
    (zone : String) × (u : Memory) × (open_zone environment "d.org" dns_settings before
      ≡ (ok zone, u))
    × IsProvisioned "d.org"
        (record_type_for_endpoint environment.is_ip "9.9.9.9")
        "9.9.9.9"
        (stored_of zone before)
        (stored_of zone provisioned)
unfolding provision_records open_zone
    nebari_infrastructure_co.Cloudflare.Settings.extract_cloudflare_config
    nebari_infrastructure_co.Cloudflare.get_api_token ensure_record select record_type_for_endpoint
    nebari_infrastructure_co.Cloudflare.delete_duplicates
    nebari_infrastructure_co.Prelude.Text.equal_fold
provision_records-IsProvisioned_example =
    provision_records-IsProvisioned environment stored_of memory_client-IsLawful "d.org"
      dns_settings "9.9.9.9" before provisioned refl

abbrev destroyed : Memory
destroyed = (destroy_records environment "d.org" dns_settings before).1

destroy_records-removes_example :
    (zone : String) × (u : Memory) × (open_zone environment "d.org" dns_settings before
      ≡ (ok zone, u))
    × (stored_of zone destroyed ≡ select (λ r. not (is_managed "d.org" r)) (stored_of zone before))
unfolding destroy_records open_zone
    nebari_infrastructure_co.Cloudflare.Settings.extract_cloudflare_config
    nebari_infrastructure_co.Cloudflare.get_api_token delete_record_if_exists
    nebari_infrastructure_co.Cloudflare.delete_all select
    nebari_infrastructure_co.Prelude.Text.equal_fold
destroy_records-removes_example =
    destroy_records-removes environment stored_of memory_client-IsLawful "d.org" dns_settings before
      destroyed refl
