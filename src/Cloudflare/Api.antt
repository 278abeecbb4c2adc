-- ===== src/Cloudflare/Api.antt =====
-- `CloudflareClient` of pkg/providers/dns/cloudflare/client.go. The implementation calls the
-- Cloudflare service, so a client is a parameter here, with what the service documents of it.
use nebari_infrastructure_co.Prelude.{
  true, ℕ, String, ◌≡◌, Bool, false, not, ◌&&◌, List, [], ◌∷◌, ◌++◌, map, ◌==◌, if◌then◌else◌,
  contains, ok, select,
}
use nebari_infrastructure_co.Prelude.Text.{equal_fold}
use nebari_infrastructure_co.Prelude.State.{M}

pub record DnsRecord : Type 0 where
  pub id : String
  pub name : String
  pub type : String
  pub content : String
  pub ttl : ℕ

-- The text of an error of the service.
abbrev pub ApiError : Type 0
ApiError = String

-- The zone's identifier stands before the other arguments, as in the source.
pub record Client : Type 1 where
  pub State : Type 0
  pub resolve_zone_id : String → M State ApiError String
  pub list_dns_records : String → String → String → M State ApiError (List DnsRecord)
  pub create_dns_record : String → String → String → String → ℕ → M State ApiError (Unit {0})
  pub update_dns_record :
      String → String → String → String → String → ℕ → M State ApiError (Unit {0})
  pub delete_dns_record : String → String → M State ApiError (Unit {0})

-- The filter on names does not look at their case; names are in Punycode, that is, in ASCII.
abbrev pub matches : String → String → DnsRecord → Bool
matches name type r = equal_fold r.name name && r.type == type

abbrev pub has_id : String → DnsRecord → Bool
has_id id r = r.id == id

-- The record with other settings, if it has the identifier.
abbrev pub change : String → String → String → String → ℕ → DnsRecord → DnsRecord
change id name type content ttl r =
    if has_id id r
    then record { id = id; name = name; type = type; content = content; ttl = ttl }
    else r

abbrev pub ids : List DnsRecord → List String
ids = map (λ r. r.id)

abbrev pub Distinct : List DnsRecord → Type 0
Distinct [] = Unit
Distinct (r ∷ rs) = (contains (ids rs) r.id ≡ false) × Distinct rs

-- What the service documents of the records of one zone. A call that succeeds has done its work: a
-- listing by a name and a type changes nothing and gives the records of both, a creation adds one record
-- of them under a new identifier somewhere, an update sets the record with the identifier, and a deletion
-- removes it. The service may change the case of a name. Nothing is said of calls that fail, and nothing
-- of a listing with an empty name or type, which lists by the other one only.
pub record IsLawful (c : Client) (zone : String) (records : c.State → List DnsRecord) : Type 0 where
  pub distinct : (s : c.State) → Distinct (records s)
  pub resolve :
      (zone_name : String) (s : c.State) {z : String} {t : c.State}
      → c.resolve_zone_id zone_name s ≡ (ok z, t)
      → records t ≡ records s
  pub list :
      (name type : String) (s : c.State) {rs : List DnsRecord} {t : c.State}
      → (name == "") ≡ false
      → (type == "") ≡ false
      → c.list_dns_records zone name type s ≡ (ok rs, t)
      → (rs ≡ select (matches name type) (records s)) × (records t ≡ records s)
  pub create :
      (name type content : String) (ttl : ℕ) (s : c.State) {t : c.State}
      → c.create_dns_record zone name type content ttl s ≡ (ok tt, t)
      → (id : String) × (named : String) × (before : List DnsRecord) × (after : List DnsRecord)
        × (equal_fold named name ≡ true)
        × (records s ≡ before ++ after)
        × (records t
            ≡ before
              ++ (record { id = id; name = named; type = type; content = content; ttl = ttl }
                  ∷ after))
  pub update :
      (id name type content : String) (ttl : ℕ) (s : c.State) {t : c.State}
      → c.update_dns_record zone id name type content ttl s ≡ (ok tt, t)
      → (named : String) × (equal_fold named name ≡ true)
        × (records t ≡ map (change id named type content ttl) (records s))
  pub delete :
      (id : String) (s : c.State) {t : c.State}
      → c.delete_dns_record zone id s ≡ (ok tt, t)
      → records t ≡ select (λ r. not (has_id id r)) (records s)
