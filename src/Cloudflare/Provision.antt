-- ===== src/Cloudflare/Provision.antt =====
-- `ProvisionRecords` and `DestroyRecords` over a lawful client.
use nebari_infrastructure_co.Prelude.{
  select, String, ◌<>◌, ◌≡◌, sym, ap, ◌∙◌, subst, ◌≢◌, Bool, true, false, not, ◌&&◌, Option, List,
  [], ◌∷◌, arith, ◌==◌, eq_iff, ok, inl, inr, Bool-cases, refl, fail_if, wrap,
}
use text.Mathlib.TextLemmas.{length-append}
use Prim.Native.String.{count}
use nebari_infrastructure_co.Prelude.Text.{equal_fold, count-equal_fold}
use nebari_infrastructure_co.Prelude.State.{>>=-eq-ok, lift-eq-ok, wrap_call-eq-ok, wrap_call}
use nebari_infrastructure_co.Config.Value.{Fields}
use nebari_infrastructure_co.Cloudflare.Api.{DnsRecord, matches, IsLawful}
use nebari_infrastructure_co.Cloudflare.Settings.{extract_cloudflare_config}
use nebari_infrastructure_co.Cloudflare.Records.{select_apart}
use nebari_infrastructure_co.Cloudflare.Ensure.{IsSettled, ensure_record-IsSettled}
use nebari_infrastructure_co.Cloudflare.{
  domain_required, settings, get_api_token, no_client, zone_not_found, Environment, ensure_failed,
  record_type_for_endpoint, ensure_record, open_zone, provision_records,
}

wildcard_count : (domain : String) → count ("*." <> domain) ≢ count domain
wildcard_count domain e = omega (arith, sym (length-append "*." domain) ∙ e)

pub wildcard_set : (domain : String) → ("*." <> domain == "") ≡ false
wildcard_set domain = elim (Bool-cases ("*." <> domain == "")) [
  | inl empty ↦ absurd (
      omega
        (arith, sym (length-append "*." domain) ∙ ap count ((eq_iff ("*." <> domain) "").0 empty)))
  | inr named ↦ named
]

record_type_set :
    (is_ip : String → Bool) (endpoint : String)
    → (record_type_for_endpoint is_ip endpoint == "") ≡ false
unfolding record_type_for_endpoint
record_type_set is_ip endpoint = elim (Bool-cases (is_ip endpoint)) [
  | inl ip ↦ rw ip refl
  | inr name ↦ rw name refl
]

-- The records that have neither of the two names, or another type.
abbrev pub is_other : String → String → DnsRecord → Bool
is_other domain type r = not (matches domain type r) && not (matches ("*." <> domain) type r)

-- The domain and its wildcard name each have one record of the type, with the endpoint as content;
-- all other records are as before.
pub record IsProvisioned (domain type endpoint : String) (before after : List DnsRecord)
    : Type 0 where
  pub apex : DnsRecord
  pub apex_one : select (matches domain type) after ≡ apex ∷ []
  pub apex_points : apex.content ≡ endpoint
  pub wildcard : DnsRecord
  pub wildcard_one : select (matches ("*." <> domain) type) after ≡ wildcard ∷ []
  pub wildcard_points : wildcard.content ≡ endpoint
  pub others : select (is_other domain type) after ≡ select (is_other domain type) before

apart_apex :
    (domain type : String) (r : DnsRecord)
    → matches domain type r ≡ true
    → matches ("*." <> domain) type r ≡ false
apart_apex domain type r h = elim (Bool-cases (equal_fold r.name ("*." <> domain))) [
  | inl both ↦ absurd (
      wildcard_count domain (
        sym (count-equal_fold r.name ("*." <> domain) both)
        ∙ count-equal_fold r.name domain (ground arith)))
  | inr other ↦ rw other refl
]

other_apex :
    (domain type : String) (r : DnsRecord)
    → is_other domain type r ≡ true
    → matches domain type r ≡ false
other_apex domain type r h = ground arith

other_wildcard :
    (domain type : String) (r : DnsRecord)
    → is_other domain type r ≡ true
    → matches ("*." <> domain) type r ≡ false
other_wildcard domain type r h = ground arith

-- What agrees on the records that a test does not take agrees on those that another test takes.
agree :
    (m p : DnsRecord → Bool)
    → ((r : DnsRecord) → p r ≡ true → m r ≡ false)
    → (xs ys : List DnsRecord) → select (λ r. not (m r)) xs ≡ select (λ r. not (m r)) ys
    → select p xs ≡ select p ys
agree m p h xs ys e = sym (select_apart m p h xs) ∙ (ap (select p) e ∙ select_apart m p h ys)

IsProvisioned-of_settled :
    (domain type endpoint : String) (xs ys zs : List DnsRecord)
    → IsSettled domain type endpoint xs ys
    → IsSettled ("*." <> domain) type endpoint ys zs
    → IsProvisioned domain type endpoint xs zs
IsProvisioned-of_settled domain type endpoint xs ys zs a b =
    let apex_test = matches domain type in
    let wildcard_test = matches ("*." <> domain) type in
    let other = is_other domain type in
    record {
      apex = a.kept;
      apex_one = agree wildcard_test apex_test (apart_apex domain type) zs ys b.others ∙ a.one;
      apex_points = a.points;
      wildcard = b.kept;
      wildcard_one = b.one;
      wildcard_points = b.points;
      others =
          agree wildcard_test other (other_wildcard domain type) zs ys b.others
          ∙ agree apex_test other (other_apex domain type) ys xs a.others;
    }

-- The zone that the settings name: its records, seen through the client's state.
module _ (e : Environment) (records : String → e.client.State → List DnsRecord)
    (L : (zone : String) → IsLawful e.client zone (records zone)) where
  pub open_zone-records :
      (domain : String) (dns_config : Option Fields) (s t : e.client.State) (z zone : String)
      → open_zone e domain dns_config s ≡ (ok z, t)
      → records zone t ≡ records zone s
  unfolding open_zone
  open_zone-records domain dns_config s t z zone h =
      let (_, _, h₁) = lift-eq-ok (fail_if (domain == "") domain_required) _ s h in
      let (cfg, _, h₂) =
        lift-eq-ok (wrap settings (extract_cloudflare_config domain dns_config)) _ s h₁ in
      let (_, _, h₃) = lift-eq-ok (get_api_token e.getenv) _ s h₂ in
      let (_, _, h₄) = lift-eq-ok (wrap no_client (e.get_client _)) _ s h₃ in
      (L zone).resolve cfg.zone_name s (
        wrap_call-eq-ok (zone_not_found cfg.zone_name) (e.client.resolve_zone_id cfg.zone_name) s
          h₄)

  -- A zone is opened for a domain that is set only.
  pub open_zone-domain :
      (domain : String) (dns_config : Option Fields) (s t : e.client.State) (z : String)
      → open_zone e domain dns_config s ≡ (ok z, t)
      → (domain == "") ≡ false
  unfolding open_zone
  open_zone-domain domain dns_config s t z h = elim (Bool-cases (domain == "")) [
    | inl empty ↦ absurd (cc (rw empty at h))
    | inr named ↦ named
  ]

  -- After records are provisioned with success, in the zone that the settings name the domain and
  -- its wildcard name each have exactly one record of the endpoint's type, with the endpoint as
  -- content, and every record with another name or type is as it was. Names are compared without case.
  pub provision_records-IsProvisioned :
      (domain : String) (dns_config : Option Fields) (endpoint : String) (s t : e.client.State)
      → provision_records e domain dns_config endpoint s ≡ (ok tt, t)
      → (zone : String) × (u : e.client.State) × (open_zone e domain dns_config s ≡ (ok zone, u))
        × IsProvisioned domain
            (record_type_for_endpoint e.is_ip endpoint)
            endpoint
            (records zone s)
            (records zone t)
  unfolding provision_records
  provision_records-IsProvisioned domain dns_config endpoint s t h =
      let type = record_type_for_endpoint e.is_ip endpoint in
      let (zone, u, opened, h₁) = >>=-eq-ok (open_zone e domain dns_config) _ s h in
      let apex = ensure_record e.client zone domain type endpoint in
      let (_, v, settled, h₂) = >>=-eq-ok (wrap_call (ensure_failed domain) apex) _ u h₁ in
      let wildcard = "*." <> domain in
      let call = ensure_record e.client zone wildcard type endpoint in
      let a =
        ensure_record-IsSettled e.client zone (records zone) (L zone) domain type endpoint u v
          (open_zone-domain domain dns_config s u zone opened) (record_type_set e.is_ip endpoint)
          (wrap_call-eq-ok (ensure_failed domain) apex u settled) in
      let b =
        ensure_record-IsSettled e.client zone (records zone) (L zone) wildcard type endpoint v t
          (wildcard_set domain) (record_type_set e.is_ip endpoint)
          (wrap_call-eq-ok (ensure_failed wildcard) call v h₂) in
      let same = open_zone-records domain dns_config s u zone zone opened in
      (
        zone,
        u,
        opened,
        subst (λ xs. IsProvisioned domain type endpoint xs (records zone t)) same
            (IsProvisioned-of_settled domain type endpoint (records zone u) (records zone v)
              (records zone t) a b),
      )
