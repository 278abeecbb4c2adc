-- ===== src/Cloudflare/Destroy.antt =====
-- `DestroyRecords` over a lawful client.
use nebari_infrastructure_co.Prelude.{
  false, select, String, ◌<>◌, ◌≡◌, refl, sym, ap, ◌∙◌, inl, inr, Bool, not, ◌&&◌, ◌||◌, Option,
  List, [], ◌∷◌, arith, ◌==◌, Bool-cases, ok,
}
use nebari_infrastructure_co.Prelude.Text.{equal_fold}
use nebari_infrastructure_co.Prelude.State.{>>=-eq-ok, wrap_call-eq-ok}
use nebari_infrastructure_co.Config.Value.{Fields}
use nebari_infrastructure_co.Cloudflare.Api.{DnsRecord, matches, IsLawful}
use nebari_infrastructure_co.Cloudflare.Ensure.{IsCleared, delete_record_if_exists-IsCleared}
use nebari_infrastructure_co.Cloudflare.Provision.{
  open_zone-records, open_zone-domain, wildcard_set,
}
use nebari_infrastructure_co.Cloudflare.{
  Environment, remove_failed, delete_record_if_exists, open_zone, destroy_records, remove,
  record_type_a, record_type_cname,
}

-- The records that the program may have made for a domain.
abbrev pub is_managed : String → DnsRecord → Bool
is_managed domain r =
    (equal_fold r.name domain || equal_fold r.name ("*." <> domain))
    && (r.type == "A" || r.type == "CNAME")

select_rest :
    (m : DnsRecord → Bool) (rs : List DnsRecord)
    → select m rs ≡ []
    → select (λ r. not (m r)) rs ≡ rs
unfolding select
select_rest m [] h = refl
select_rest m (r ∷ rs) h = elim (Bool-cases (m r)) [
  | inl is ↦ absurd (ground arith)
  | inr other ↦ rw other (ap (λ t. r ∷ t) (select_rest m rs (rw other at h)))
]

cleared :
    (name type : String) (xs ys : List DnsRecord)
    → IsCleared name type xs ys
    → ys ≡ select (λ r. not (matches name type r)) xs
cleared name type xs ys c = sym (select_rest (matches name type) ys c.none_left) ∙ c.others

four_cleared :
    (domain : String) (xs : List DnsRecord)
    → select
        (λ r. not (matches ("*." <> domain) "CNAME" r))
        (select
          (λ r. not (matches ("*." <> domain) "A" r))
          (select
            (λ r. not (matches domain "CNAME" r))
            (select (λ r. not (matches domain "A" r)) xs)))
      ≡ select (λ r. not (is_managed domain r)) xs
unfolding select
four_cleared domain [] = refl
four_cleared domain (r ∷ xs) = ground (arith, four_cleared domain xs)

module _ (e : Environment) (records : String → e.client.State → List DnsRecord)
    (L : (zone : String) → IsLawful e.client zone (records zone)) where
  remove-records :
      (zone name type : String) (s t : e.client.State)
      → (name == "") ≡ false
      → (type == "") ≡ false
      → remove e zone name type s ≡ (ok tt, t)
      → records zone t ≡ select (λ r. not (matches name type r)) (records zone s)
  remove-records zone name type s t name_set type_set h =
      cleared name type (records zone s) (records zone t) (
        delete_record_if_exists-IsCleared e.client zone (records zone) (L zone) name type s t
          name_set type_set
          (wrap_call-eq-ok (remove_failed type name)
            (delete_record_if_exists e.client zone name type) s h))

  -- After records are destroyed with success, the zone that the settings name has lost exactly the
  -- records that have the domain or its wildcard as name, whatever its case, and the type A or CNAME.
  pub destroy_records-removes :
      (domain : String) (dns_config : Option Fields) (s t : e.client.State)
      → destroy_records e domain dns_config s ≡ (ok tt, t)
      → (zone : String) × (u : e.client.State) × (open_zone e domain dns_config s ≡ (ok zone, u))
        × (records zone t ≡ select (λ r. not (is_managed domain r)) (records zone s))
  unfolding destroy_records
  destroy_records-removes domain dns_config s t h =
      let (zone, u, opened, h₁) = >>=-eq-ok (open_zone e domain dns_config) _ s h in
      let named = open_zone-domain e records L domain dns_config s u zone opened in
      let wildcard = "*." <> domain in
      let (_, v, a, h₂) = >>=-eq-ok (remove e zone domain record_type_a) _ u h₁ in
      let (_, w, b, h₃) = >>=-eq-ok (remove e zone domain record_type_cname) _ v h₂ in
      let (_, x, c, d) = >>=-eq-ok (remove e zone wildcard record_type_a) _ w h₃ in
      (
        zone,
        u,
        opened,
        rw
            (
              remove-records zone wildcard record_type_cname x t (wildcard_set domain) refl d,
              remove-records zone wildcard record_type_a w x (wildcard_set domain) refl c,
              remove-records zone domain record_type_cname v w named refl b,
              remove-records zone domain record_type_a u v named refl a,
              open_zone-records e records L domain dns_config s u zone zone opened,
            )
            (four_cleared domain (records zone s)),
      )
