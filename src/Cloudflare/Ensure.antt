-- ===== src/Cloudflare/Ensure.antt =====
-- `ensureRecord` and `deleteRecordIfExists` over a lawful client.
use nebari_infrastructure_co.Prelude.{
  false, select, String, ◌≡◌, refl, sym, ap, ◌∙◌, subst, inl, inr, true, not, List, [], ◌∷◌, ◌==◌,
  eq_iff, eq_refl, if◌then◌else◌, Bool-cases, ok,
}
use nebari_infrastructure_co.Prelude.State.{>>=-eq-ok, wrap_call-eq-ok, wrap_call, lift}
use nebari_infrastructure_co.Prelude.Text.{equal_fold}
use nebari_infrastructure_co.Cloudflare.Api.{Client, DnsRecord, matches, ids, IsLawful}
use nebari_infrastructure_co.Cloudflare.Records.{
  without, without-nil, without-cons, delete_selected, delete_rest, change_selected, add_selected,
}
use nebari_infrastructure_co.Cloudflare.{
  default_ttl, list_failed, create_failed, delete_failed, update_failed, delete_duplicates,
  ensure_record, delete_all, delete_record_if_exists, settle,
}

-- What a successful `ensure_record` makes of a zone's records.
pub record IsSettled (name type content : String) (before after : List DnsRecord) : Type 0 where
  pub kept : DnsRecord
  pub one : select (matches name type) after ≡ kept ∷ []
  pub points : kept.content ≡ content
  pub others :
      select (λ r. not (matches name type r)) after ≡ select (λ r. not (matches name type r)) before

-- What a successful `delete_record_if_exists` makes of them.
pub record IsCleared (name type : String) (before after : List DnsRecord) : Type 0 where
  pub none_left : select (matches name type) after ≡ []
  pub others :
      select (λ r. not (matches name type r)) after ≡ select (λ r. not (matches name type r)) before

matches_self :
    (name type id content named : String)
    → equal_fold named name ≡ true
    → matches name type
        (record { id = id; name = named; type = type; content = content; ttl = default_ttl })
      ≡ true
matches_self name type id content named same = rw (same, eq_refl type) refl

module _ (c : Client) (zone : String) (records : c.State → List DnsRecord)
    (L : IsLawful c zone records) where
  delete_duplicates-records :
      (name : String) (dups : List DnsRecord) (s t : c.State)
      → delete_duplicates c zone name dups s ≡ (ok tt, t)
      → records t ≡ without (ids dups) (records s)
  unfolding delete_duplicates
  delete_duplicates-records name [] s t h =
      ap (λ p. records p.1) (sym h) ∙ sym (without-nil (records s))
  delete_duplicates-records name (dup ∷ dups) s t h =
      let (_, u, called, rest) =
        >>=-eq-ok (wrap_call (delete_failed name dup.id) (c.delete_dns_record zone dup.id)) _ s h in
      let e =
        L.delete dup.id s (
          wrap_call-eq-ok (delete_failed name dup.id) (c.delete_dns_record zone dup.id) s called) in
      delete_duplicates-records name dups u t rest
      ∙ rw e (without-cons dup.id (ids dups) (records s))

  delete_all-records :
      (recs : List DnsRecord) (s t : c.State)
      → delete_all c zone recs s ≡ (ok tt, t)
      → records t ≡ without (ids recs) (records s)
  unfolding delete_all
  delete_all-records [] s t h = ap (λ p. records p.1) (sym h) ∙ sym (without-nil (records s))
  delete_all-records (r ∷ recs) s t h =
      let failed = delete_failed r.name r.id in
      let (_, u, called, rest) =
        >>=-eq-ok (wrap_call failed (c.delete_dns_record zone r.id)) _ s h in
      let e = L.delete r.id s (wrap_call-eq-ok failed (c.delete_dns_record zone r.id) s called) in
      delete_all-records recs u t rest ∙ rw e (without-cons r.id (ids recs) (records s))

  module _ (name type content : String) where
    keep_or_update :
        (first : DnsRecord) (rs : List DnsRecord) (s t : c.State)
        → (if first.content == content
              then lift (ok tt)
              else wrap_call
                  (update_failed name first.id)
                  (c.update_dns_record zone first.id name type content default_ttl))
            s
          ≡ (ok tt, t)
        → select (matches name type) (records s) ≡ first ∷ []
        → select (λ r. not (matches name type r)) (records s)
          ≡ select (λ r. not (matches name type r)) rs
        → IsSettled name type content rs (records t)
    keep_or_update first rs s t h e others = elim (Bool-cases (first.content == content)) [
      | inl same ↦
          let unchanged : records t ≡ records s = ap (λ p. records p.1) (sym (rw same at h)) in
          record {
            kept = first;
            one = rw unchanged e;
            points = (eq_iff _ _).0 same;
            others = rw unchanged others;
          }
      | inr other ↦
          let failed = update_failed name first.id in
          let call = c.update_dns_record zone first.id name type content default_ttl in
          let (named, same, changed) =
            L.update first.id name type content default_ttl s
              (wrap_call-eq-ok failed call s (rw other at h)) in
          let (one, rest) =
            change_selected (matches name type) first.id named type content default_ttl
              (matches_self name type first.id content named same) (records s) first (L.distinct s)
              e refl in
          record {
            kept = record {
              id = first.id;
              name = named;
              type = type;
              content = content;
              ttl = default_ttl;
            };
            one = rw changed one;
            points = refl;
            others = rw changed rest ∙ others;
          }
    ]

    settle-IsSettled :
        (existing : List DnsRecord) (s t : c.State)
        → settle c zone name type content existing s ≡ (ok tt, t)
        → select (matches name type) (records s) ≡ existing
        → IsSettled name type content (records s) (records t)
    settle-IsSettled [] s t h e =
        let failed = create_failed name in
        let call = c.create_dns_record zone name type content default_ttl in
        let (id, named, before, after, same, was, is) =
          L.create name type content default_ttl s (wrap_call-eq-ok failed call s h) in
        let new : DnsRecord = record {
          id = id;
          name = named;
          type = type;
          content = content;
          ttl = default_ttl;
        } in
        let (one, rest) =
          add_selected (matches name type) before after new
            (matches_self name type id content named same) (rw was at e) in
        record { kept = new; one = rw is one; points = refl; others = rw (is, was) rest }
    settle-IsSettled (first ∷ dups) s t h e =
        let (_, u, deleted, rest) = >>=-eq-ok (delete_duplicates c zone name dups) _ s h in
        let left = delete_duplicates-records name dups s u deleted in
        let (one, others) =
          delete_rest (matches name type) (records s) first dups (L.distinct s) e in
        keep_or_update first (records s) u t rest (rw left one) (rw left others)

    -- After a successful `ensure_record` by a name and a type that are set the zone has exactly one record of the name and the type,
    -- it has the content, and all other records are as they were.
    pub ensure_record-IsSettled :
        (s t : c.State)
        → (name == "") ≡ false
        → (type == "") ≡ false
        → ensure_record c zone name type content s ≡ (ok tt, t)
        → IsSettled name type content (records s) (records t)
    unfolding ensure_record
    ensure_record-IsSettled s t name_set type_set h =
        let failed = list_failed name in
        let call = c.list_dns_records zone name type in
        let (existing, u, listed, rest) = >>=-eq-ok (wrap_call failed call) _ s h in
        let (all_of, unchanged) =
          L.list name type s name_set type_set (wrap_call-eq-ok failed call s listed) in
        subst (λ rs. IsSettled name type content rs (records t)) unchanged
          (settle-IsSettled existing u t rest (rw unchanged (sym all_of)))

    settle_again :
        (r : DnsRecord) (s t : c.State)
        → r.content ≡ content
        → settle c zone name type content (r ∷ []) s ≡ (ok tt, t)
        → records t ≡ records s
    unfolding delete_duplicates
    settle_again r s t same h =
        ap (λ p. records p.1) (sym (rw ((eq_iff r.content content).1 same) at h))

    -- Where there is exactly one record of the name and the type, and it has the content, a
    -- successful `ensure_record` changes no record.
    pub ensure_record_again :
        (r : DnsRecord) (s t : c.State)
        → select (matches name type) (records s) ≡ r ∷ []
        → r.content ≡ content
        → (name == "") ≡ false
        → (type == "") ≡ false
        → ensure_record c zone name type content s ≡ (ok tt, t)
        → records t ≡ records s
    unfolding ensure_record
    ensure_record_again r s t one same name_set type_set h =
        let failed = list_failed name in
        let call = c.list_dns_records zone name type in
        let (existing, u, listed, rest) = >>=-eq-ok (wrap_call failed call) _ s h in
        let (all_of, unchanged) =
          L.list name type s name_set type_set (wrap_call-eq-ok failed call s listed) in
        let kept =
          settle_again r u t same
            (subst (λ rs. settle c zone name type content rs u ≡ (ok tt, t)) (all_of ∙ one) rest) in
        kept ∙ unchanged

  -- After a successful `delete_record_if_exists` by a name and a type that are set the zone has no record of the name and the type,
  -- and all other records are as they were.
  pub delete_record_if_exists-IsCleared :
      (name type : String) (s t : c.State)
      → (name == "") ≡ false
      → (type == "") ≡ false
      → delete_record_if_exists c zone name type s ≡ (ok tt, t)
      → IsCleared name type (records s) (records t)
  unfolding delete_record_if_exists
  delete_record_if_exists-IsCleared name type s t name_set type_set h =
      let failed = list_failed name in
      let call = c.list_dns_records zone name type in
      let (existing, u, listed, rest) = >>=-eq-ok (wrap_call failed call) _ s h in
      let (all_of, unchanged) =
        L.list name type s name_set type_set (wrap_call-eq-ok failed call s listed) in
      let left = delete_all-records existing u t rest in
      let (none_left, others) = delete_selected (matches name type) (records s) (L.distinct s) in
      record {
        none_left = rw (left, unchanged, all_of) none_left;
        others = rw (left, unchanged, all_of) others;
      }
