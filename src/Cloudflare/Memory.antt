-- ===== src/Cloudflare/Memory.antt =====
-- A client that keeps the records of one zone in memory, whatever zone it is asked for: it meets
-- what the service documents.
use nebari_infrastructure_co.Prelude.{
  ◌∙◌, select, ℕ, ◌≤◌, ◌<◌, String, ◌<>◌, ◌≡◌, refl, sym, ap, inl, inr, false, not, List, [], ◌∷◌,
  map, arith, ◌==◌, eq_iff, Bool-cases, contains, ok, ok-injective, Bool, ◌&&◌, ◌||◌,
}
use Prim.Native.String.{count}
use text.Mathlib.TextLemmas.{length-append}
use nebari_infrastructure_co.Prelude.Text.{equal_fold, equal_fold_refl}
use nebari_infrastructure_co.Cloudflare.Api.{
  Client, DnsRecord, ApiError, has_id, change, ids, Distinct, IsLawful,
}
use nebari_infrastructure_co.Cloudflare.Records.{Distinct-select}

pub record Memory : Type 0 where
  pub stored : List DnsRecord
  pub distinct : Distinct stored

-- An identifier that is longer than all others.
unfoldable pub fresh : List DnsRecord → String
fresh [] = "x"
fresh (r ∷ rs) = r.id <> fresh rs

fresh_pos : (rs : List DnsRecord) → 0 < count (fresh rs)
unfolding fresh
fresh_pos [] = omega arith
fresh_pos (r ∷ rs) = omega (arith, length-append r.id (fresh rs), fresh_pos rs)

pub fresh_is_new :
    (rs : List DnsRecord) (id : String) → count (fresh rs) ≤ count id → contains (ids rs) id ≡ false
unfolding fresh
fresh_is_new [] id h = refl
fresh_is_new (r ∷ rs) id h = elim (Bool-cases (r.id == id)) [
  | inl same ↦ absurd (
      omega
        (arith, ap count ((eq_iff r.id id).0 same), length-append r.id (fresh rs), fresh_pos rs))
  | inr other ↦ rw other (fresh_is_new rs id (omega (arith, length-append r.id (fresh rs))))
]

module _ (id name type content : String) (ttl : ℕ) where
  id-change : (r : DnsRecord) → (change id name type content ttl r).id ≡ r.id
  id-change r = elim (Bool-cases (r.id == id)) [
    | inl same ↦ rw same (sym ((eq_iff r.id id).0 same))
    | inr other ↦ rw other refl
  ]

  ids-change : (rs : List DnsRecord) → ids (map (change id name type content ttl) rs) ≡ ids rs
  ids-change [] = refl
  ids-change (r ∷ rs) = rw (id-change r) (ap (λ t. r.id ∷ t) (ids-change rs))

  pub Distinct-change :
      (rs : List DnsRecord) → Distinct rs → Distinct (map (change id name type content ttl) rs)
  Distinct-change [] d = tt
  Distinct-change (r ∷ rs) (new, d) = (rw (id-change r, ids-change rs) new, Distinct-change rs d)

unfoldable pub add : String → String → String → ℕ → Memory → Memory
add name type content ttl s = record {
  stored =
      record { id = fresh s.stored; name = name; type = type; content = content; ttl = ttl }
      ∷ s.stored;
  distinct = (fresh_is_new s.stored (fresh s.stored) (omega arith), s.distinct);
}

-- What a listing gives: an empty name or type matches all.
abbrev pub listed : String → String → DnsRecord → Bool
listed name type r = (name == "" || equal_fold r.name name) && (type == "" || r.type == type)

abbrev pub memory_client : Client
memory_client = record {
  State = Memory;
  resolve_zone_id = λ zone_name s. (ok ("zone-of-" <> zone_name), s);
  list_dns_records = λ zone name type s. (ok (select (listed name type) s.stored), s);
  create_dns_record = λ zone name type content ttl s. (ok tt, add name type content ttl s);
  update_dns_record = λ zone id name type content ttl s. (
    ok tt,
    record {
      stored = map (change id name type content ttl) s.stored;
      distinct = Distinct-change id name type content ttl s.stored s.distinct;
    },
  );
  delete_dns_record = λ zone id s. (
    ok tt,
    record {
      stored = select (λ r. not (has_id id r)) s.stored;
      distinct = Distinct-select (λ r. not (has_id id r)) s.stored s.distinct;
    },
  );
}

abbrev pub stored_of : String → Memory → List DnsRecord
stored_of zone s = s.stored

pub memory_client-IsLawful : (zone : String) → IsLawful memory_client zone (stored_of zone)
unfolding add
memory_client-IsLawful zone = record {
  distinct = λ s. s.distinct;
  resolve = λ zone_name s h. ap (λ p. p.1.stored) (sym h);
  list = λ name type s named typed h. (
    sym (ok-injective {E = ApiError} (ap (λ p. p.0) h)) ∙ (λ i.
        select (λ r. (named i || equal_fold r.name name) && (typed i || r.type == type)) s.stored),
    ap (λ p. p.1.stored) (sym h),
  );
  create = λ name type content ttl s h. (
    fresh s.stored,
    name,
    [],
    s.stored,
    equal_fold_refl name,
    refl,
    ap (λ p. p.1.stored) (sym h),
  );
  update =
      λ id name type content ttl s h. (name, equal_fold_refl name, ap (λ p. p.1.stored) (sym h));
  delete = λ id s h. ap (λ p. p.1.stored) (sym h);
}
