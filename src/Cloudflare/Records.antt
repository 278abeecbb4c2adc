-- ===== src/Cloudflare/Records.antt =====
-- Selecting, removing and changing records, by name and type and by identifier.
use nebari_infrastructure_co.Prelude.{
  select, ℕ, String, ◌≡◌, refl, sym, ap, ◌∙◌, subst, ◌⊎◌, inl, inr, Bool, true, false, not, ◌&&◌,
  List, [], ◌∷◌, ◌++◌, map, arith, ◌==◌, eq_iff, eq_refl, Bool-cases, contains, All,
}
use nebari_infrastructure_co.Cloudflare.Api.{DnsRecord, has_id, change, ids, Distinct}

module _ {ℓ} {A : Type ℓ} (p : A → Bool) where
  pub select-append : (xs ys : List A) → select p (xs ++ ys) ≡ select p xs ++ select p ys
  unfolding select
  select-append [] ys = refl
  select-append (x ∷ xs) ys = ground (arith, select-append xs ys)

  pub select-select :
      (q : A → Bool) (xs : List A) → select p (select q xs) ≡ select (λ x. q x && p x) xs
  unfolding select
  select-select q [] = refl
  select-select q (x ∷ xs) = ground (arith, select-select q xs)

  -- What the tests agree on is selected alike.
  pub select_agree :
      (q : A → Bool) (xs : List A) → All (λ x. p x ≡ q x) xs → select p xs ≡ select q xs
  unfolding select
  select_agree q [] h = refl
  select_agree q (x ∷ xs) (h, k) = ground (arith, select_agree q xs k)

  pub select_none : (xs : List A) → All (λ x. p x ≡ false) xs → select p xs ≡ []
  unfolding select
  select_none [] h = refl
  select_none (x ∷ xs) (h, k) = rw h (select_none xs k)

module _ {ℓ} {A : Type ℓ} (p : A → Bool) (x : A) (xs : List A) where
  pub select_take : p x ≡ true → select p (x ∷ xs) ≡ x ∷ select p xs
  unfolding select
  select_take h = rw h refl

  pub select_skip : p x ≡ false → select p (x ∷ xs) ≡ select p xs
  unfolding select
  select_skip h = rw h refl

-- The records that remain when those with the identifiers are deleted.
pub without : List String → List DnsRecord → List DnsRecord
without ns rs = select (λ r. not (contains ns r.id)) rs

pub without-nil : (rs : List DnsRecord) → without [] rs ≡ rs
unfolding without select
without-nil [] = refl
without-nil (r ∷ rs) = ap (λ t. r ∷ t) (without-nil rs)

-- Deleting the records one identifier after the other.
pub without-cons :
    (n : String) (ns : List String) (rs : List DnsRecord)
    → without ns (select (λ r. not (has_id n r)) rs) ≡ without (n ∷ ns) rs
unfolding without select
without-cons n ns [] = refl
without-cons n ns (r ∷ rs) = ground (arith, without-cons n ns rs, eq_iff r.id n, eq_iff n r.id)

without_over :
    (n : String) (ns : List String) (rs : List DnsRecord)
    → contains (ids rs) n ≡ false
    → without (n ∷ ns) rs ≡ without ns rs
unfolding without select
without_over n ns [] h = refl
without_over n ns (r ∷ rs) h = ground (arith, without_over n ns rs, eq_iff r.id n, eq_iff n r.id)

-- Deleting all records by their own identifiers leaves none.
without_all : (rs : List DnsRecord) → Distinct rs → without (ids rs) rs ≡ []
unfolding without select
without_all [] d = refl
without_all (r ∷ rs) (fresh, d) =
    rw eq_refl (without_over r.id (ids rs) rs fresh ∙ without_all rs d)

without_rest :
    (r : DnsRecord) (rs : List DnsRecord) → Distinct (r ∷ rs) → without (ids rs) (r ∷ rs) ≡ r ∷ []
unfolding without select
without_rest r rs (fresh, d) = rw fresh (ap (λ t. r ∷ t) (without_all rs d))

-- A record that the test takes, or with none of the identifiers.
abbrev Apart : (DnsRecord → Bool) → List String → DnsRecord → Type 0
Apart m ns r = (m r ≡ true) ⊎ (contains ns r.id ≡ false)

module _ (m : DnsRecord → Bool) where
  contains-select :
      (rs : List DnsRecord) (id : String)
      → contains (ids rs) id ≡ false
      → contains (ids (select m rs)) id ≡ false
  unfolding select
  contains-select [] id h = refl
  contains-select (r ∷ rs) id h = ground (arith, contains-select rs id)

  Apart-cons :
      (id : String) (ns : List String) (rs : List DnsRecord)
      → contains (ids rs) id ≡ false
      → All (Apart m ns) rs
      → All (Apart m (id ∷ ns)) rs
  Apart-cons id ns [] h k = tt
  Apart-cons id ns (r ∷ rs) h (inl e, k) = (inl e, Apart-cons id ns rs (ground arith) k)
  Apart-cons id ns (r ∷ rs) h (inr e, k) =
      (inr (ground (arith, eq_iff r.id id, eq_iff id r.id)), Apart-cons id ns rs (ground arith) k)

  -- The identifiers of the selected records belong to no other record.
  Apart-of_select : (rs : List DnsRecord) → Distinct rs → All (Apart m (ids (select m rs))) rs
  Apart-of_select [] d = tt
  Apart-of_select (r ∷ rs) (fresh, d) = elim (Bool-cases (m r)) [
    | inl is ↦
        subst (λ l. All (Apart m (ids l)) (r ∷ rs)) (sym (select_take m r rs is))
          (inl is, Apart-cons r.id (ids (select m rs)) rs fresh (Apart-of_select rs d))
    | inr other ↦
        subst (λ l. All (Apart m (ids l)) (r ∷ rs)) (sym (select_skip m r rs other))
          (inr (contains-select rs r.id fresh), Apart-of_select rs d)
  ]

  select-without_others :
      (ns : List String) (rs : List DnsRecord)
      → All (Apart m ns) rs
      → select (λ r. not (m r)) (without ns rs) ≡ select (λ r. not (m r)) rs
  unfolding select without
  select-without_others ns [] h = refl
  select-without_others ns (r ∷ rs) (h, k) = ground (arith, select-without_others ns rs k)

  select-without :
      (ns : List String) (rs : List DnsRecord) → select m (without ns rs) ≡ without ns (select m rs)
  unfolding select without
  select-without ns [] = refl
  select-without ns (r ∷ rs) = ground (arith, select-without ns rs)

  pub Distinct-select : (rs : List DnsRecord) → Distinct rs → Distinct (select m rs)
  unfolding select
  Distinct-select [] d = tt
  Distinct-select (r ∷ rs) (fresh, d) = elim (Bool-cases (m r)) [
    | inl is ↦ rw is (contains-select rs r.id fresh, Distinct-select rs d)
    | inr other ↦ rw other (Distinct-select rs d)
  ]

  -- Deleting all selected records, by their identifiers, leaves the others, and none selected.
  pub delete_selected :
      (rs : List DnsRecord)
      → Distinct rs
      → (select m (without (ids (select m rs)) rs) ≡ [])
        × (select (λ r. not (m r)) (without (ids (select m rs)) rs) ≡ select (λ r. not (m r)) rs)
  delete_selected rs d = (
    select-without (ids (select m rs)) rs ∙ without_all (select m rs) (Distinct-select rs d),
    select-without_others (ids (select m rs)) rs (Apart-of_select rs d),
  )

  Apart-weaken :
      (id : String) (ns : List String) (rs : List DnsRecord)
      → All (Apart m (id ∷ ns)) rs
      → All (Apart m ns) rs
  Apart-weaken id ns [] h = tt
  Apart-weaken id ns (r ∷ rs) (inl e, k) = (inl e, Apart-weaken id ns rs k)
  Apart-weaken id ns (r ∷ rs) (inr e, k) = (inr (ground arith), Apart-weaken id ns rs k)

  -- Deleting all selected records but the first leaves that one and the others.
  pub delete_rest :
      (rs : List DnsRecord) (first : DnsRecord) (dups : List DnsRecord)
      → Distinct rs
      → select m rs ≡ first ∷ dups
      → (select m (without (ids dups) rs) ≡ first ∷ [])
        × (select (λ r. not (m r)) (without (ids dups) rs) ≡ select (λ r. not (m r)) rs)
  delete_rest rs first dups d e =
      let apart = Distinct-select rs d in
      (
        select-without (ids dups) rs ∙ rw e (without_rest first dups (rw e at apart)),
        select-without_others (ids dups) rs
            (Apart-weaken first.id (ids dups) rs (rw e at (Apart-of_select rs d))),
      )

-- An update of the one selected record, to settings that are selected too.
module _ (m : DnsRecord → Bool) (id name type content : String) (ttl : ℕ)
    (stays : m (record { id = id; name = name; type = type; content = content; ttl = ttl })
      ≡ true) where
  abbrev f : DnsRecord → DnsRecord
  f = change id name type content ttl

  f_cases : (r : DnsRecord) → Apart m (id ∷ []) r → ((m (f r) ≡ true) × (m r ≡ true)) ⊎ (f r ≡ r)
  f_cases r h = elim (Bool-cases (r.id == id)) [
    | inl same ↦ rw same (inl (stays, ground (arith, eq_iff r.id id, eq_iff id r.id)))
    | inr other ↦ inr (rw other refl)
  ]

  select-change :
      (rs : List DnsRecord) → All (Apart m (id ∷ [])) rs → select m (map f rs) ≡ map f (select m rs)
  unfolding select
  select-change [] h = refl
  select-change (r ∷ rs) (h, k) = elim (f_cases r h) [
    | inl (a, b) ↦ rw (a, b) (ap (λ t. f r ∷ t) (select-change rs k))
    | inr e ↦ ground (arith, e, select-change rs k)
  ]

  select-change_others :
      (rs : List DnsRecord)
      → All (Apart m (id ∷ [])) rs
      → select (λ r. not (m r)) (map f rs) ≡ select (λ r. not (m r)) rs
  unfolding select
  select-change_others [] h = refl
  select-change_others (r ∷ rs) (h, k) = elim (f_cases r h) [
    | inl (a, b) ↦ rw (a, b) (select-change_others rs k)
    | inr e ↦ ground (arith, e, select-change_others rs k)
  ]

  -- Afterwards the one selected record has the settings, and the others are as before.
  pub change_selected :
      (rs : List DnsRecord) (r : DnsRecord)
      → Distinct rs
      → select m rs ≡ r ∷ []
      → r.id ≡ id
      → (select m (map f rs)
          ≡ record { id = id; name = name; type = type; content = content; ttl = ttl } ∷ [])
        × (select (λ t. not (m t)) (map f rs) ≡ select (λ t. not (m t)) rs)
  change_selected rs r d e same =
      let apart : All (Apart m (r.id ∷ [])) rs = rw e at (Apart-of_select m rs d) in
      let here : All (Apart m (id ∷ [])) rs = subst (λ i. All (Apart m (i ∷ [])) rs) same apart in
      (select-change rs here ∙ rw e (ground (arith, eq_iff r.id id)), select-change_others rs here)

-- Adding a selected record where there was none.
pub add_selected :
    (m : DnsRecord → Bool) (before after : List DnsRecord) (r : DnsRecord)
    → m r ≡ true
    → select m (before ++ after) ≡ []
    → (select m (before ++ (r ∷ after)) ≡ r ∷ [])
      × (select (λ t. not (m t)) (before ++ (r ∷ after))
          ≡ select (λ t. not (m t)) (before ++ after))
unfolding select
add_selected m [] after r h e = (rw (h, e) refl, rw h refl)
add_selected m (b ∷ before) after r h e = elim (Bool-cases (m b)) [
  | inl is ↦ absurd (ground arith)
  | inr other ↦
      let (one, rest) = add_selected m before after r h (rw other at e) in
      (rw other one, rw other (ap (λ t. b ∷ t) rest))
]

-- Records that the test does not take are not touched by a change to those that it takes.
pub select_apart :
    (m p : DnsRecord → Bool)
    → ((r : DnsRecord) → p r ≡ true → m r ≡ false)
    → (rs : List DnsRecord) → select p (select (λ t. not (m t)) rs) ≡ select p rs
unfolding select
select_apart m p h [] = refl
select_apart m p h (r ∷ rs) = ground (arith, h r, select_apart m p h rs)
