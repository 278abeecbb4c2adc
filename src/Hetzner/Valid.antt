-- ===== src/Hetzner/Valid.antt =====
-- `Validate` of pkg/providers/cluster/hetzner/config.go.
use nebari_infrastructure_co.Prelude.{
  select, ℕ, suc, ◌+◌, ◌≤◌, String, ◌≡◌, refl, ◌∙◌, ◌↔◌, ◌⊎◌, inl, inr, Bool, true, false, not,
  Option, none, some, List, [], ◌∷◌, arith, Bool-cases, length, All, Result, ok, wrap, >>-eq-ok,
  >>-ok, wrap-eq-ok, >>=-eq-ok,
}
use nebari_infrastructure_co.Hetzner.Patterns.{safe_identifier, safe_k8s_version}
use nebari_infrastructure_co.Hetzner.Groups.{
  IsValidGroup, check_group-IsValidGroup, IsValidGroup-check_group,
}
use nebari_infrastructure_co.Hetzner.{
  Entry, NetworkConfig, Config, ConfigError, Counts, is_master, master_group, master_count,
  is_even_many, check_group, check_groups, count_group, check_cidrs, validate_network_cidrs,
  schedule_on_masters, bad_ssh_cidr, bad_api_cidr,
}

abbrev pub is_worker : Entry → Bool
is_worker e = not (is_master e)

abbrev pub masters : List Entry → List Entry
masters = select is_master

abbrev pub workers : List Entry → List Entry
workers = select is_worker

count_master :
    (e : Entry) (es : List Entry) (k : Counts)
    → ((count_group e k).masters + length (masters es) ≡ k.masters + length (masters (e ∷ es)))
      × ((count_group e k).workers + length (workers es) ≡ k.workers + length (workers (e ∷ es)))
unfolding select
count_master e es k = elim (Bool-cases (is_master e)) [
  | inl master ↦ rw (master) (ground arith)
  | inr worker ↦ rw (worker) (ground arith)
]

pub check_groups-eq-ok :
    (es : List Entry) (k : Counts) {end : Counts}
    → check_groups es k ≡ ok end
    → All IsValidGroup es
      × (end.masters ≡ k.masters + length (masters es))
      × (end.workers ≡ k.workers + length (workers es))
unfolding check_groups select
check_groups-eq-ok [] k h = ground arith
check_groups-eq-ok (e ∷ es) k h =
    let (_, valid, rest) = >>=-eq-ok (check_group e) _ h in
    let (all_valid, m, w) = check_groups-eq-ok es (count_group e k) rest in
    let (counted, worked) = count_master e es k in
    ((check_group-IsValidGroup e valid, all_valid), m ∙ counted, w ∙ worked)

pub check_groups-ok :
    (es : List Entry) (k : Counts)
    → All IsValidGroup es
    → (end : Counts) × (check_groups es k ≡ ok end)
unfolding check_groups
check_groups-ok [] k h = (k, refl)
check_groups-ok (e ∷ es) k (v, h) =
    rw (IsValidGroup-check_group e v) (check_groups-ok es (count_group e k) h)

pub All-none : (Q : Entry → Type 0) (xs : List Entry) → length xs ≡ 0 → All Q xs
All-none Q [] h = tt
All-none Q (x ∷ xs) h = absurd (omega arith)

length_one :
    (e : Entry) (es : List Entry)
    → is_master e ≡ true
    → length (masters (e ∷ es)) ≡ 1
    → length (masters es) ≡ 0
unfolding select
length_one e es master h = omega (arith, rw (master) at h)

-- Of one master alone, the loop that looks for it finds it.
pub masters-count :
    (es : List Entry)
    → length (masters es) ≡ 1
    → All (λ e. e.node_group.count ≡ master_count (master_group es)) (masters es)
unfolding select master_group
masters-count [] h = tt
masters-count (e ∷ es) h = elim (Bool-cases (is_master e)) [
  | inl master ↦
      rw (master) (refl, All-none _ (masters es) (omega (arith, length_one e es master h)))
  | inr worker ↦ rw (worker) (masters-count es (rw (worker) at h))
]

module _ (parse_cidr : String → Result String (Unit {0})) where
  abbrev pub AreRanges : Option NetworkConfig → Type 0
  AreRanges none = Unit
  AreRanges (some n) =
      All (λ r. parse_cidr r ≡ ok tt) n.ssh_allowed_cidrs
      × All (λ r. parse_cidr r ≡ ok tt) n.api_allowed_cidrs

  pub record IsValid (c : Config) : Type 0 where
    pub located : safe_identifier c.location ≡ true
    pub versioned : safe_k8s_version c.kubernetes_version ≡ true
    pub groups : All IsValidGroup c.node_groups
    pub one_master : length (masters c.node_groups) ≡ 1
    pub odd : All (λ e. is_even_many e.node_group.count ≡ false) (masters c.node_groups)
    pub placed : (1 ≤ length (workers c.node_groups)) ⊎ (schedule_on_masters c ≡ true)
    pub ranges : AreRanges c.network

  check_cidrs_iff :
      (failed : ℕ → String → String → ConfigError) (i : ℕ) (rs : List String)
      → (check_cidrs parse_cidr failed i rs ≡ ok tt) ↔ All (λ r. parse_cidr r ≡ ok tt) rs
  unfolding check_cidrs
  check_cidrs_iff failed i [] = (λ h. tt, λ h. refl)
  check_cidrs_iff failed i (r ∷ rs) =
      let (fore, back) = check_cidrs_iff failed (suc i) rs in
      (
        λ h.
            let (first, rest) = >>-eq-ok (wrap (failed i r) (parse_cidr r)) _ h in
            (wrap-eq-ok (failed i r) (parse_cidr r) first, fore rest),
        λ (first, rest). >>-ok (wrap (failed i r) (parse_cidr r)) _ (rw (first) refl) (back rest),
      )

  pub validate_network_cidrs_iff :
      (n : Option NetworkConfig) → (validate_network_cidrs parse_cidr n ≡ ok tt) ↔ AreRanges n
  unfolding validate_network_cidrs
  validate_network_cidrs_iff none = (λ h. tt, λ h. refl)
  validate_network_cidrs_iff (some n) =
      let (ssh, ssh_back) = check_cidrs_iff bad_ssh_cidr 0 n.ssh_allowed_cidrs in
      let (api, api_back) = check_cidrs_iff bad_api_cidr 0 n.api_allowed_cidrs in
      (
        λ h. let (first, rest) = >>-eq-ok _ _ h in (ssh first, api rest),
        λ (first, rest). >>-ok _ _ (ssh_back first) (api_back rest),
      )
