-- ===== src/Hetzner/Accepted.antt =====
-- `Validate` of pkg/providers/cluster/hetzner/config.go accepts exactly the valid configurations.
use nebari_infrastructure_co.Prelude.{
  select, ℕ, suc, ◌+◌, ◌≤◌, String, ◌≡◌, refl, sym, ap, ◌∙◌, subst, ◌↔◌, ◌⊎◌, inl, inr, true, false,
  List, [], ◌∷◌, arith, ◌==◌, eq_iff, Bool-cases, length, All, Result, ok, ◌>>◌, >>-eq-ok, >>-ok,
  >>=-eq-ok,
}
use mathlib.Core.List.{Permᴰ}
use nebari_infrastructure_co.Prelude.Int.{ℤ}
use nebari_infrastructure_co.Hetzner.Patterns.{safe_identifier, safe_k8s_version}
use nebari_infrastructure_co.Hetzner.Groups.{IsValidGroup, safe_not_empty}
use nebari_infrastructure_co.Hetzner.Workers.{All-Permᴰ, select-Permᴰ}
use nebari_infrastructure_co.Hetzner.Valid.{
  is_worker, masters, workers, check_groups-eq-ok, check_groups-ok, masters-count, IsValid,
  validate_network_cidrs_iff,
}
use nebari_infrastructure_co.Hetzner.{
  Entry, Config, Counts, master_group, master_count, is_even_many, check_groups, check_counts,
  validate_node_groups, validate_network_cidrs, validate, schedule_on_masters, is_empty, check_form,
  is_master,
}

abbrev no_counts : Counts
no_counts = record { masters = 0; master_name = ""; workers = 0 }

check_counts_iff :
    (c : Config) (k : Counts)
    → (check_counts c k ≡ ok tt) ↔ (
        (k.masters ≡ 1)
        × (is_even_many (master_count (master_group c.node_groups)) ≡ false)
        × ((1 ≤ k.workers) ⊎ (schedule_on_masters c ≡ true)))
check_counts_iff c k = ground arith

All-eq :
    (xs : List Entry) (n : ℤ)
    → All (λ e. e.node_group.count ≡ n) xs
    → is_even_many n ≡ false
    → All (λ e. is_even_many e.node_group.count ≡ false) xs
All-eq [] n h k = tt
All-eq (x ∷ xs) n (q, h) k = (ap is_even_many q ∙ k, All-eq xs n h k)

eq_All :
    (xs : List Entry) (n : ℤ)
    → length xs ≡ 1
    → All (λ e. e.node_group.count ≡ n) xs
    → All (λ e. is_even_many e.node_group.count ≡ false) xs
    → is_even_many n ≡ false
eq_All [] n one h k = absurd (omega arith)
eq_All (x ∷ xs) n one (q, h) (k, rest) = sym (ap is_even_many q) ∙ k

-- What `validateNodeGroups` asks.
abbrev AreFit : Config → Type 0
AreFit c =
    All IsValidGroup c.node_groups
    × (length (masters c.node_groups) ≡ 1)
    × All (λ e. is_even_many e.node_group.count ≡ false) (masters c.node_groups)
    × ((1 ≤ length (workers c.node_groups)) ⊎ (schedule_on_masters c ≡ true))

validate_node_groups-AreFit : (c : Config) → validate_node_groups c ≡ ok tt → AreFit c
unfolding validate_node_groups
validate_node_groups-AreFit c h =
    let (k, checked, fits) = >>=-eq-ok (check_groups c.node_groups no_counts) (check_counts c) h in
    let (valid, m, w) = check_groups-eq-ok c.node_groups no_counts checked in
    let (one, odd, placed) = (check_counts_iff c k).0 fits in
    let single = sym (m ∙ zero_plus _) ∙ one in
    (
      valid,
      single,
      All-eq (masters c.node_groups) (master_count (master_group c.node_groups))
          (masters-count c.node_groups single) odd,
      elim placed [ inl there ↦ inl (omega arith) | inr scheduled ↦ inr scheduled ],
    )
  where
    zero_plus : (n : ℕ) → 0 + n ≡ n
    zero_plus n = omega arith

AreFit-validate_node_groups : (c : Config) → AreFit c → validate_node_groups c ≡ ok tt
unfolding validate_node_groups
AreFit-validate_node_groups c (valid, one, odd, placed) =
    let (k, checked) = check_groups-ok c.node_groups no_counts valid in
    let (_, m, w) = check_groups-eq-ok c.node_groups no_counts checked in
    rw (checked) (
      (check_counts_iff c k).1 (
        omega arith,
        eq_All (masters c.node_groups) (master_count (master_group c.node_groups)) one
            (masters-count c.node_groups one) odd,
        elim placed [ inl there ↦ inl (omega arith) | inr scheduled ↦ inr scheduled ],
      ))

not_empty : (es : List Entry) → length (masters es) ≡ 1 → is_empty es ≡ false
unfolding select
not_empty [] h = absurd (omega arith)
not_empty (e ∷ es) h = refl

version_not_empty : (s : String) → safe_k8s_version s ≡ true → (s == "") ≡ false
unfolding safe_k8s_version
version_not_empty s h = elim (Bool-cases (s == "")) [
  | inl empty ↦ absurd (cc (subst (λ t. safe_k8s_version t ≡ true) ((eq_iff s "").0 empty) h))
  | inr some_text ↦ some_text
]

check_form-eq-ok :
    (c : Config)
    → check_form c ≡ ok tt
    → (safe_identifier c.location ≡ true) × (safe_k8s_version c.kubernetes_version ≡ true)
unfolding check_form
check_form-eq-ok c h = ground arith

module _ (parse_cidr : String → Result String (Unit {0})) where
  validate-IsValid : (c : Config) → validate parse_cidr c ≡ ok tt → IsValid parse_cidr c
  unfolding validate
  validate-IsValid c h =
      let (first, networks) =
        >>-eq-ok (check_form c >> validate_node_groups c)
          (validate_network_cidrs parse_cidr c.network) h in
      let (formed, groups) = >>-eq-ok (check_form c) (validate_node_groups c) first in
      let (valid, one, odd, placed) = validate_node_groups-AreFit c groups in
      let (located, versioned) = check_form-eq-ok c formed in
      record {
        located = located;
        versioned = versioned;
        groups = valid;
        one_master = one;
        odd = odd;
        placed = placed;
        ranges = (validate_network_cidrs_iff parse_cidr c.network).0 networks;
      }

  IsValid-check_form : (c : Config) → IsValid parse_cidr c → check_form c ≡ ok tt
  unfolding check_form
  IsValid-check_form c v = ground (
    arith,
    v.located,
    v.versioned,
    safe_not_empty c.location v.located,
    version_not_empty c.kubernetes_version v.versioned,
    not_empty c.node_groups v.one_master,
  )

  IsValid-validate : (c : Config) → IsValid parse_cidr c → validate parse_cidr c ≡ ok tt
  unfolding validate
  IsValid-validate c v =
      >>-ok (check_form c >> validate_node_groups c) (validate_network_cidrs parse_cidr c.network)
        (>>-ok (check_form c) (validate_node_groups c) (IsValid-check_form c v)
          (AreFit-validate_node_groups c (v.groups, v.one_master, v.odd, v.placed)))
        ((validate_network_cidrs_iff parse_cidr c.network).1 v.ranges)

  -- A configuration is accepted exactly when its location and its version have the form of the patterns;
  -- each group of nodes is valid; exactly one is of masters, and their number is one or odd, or not
  -- positive; there is a group of workers, or the masters take the workloads; and every range of
  -- addresses that is given can be read.
  pub hetzner-validate_iff : (c : Config) → (validate parse_cidr c ≡ ok tt) ↔ IsValid parse_cidr c
  hetzner-validate_iff c = (validate-IsValid c, IsValid-validate c)

  length-Permᴰ : {es fs : List Entry} → Permᴰ es fs → length es ≡ length fs
  length-Permᴰ Permᴰ.nil = refl
  length-Permᴰ (Permᴰ.cons same p) = ap suc (length-Permᴰ p)
  length-Permᴰ (Permᴰ.swap p q) = refl
  length-Permᴰ (Permᴰ.trans p q) = length-Permᴰ p ∙ length-Permᴰ q

  -- A configuration that is accepted is accepted too when a loop goes through the map of the groups in
  -- another order.
  pub hetzner-validate_order :
      (c : Config) (others : List Entry)
      → Permᴰ c.node_groups others
      → validate parse_cidr c ≡ ok tt
      → validate parse_cidr (record c { node_groups = others }) ≡ ok tt
  hetzner-validate_order c others same h =
      let v = validate-IsValid c h in
      IsValid-validate (record c { node_groups = others })
        (record {
          located = v.located;
          versioned = v.versioned;
          groups = All-Permᴰ IsValidGroup same v.groups;
          one_master = sym (length-Permᴰ (select-Permᴰ is_master same)) ∙ v.one_master;
          odd =
              All-Permᴰ (λ e. is_even_many e.node_group.count ≡ false) (select-Permᴰ is_master same)
                v.odd;
          placed = elim v.placed [
            | inl there ↦
                inl (subst (λ n. 1 ≤ n) (length-Permᴰ (select-Permᴰ is_worker same)) there)
            | inr scheduled ↦ inr scheduled
          ];
          ranges = v.ranges;
        })
