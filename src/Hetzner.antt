-- ===== src/Hetzner.antt =====
-- The settings of the Hetzner provider: pkg/providers/cluster/hetzner/config.go. `net.ParseCIDR` is a
-- parameter; a map is the list of its entries in the order in which a loop goes through them.
pub mod Accepted
pub mod Groups
pub mod K3s
pub mod Order
pub mod Patterns
pub mod Valid
pub mod Volumes
pub mod Workers
use nebari_infrastructure_co.Prelude.{
  select, ℕ, suc, ◌%◌, code, String, Bool, true, false, not, ◌&&◌, ◌||◌, Option, none, some, List,
  [], ◌∷◌, ◌++◌, ◌==◌, ltb, nat_eq, if◌then◌else◌, Result, ok, ◌>>=◌, ◌>>◌, fail_if, wrap,
}
use mathlib.Core.List.{reverse}
use nebari_infrastructure_co.Prelude.Int.{ℤ, pos, negsuc, is_positive, is_negative, int_lt}
use nebari_infrastructure_co.Prelude.Text.{has_part}
use nebari_infrastructure_co.Hetzner.Patterns.{safe_identifier, safe_k8s_version}

pub record Autoscaling : Type 0 where
  pub enabled : Bool
  pub min_instances : ℤ
  pub max_instances : ℤ

pub record NodeGroup : Type 0 where
  pub instance_type : String
  pub count : ℤ
  pub master : Bool
  pub location : String
  pub autoscaling : Option Autoscaling

pub record NetworkConfig : Type 0 where
  pub ssh_allowed_cidrs : List String
  pub api_allowed_cidrs : List String

pub record SshConfig : Type 0 where
  pub public_key_path : String
  pub private_key_path : String

-- `workerEntry`, and an entry of the map.
pub record Entry : Type 0 where
  pub name : String
  pub node_group : NodeGroup

-- The `enabled` of the Longhorn settings is all that is read here of them.
pub record Config : Type 0 where
  pub location : String
  pub kubernetes_version : String
  pub node_groups : List Entry
  pub schedule_workloads_on_masters : Option Bool
  pub persist_data : Bool
  pub ssh : Option SshConfig
  pub network : Option NetworkConfig
  pub longhorn : Option (Option Bool)

-- `longhorn.Config.IsEnabled` of a block that is there.
abbrev pub unless_false : Option Bool → Bool
unless_false none = true
unless_false (some b) = b

abbrev pub longhorn_enabled : Config → Bool
longhorn_enabled c = elim c.longhorn [ none ↦ true | some enabled ↦ unless_false enabled ]

abbrev pub schedule_on_masters : Config → Bool
schedule_on_masters c = unless_false c.schedule_workloads_on_masters

abbrev pub is_master : Entry → Bool
is_master e = e.node_group.master

-- `MasterGroup`: the first in the order of the loop.
unfoldable pub master_group : List Entry → Option Entry
master_group [] = none
master_group (e ∷ es) = let rest = master_group es in if is_master e then some e else rest

-- One round of `sortWorkers`: the entry moves to the left past the entries that come after it. What
-- stands to its left is listed from right to left.
-- Go's `<` of texts.
unfoldable pub text_lt : String → String → Bool
text_lt String.[] String.[] = false
text_lt String.[] (String.◌∷◌ d t) = true
text_lt (String.◌∷◌ c s) String.[] = false
text_lt (String.◌∷◌ c s) (String.◌∷◌ d t) =
    ltb (code c) (code d) || (nat_eq (code c) (code d) && text_lt s t)

unfoldable pub sink : Entry → List Entry → List Entry
unfolding text_lt
sink e [] = e ∷ []
sink e (l ∷ left) =
    let rest = sink e left in if text_lt e.name l.name then l ∷ rest else e ∷ l ∷ left

-- The rounds: what is still to be moved, and what stands to the left of it.
unfoldable pub sink_all : List Entry → List Entry → List Entry
unfolding sink
sink_all [] left = left
sink_all (e ∷ es) left = sink_all es (sink e left)

unfoldable pub sort_workers : List Entry → List Entry
unfolding sink_all
sort_workers es = reverse (sink_all es [])

unfoldable pub worker_groups : Config → List Entry
unfolding select sort_workers
worker_groups c = sort_workers (select (λ e. not (is_master e)) c.node_groups)

abbrev pub all_cidrs : String
all_cidrs = "0.0.0.0/0"

abbrev pub or_all : List String → List String
or_all [] = all_cidrs ∷ []
or_all (c ∷ cs) = c ∷ cs

abbrev pub ssh_allowed_networks : Config → List String
ssh_allowed_networks c = elim c.network [
  | none ↦ all_cidrs ∷ []
  | some n ↦ or_all n.ssh_allowed_cidrs
]

abbrev pub api_allowed_networks : Config → List String
api_allowed_networks c = elim c.network [
  | none ↦ all_cidrs ∷ []
  | some n ↦ or_all n.api_allowed_cidrs
]

abbrev pub is_explicit_k3s_version : Config → Bool
is_explicit_k3s_version c = has_part "+k3s" c.kubernetes_version

pub data ConfigError : Type 0 where
  no_location no_version no_groups no_master needs_worker : ConfigError
  bad_location bad_version : String → ConfigError
  bad_name no_instance_type bad_count master_location master_autoscaling : String → ConfigError
  negative_min bad_max : String → ConfigError
  bad_instance_type bad_group_location : String → String → ConfigError
  min_over_max : String → ℤ → ℤ → ConfigError
  many_masters : ℕ → ConfigError
  even_masters : String → ℤ → ConfigError
  bad_ssh_cidr bad_api_cidr : ℕ → String → String → ConfigError

abbrev pub is_autoscaled : NodeGroup → Bool
is_autoscaled g = elim g.autoscaling [ none ↦ false | some a ↦ a.enabled ]

abbrev pub check_autoscaling : String → Autoscaling → Result ConfigError (Unit {0})
check_autoscaling name a =
    if a.enabled
    then fail_if (is_negative a.min_instances) (negative_min name)
      >> fail_if (not (is_positive a.max_instances)) (bad_max name)
      >> fail_if (int_lt a.max_instances a.min_instances)
          (min_over_max name a.min_instances a.max_instances)
    else ok tt

abbrev pub check_bounds : String → Option Autoscaling → Result ConfigError (Unit {0})
check_bounds name none = ok tt
check_bounds name (some a) = check_autoscaling name a

-- The body of the loop of `validateNodeGroups`, but for the counting.
unfoldable pub check_group : Entry → Result ConfigError (Unit {0})
unfolding safe_identifier
check_group e =
    let g = e.node_group in
    fail_if (not (safe_identifier e.name)) (bad_name e.name)
    >> fail_if (g.instance_type == "") (no_instance_type e.name)
    >> fail_if (not (safe_identifier g.instance_type)) (bad_instance_type e.name g.instance_type)
    >> fail_if (not (is_positive g.count) && not (is_autoscaled g)) (bad_count e.name)
    >> fail_if (not (g.location == "") && not (safe_identifier g.location))
        (bad_group_location e.name g.location)
    >> fail_if (g.master && not (g.location == "")) (master_location e.name)
    >> fail_if (g.master && is_autoscaled g) (master_autoscaling e.name)
    >> check_bounds e.name g.autoscaling

-- `masterCount`, `masterName` and `workerCount`.
pub record Counts : Type 0 where
  pub masters : ℕ
  pub master_name : String
  pub workers : ℕ

abbrev pub count_group : Entry → Counts → Counts
count_group e k =
    if is_master e
    then record { masters = suc k.masters; master_name = e.name; workers = k.workers }
    else record { masters = k.masters; master_name = k.master_name; workers = suc k.workers }

unfoldable pub check_groups : List Entry → Counts → Result ConfigError Counts
unfolding check_group
check_groups [] k = ok k
check_groups (e ∷ es) k = check_group e >>= λ _. check_groups es (count_group e k)

-- 1 < n and n even
abbrev pub is_even_many : ℤ → Bool
is_even_many (pos n) = ltb 1 n && nat_eq (n % 2) 0
is_even_many (negsuc n) = false

-- The count of `NodeGroup{}` when there is no master.
abbrev pub master_count : Option Entry → ℤ
master_count none = pos 0
master_count (some e) = e.node_group.count

abbrev pub check_counts : Config → Counts → Result ConfigError (Unit {0})
check_counts c k =
    let count = master_count (master_group c.node_groups) in
    fail_if (nat_eq k.masters 0) no_master
    >> fail_if (ltb 1 k.masters) (many_masters k.masters)
    >> fail_if (is_even_many count) (even_masters k.master_name count)
    >> fail_if (nat_eq k.workers 0 && not (schedule_on_masters c)) needs_worker

unfoldable pub validate_node_groups : Config → Result ConfigError (Unit {0})
unfolding check_groups master_group
validate_node_groups c =
    check_groups c.node_groups (record { masters = 0; master_name = ""; workers = 0 })
    >>= check_counts c

abbrev pub is_empty : List Entry → Bool
is_empty [] = true
is_empty (e ∷ es) = false

-- The first five tests of `Validate`.
unfoldable pub check_form : Config → Result ConfigError (Unit {0})
unfolding safe_identifier safe_k8s_version
check_form c =
    fail_if (c.location == "") no_location
    >> fail_if (not (safe_identifier c.location)) (bad_location c.location)
    >> fail_if (c.kubernetes_version == "") no_version
    >> fail_if (not (safe_k8s_version c.kubernetes_version)) (bad_version c.kubernetes_version)
    >> fail_if (is_empty c.node_groups) no_groups

module _ (parse_cidr : String → Result String (Unit {0})) where
  -- One of the two loops over the ranges, with the error of the one that cannot be read at its index.
  unfoldable pub check_cidrs :
      (ℕ → String → String → ConfigError) → ℕ → List String → Result ConfigError (Unit {0})
  check_cidrs failed i [] = ok tt
  check_cidrs failed i (cidr ∷ cidrs) =
      wrap (failed i cidr) (parse_cidr cidr) >> check_cidrs failed (suc i) cidrs

  unfoldable pub validate_network_cidrs : Option NetworkConfig → Result ConfigError (Unit {0})
  unfolding check_cidrs
  validate_network_cidrs none = ok tt
  validate_network_cidrs (some n) =
      check_cidrs bad_ssh_cidr 0 n.ssh_allowed_cidrs
      >> check_cidrs bad_api_cidr 0 n.api_allowed_cidrs

  unfoldable pub validate : Config → Result ConfigError (Unit {0})
  unfolding check_form validate_node_groups validate_network_cidrs
  validate c = check_form c >> validate_node_groups c >> validate_network_cidrs c.network

pub data NetworkWarning : Type 0 where
  ssh_open api_open : NetworkWarning

abbrev pub warn_if_empty : NetworkWarning → List String → List NetworkWarning
warn_if_empty w [] = w ∷ []
warn_if_empty w (c ∷ cs) = []

abbrev pub network_warnings : Config → List NetworkWarning
network_warnings c = elim c.network [
  | none ↦ ssh_open ∷ api_open ∷ []
  | some n ↦
      warn_if_empty ssh_open n.ssh_allowed_cidrs ++ warn_if_empty api_open n.api_allowed_cidrs
]
