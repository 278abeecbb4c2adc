-- ===== src/Witnesses/Providers.antt =====
-- The theorems on the cluster providers and on the load balancer at sample inputs.
use nebari_infrastructure_co.Prelude.{
  select, ℕ, ◌≤◌, String, ◌≡◌, refl, ◌↔◌, ◌⊎◌, Bool, true, false, not, none, some, List, [], ◌∷◌,
  arith, eq_iff, length, All, Result, ok,
}
use mathlib.Core.List.{Permᴰ}
use nebari_infrastructure_co.Prelude.Int.{is_positive, ℤ, pos}
use nebari_infrastructure_co.Aws.Batches.{batches, concat, batches-partition}
use nebari_infrastructure_co.Aws.Version.{parse_k8s_version, validate_k8s_version_upgrade}
use nebari_infrastructure_co.Aws.Version.Upgrade.{Allowed, validate_k8s_version_upgrade_iff}
use nebari_infrastructure_co.Hetzner
use nebari_infrastructure_co.Hetzner.{NodeGroup, Entry, Config, is_master, worker_groups}
use nebari_infrastructure_co.Hetzner.Valid.{IsValid}
use nebari_infrastructure_co.Hetzner.Accepted.{hetzner-validate_iff}
use nebari_infrastructure_co.Hetzner.Workers.{
  IsAscending, AreDistinct, no_entry, and_other, worker_groups-IsAscending, worker_groups_order,
}
use nebari_infrastructure_co.Endpoint.{
  Cluster, LoadBalancerEndpoint, returned, panicked, WaitError, deadline, tick,
  get_load_balancer_endpoint, apply_options, default_options, with_namespace,
}
use nebari_infrastructure_co.Endpoint.Awaited.{
  Returns, get_load_balancer_endpoint_iff, get_load_balancer_endpoint-ends,
}

abbrev five : List ℕ
five = 1 ∷ 2 ∷ 3 ∷ 4 ∷ 5 ∷ []

batches-partition_example :
    (concat (batches 2 five) ≡ five) × All (λ b. (1 ≤ length b) × (length b ≤ 2)) (batches 2 five)
batches-partition_example = batches-partition 2 five (omega arith)

abbrev current : String
current = "1.33"

abbrev desired : String
desired = "1.34"

validate_k8s_version_upgrade_iff_example :
    (validate_k8s_version_upgrade current desired ≡ ok tt) ↔ (
      (current ≡ desired)
      ⊎ ((c : ℤ × ℤ) × (d : ℤ × ℤ) × (parse_k8s_version current ≡ ok c)
          × (parse_k8s_version desired ≡ ok d)
          × Allowed c d))
validate_k8s_version_upgrade_iff_example = validate_k8s_version_upgrade_iff current desired

abbrev group : Bool → ℕ → NodeGroup
group master count = record {
  instance_type = "cx32";
  count = pos count;
  master = master;
  location = "";
  autoscaling = none;
}

abbrev workers_of : String → Entry
workers_of name = record { name = name; node_group = group false 2 }

abbrev three_masters : Entry
three_masters = record { name = "control"; node_group = group true 3 }

abbrev cluster : Config
cluster = record {
  location = "fsn1";
  kubernetes_version = "v1.32.0+k3s1";
  node_groups = workers_of "b" ∷ workers_of "a" ∷ three_masters ∷ [];
  schedule_workloads_on_masters = some false;
  persist_data = false;
  ssh = none;
  network = some (record { ssh_allowed_cidrs = "10.0.0.0/8" ∷ []; api_allowed_cidrs = [] });
  longhorn = none;
}

abbrev any_range : String → Result String (Unit {0})
any_range r = ok tt

abbrev other_order : List Entry
other_order = workers_of "a" ∷ workers_of "b" ∷ three_masters ∷ []

hetzner-validate_iff_example :
    (Hetzner.validate any_range cluster ≡ ok tt) ↔ IsValid any_range cluster
hetzner-validate_iff_example = hetzner-validate_iff any_range cluster

worker_groups-IsAscending_example :
    IsAscending (worker_groups cluster)
    × Permᴰ (worker_groups cluster) (select (λ e. not (is_master e)) cluster.node_groups)
worker_groups-IsAscending_example = worker_groups-IsAscending cluster

no_two : AreDistinct cluster.node_groups
no_two =
    and_other ((λ e. cc ((eq_iff "a" "b").1 e)), ((λ e. cc ((eq_iff "control" "b").1 e)), tt))
      (and_other ((λ e. cc ((eq_iff "control" "a").1 e)), tt) (and_other tt no_entry))

worker_groups_order_example :
    worker_groups (record cluster { node_groups = other_order }) ≡ worker_groups cluster
worker_groups_order_example = worker_groups_order cluster other_order no_two (Permᴰ.swap refl refl)

abbrev not_yet : Cluster
not_yet ns sel = ok (record { ingress = [] } ∷ [])

abbrev address : LoadBalancerEndpoint
address = record { hostname = "lb.example.com"; ip = "" }

abbrev ready : Cluster
ready ns sel = ok (record { ingress = record { hostname = "lb.example.com"; ip = "" } ∷ [] } ∷ [])

get_load_balancer_endpoint_iff_example :
    (get_load_balancer_endpoint not_yet
        (with_namespace "gateway" ∷ [])
        (tick not_yet ∷ tick ready ∷ [])
      ≡ returned (ok address))
    ↔ ((is_positive (apply_options (with_namespace "gateway" ∷ []) default_options).poll_interval
          ≡ true)
        × Returns
            (apply_options (with_namespace "gateway" ∷ []) default_options)
            (tick not_yet ∷ tick not_yet ∷ tick ready ∷ [])
            (ok address))
get_load_balancer_endpoint_iff_example =
    get_load_balancer_endpoint_iff not_yet (with_namespace "gateway" ∷ [])
      (tick not_yet ∷ tick ready ∷ []) (ok address)

get_load_balancer_endpoint-ends_example :
    let interval = (apply_options [] default_options).poll_interval in
    ((is_positive interval ≡ true)
      × ((r : Result WaitError LoadBalancerEndpoint) × (get_load_balancer_endpoint not_yet []
              (tick not_yet ∷ deadline ∷ [])
            ≡ returned r)))
    ⊎ ((is_positive interval ≡ false)
        × (get_load_balancer_endpoint not_yet [] (tick not_yet ∷ deadline ∷ []) ≡ panicked))
get_load_balancer_endpoint-ends_example =
    get_load_balancer_endpoint-ends not_yet [] (tick not_yet ∷ deadline ∷ []) refl
