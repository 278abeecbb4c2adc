-- ===== src/Endpoint.antt =====
-- The wait for the address of the load balancer: pkg/endpoint/endpoint.go. What the `select` of the loop
-- receives is a list of events, each look at the cluster with the answer that its services give.
pub mod Awaited
use nebari_infrastructure_co.Prelude.{
  if◌then◌else◌, String, Option, none, some, List, [], ◌∷◌, Result, ok, err, ◌>>=◌, wrap,
}
use nebari_infrastructure_co.Prelude.Int.{ℤ, pos, is_positive}

pub record LoadBalancerEndpoint : Type 0 where
  pub hostname : String
  pub ip : String

-- The times are in nanoseconds, as in `time.Duration`, and may be negative.
pub record Options : Type 0 where
  pub namespace : String
  pub label_selector : String
  pub timeout : ℤ
  pub poll_interval : ℤ

abbrev pub default_options : Options
default_options = record {
  namespace = "envoy-gateway-system";
  label_selector = "gateway.envoyproxy.io/owning-gateway-name=nebari-gateway";
  timeout = pos 300000000000;
  poll_interval = pos 5000000000;
}

abbrev pub with_namespace : String → Options → Options
with_namespace ns o = record o { namespace = ns }

abbrev pub with_label_selector : String → Options → Options
with_label_selector sel o = record o { label_selector = sel }

abbrev pub with_timeout : ℤ → Options → Options
with_timeout d o = record o { timeout = d }

abbrev pub with_poll_interval : ℤ → Options → Options
with_poll_interval d o = record o { poll_interval = d }

unfoldable pub apply_options : List (Options → Options) → Options → Options
apply_options [] o = o
apply_options (f ∷ fs) o = apply_options fs (f o)

-- An ingress entry of a service of Kubernetes, as far as it is read, and a service with its entries.
pub record Ingress : Type 0 where
  pub hostname : String
  pub ip : String

pub record Service : Type 0 where
  pub ingress : List Ingress

-- What the cluster answers, at some time, to a list of the services of a namespace that match.
abbrev pub Cluster : Type 0
Cluster = String → String → Result String (List Service)

pub data CheckError : Type 0 where
  list_failed : String → CheckError
  no_services : String → String → CheckError
  not_ready : CheckError

abbrev pub first_ingress : List Ingress → Result CheckError LoadBalancerEndpoint
first_ingress [] = err not_ready
first_ingress (i ∷ is) = ok (record { hostname = i.hostname; ip = i.ip })

abbrev pub first_service : String → String → List Service → Result CheckError LoadBalancerEndpoint
first_service ns sel [] = err (no_services ns sel)
first_service ns sel (s ∷ ss) = first_ingress s.ingress

unfoldable pub check_endpoint : Cluster → Options → Result CheckError LoadBalancerEndpoint
check_endpoint cluster cfg =
    wrap list_failed (cluster cfg.namespace cfg.label_selector)
    >>= first_service cfg.namespace cfg.label_selector

pub data Event : Type 0 where
  done : String → Event
  deadline : Event
  tick : Cluster → Event

pub data WaitError : Type 0 where
  cancelled : String → WaitError
  timed_out : ℤ → WaitError

abbrev pub or_wait :
    Result CheckError LoadBalancerEndpoint
    → Option (Result WaitError LoadBalancerEndpoint)
    → Option (Result WaitError LoadBalancerEndpoint)
or_wait (ok ep) later = some (ok ep)
or_wait (err e) later = later

-- The loop: `none` while it still waits after the events.
unfoldable pub wait_for : Options → List Event → Option (Result WaitError LoadBalancerEndpoint)
unfolding check_endpoint
wait_for cfg [] = none
wait_for cfg (done e ∷ events) = some (err (cancelled e))
wait_for cfg (deadline ∷ events) = some (err (timed_out cfg.timeout))
wait_for cfg (tick cluster ∷ events) =
    let rest = wait_for cfg events in or_wait (check_endpoint cluster cfg) rest

-- A call still waits, has panicked in `time.NewTicker`, or has returned.
pub data Outcome : Type 0 where
  waiting panicked : Outcome
  returned : Result WaitError LoadBalancerEndpoint → Outcome

abbrev pub outcome_of : Option (Result WaitError LoadBalancerEndpoint) → Outcome
outcome_of none = waiting
outcome_of (some r) = returned r

-- The first argument is the cluster at the time of the call. The ticker is made before the first look.
unfoldable pub get_load_balancer_endpoint :
    Cluster → List (Options → Options) → List Event → Outcome
unfolding apply_options wait_for
get_load_balancer_endpoint cluster opts events =
    let cfg = apply_options opts default_options in
    let later = wait_for cfg events in
    if is_positive cfg.poll_interval
    then outcome_of (or_wait (check_endpoint cluster cfg) later)
    else panicked
