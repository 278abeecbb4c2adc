-- ===== src/Endpoint/Awaited.antt =====
-- What `GetLoadBalancerEndpoint` of pkg/endpoint/endpoint.go returns, and that it returns.
use nebari_infrastructure_co.Prelude.{
  sym, String, ◌≡◌, refl, subst, ◌↔◌, inl, inr, Bool, true, false, some, List, [], ◌∷◌, is_some,
  any, Result, ok, err, Result-cases, Option, Option-cases, Bool-cases, ◌⊎◌, none,
}
use nebari_infrastructure_co.Prelude.Int.{is_positive}
use nebari_infrastructure_co.Endpoint.{
  LoadBalancerEndpoint, Options, default_options, apply_options, Cluster, check_endpoint, Event,
  done, deadline, tick, WaitError, cancelled, timed_out, wait_for, get_load_balancer_endpoint,
  or_wait, outcome_of, returned, panicked, Ingress, Service, CheckError, no_services, not_ready,
  list_failed,
}

-- A look that finds an address: the first of the services in the namespace that match the selector has an
-- entry, and the first one gives the hostname and the IP.
pub data Finds (cfg : Options) (cluster : Cluster) : LoadBalancerEndpoint → Type 0 where
  address :
      {service : Service} {services : List Service} {entry : Ingress} {entries : List Ingress}
      {ep : LoadBalancerEndpoint}
      → cluster cfg.namespace cfg.label_selector ≡ ok (service ∷ services)
      → service.ingress ≡ entry ∷ entries
      → ep.hostname ≡ entry.hostname
      → ep.ip ≡ entry.ip
      → Finds cfg cluster ep

-- A look that finds no address: an error, no service, or a first service without an entry.
pub data FindsNothing (cfg : Options) (cluster : Cluster) : Type 0 where
  no_answer :
      {e : String} → cluster cfg.namespace cfg.label_selector ≡ err e → FindsNothing cfg cluster
  no_service : cluster cfg.namespace cfg.label_selector ≡ ok [] → FindsNothing cfg cluster
  no_entry :
      {service : Service} {services : List Service}
      → cluster cfg.namespace cfg.label_selector ≡ ok (service ∷ services)
      → service.ingress ≡ []
      → FindsNothing cfg cluster

ingress-cases :
    (is : List Ingress) → (is ≡ []) ⊎ ((i : Ingress) × (js : List Ingress) × (is ≡ i ∷ js))
ingress-cases [] = inl refl
ingress-cases (i ∷ is) = inr (i, is, refl)

abbrev entry_of : Ingress → LoadBalancerEndpoint
entry_of i = record { hostname = i.hostname; ip = i.ip }

-- A look finds an address or nothing, and the code gives the same.
check_endpoint-cases :
    (cfg : Options) (cluster : Cluster)
    → ((ep : LoadBalancerEndpoint) × Finds cfg cluster ep × (check_endpoint cluster cfg ≡ ok ep))
      ⊎ (FindsNothing cfg cluster × ((e : CheckError) × (check_endpoint cluster cfg ≡ err e)))
unfolding check_endpoint
check_endpoint-cases cfg cluster = elim (Result-cases (cluster cfg.namespace cfg.label_selector)) [
  | inl ([], seen) ↦
      inr (no_service seen, (no_services cfg.namespace cfg.label_selector, rw seen refl))
  | inl (s ∷ ss, seen) ↦ elim (ingress-cases s.ingress) [
    | inl none_there ↦ inr (no_entry seen none_there, (not_ready, rw (seen, none_there) refl))
    | inr (i, js, there) ↦ inl (entry_of i, address seen there refl refl, rw (seen, there) refl)
  ]
  | inr (e, failed) ↦ inr (no_answer failed, (list_failed e, rw failed refl))
]

Finds-check_endpoint :
    (cfg : Options) (cluster : Cluster) {ep : LoadBalancerEndpoint}
    → Finds cfg cluster ep
    → check_endpoint cluster cfg ≡ ok ep
unfolding check_endpoint
Finds-check_endpoint cfg cluster (address seen there host ip) =
    rw (seen, there) (λ i. ok (record { hostname = sym host i; ip = sym ip i }))

FindsNothing-check_endpoint :
    (cfg : Options) (cluster : Cluster)
    → FindsNothing cfg cluster
    → (e : CheckError) × (check_endpoint cluster cfg ≡ err e)
unfolding check_endpoint
FindsNothing-check_endpoint cfg cluster (no_answer {e} failed) = (list_failed e, rw failed refl)
FindsNothing-check_endpoint cfg cluster (no_service seen) =
    (no_services cfg.namespace cfg.label_selector, rw seen refl)
FindsNothing-check_endpoint cfg cluster (no_entry seen none_there) =
    (not_ready, rw (seen, none_there) refl)

-- What an event makes the wait return.
pub data Decides (cfg : Options) : Event → Result WaitError LoadBalancerEndpoint → Type 0 where
  by_done : (e : String) → Decides cfg (done e) (err (cancelled e))
  by_deadline : Decides cfg deadline (err (timed_out cfg.timeout))
  by_tick :
      {cluster : Cluster} {ep : LoadBalancerEndpoint}
      → Finds cfg cluster ep
      → Decides cfg (tick cluster) (ok ep)

-- The first of the events that decides, after looks that find nothing.
pub data Returns (cfg : Options) : List Event → Result WaitError LoadBalancerEndpoint → Type 0 where
  now :
      {e : Event} {events : List Event} {r : Result WaitError LoadBalancerEndpoint}
      → Decides cfg e r
      → Returns cfg (e ∷ events) r
  later :
      {cluster : Cluster} {events : List Event} {r : Result WaitError LoadBalancerEndpoint}
      → FindsNothing cfg cluster
      → Returns cfg events r
      → Returns cfg (tick cluster ∷ events) r

wait_for-Returns :
    (cfg : Options) (events : List Event) (r : Result WaitError LoadBalancerEndpoint)
    → wait_for cfg events ≡ some r
    → Returns cfg events r
unfolding wait_for
wait_for-Returns cfg [] r h = absurd (cc)
wait_for-Returns cfg (done e ∷ events) r h =
    subst (Returns cfg (done e ∷ events)) (cc h) (now (by_done e))
wait_for-Returns cfg (deadline ∷ events) r h =
    subst (Returns cfg (deadline ∷ events)) (cc h) (now by_deadline)
wait_for-Returns cfg (tick cluster ∷ events) r h = elim (check_endpoint-cases cfg cluster) [
  | inl (ep, finds, found) ↦
      subst (Returns cfg (tick cluster ∷ events)) (cc (rw (found) at h)) (now (by_tick finds))
  | inr (nothing, (e, failed)) ↦ later nothing (wait_for-Returns cfg events r (rw (failed) at h))
]

Returns-wait_for :
    (cfg : Options) {events : List Event} {r : Result WaitError LoadBalancerEndpoint}
    → Returns cfg events r
    → wait_for cfg events ≡ some r
unfolding wait_for
Returns-wait_for cfg (now (by_done e)) = refl
Returns-wait_for cfg (now by_deadline) = refl
Returns-wait_for cfg (now (by_tick {cluster} finds)) =
    rw (Finds-check_endpoint cfg cluster finds) refl
Returns-wait_for cfg (later {cluster} nothing h) =
    rw ((FindsNothing-check_endpoint cfg cluster nothing).1) (Returns-wait_for cfg h)

outcome_of_iff :
    (o : Option (Result WaitError LoadBalancerEndpoint)) (r : Result WaitError LoadBalancerEndpoint)
    → (outcome_of o ≡ returned r) ↔ (o ≡ some r)
outcome_of_iff none r = (λ h. absurd (cc), λ h. absurd (cc))
outcome_of_iff (some q) r = (λ h. cc, λ h. cc)

-- The wait returns a result exactly when the interval between its looks is positive and the look at the
-- beginning or, when that finds nothing, the first event that decides gives the result: the end of the
-- context its error, the deadline that the time is over, and a look that finds an address the address.
-- Before that event there are looks that find nothing only. A look finds the hostname and the IP of the
-- first entry of the first service that matches, and nothing when there is no such entry.
pub get_load_balancer_endpoint_iff :
    (cluster : Cluster) (opts : List (Options → Options)) (events : List Event)
    (r : Result WaitError LoadBalancerEndpoint)
    → (get_load_balancer_endpoint cluster opts events ≡ returned r) ↔ (
        (is_positive (apply_options opts default_options).poll_interval ≡ true)
        × Returns (apply_options opts default_options) (tick cluster ∷ events) r)
unfolding get_load_balancer_endpoint
get_load_balancer_endpoint_iff cluster opts events r =
    let cfg = apply_options opts default_options in
    let waited = or_wait (check_endpoint cluster cfg) (wait_for cfg events) in
    elim (Bool-cases (is_positive cfg.poll_interval)) [
      | inl ticks ↦ (
        λ h. (
          ticks,
          wait_for-Returns cfg (tick cluster ∷ events) r
              ((outcome_of_iff waited r).0 (rw ticks at h)),
        ),
        λ (_, h). rw ticks ((outcome_of_iff waited r).1 (Returns-wait_for cfg h)),
      )
      | inr no_tick ↦ (λ h. absurd (cc (rw no_tick at h)), λ (ticks, h). absurd (cc))
    ]

abbrev is_end : Event → Bool
is_end (done e) = true
is_end deadline = true
is_end (tick cluster) = false

wait_for-ends :
    (cfg : Options) (events : List Event)
    → any is_end events ≡ true
    → is_some (wait_for cfg events) ≡ true
unfolding wait_for
wait_for-ends cfg [] h = absurd (cc)
wait_for-ends cfg (done e ∷ events) h = refl
wait_for-ends cfg (deadline ∷ events) h = refl
wait_for-ends cfg (tick cluster ∷ events) h = elim (Result-cases (check_endpoint cluster cfg)) [
  | inl (ep, found) ↦ rw (found) refl
  | inr (e, failed) ↦ rw (failed) (wait_for-ends cfg events h)
]

-- When the interval between the looks is positive and the deadline or the end of the context is among the
-- events, the wait returns, whatever the looks find; and when the interval is not positive, it panics.
pub get_load_balancer_endpoint-ends :
    (cluster : Cluster) (opts : List (Options → Options)) (events : List Event)
    → any is_end events ≡ true
    → let interval = (apply_options opts default_options).poll_interval in
      ((is_positive interval ≡ true)
        × ((r : Result WaitError LoadBalancerEndpoint) × (get_load_balancer_endpoint cluster opts
                events
              ≡ returned r)))
      ⊎ ((is_positive interval ≡ false)
          × (get_load_balancer_endpoint cluster opts events ≡ panicked))
unfolding get_load_balancer_endpoint
get_load_balancer_endpoint-ends cluster opts events h =
    let cfg = apply_options opts default_options in
    let waited = or_wait (check_endpoint cluster cfg) (wait_for cfg events) in
    elim (Bool-cases (is_positive cfg.poll_interval)) [
      | inl ticks ↦ elim (Option-cases waited) [
        | inl none_yet ↦ absurd (cc (rw none_yet at (wait_for-ends cfg (tick cluster ∷ events) h)))
        | inr (r, done_now) ↦ inl (ticks, (r, rw ticks ((outcome_of_iff waited r).1 done_now)))
      ]
      | inr no_tick ↦ inr (no_tick, rw no_tick refl)
    ]
