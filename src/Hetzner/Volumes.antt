-- ===== src/Hetzner/Volumes.antt =====
-- The volumes and load balancers of a Hetzner project: pkg/providers/cluster/hetzner/cleanup.go. The HTTP
-- client is a parameter: a request to a response with its status and what its body decodes to. The number
-- of what was deleted, which the callers print, is left out.
pub mod Kept
use nebari_infrastructure_co.Prelude.{
  ℕ, String, Bool, false, not, ◌||◌, Option, none, some, List, [], ◌∷◌, ◌==◌, nat_eq, if◌then◌else◌,
  Result, ok, err, fail_if, wrap,
}
use nebari_infrastructure_co.Prelude.Dict.{lookup, insert}
use nebari_infrastructure_co.Prelude.Int.{ℤ}
use nebari_infrastructure_co.Prelude.State.{M, ◌>>=◌, ◌>>◌, lift, wrap_call}

pub record Volume : Type 0 where
  pub id : ℤ
  pub name : String
  pub labels : List (String × String)
  pub server : Option ℤ

pub record Server : Type 0 where
  pub id : ℤ
  pub status : String

-- The number of targets is all that is read of them.
pub record LoadBalancer : Type 0 where
  pub id : ℤ
  pub name : String
  pub targets : ℕ

-- The requests of the file, each by its method and path.
pub data Request : Type 0 where
  list_volumes list_load_balancers : Request
  put_labels : ℤ → List (String × String) → Request
  get_server post_detach remove_volume remove_load_balancer : ℤ → Request

pub record Response : Type 0 where
  pub status : ℕ
  pub volumes : Result String (List Volume)
  pub server : Result String (Option Server)
  pub load_balancers : Result String (List LoadBalancer)

pub record Service : Type 1 where
  pub State : Type 0
  pub send : Request → M State String Response

pub data CleanupError : Type 0 where
  no_token : CleanupError
  bad_status : ℕ → CleanupError
  not_sent not_decoded : String → CleanupError
  list_failed : CleanupError → CleanupError
  server_failed : ℤ → ℤ → CleanupError → CleanupError
  label_failed detach_failed delete_failed delete_balancer_failed :
      ℤ → String → CleanupError → CleanupError

abbrev pub is_persistent : Volume → Bool
is_persistent v = elim (lookup "persist" v.labels) [ none ↦ false | some l ↦ l == "true" ]

abbrev pub is_running : Option Server → Bool
is_running none = false
is_running (some s) = s.status == "running"

abbrev pub decoded : {A : Type 0} → Result String A → Result CleanupError A
decoded r = wrap not_decoded r

module _ (service : Service) where
  abbrev pub Sweep : Type 0 → Type 0
  Sweep A = M service.State CleanupError A

  abbrev pub request : Request → Sweep Response
  request r = wrap_call not_sent (service.send r)

  abbrev pub expect : (ℕ → Bool) → Response → Sweep (Unit {0})
  expect good r = lift (fail_if (not (good r.status)) (bad_status r.status))

  abbrev pub is_200 : ℕ → Bool
  is_200 n = nat_eq n 200

  unfoldable pub list_csi_volumes : Sweep (List Volume)
  list_csi_volumes = request list_volumes >>= λ r. expect is_200 r >> lift (decoded r.volumes)

  unfoldable pub add_volume_label : Volume → Sweep (Unit {0})
  unfolding insert
  add_volume_label v =
      request (put_labels v.id (insert "persist" "true" v.labels)) >>= expect is_200

  abbrev pub running_of : Result CleanupError (Option Server) → Result CleanupError Bool
  running_of (ok s) = ok (is_running s)
  running_of (err e) = err e

  abbrev pub server_answer : Response → Result CleanupError Bool
  server_answer r =
      if nat_eq r.status 404
      then ok false
      else if is_200 r.status
      then running_of (decoded r.server)
      else err (bad_status r.status)

  unfoldable pub is_server_running : ℤ → Sweep Bool
  is_server_running id = request (get_server id) >>= λ r. lift (server_answer r)

  unfoldable pub detach_volume : ℤ → Sweep (Unit {0})
  detach_volume id = request (post_detach id) >>= expect (λ n. nat_eq n 200 || nat_eq n 409)

  unfoldable pub delete_volume : ℤ → Sweep (Unit {0})
  delete_volume id = request (remove_volume id) >>= expect (λ n. nat_eq n 204 || nat_eq n 404)

  unfoldable pub delete_load_balancer : ℤ → Sweep (Unit {0})
  delete_load_balancer id =
      request (remove_load_balancer id) >>= expect (λ n. nat_eq n 204 || nat_eq n 404)

  abbrev pub rename : (CleanupError → CleanupError) → Sweep (Unit {0}) → Sweep (Unit {0})
  rename f m = wrap_call f m

  -- The loops of the file over lists.
  unfoldable pub for_each : {A : Type 0} → (A → Sweep (Unit {0})) → List A → Sweep (Unit {0})
  for_each f [] = lift (ok tt)
  for_each f (x ∷ xs) = f x >> for_each f xs

  -- With a token; the environment gives "" when it is not set.
  abbrev pub with_token : String → Sweep (Unit {0}) → Sweep (Unit {0})
  with_token token m = lift (fail_if (token == "") no_token) >> m

  abbrev pub label_one : Volume → Sweep (Unit {0})
  label_one v =
      if is_persistent v
      then lift (ok tt)
      else rename (label_failed v.id v.name) (add_volume_label v)

  unfoldable pub label_persist_volumes : String → Sweep (Unit {0})
  unfolding lookup list_csi_volumes add_volume_label for_each
  label_persist_volumes token = with_token token (list_csi_volumes >>= for_each label_one)

  abbrev pub delete_one : Volume → Sweep (Unit {0})
  delete_one v = rename (delete_failed v.id v.name) (delete_volume v.id)

  abbrev pub detach_and_delete : Volume → Bool → Sweep (Unit {0})
  detach_and_delete v running =
      if running
      then lift (ok tt)
      else rename (detach_failed v.id v.name) (detach_volume v.id) >> delete_one v

  abbrev pub unless_running : Volume → Option ℤ → Sweep (Unit {0})
  unless_running v none = delete_one v
  unless_running v (some id) =
      wrap_call (server_failed id v.id) (is_server_running id) >>= detach_and_delete v

  -- The body of the loop of `cleanupVolumes`.
  unfoldable pub clean_one : Volume → Sweep (Unit {0})
  unfolding lookup is_server_running detach_volume delete_volume
  clean_one v = if is_persistent v then lift (ok tt) else unless_running v v.server

  unfoldable pub cleanup_volumes : String → Sweep (Unit {0})
  unfolding list_csi_volumes clean_one for_each
  cleanup_volumes token =
      with_token token (wrap_call list_failed list_csi_volumes >>= for_each clean_one)

  -- Those with no targets.
  unfoldable pub orphaned : List LoadBalancer → List LoadBalancer
  orphaned [] = []
  orphaned (b ∷ bs) = let rest = orphaned bs in if nat_eq b.targets 0 then b ∷ rest else rest

  unfoldable pub list_orphaned_load_balancers : Sweep (List LoadBalancer)
  unfolding orphaned
  list_orphaned_load_balancers = request list_load_balancers >>= λ r.
      expect is_200 r
      >> lift (elim (decoded r.load_balancers) [ ok bs ↦ ok (orphaned bs) | err e ↦ err e ])

  abbrev pub delete_orphan : LoadBalancer → Sweep (Unit {0})
  delete_orphan b = rename (delete_balancer_failed b.id b.name) (delete_load_balancer b.id)

  unfoldable pub cleanup_load_balancers : String → Sweep (Unit {0})
  unfolding list_orphaned_load_balancers delete_load_balancer for_each
  cleanup_load_balancers token =
      with_token token
        (wrap_call list_failed list_orphaned_load_balancers >>= for_each delete_orphan)
