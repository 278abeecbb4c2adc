-- ===== src/Aws/Cleanup.antt =====
-- The sweep of what the load balancer controllers made for a cluster:
-- pkg/providers/cluster/aws/cleanup.go. The calls of the AWS services are parameters; the messages to the
-- user are left out, and so are the numbers of deleted resources, which the sweep does not look at.
pub mod Balancers
pub mod Groups
pub mod Owned
pub mod Retried
pub mod Untagged
use nebari_infrastructure_co.Prelude.{
  ℕ, zero, suc, String, ◌<>◌, Bool, false, ◌&&◌, Option, none, some, List, [], ◌∷◌, ◌++◌, ◌==◌,
  if◌then◌else◌, any, Result, ok, err,
}
use nebari_infrastructure_co.Prelude.Int.{ℤ}
use nebari_infrastructure_co.Prelude.State.{M, ◌>>=◌, ◌>>◌, lift, wrap_call}
use nebari_infrastructure_co.Prelude.Text.{has_prefix}
use nebari_infrastructure_co.Aws.Batches.{batches}

pub record Tag : Type 0 where
  pub key : Option String
  pub value : Option String

-- `TagDescription` of the classic load balancers.
pub record ElbTags : Type 0 where
  pub load_balancer_name : Option String
  pub tags : List Tag

-- `TagDescription` of elbv2.
pub record ResourceTags : Type 0 where
  pub resource_arn : Option String
  pub tags : List Tag

pub record Filter : Type 0 where
  pub name : String
  pub values : List String

pub record UserIdGroupPair : Type 0 where
  pub description : Option String
  pub group_id : Option String
  pub group_name : Option String
  pub peering_status : Option String
  pub user_id : Option String
  pub vpc_id : Option String
  pub vpc_peering_connection_id : Option String

pub record IpPermission : Type 0 where
  pub ip_protocol : Option String
  pub from_port : Option ℤ
  pub to_port : Option ℤ
  pub user_id_group_pairs : List UserIdGroupPair

pub record SecurityGroup : Type 0 where
  pub group_id : Option String
  pub group_name : Option String
  pub tags : List Tag
  pub ip_permissions : List IpPermission

pub data ApiError : Type 0 where
  dependency_violation : String → ApiError
  other_error : String → ApiError

-- `ELBClient`, `ELBv2Client` and `EC2Client` over the one account. The `…_pages` stand for the paginators:
-- the pages in turn, and the error in place of a page that cannot be had; `wait_deleted` for the waiter of
-- elbv2, and `pause` for the `select` between the end of the context and five seconds.
pub record Account : Type 1 where
  pub State : Type 0
  pub elb_pages : State → List (Result ApiError (List (Option String)))
  pub elb_describe_tags : List String → M State ApiError (List ElbTags)
  pub elb_delete : String → M State ApiError (Unit {0})
  pub load_balancer_pages : State → List (Result ApiError (List (Option String)))
  pub target_group_pages : State → List (Result ApiError (List (Option String)))
  pub describe_tags : List String → M State ApiError (List ResourceTags)
  pub delete_load_balancer : String → M State ApiError (Unit {0})
  pub wait_deleted : String → M State ApiError (Unit {0})
  pub delete_target_group : String → M State ApiError (Unit {0})
  pub describe_security_groups : List Filter → M State ApiError (List SecurityGroup)
  pub revoke_security_group_ingress :
      Option String → List IpPermission → M State ApiError (Unit {0})
  pub delete_security_group : String → M State ApiError (Unit {0})
  pub pause : M State String (Unit {0})

pub data CleanupError : Type 0 where
  describe_elb_failed describe_elb_tags_failed : ApiError → CleanupError
  describe_load_balancers_failed describe_target_groups_failed : ApiError → CleanupError
  describe_tags_failed describe_target_group_tags_failed : ApiError → CleanupError
  delete_elb_failed delete_load_balancer_failed : String → ApiError → CleanupError
  delete_target_group_failed delete_group_failed wait_failed : String → ApiError → CleanupError
  describe_groups_failed : ApiError → CleanupError
  find_references_failed : String → ApiError → CleanupError
  revoke_failed : Option String → String → ApiError → CleanupError
  gave_up : String → ApiError → CleanupError
  cancelled : String → CleanupError
  -- The dereference of a missing identifier or name, which panics.
  no_group_id no_elb_name : CleanupError

-- The loop over the pages.
unfoldable pub collect :
    {A : Type 0}
    → (ApiError → CleanupError)
    → List (Result ApiError (List A))
    → List A
    → Result CleanupError (List A)
collect failed [] found = ok found
collect failed (err e ∷ pages) found = err (failed e)
collect failed (ok page ∷ pages) found = collect failed pages (found ++ page)

abbrev pub onto_names :
    Option String → Result CleanupError (List String) → Result CleanupError (List String)
onto_names none names = err no_elb_name
onto_names (some name) (ok names) = ok (name ∷ names)
onto_names (some name) (err e) = err e

-- The names on a page of classic load balancers.
abbrev pub names_of : List (Option String) → Result CleanupError (List String)
names_of [] = ok []
names_of (x ∷ xs) = onto_names x (names_of xs)

abbrev pub and_names :
    Result CleanupError (List String)
    → Result CleanupError (List String)
    → Result CleanupError (List String)
and_names (err e) rest = err e
and_names (ok names) (ok more) = ok (names ++ more)
and_names (ok names) (err e) = err e

-- The loop over the pages of classic load balancers.
unfoldable pub collect_names :
    List (Result ApiError (List (Option String))) → Result CleanupError (List String)
collect_names [] = ok []
collect_names (err e ∷ pages) = err (describe_elb_failed e)
collect_names (ok page ∷ pages) = and_names (names_of page) (collect_names pages)

-- The identifiers that are not missing.
unfoldable pub present : List (Option String) → List String
present [] = []
present (none ∷ xs) = present xs
present (some x ∷ xs) = x ∷ present xs

abbrev pub max_tag_batch : ℕ
max_tag_batch = 20

abbrev pub cluster_tag_elbv2 : String
cluster_tag_elbv2 = "elbv2.k8s.aws/cluster"

abbrev pub is_text : String → Option String → Bool
is_text t none = false
is_text t (some s) = s == t

abbrev pub has_key : String → Tag → Bool
has_key key tag = is_text key tag.key

abbrev pub of_cluster : String → Tag → Bool
of_cluster cluster tag = is_text cluster_tag_elbv2 tag.key && is_text cluster tag.value

-- The resources of the descriptions that bear the cluster's tag.
unfoldable pub matching : String → List ResourceTags → List String
matching cluster [] = []
matching cluster (d ∷ ds) =
    let rest = matching cluster ds in
    elim d.resource_arn [
      | none ↦ rest
      | some arn ↦ if any (of_cluster cluster) d.tags then arn ∷ rest else rest
    ]

-- The rules of a security group that refer to another, each with the one pair that does.
unfoldable pub referring_pairs : String → IpPermission → List UserIdGroupPair → List IpPermission
referring_pairs id rule [] = []
referring_pairs id rule (pair ∷ pairs) =
    let rest = referring_pairs id rule pairs in
    if is_text id pair.group_id
    then record {
      ip_protocol = rule.ip_protocol;
      from_port = rule.from_port;
      to_port = rule.to_port;
      user_id_group_pairs = pair ∷ [];
    }
      ∷ rest
    else rest

unfoldable pub permissions_to_revoke : String → List IpPermission → List IpPermission
unfolding referring_pairs
permissions_to_revoke id [] = []
permissions_to_revoke id (rule ∷ rules) =
    referring_pairs id rule rule.user_id_group_pairs ++ permissions_to_revoke id rules

module _ (account : Account) where
  abbrev pub Sweep : Type 0 → Type 0
  Sweep A = M account.State CleanupError A

  -- `for _, x := range xs`
  unfoldable pub for_each : {A : Type 0} → (A → Sweep (Unit {0})) → List A → Sweep (Unit {0})
  for_each f [] = lift (ok tt)
  for_each f (x ∷ xs) = f x >> for_each f xs

  unfoldable pub describe_elb : List (List String) → Sweep (List ElbTags)
  describe_elb [] = lift (ok [])
  describe_elb (batch ∷ rest) =
      wrap_call describe_elb_tags_failed (account.elb_describe_tags batch) >>= λ found.
      describe_elb rest >>= λ more. lift (ok (found ++ more))

  abbrev pub delete_named : Option String → Sweep (Unit {0})
  delete_named none = lift (err no_elb_name)
  delete_named (some name) = wrap_call (delete_elb_failed name) (account.elb_delete name)

  abbrev pub delete_elb : String → ElbTags → Sweep (Unit {0})
  delete_elb key d =
      if any (has_key key) d.tags then delete_named d.load_balancer_name else lift (ok tt)

  unfoldable pub cleanup_elb : String → Sweep (Unit {0})
  unfolding collect_names batches describe_elb for_each
  cleanup_elb key s =
      (lift (collect_names (account.elb_pages s)) >>= λ names.
      describe_elb (batches max_tag_batch names) >>= for_each (delete_elb key))
        s

  unfoldable pub describe_matching :
      (ApiError → CleanupError) → String → List (List String) → Sweep (List String)
  unfolding matching
  describe_matching failed cluster [] = lift (ok [])
  describe_matching failed cluster (batch ∷ rest) =
      wrap_call failed (account.describe_tags batch) >>= λ found.
      describe_matching failed cluster rest >>= λ more. lift (ok (matching cluster found ++ more))

  abbrev pub delete_and_wait : String → Sweep (Unit {0})
  delete_and_wait arn =
      wrap_call (delete_load_balancer_failed arn) (account.delete_load_balancer arn)
      >> wrap_call (wait_failed arn) (account.wait_deleted arn)

  abbrev pub delete_tagged :
      (ApiError → CleanupError)
      → String
      → (String → Sweep (Unit {0}))
      → List (Option String)
      → Sweep (Unit {0})
  delete_tagged failed cluster delete found =
      describe_matching failed cluster (batches max_tag_batch (present found)) >>= for_each delete

  unfoldable pub cleanup_elbv2_load_balancers : String → Sweep (Unit {0})
  unfolding collect present batches describe_matching for_each
  cleanup_elbv2_load_balancers cluster s =
      (lift (collect describe_load_balancers_failed (account.load_balancer_pages s) [])
          >>= delete_tagged describe_tags_failed cluster delete_and_wait)
        s

  abbrev pub delete_group : String → Sweep (Unit {0})
  delete_group arn = wrap_call (delete_target_group_failed arn) (account.delete_target_group arn)

  unfoldable pub cleanup_elbv2_target_groups : String → Sweep (Unit {0})
  unfolding collect present batches describe_matching for_each
  cleanup_elbv2_target_groups cluster s =
      (lift (collect describe_target_groups_failed (account.target_group_pages s) [])
          >>= delete_tagged describe_target_group_tags_failed cluster delete_group)
        s

  abbrev pub deref : Option String → Result CleanupError String
  deref none = err no_group_id
  deref (some id) = ok id

  abbrev pub revoke : String → SecurityGroup → List IpPermission → Sweep (Unit {0})
  revoke id sg [] = lift (ok tt)
  revoke id sg (p ∷ ps) = lift (deref sg.group_id) >>= λ _.
      wrap_call (revoke_failed sg.group_id id)
        (account.revoke_security_group_ingress sg.group_id (p ∷ ps))

  abbrev pub revoke_in : String → SecurityGroup → Sweep (Unit {0})
  revoke_in id sg = revoke id sg (permissions_to_revoke id sg.ip_permissions)

  abbrev pub references : String → List Filter
  references id = record { name = "ip-permission.group-id"; values = id ∷ [] } ∷ []

  unfoldable pub revoke_referencing_rules : String → Sweep (Unit {0})
  unfolding for_each permissions_to_revoke
  revoke_referencing_rules id =
      wrap_call (find_references_failed id) (account.describe_security_groups (references id))
      >>= for_each (revoke_in id)

  abbrev pub max_attempts : ℕ
  max_attempts = 12

  -- What follows an attempt: the argument says what is done to try again, and is given when this was not
  -- the last attempt.
  abbrev pub after_attempt :
      String
      → Option (Sweep (Unit {0}))
      → Result ApiError (Unit {0}) × account.State
      → Result CleanupError (Unit {0}) × account.State
  after_attempt id again (ok tt, s) = (ok tt, s)
  after_attempt id again (err (other_error e), s) =
      (err (delete_group_failed id (other_error e)), s)
  after_attempt id none (err (dependency_violation e), s) =
      (err (gave_up id (dependency_violation e)), s)
  after_attempt id (some again) (err (dependency_violation e), s) = again s

  -- The loop of `deleteSecurityGroupWithRetry`, with the number of attempts that are left.
  unfoldable pub delete_attempts : ℕ → String → Sweep (Unit {0})
  delete_attempts zero id s = (ok tt, s)
  delete_attempts (suc zero) id s = after_attempt id none (account.delete_security_group id s)
  delete_attempts (suc (suc n)) id s =
      after_attempt id (some (wrap_call cancelled account.pause >> delete_attempts (suc n) id))
        (account.delete_security_group id s)

  unfoldable pub delete_security_group_with_retry : String → Sweep (Unit {0})
  unfolding delete_attempts
  delete_security_group_with_retry = delete_attempts max_attempts

  abbrev pub remove_group : String → Sweep (Unit {0})
  remove_group id = revoke_referencing_rules id >> delete_security_group_with_retry id

  abbrev pub is_prefixed : String → Option String → Bool
  is_prefixed prefix none = false
  is_prefixed prefix (some name) = has_prefix prefix name

  abbrev pub remove_prefixed : String → String → SecurityGroup → Sweep (Unit {0})
  remove_prefixed key prefix sg =
      if is_prefixed prefix sg.group_name && any (has_key key) sg.tags
      then lift (deref sg.group_id) >>= remove_group
      else lift (ok tt)

  abbrev pub named_like : String → List Filter
  named_like prefix = record { name = "group-name"; values = (prefix <> "*") ∷ [] } ∷ []

  unfoldable pub cleanup_k8s_security_groups_by_prefix : String → String → Sweep (Unit {0})
  unfolding for_each revoke_referencing_rules delete_security_group_with_retry has_prefix
  cleanup_k8s_security_groups_by_prefix key prefix =
      wrap_call describe_groups_failed (account.describe_security_groups (named_like prefix))
      >>= for_each (remove_prefixed key prefix)

  abbrev pub remove_managed : SecurityGroup → Sweep (Unit {0})
  remove_managed sg = elim sg.group_id [ none ↦ lift (ok tt) | some id ↦ remove_group id ]

  abbrev pub lbc_managed : String → List Filter
  lbc_managed cluster =
      record { name = "tag:" <> cluster_tag_elbv2; values = cluster ∷ [] }
      ∷ record { name = "tag:service.k8s.aws/resource"; values = "ManagedLBSecurityGroup" ∷ [] }
      ∷ []

  unfoldable pub cleanup_lbc_managed_security_groups : String → Sweep (Unit {0})
  unfolding for_each revoke_referencing_rules delete_security_group_with_retry
  cleanup_lbc_managed_security_groups cluster =
      wrap_call describe_groups_failed (account.describe_security_groups (lbc_managed cluster))
      >>= for_each remove_managed

  abbrev pub classic_tag_key : String → String
  classic_tag_key cluster = "kubernetes.io/cluster/" <> cluster

  -- `cleanupAWSLoadBalancers`.
  unfoldable pub cleanup_aws_load_balancers : String → Sweep (Unit {0})
  unfolding cleanup_elb cleanup_elbv2_load_balancers cleanup_elbv2_target_groups
      cleanup_k8s_security_groups_by_prefix cleanup_lbc_managed_security_groups
  cleanup_aws_load_balancers cluster =
      cleanup_elb (classic_tag_key cluster)
      >> (cleanup_elbv2_load_balancers cluster
          >> (cleanup_elbv2_target_groups cluster
              >> (cleanup_k8s_security_groups_by_prefix (classic_tag_key cluster) "k8s-elb-"
                  >> cleanup_lbc_managed_security_groups cluster)))
