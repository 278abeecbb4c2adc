-- ===== src/Aws/Cleanup/Balancers.antt =====
-- The sweep of load balancers and target groups in pkg/providers/cluster/aws/cleanup.go leaves alone what has not the tags of the cluster.
use nebari_infrastructure_co.Prelude.{
  none, some, err, refl, String, ◌≡◌, subst, inl, inr, true, Option, List, [], ◌∷◌, ◌++◌,
  Bool-cases, all, any, All, All-append, ok, ok-injective,
}
use nebari_infrastructure_co.Prelude.State.{M, wrap_call, lift, ◌>>◌}
use nebari_infrastructure_co.Prelude.Yields.{
  Yields, Anything, >>=-Yields, wrap_call-Yields, lift-Yields, All-of_Mem,
}
use nebari_infrastructure_co.Aws.Batches.{batches}
use nebari_infrastructure_co.Aws.Cleanup.Owned.{IsTaggedElb, IsTagged, IsKept, matching-All}
use nebari_infrastructure_co.Aws.Cleanup.{
  err, some, Account, ApiError, ElbTags, CleanupError, collect, present, max_tag_batch, has_key,
  matching, Sweep, for_each, describe_elb, delete_elb, cleanup_elb, describe_matching,
  delete_and_wait, delete_tagged, cleanup_elbv2_load_balancers, delete_group,
  cleanup_elbv2_target_groups, classic_tag_key, describe_elb_tags_failed, delete_elb_failed,
  delete_load_balancer_failed, wait_failed, delete_target_group_failed,
  describe_target_group_tags_failed, describe_tags_failed, collect_names, delete_named, no_elb_name,
  describe_load_balancers_failed, describe_target_groups_failed,
}

module _ (account : Account) (cluster : String) (P : account.State → Type 0)
    (K : IsKept account cluster P) where
  abbrev pub Harmless : Sweep account (Unit {0}) → Type 0
  Harmless m = Yields P Anything m

  pub nothing-Harmless : Harmless (lift (ok tt))
  nothing-Harmless s kept = (kept, λ a h. tt)

  -- A call that changes the state, and gives nothing.
  pub call-Harmless :
      {F : Type 0} (g : F → CleanupError) (m : M account.State F (Unit {0}))
      → ((s : account.State) → P s → P (m s).1)
      → Harmless (wrap_call g m)
  call-Harmless g m h = wrap_call-Yields P g m (λ s kept. (h s kept, λ a k. tt))

  pub then-Harmless : (m k : Sweep account (Unit {0})) → Harmless m → Harmless k → Harmless (m >> k)
  then-Harmless m k first second = >>=-Yields P m (λ _. k) first (λ a t. second)

  pub for_each-Harmless :
      {A : Type 0} (Q : A → Type 0) (f : A → Sweep account (Unit {0})) (xs : List A)
      → ((x : A) → Q x → Harmless (f x))
      → All Q xs
      → Harmless (for_each account f xs)
  unfolding for_each
  for_each-Harmless Q f [] h all = nothing-Harmless
  for_each-Harmless Q f (x ∷ xs) h (q, all) =
      then-Harmless (f x) (for_each account f xs) (h x q) (for_each-Harmless Q f xs h all)

  abbrev pub key : String
  key = classic_tag_key account cluster

  -- If it has the cluster's key, then the service said so.
  abbrev MayGo : ElbTags → Type 0
  MayGo d = any (has_key key) d.tags ≡ true → IsTaggedElb account key d

  describe_elb-Yields :
      (parts : List (List String)) → Yields P (All MayGo) (describe_elb account parts)
  unfolding describe_elb
  describe_elb-Yields [] = lift-Yields P (ok []) (λ a h. subst (All MayGo) (ok-injective h) tt)
  describe_elb-Yields (names ∷ parts) =
      >>=-Yields P (wrap_call describe_elb_tags_failed (account.elb_describe_tags names)) _
        (wrap_call-Yields P describe_elb_tags_failed (account.elb_describe_tags names) (λ s kept. (
          K.elb_describe_tags names s kept,
          λ ds given. All-of_Mem MayGo ds (λ d m tagged. (names, s, ds, given, m, tagged)),
        )))
        (λ ds tagged.
          >>=-Yields P (describe_elb account parts) _ (describe_elb-Yields parts) (λ more rest.
            lift-Yields P (ok (ds ++ more))
              (λ all h. subst (All MayGo) (ok-injective h) (All-append MayGo ds more tagged rest))))

  delete_named-Harmless :
      (name : Option String)
      → ((n : String) → name ≡ some n → (s : account.State) → P s → P (account.elb_delete n s).1)
      → Harmless (delete_named account name)
  delete_named-Harmless none h = lift-Yields P (err no_elb_name) (λ a k. tt)
  delete_named-Harmless (some n) h =
      call-Harmless (delete_elb_failed n) (account.elb_delete n) (h n refl)

  delete_elb-Harmless : (d : ElbTags) → MayGo d → Harmless (delete_elb account key d)
  delete_elb-Harmless d may = elim (Bool-cases (any (has_key key) d.tags)) [
    | inl tagged ↦
        rw (tagged) (delete_named-Harmless d.load_balancer_name (K.elb_delete d (may tagged)))
    | inr other ↦ rw (other) nothing-Harmless
  ]

  pub cleanup_elb-Harmless : Harmless (cleanup_elb account key)
  unfolding cleanup_elb
  cleanup_elb-Harmless s =
      >>=-Yields P (lift (collect_names (account.elb_pages s))) _
        (lift-Yields P {Q = λ names. Unit} _ (λ names h. tt))
        (λ names _.
          >>=-Yields P (describe_elb account (batches max_tag_batch names)) _
            (describe_elb-Yields (batches max_tag_batch names))
            (λ ds may. for_each-Harmless MayGo (delete_elb account key) ds delete_elb-Harmless may))
        s

  describe_matching-Yields :
      (failed : ApiError → CleanupError) (parts : List (List String))
      → Yields P (All (IsTagged account cluster)) (describe_matching account failed cluster parts)
  unfolding describe_matching
  describe_matching-Yields failed [] =
      lift-Yields P (ok []) (λ a h. subst (All (IsTagged account cluster)) (ok-injective h) tt)
  describe_matching-Yields failed (names ∷ parts) =
      >>=-Yields P (wrap_call failed (account.describe_tags names)) _
        (wrap_call-Yields P {Q = λ ds. All (IsTagged account cluster) (matching cluster ds)} failed
          (account.describe_tags names)
          (λ s kept. (
            K.describe_tags names s kept,
            λ ds given.
                matching-All account (IsTagged account cluster) cluster ds
                  (λ d arn m named tagged. (names, s, ds, d, given, m, named, tagged)),
          )))
        (λ ds tagged.
          >>=-Yields P (describe_matching account failed cluster parts) _
            (describe_matching-Yields failed parts)
            (λ more rest. lift-Yields P (ok (matching cluster ds ++ more)) (λ all h.
              subst (All (IsTagged account cluster)) (ok-injective h)
                (All-append (IsTagged account cluster) (matching cluster ds) more tagged rest))))

  delete_tagged-Harmless :
      (failed : ApiError → CleanupError) (delete : String → Sweep account (Unit {0}))
      (found : List (Option String))
      → ((arn : String) → IsTagged account cluster arn → Harmless (delete arn))
      → Harmless (delete_tagged account failed cluster delete found)
  delete_tagged-Harmless failed delete found h =
      >>=-Yields P
        (describe_matching account failed cluster (batches max_tag_batch (present found))) _
        (describe_matching-Yields failed (batches max_tag_batch (present found)))
        (λ arns tagged. for_each-Harmless (IsTagged account cluster) delete arns h tagged)

  pub cleanup_elbv2_load_balancers-Harmless :
      Harmless (cleanup_elbv2_load_balancers account cluster)
  unfolding cleanup_elbv2_load_balancers
  cleanup_elbv2_load_balancers-Harmless s =
      >>=-Yields P
        (lift (collect describe_load_balancers_failed (account.load_balancer_pages s) [])) _
        (lift-Yields P {Q = λ names. Unit} _ (λ names h. tt))
        (λ found _.
          delete_tagged-Harmless describe_tags_failed (delete_and_wait account) found (λ arn tagged.
            then-Harmless
              (wrap_call (delete_load_balancer_failed arn) (account.delete_load_balancer arn))
              (wrap_call (wait_failed arn) (account.wait_deleted arn))
              (call-Harmless (delete_load_balancer_failed arn) (account.delete_load_balancer arn)
                (K.delete_load_balancer arn tagged))
              (call-Harmless (wait_failed arn) (account.wait_deleted arn) (K.wait_deleted arn))))
        s

  pub cleanup_elbv2_target_groups-Harmless : Harmless (cleanup_elbv2_target_groups account cluster)
  unfolding cleanup_elbv2_target_groups
  cleanup_elbv2_target_groups-Harmless s =
      >>=-Yields P (lift (collect describe_target_groups_failed (account.target_group_pages s) []))
        _ (lift-Yields P {Q = λ names. Unit} _ (λ names h. tt))
        (λ found _.
          delete_tagged-Harmless describe_target_group_tags_failed (delete_group account) found
            (λ arn tagged.
              call-Harmless (delete_target_group_failed arn) (account.delete_target_group arn)
                (K.delete_target_group arn tagged)))
        s
