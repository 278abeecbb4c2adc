-- ===== src/Aws/Cleanup/Groups.antt =====
-- The sweep of security groups in pkg/providers/cluster/aws/cleanup.go leaves alone what does not belong to the
-- cluster.
use nebari_infrastructure_co.Prelude.{
  ℕ, zero, suc, String, ◌≡◌, inl, inr, Bool, true, ◌&&◌, Option, none, some, List, [], ◌∷◌, arith,
  Bool-cases, Option-cases, any, All, Result, ok, err,
}
use nebari_infrastructure_co.Prelude.State.{wrap_call, lift, ◌>>◌}
use nebari_infrastructure_co.Prelude.Yields.{
  Yields, Gives, Anything, >>=-Yields, wrap_call-Yields, lift-Yields, All-of_Mem,
}
use nebari_infrastructure_co.Aws.Cleanup.Owned.{
  IsFound, IsOwned, IsKept, permissions_to_revoke-RefersTo, RefersTo,
}
use nebari_infrastructure_co.Aws.Cleanup.Balancers.{
  Harmless, nothing-Harmless, call-Harmless, then-Harmless, for_each-Harmless,
}
use nebari_infrastructure_co.Aws.Cleanup.{
  Account, ApiError, SecurityGroup, Filter, IpPermission, has_key, permissions_to_revoke, Sweep,
  deref, revoke, revoke_in, references, revoke_referencing_rules, after_attempt, delete_attempts,
  delete_security_group_with_retry, remove_group, is_prefixed, remove_prefixed, named_like,
  cleanup_k8s_security_groups_by_prefix, remove_managed, lbc_managed,
  cleanup_lbc_managed_security_groups, classic_tag_key, describe_groups_failed,
  find_references_failed, revoke_failed, cancelled, dependency_violation, other_error,
}

module _ (account : Account) (cluster : String) (P : account.State → Type 0)
    (K : IsKept account cluster P) where
  abbrev IsSafe : Sweep account (Unit {0}) → Type 0
  IsSafe = Harmless account cluster P K

  revoke-Harmless :
      (id : String) (sg : SecurityGroup) (rules : List IpPermission)
      → IsOwned account cluster id
      → All (RefersTo account id) rules
      → IsSafe (revoke account id sg rules)
  revoke-Harmless id sg [] owned refer = nothing-Harmless account cluster P K
  revoke-Harmless id sg (p ∷ ps) owned refer =
      >>=-Yields P (lift (deref account sg.group_id)) _
        (lift-Yields P {Q = λ names. Unit} _ (λ names h. tt))
        (λ _ _.
          call-Harmless account cluster P K (revoke_failed sg.group_id id)
            (account.revoke_security_group_ingress sg.group_id (p ∷ ps))
            (K.revoke id sg (p ∷ ps) owned refer))

  revoke_referencing_rules-Harmless :
      (id : String) → IsOwned account cluster id → IsSafe (revoke_referencing_rules account id)
  unfolding revoke_referencing_rules
  revoke_referencing_rules-Harmless id owned =
      >>=-Yields P
        (wrap_call (find_references_failed id)
          (account.describe_security_groups (references account id)))
        _
        (wrap_call-Yields P {Q = All AnyGroup} (find_references_failed id)
          (account.describe_security_groups (references account id))
          (λ s kept. (
            K.describe_security_groups (references account id) s kept,
            λ sgs given. All-of_Mem AnyGroup sgs (λ sg m. tt),
          )))
        (λ sgs any.
          for_each-Harmless account cluster P K AnyGroup (revoke_in account id) sgs
            (λ sg _.
              revoke-Harmless id sg (permissions_to_revoke id sg.ip_permissions) owned
                (permissions_to_revoke-RefersTo account id sg.ip_permissions))
            any)
    where
      AnyGroup : SecurityGroup → Type 0
      AnyGroup sg = Unit

  after_attempt-Gives :
      (id : String) (again : Sweep account (Unit {0}))
      (r : Result ApiError (Unit {0}) × account.State)
      → P r.1
      → IsSafe again
      → Gives P Anything (after_attempt account id (some again) r)
  after_attempt-Gives id again (ok tt, s) kept h = (kept, λ a k. tt)
  after_attempt-Gives id again (err (other_error e), s) kept h = (kept, λ a k. tt)
  after_attempt-Gives id again (err (dependency_violation e), s) kept h = h s kept

  last_attempt-Gives :
      (id : String) (r : Result ApiError (Unit {0}) × account.State)
      → P r.1
      → Gives P Anything (after_attempt account id none r)
  last_attempt-Gives id (ok tt, s) kept = (kept, λ a k. tt)
  last_attempt-Gives id (err (other_error e), s) kept = (kept, λ a k. tt)
  last_attempt-Gives id (err (dependency_violation e), s) kept = (kept, λ a k. tt)

  delete_attempts-Harmless :
      (n : ℕ) (id : String) → IsOwned account cluster id → IsSafe (delete_attempts account n id)
  unfolding delete_attempts
  delete_attempts-Harmless zero id owned s kept = (kept, λ a h. tt)
  delete_attempts-Harmless (suc zero) id owned s kept =
      last_attempt-Gives id (account.delete_security_group id s)
        (K.delete_security_group id owned s kept)
  delete_attempts-Harmless (suc (suc n)) id owned s kept =
      after_attempt-Gives id
        (wrap_call cancelled account.pause >> delete_attempts account (suc n) id)
        (account.delete_security_group id s) (K.delete_security_group id owned s kept)
        (then-Harmless account cluster P K (wrap_call cancelled account.pause)
          (delete_attempts account (suc n) id)
          (call-Harmless account cluster P K cancelled account.pause K.pause)
          (delete_attempts-Harmless (suc n) id owned))

  remove_group-Harmless :
      (id : String) → IsOwned account cluster id → IsSafe (remove_group account id)
  unfolding delete_security_group_with_retry
  remove_group-Harmless id owned =
      then-Harmless account cluster P K (revoke_referencing_rules account id)
        (delete_security_group_with_retry account id) (revoke_referencing_rules-Harmless id owned)
        (delete_attempts-Harmless 12 id owned)

  and_cases : (a b : Bool) → (a && b) ≡ true → (a ≡ true) × (b ≡ true)
  and_cases a b h = ground arith

  describe-Yields :
      (filters : List Filter)
      → Yields P
          (All (IsFound account filters))
          (wrap_call describe_groups_failed (account.describe_security_groups filters))
  describe-Yields filters =
      wrap_call-Yields P describe_groups_failed (account.describe_security_groups filters)
        (λ s kept. (
          K.describe_security_groups filters s kept,
          λ sgs given. All-of_Mem (IsFound account filters) sgs (λ sg m. (s, sgs, given, m)),
        ))

  deref-eq-ok : (id : Option String) (name : String) → deref account id ≡ ok name → id ≡ some name
  deref-eq-ok none name h = absurd (cc)
  deref-eq-ok (some id) name h = cc

  remove_prefixed-Harmless :
      (sg : SecurityGroup)
      → IsFound account (named_like account "k8s-elb-") sg
      → IsSafe (remove_prefixed account (classic_tag_key account cluster) "k8s-elb-" sg)
  remove_prefixed-Harmless sg found =
      elim (Bool-cases (
        is_prefixed account "k8s-elb-" sg.group_name
        && any (has_key (classic_tag_key account cluster)) sg.tags)) [
          | inl owned ↦
              let (prefixed, tagged) = and_cases _ _ owned in
              rw (owned) (
                >>=-Yields P (lift (deref account sg.group_id)) _
                  (lift-Yields P {Q = λ id. sg.group_id ≡ some id} _ (deref-eq-ok sg.group_id))
                  (λ id named. remove_group-Harmless id (sg, named, inl (found, prefixed, tagged))))
          | inr other ↦ rw (other) (nothing-Harmless account cluster P K)
        ]

  remove_managed-Harmless :
      (sg : SecurityGroup)
      → IsFound account (lbc_managed account cluster) sg
      → IsSafe (remove_managed account sg)
  remove_managed-Harmless sg found = elim (Option-cases sg.group_id) [
    | inl missing ↦ rw (missing) (nothing-Harmless account cluster P K)
    | inr (id, named) ↦ rw (named) (remove_group-Harmless id (sg, named, inr found))
  ]

  pub cleanup_k8s_security_groups_by_prefix-Harmless :
      IsSafe
        (cleanup_k8s_security_groups_by_prefix account (classic_tag_key account cluster) "k8s-elb-")
  unfolding cleanup_k8s_security_groups_by_prefix
  cleanup_k8s_security_groups_by_prefix-Harmless =
      >>=-Yields P
        (wrap_call describe_groups_failed
          (account.describe_security_groups (named_like account "k8s-elb-")))
        _ (describe-Yields (named_like account "k8s-elb-"))
        (λ sgs found.
          for_each-Harmless account cluster P K (IsFound account (named_like account "k8s-elb-"))
            (remove_prefixed account (classic_tag_key account cluster) "k8s-elb-") sgs
            remove_prefixed-Harmless found)

  pub cleanup_lbc_managed_security_groups-Harmless :
      IsSafe (cleanup_lbc_managed_security_groups account cluster)
  unfolding cleanup_lbc_managed_security_groups
  cleanup_lbc_managed_security_groups-Harmless =
      >>=-Yields P
        (wrap_call describe_groups_failed
          (account.describe_security_groups (lbc_managed account cluster)))
        _ (describe-Yields (lbc_managed account cluster))
        (λ sgs found.
          for_each-Harmless account cluster P K (IsFound account (lbc_managed account cluster))
            (remove_managed account) sgs remove_managed-Harmless found)
