-- ===== src/Aws/Cleanup/Untagged.antt =====
-- What the sweep of pkg/providers/cluster/aws/cleanup.go leaves alone.
use nebari_infrastructure_co.Prelude.{String}
use nebari_infrastructure_co.Aws.Cleanup.{
  Account, classic_tag_key, cleanup_elb, cleanup_elbv2_load_balancers, cleanup_elbv2_target_groups,
  cleanup_k8s_security_groups_by_prefix, cleanup_lbc_managed_security_groups,
  cleanup_aws_load_balancers,
}
use nebari_infrastructure_co.Prelude.State.{◌>>◌}
use nebari_infrastructure_co.Aws.Cleanup.Owned.{IsKept}
use nebari_infrastructure_co.Aws.Cleanup.Balancers.{
  then-Harmless, cleanup_elb-Harmless, cleanup_elbv2_load_balancers-Harmless,
  cleanup_elbv2_target_groups-Harmless,
}
use nebari_infrastructure_co.Aws.Cleanup.Groups.{
  cleanup_k8s_security_groups_by_prefix-Harmless, cleanup_lbc_managed_security_groups-Harmless,
}

-- A property of the account that outlives every look and every wait, the deletion of the load balancers,
-- the target groups and the security groups that the services showed with the tags of the cluster, and the
-- revocation of rules that refer to such a security group, outlives the whole sweep, whether it ends with
-- an error or not.
pub cleanup_aws_load_balancers-IsKept :
    (account : Account) (cluster : String) (P : account.State → Type 0)
    → IsKept account cluster P
    → (s : account.State) → P s
    → P (cleanup_aws_load_balancers account cluster s).1
unfolding cleanup_aws_load_balancers
cleanup_aws_load_balancers-IsKept account cluster P K s kept =
    let elb = cleanup_elb account (classic_tag_key account cluster) in
    let balancers = cleanup_elbv2_load_balancers account cluster in
    let targets = cleanup_elbv2_target_groups account cluster in
    let prefixed =
      cleanup_k8s_security_groups_by_prefix account (classic_tag_key account cluster) "k8s-elb-" in
    let managed = cleanup_lbc_managed_security_groups account cluster in
    (then-Harmless account cluster P K elb (balancers >> (targets >> (prefixed >> managed)))
      (cleanup_elb-Harmless account cluster P K)
      (then-Harmless account cluster P K balancers (targets >> (prefixed >> managed))
        (cleanup_elbv2_load_balancers-Harmless account cluster P K)
        (then-Harmless account cluster P K targets (prefixed >> managed)
          (cleanup_elbv2_target_groups-Harmless account cluster P K)
          (then-Harmless account cluster P K prefixed managed
            (cleanup_k8s_security_groups_by_prefix-Harmless account cluster P K)
            (cleanup_lbc_managed_security_groups-Harmless account cluster P K))))
      s kept).0
