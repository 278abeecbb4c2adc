-- ===== src/Aws/Cleanup/Owned.antt =====
-- What belongs to a cluster, as far as the sweep of pkg/providers/cluster/aws/cleanup.go may change it.
use nebari_infrastructure_co.Prelude.{
  String, ◌≡◌, refl, ap, ◌⊎◌, inl, inr, true, Option, none, some, List, [], ◌∷◌, eq_iff, Bool-cases,
  Option-cases, any, All, All-append, ok,
}
use mathlib.Core.List.{Memᴰ}
use nebari_infrastructure_co.Aws.Cleanup.{
  Account, ElbTags, ResourceTags, SecurityGroup, IpPermission, UserIdGroupPair, Filter, is_text,
  has_key, of_cluster, matching, referring_pairs, permissions_to_revoke, is_prefixed, named_like,
  lbc_managed, classic_tag_key,
}

module _ (account : Account) where
  -- A classic load balancer that the service described, with a tag of the key.
  abbrev pub IsTaggedElb : String → ElbTags → Type 0
  IsTaggedElb key d =
      (names : List String) × (s : account.State) × (ds : List ElbTags)
      × ((account.elb_describe_tags names s).0 ≡ ok ds)
      × Memᴰ d ds
      × (any (has_key key) d.tags ≡ true)

  -- A resource that the service described, with the tag of the cluster.
  abbrev pub IsTagged : String → String → Type 0
  IsTagged cluster arn =
      (names : List String) × (s : account.State) × (ds : List ResourceTags) × (d : ResourceTags)
      × ((account.describe_tags names s).0 ≡ ok ds)
      × Memᴰ d ds
      × (d.resource_arn ≡ some arn)
      × (any (of_cluster cluster) d.tags ≡ true)

  abbrev pub IsFound : List Filter → SecurityGroup → Type 0
  IsFound filters sg =
      (s : account.State) × (sgs : List SecurityGroup) × ((account.describe_security_groups filters
          s).0
        ≡ ok sgs)
      × Memᴰ sg sgs

  -- A security group of the cluster: one that the service found by the prefix of its name, that has the
  -- prefix and a tag of the cluster's key, or one that it found by the two tags of the controller.
  abbrev pub IsOwned : String → String → Type 0
  IsOwned cluster id =
      (sg : SecurityGroup) × (sg.group_id ≡ some id)
      × ((IsFound (named_like account "k8s-elb-") sg
            × (is_prefixed account "k8s-elb-" sg.group_name ≡ true)
            × (any (has_key (classic_tag_key account cluster)) sg.tags ≡ true))
          ⊎ IsFound (lbc_managed account cluster) sg)

  abbrev pub RefersTo : String → IpPermission → Type 0
  RefersTo id rule = All (λ pair. pair.group_id ≡ some id) rule.user_id_group_pairs

  -- The property outlives the calls that look, and those that change what bears the cluster's tags.
  pub record IsKept (cluster : String) (P : account.State → Type 0) : Type 0 where
    pub elb_describe_tags :
        (names : List String) (s : account.State) → P s → P (account.elb_describe_tags names s).1
    pub describe_tags :
        (names : List String) (s : account.State) → P s → P (account.describe_tags names s).1
    pub describe_security_groups :
        (filters : List Filter) (s : account.State)
        → P s
        → P (account.describe_security_groups filters s).1
    pub wait_deleted : (arn : String) (s : account.State) → P s → P (account.wait_deleted arn s).1
    pub pause : (s : account.State) → P s → P (account.pause s).1
    pub elb_delete :
        (d : ElbTags)
        → IsTaggedElb (classic_tag_key account cluster) d
        → (name : String) → d.load_balancer_name ≡ some name
        → (s : account.State) → P s
        → P (account.elb_delete name s).1
    pub delete_load_balancer :
        (arn : String)
        → IsTagged cluster arn
        → (s : account.State) → P s
        → P (account.delete_load_balancer arn s).1
    pub delete_target_group :
        (arn : String)
        → IsTagged cluster arn
        → (s : account.State) → P s
        → P (account.delete_target_group arn s).1
    pub revoke :
        (id : String) (sg : SecurityGroup) (rules : List IpPermission)
        → IsOwned cluster id
        → All (RefersTo id) rules
        → (s : account.State) → P s
        → P (account.revoke_security_group_ingress sg.group_id rules s).1
    pub delete_security_group :
        (id : String)
        → IsOwned cluster id
        → (s : account.State) → P s
        → P (account.delete_security_group id s).1

  pub matching-All :
      (T : String → Type 0) (cluster : String) (ds : List ResourceTags)
      → ((d : ResourceTags) (arn : String)
          → Memᴰ d ds
          → d.resource_arn ≡ some arn
          → any (of_cluster cluster) d.tags ≡ true
          → T arn)
      → All T (matching cluster ds)
  unfolding matching
  matching-All T cluster [] h = tt
  matching-All T cluster (d ∷ ds) h =
      let rest = matching-All T cluster ds (λ e arn m. h e arn (Memᴰ.tail m)) in
      elim (Option-cases d.resource_arn) [
        | inl missing ↦ rw (missing) rest
        | inr (arn, named) ↦ elim (Bool-cases (any (of_cluster cluster) d.tags)) [
          | inl tagged ↦ rw (named, tagged) (h d arn (Memᴰ.head refl) named tagged, rest)
          | inr other ↦ rw (named, other) rest
        ]
      ]

  is_text-eq_some : (t : String) (o : Option String) → is_text t o ≡ true → o ≡ some t
  is_text-eq_some t none h = absurd (cc)
  is_text-eq_some t (some s) h = ap some ((eq_iff s t).0 h)

  referring_pairs-RefersTo :
      (id : String) (rule : IpPermission) (pairs : List UserIdGroupPair)
      → All (RefersTo id) (referring_pairs id rule pairs)
  unfolding referring_pairs
  referring_pairs-RefersTo id rule [] = tt
  referring_pairs-RefersTo id rule (pair ∷ pairs) =
      let rest = referring_pairs-RefersTo id rule pairs in
      elim (Bool-cases (is_text id pair.group_id)) [
        | inl refers ↦ rw (refers) ((is_text-eq_some id pair.group_id refers, tt), rest)
        | inr other ↦ rw (other) rest
      ]

  pub permissions_to_revoke-RefersTo :
      (id : String) (rules : List IpPermission) → All (RefersTo id) (permissions_to_revoke id rules)
  unfolding permissions_to_revoke
  permissions_to_revoke-RefersTo id [] = tt
  permissions_to_revoke-RefersTo id (rule ∷ rules) =
      All-append (RefersTo id) (referring_pairs id rule rule.user_id_group_pairs)
        (permissions_to_revoke id rules) (referring_pairs-RefersTo id rule rule.user_id_group_pairs)
        (permissions_to_revoke-RefersTo id rules)
