-- ===== src/Witnesses/Sweep.antt =====
-- The theorems on the AWS services at an account and a bucket in memory.
use nebari_infrastructure_co.Prelude.{
  select, ℕ, suc, ◌+◌, ◌≤◌, String, ◌≡◌, refl, sym, ap, ◌∙◌, subst, ◌↔◌, ◌⊎◌, inl, inr, Bool, true,
  false, not, ◌&&◌, Option, none, some, List, [], ◌∷◌, map, arith, ◌==◌, eq_iff, eq_refl, leb,
  if◌then◌else◌, Bool-cases, any, contains, ok, err, is_ok, ok-injective,
}
use mathlib.Core.List.{Memᴰ}
use mathlib.Core.List.Memᴰ
use nebari_infrastructure_co.Aws.StateBucket.{
  byte_count, generate_bucket_name, not_found, ObjectIdentifier, VersionsPage, PublicAccessBlock,
  S3Client, ensure_state_bucket, destroy_state_bucket,
}
use nebari_infrastructure_co.Aws.StateBucket.Named.{generate_bucket_name_bounds}
use nebari_infrastructure_co.Aws.StateBucket.Service.{IsLawful}
use nebari_infrastructure_co.Aws.StateBucket.Secured.{ensure_state_bucket-secured, IsAllBlocked}
use nebari_infrastructure_co.Aws.StateBucket.Emptied.{destroy_state_bucket-emptied, Refused}
use nebari_infrastructure_co.Aws.Cleanup.{
  Account, dependency_violation, ElbTags, delete_security_group_with_retry,
  cleanup_aws_load_balancers, has_key, classic_tag_key,
}
use nebari_infrastructure_co.Aws.Cleanup.Retried.{Outcome, delete_security_group_with_retry-Outcome}
use nebari_infrastructure_co.Aws.Cleanup.Owned.{IsKept}
use nebari_infrastructure_co.Aws.Cleanup.Untagged.{cleanup_aws_load_balancers-IsKept}

abbrev hashed : String → String
hashed account = "0a1b2c3d"

generate_bucket_name_bounds_example :
    ((is_ok (generate_bucket_name hashed "123456789012" "us-east-1" "demo") ≡ true)
      ↔ (byte_count "demo" + byte_count "us-east-1" ≤ 41))
    × ((name : String)
        → generate_bucket_name hashed "123456789012" "us-east-1" "demo" ≡ ok name
        → byte_count name ≤ 63)
unfolding byte_count
generate_bucket_name_bounds_example =
    generate_bucket_name_bounds hashed (λ a. refl) "123456789012" "us-east-1" "demo"

-- The one bucket that the service keeps here, whatever its name.
pub record Bucket : Type 0 where
  pub there : Bool
  pub versioned : Bool
  pub blocked : Option PublicAccessBlock
  pub objects : List ObjectIdentifier

abbrev same_text : Option String → Option String → Bool
same_text none none = true
same_text (some a) (some b) = a == b
same_text a b = false

abbrev same_object : ObjectIdentifier → ObjectIdentifier → Bool
same_object o p = same_text o.key p.key && same_text o.version_id p.version_id

abbrev is_in : List ObjectIdentifier → ObjectIdentifier → Bool
is_in batch o = any (same_object o) batch

same_text_refl : (a : Option String) → same_text a a ≡ true
same_text_refl none = refl
same_text_refl (some a) = eq_refl a

same_object_refl : (o : ObjectIdentifier) → same_object o o ≡ true
same_object_refl o = rw (same_text_refl o.key, same_text_refl o.version_id) refl

Memᴰ-is_in :
    (o : ObjectIdentifier) (batch : List ObjectIdentifier) → Memᴰ o batch → is_in batch o ≡ true
Memᴰ-is_in o [] m = absurd (Memᴰ.not-nil m)
Memᴰ-is_in o (p ∷ batch) (Memᴰ.head same) =
    rw (subst (λ q. same_object o q ≡ true) same (same_object_refl o)) refl
Memᴰ-is_in o (p ∷ batch) (Memᴰ.tail m) = ground (arith, Memᴰ-is_in o batch m)

Memᴰ-select :
    (f : ObjectIdentifier → Bool) (o : ObjectIdentifier) (os : List ObjectIdentifier)
    → Memᴰ o (select f os)
    → Memᴰ o os × (f o ≡ true)
unfolding select
Memᴰ-select f o [] m = absurd (Memᴰ.not-nil m)
Memᴰ-select f o (p ∷ os) m = elim (Bool-cases (f p)) [
  | inl kept ↦ elim (Memᴰ.cases_cons (rw (kept) at m)) [
    | inl same ↦ (Memᴰ.head same, ap f same ∙ kept)
    | inr later ↦ let (inside, passed) = Memᴰ-select f o os later in (Memᴰ.tail inside, passed)
  ]
  | inr left ↦
      let (inside, passed) = Memᴰ-select f o os (rw (left) at m) in (Memᴰ.tail inside, passed)
]

abbrev service : S3Client
service = record {
  State = Bucket;
  head_bucket = λ b s. (if s.there then ok tt else err not_found, s);
  create_bucket = λ b location s. (ok tt, record s { there = true });
  put_bucket_versioning = λ b on s. (ok tt, record s { versioned = on });
  put_public_access_block = λ b p s. (ok tt, record s { blocked = some p });
  version_pages = λ b s. ok (record { versions = s.objects; delete_markers = [] }) ∷ [];
  delete_objects =
      λ b batch s. (ok [], record s { objects = select (λ o. not (is_in batch o)) s.objects });
  delete_bucket = λ b s. (ok tt, record s { there = false });
}

one_page :
    (s : Bucket) (pages : List VersionsPage)
    → service.version_pages "b" s ≡ map ok pages
    → (o : ObjectIdentifier) → Memᴰ o s.objects
    → (p : VersionsPage) × Memᴰ p pages × (Memᴰ o p.versions ⊎ Memᴰ o p.delete_markers)
one_page s [] h o m = absurd (cc)
one_page s (p ∷ pages) h o m =
    (p, Memᴰ.head refl, inl (subst (λ q. Memᴰ o q.versions) (first_page s p pages h) m))
  where
    first_page :
        (s : Bucket) (p : VersionsPage) (pages : List VersionsPage)
        → service.version_pages "b" s ≡ map ok (p ∷ pages)
        → (record { versions = s.objects; delete_markers = [] }) ≡ p
    first_page s p pages h = cc

removed :
    (s t : Bucket) (batch errors : List ObjectIdentifier)
    → service.delete_objects "b" batch s ≡ (ok errors, t)
    → (o : ObjectIdentifier) → Memᴰ o t.objects
    → Memᴰ o s.objects × (Memᴰ o batch → Memᴰ o errors)
removed s t batch errors h o m =
    let kept = subst (λ l. Memᴰ o l) (ap (λ q. q.1.objects) (sym h)) m in
    let (inside, passed) = Memᴰ-select (λ p. not (is_in batch p)) o s.objects kept in
    (inside, λ on. absurd (cc (rw (Memᴰ-is_in o batch on) at passed)))

is_lawful : IsLawful service
is_lawful = record {
  exists = λ s b. s.there;
  versioned = λ s b. s.versioned;
  blocked = λ s b. s.blocked;
  objects = λ s b. s.objects;
  head_kept = λ b s. refl;
  head_found = λ b s h. elim (Bool-cases s.there) [
    | inl yes_there ↦ yes_there
    | inr not_there ↦ absurd (cc (rw (not_there) at h))
  ];
  head_not_found = λ b s h. elim (Bool-cases s.there) [
    | inl yes_there ↦ absurd (cc (rw (yes_there) at h))
    | inr not_there ↦ not_there
  ];
  head_no_such_bucket = λ b s h. elim (Bool-cases s.there) [
    | inl yes_there ↦ absurd (cc (rw (yes_there) at h))
    | inr not_there ↦ not_there
  ];
  create = λ b location s t h. ap (λ p. p.1.there) (sym h);
  versioning = λ b on s t h. (ap (λ p. p.1.there) (sym h), ap (λ p. p.1.versioned) (sym h));
  block = λ b p s t h.
      (ap (λ q. q.1.there) (sym h), ap (λ q. q.1.versioned) (sym h), ap (λ q. q.1.blocked) (sym h));
  listed = λ b s pages h o m. one_page s pages h o m;
  delete_objects = λ b batch errors s t h o m. removed s t batch errors h o m;
  delete_bucket = λ b s t h. ap (λ p. p.1.there) (sym h);
}

abbrev no_bucket : Bucket
no_bucket = record { there = false; versioned = false; blocked = none; objects = [] }

abbrev object : String → ObjectIdentifier
object v = record { key = some "demo/terraform.tfstate"; version_id = some v }

abbrev closed : PublicAccessBlock
closed = record {
  block_public_acls = true;
  block_public_policy = true;
  ignore_public_acls = true;
  restrict_public_buckets = true;
}

abbrev used : Bucket
used = record {
  there = true;
  versioned = true;
  blocked = some closed;
  objects = object "1" ∷ object "2" ∷ [];
}

abbrev created : Bucket
created = record { there = true; versioned = true; blocked = some closed; objects = [] }

abbrev gone : Bucket
gone = record { there = false; versioned = true; blocked = some closed; objects = [] }

ensure_state_bucket-secured_example :
    (is_lawful.exists created "b" ≡ true)
    × (((is_lawful.exists no_bucket "b" ≡ true) × (created ≡ no_bucket))
        ⊎ ((is_lawful.exists no_bucket "b" ≡ false)
            × (is_lawful.versioned created "b" ≡ true)
            × ((p : PublicAccessBlock) × (is_lawful.blocked created "b" ≡ some p)
                × IsAllBlocked p)))
unfolding ensure_state_bucket
ensure_state_bucket-secured_example =
    ensure_state_bucket-secured service is_lawful "us-west-2" "b" no_bucket created refl

destroy_state_bucket-emptied_example :
    (is_lawful.exists gone "b" ≡ false)
    × (((is_lawful.exists used "b" ≡ false) × (gone ≡ used))
        ⊎ ((u : Bucket) × ((o : ObjectIdentifier)
              → Memᴰ o (is_lawful.objects u "b")
              → Refused service "b" o)
            × (service.delete_bucket "b" u ≡ (ok tt, gone))))
unfolding destroy_state_bucket select nebari_infrastructure_co.Aws.Batches.drop
destroy_state_bucket-emptied_example =
    destroy_state_bucket-emptied service is_lawful "b" used gone refl

-- An account with a load balancer of the cluster `demo` and another one, and a security group that something
-- depends on at first.
pub record Plant : Type 0 where
  pub elbs : List String
  pub tries : ℕ

abbrev described : List ElbTags
described =
    record {
      load_balancer_name = some "mine";
      tags = record { key = some "kubernetes.io/cluster/demo"; value = some "owned" } ∷ [];
    }
    ∷ record { load_balancer_name = some "other"; tags = [] }
    ∷ []

abbrev without : String → List String → List String
without x [] = []
without x (y ∷ ys) = let rest = without x ys in if y == x then rest else y ∷ rest

abbrev account : Account
account = record {
  State = Plant;
  elb_pages = λ s. ok (map (λ n. some n) s.elbs) ∷ [];
  elb_describe_tags = λ names s. (ok described, s);
  elb_delete = λ name s. (ok tt, record s { elbs = without name s.elbs });
  load_balancer_pages = λ s. [];
  target_group_pages = λ s. [];
  describe_tags = λ names s. (ok [], s);
  delete_load_balancer = λ arn s. (ok tt, s);
  wait_deleted = λ arn s. (ok tt, s);
  delete_target_group = λ arn s. (ok tt, s);
  describe_security_groups = λ filters s. (ok [], s);
  revoke_security_group_ingress = λ id rules s. (ok tt, s);
  delete_security_group = λ id s.
      if leb 2 s.tries
      then (ok tt, s)
      else (err (dependency_violation "in use"), record s { tries = suc s.tries });
  pause = λ s. (ok tt, s);
}

abbrev plant : Plant
plant = record { elbs = "mine" ∷ "other" ∷ []; tries = 0 }

delete_security_group_with_retry-Outcome_example :
    Outcome account "sg-1" 12 plant (delete_security_group_with_retry account "sg-1" plant)
delete_security_group_with_retry-Outcome_example =
    delete_security_group_with_retry-Outcome account "sg-1" plant

abbrev HasOther : Plant → Type 0
HasOther s = contains s.elbs "other" ≡ true

other_left :
    (xs : List String) → contains xs "other" ≡ true → contains (without "mine" xs) "other" ≡ true
other_left [] h = h
other_left (x ∷ xs) h = elim (Bool-cases (x == "mine")) [
  | inl mine ↦
      rw (mine)
        (other_left xs (subst (λ y. contains (y ∷ xs) "other" ≡ true) ((eq_iff x "mine").0 mine) h))
  | inr kept ↦ rw (kept) (ground (arith, other_left xs))
]

tagged_is_mine :
    (d : ElbTags)
    → Memᴰ d described
    → any (has_key (classic_tag_key account "demo")) d.tags ≡ true
    → some "mine" ≡ d.load_balancer_name
tagged_is_mine d m tagged = elim (Memᴰ.cases_cons m) [
  | inl mine ↦ ap (λ e. e.load_balancer_name) (sym mine)
  | inr more ↦ elim (Memᴰ.cases_cons more) [
    | inl other ↦ absurd (
        cc (subst (λ e. any (has_key (classic_tag_key account "demo")) e.tags ≡ true) other tagged))
    | inr none_left ↦ absurd (Memᴰ.not-nil none_left)
  ]
]

tries_kept :
    (id : String) (s : Plant) → HasOther s → HasOther (account.delete_security_group id s).1
tries_kept id s h = elim (Bool-cases (leb 2 s.tries)) [
  | inl enough ↦ rw (enough) h
  | inr again ↦ rw (again) h
]

some_same : {a b : String} → ◌≡◌ {A = Option String} (some a) (some b) → a ≡ b
some_same h = cc

other_kept : IsKept account "demo" HasOther
other_kept = record {
  elb_describe_tags = λ names s h. h;
  describe_tags = λ names s h. h;
  describe_security_groups = λ filters s h. h;
  wait_deleted = λ arn s h. h;
  pause = λ s h. h;
  elb_delete = λ d (names, u, ds, given, m, tagged) name named s h.
      subst (λ name. contains (without name s.elbs) "other" ≡ true)
        (some_same
          (tagged_is_mine d (subst (λ l. Memᴰ d l) (sym (ok-injective given)) m) tagged ∙ named))
        (other_left s.elbs h);
  delete_load_balancer = λ arn tagged s h. h;
  delete_target_group = λ arn tagged s h. h;
  revoke = λ id sg rules owned refer s h. h;
  delete_security_group = λ id owned s h. tries_kept id s h;
}

cleanup_aws_load_balancers-IsKept_example :
    HasOther (cleanup_aws_load_balancers account "demo" plant).1
cleanup_aws_load_balancers-IsKept_example =
    cleanup_aws_load_balancers-IsKept account "demo" HasOther other_kept plant refl
