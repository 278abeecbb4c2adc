-- ===== src/Hetzner/Groups.antt =====
-- The body of the loop of `validateNodeGroups` in pkg/providers/cluster/hetzner/config.go.
use nebari_infrastructure_co.Prelude.{
  String, ◌≡◌, refl, subst, ◌↔◌, ◌⊎◌, inl, inr, true, false, ◌||◌, Option, none, some, arith, ◌==◌,
  eq_iff, Bool-cases, ok, >>-eq-ok, >>-ok,
}
use nebari_infrastructure_co.Prelude.Int.{is_positive, is_negative, int_lt}
use nebari_infrastructure_co.Hetzner.Patterns.{safe_identifier}
use nebari_infrastructure_co.Hetzner.{Autoscaling, Entry, is_autoscaled, check_group, check_bounds}

-- Absent, not enabled, or from a number that is not negative to one that is positive and not less.
abbrev pub HasBounds : Option Autoscaling → Type 0
HasBounds none = Unit
HasBounds (some a) =
    (a.enabled ≡ false)
    ⊎ ((is_negative a.min_instances ≡ false)
        × (is_positive a.max_instances ≡ true)
        × (int_lt a.max_instances a.min_instances ≡ false))

pub record IsValidGroup (e : Entry) : Type 0 where
  pub named : safe_identifier e.name ≡ true
  pub typed : safe_identifier e.node_group.instance_type ≡ true
  pub counted : (is_positive e.node_group.count || is_autoscaled e.node_group) ≡ true
  pub located : (e.node_group.location == "" || safe_identifier e.node_group.location) ≡ true
  -- A group of masters stands where the configuration says, and keeps its size.
  pub fixed :
      e.node_group.master ≡ true
      → (e.node_group.location == "" ≡ true) × (is_autoscaled e.node_group ≡ false)
  pub bounded : HasBounds e.node_group.autoscaling

pub safe_not_empty : (s : String) → safe_identifier s ≡ true → (s == "") ≡ false
unfolding safe_identifier
safe_not_empty s h = elim (Bool-cases (s == "")) [
  | inl empty ↦ absurd (cc (subst (λ t. safe_identifier t ≡ true) ((eq_iff s "").0 empty) h))
  | inr some_text ↦ some_text
]

check_bounds_iff :
    (name : String) (a : Option Autoscaling) → (check_bounds name a ≡ ok tt) ↔ HasBounds a
check_bounds_iff name none = (λ h. tt, λ h. refl)
check_bounds_iff name (some a) = ground (arith)

pub check_group-IsValidGroup : (e : Entry) → check_group e ≡ ok tt → IsValidGroup e
unfolding check_group
check_group-IsValidGroup e h = record {
  named = ground arith;
  typed = ground arith;
  counted = ground arith;
  located = ground arith;
  fixed = ground arith;
  bounded =
      (check_bounds_iff e.name e.node_group.autoscaling).0
        ((>>-eq-ok _ (check_bounds e.name e.node_group.autoscaling) h).1);
}

pub IsValidGroup-check_group : (e : Entry) → IsValidGroup e → check_group e ≡ ok tt
unfolding check_group
IsValidGroup-check_group e v =
    >>-ok _ (check_bounds e.name e.node_group.autoscaling)
      (ground (
        arith,
        v.named,
        v.typed,
        v.counted,
        v.located,
        v.fixed,
        safe_not_empty e.node_group.instance_type v.typed,
      ))
      ((check_bounds_iff e.name e.node_group.autoscaling).1 v.bounded)
