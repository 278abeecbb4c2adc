-- ===== src/Aws/Version/Upgrade.antt =====
-- Which upgrades `validateK8sVersionUpgrade` of pkg/providers/cluster/aws/version.go allows.
use nebari_infrastructure_co.Prelude.{
  zero, suc, String, ◌≡◌, refl, sym, ◌↔◌, ◌⊎◌, inl, inr, Bool, true, false, not, arith, ◌==◌,
  eq_iff, Bool-cases, ok, ◌>>=◌, fail_if, wrap, >>-eq-ok, fail_if-eq-ok, >>=-eq-ok,
  wrap-eq-ok_value,
}
use nebari_infrastructure_co.Prelude.Int.{ℤ, pos, negsuc, int_lt}
use nebari_infrastructure_co.Aws.Version.{
  max_int, next, int_eq, compare_versions, parse_k8s_version, bad_current, bad_desired,
  validate_k8s_version_upgrade,
}

int_eq_iff : (a b : ℤ) → (int_eq a b ≡ true) ↔ (a ≡ b)
int_eq_iff (pos a) (pos b) = ground arith
int_eq_iff (pos a) (negsuc b) = ground arith
int_eq_iff (negsuc a) (pos b) = ground arith
int_eq_iff (negsuc a) (negsuc b) = ground arith

-- No less, and no more than one more: the number or the next, unless it is the last of the type.
same_or_next :
    (b d : ℤ)
    → ((int_lt d b ≡ false) × (int_lt (next b) d ≡ false))
      ↔ ((int_eq b (pos max_int) ≡ false) × ((d ≡ b) ⊎ (d ≡ next b)))
same_or_next (pos b) (pos d) = ground arith
same_or_next (pos b) (negsuc d) = ground arith
same_or_next (negsuc zero) (pos d) = ground arith
same_or_next (negsuc zero) (negsuc d) = ground arith
same_or_next (negsuc (suc b)) (pos d) = ground arith
same_or_next (negsuc (suc b)) (negsuc d) = ground arith

not-false : (b : Bool) → not b ≡ false → b ≡ true
not-false b h = ground arith

abbrev pub Allowed : ℤ × ℤ → ℤ × ℤ → Type 0
Allowed (major, minor) (desired_major, desired_minor) =
    (desired_major ≡ major)
    × (int_eq minor (pos max_int) ≡ false)
    × ((desired_minor ≡ minor) ⊎ (desired_minor ≡ next minor))

compare_versions_iff :
    (current desired : String) (c d : ℤ × ℤ)
    → (compare_versions current desired c d ≡ ok tt) ↔ Allowed c d
compare_versions_iff current desired (a, b) (c, d) =
    let (same, same_back) = int_eq_iff a c in
    let (near, near_back) = same_or_next b d in
    (
      λ h.
          let (fore, no_skip) = >>-eq-ok _ (fail_if (int_lt (next b) d) _) h in
          let (equal, no_downgrade) =
            >>-eq-ok (fail_if (not (int_eq a c)) _) (fail_if (int_lt d b) _) fore in
          let (top, close) = near (
            fail_if-eq-ok (int_lt d b) _ no_downgrade,
            fail_if-eq-ok (int_lt (next b) d) _ no_skip,
          ) in
          (
            sym (same (not-false (int_eq a c) (fail_if-eq-ok (not (int_eq a c)) _ equal))),
            top,
            close,
          ),
      λ (equal, top, close).
          let (no_downgrade, no_skip) = near_back (top, close) in
          rw (same_back (sym equal), no_downgrade, no_skip) refl,
    )

abbrev Both : String → String → Type 0
Both current desired =
    (c : ℤ × ℤ) × (d : ℤ × ℤ) × (parse_k8s_version current ≡ ok c)
    × (parse_k8s_version desired ≡ ok d)
    × Allowed c d

upgrade-Both :
    (current desired : String)
    → (wrap (bad_current current) (parse_k8s_version current) >>= λ c.
        wrap (bad_desired desired) (parse_k8s_version desired)
        >>= compare_versions current desired c)
      ≡ ok tt
    → Both current desired
upgrade-Both current desired h =
    let (c, read, h₁) = >>=-eq-ok (wrap (bad_current current) (parse_k8s_version current)) _ h in
    let (d, read_too, h₂) =
      >>=-eq-ok (wrap (bad_desired desired) (parse_k8s_version desired)) _ h₁ in
    (
      c,
      d,
      wrap-eq-ok_value (bad_current current) (parse_k8s_version current) read,
      wrap-eq-ok_value (bad_desired desired) (parse_k8s_version desired) read_too,
      (compare_versions_iff current desired c d).0 h₂,
    )

-- An upgrade is allowed exactly when the two versions are one text, or both can be read, their major
-- numbers are the same, and the desired minor number is the current one or the next, the current one not
-- being the largest number there is.
pub validate_k8s_version_upgrade_iff :
    (current desired : String)
    → (validate_k8s_version_upgrade current desired ≡ ok tt) ↔ (
        (current ≡ desired)
        ⊎ ((c : ℤ × ℤ) × (d : ℤ × ℤ) × (parse_k8s_version current ≡ ok c)
            × (parse_k8s_version desired ≡ ok d)
            × Allowed c d))
unfolding validate_k8s_version_upgrade
validate_k8s_version_upgrade_iff current desired = (
  λ h. elim (Bool-cases (current == desired)) [
    | inl same ↦ inl ((eq_iff current desired).0 same)
    | inr differ ↦ inr (upgrade-Both current desired (rw (differ) at h))
  ],
  elim [
    | inl same ↦ rw ((eq_iff current desired).1 same) refl
    | inr (c, d, read, read_too, allowed) ↦ elim (Bool-cases (current == desired)) [
      | inl same ↦ rw (same) refl
      | inr differ ↦
          rw (differ, read, read_too) ((compare_versions_iff current desired c d).1 allowed)
    ]
  ],
)
