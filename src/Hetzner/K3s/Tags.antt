-- ===== src/Hetzner/K3s/Tags.antt =====
-- The tags that `isPrerelease` of pkg/providers/cluster/hetzner/k3s.go takes for those of pre-releases.
use nebari_infrastructure_co.Prelude.{
  Char, String, ◌<>◌, ◌≡◌, refl, sym, ap, ◌∙◌, subst, inl, inr, true, ◌↔◌, arith, Bool-cases,
}
use text.Mathlib.TextLemmas.{nil-append, cons-append}
use nebari_infrastructure_co.Prelude.Text.{has_prefix, trim_prefix, drop_chars}
use nebari_infrastructure_co.Prelude.Prefix.{
  has_prefix-append, drop_chars-append, append-drop_chars,
}
use nebari_infrastructure_co.Hetzner.Patterns.{is_digit}
use nebari_infrastructure_co.Hetzner.K3s.{
  skip_digits, begins_prerelease, is_prerelease_here, is_prerelease,
}

abbrev pub AllDigits : String → Type 0
AllDigits String.[] = Unit
AllDigits (String.◌∷◌ c s) = (is_digit c ≡ true) × AllDigits s

-- The words that mark a pre-release.
pub data IsMark : String → Type 0 where
  rc : IsMark "-rc"
  alpha : IsMark "-alpha"
  beta : IsMark "-beta"

-- A mark, digits if there are any, and the suffix of k3s, one after another somewhere in the tag.
pub data IsMarked (tag : String) : Type 0 where
  marked :
      (before mark digits after : String)
      → IsMark mark
      → AllDigits digits
      → tag ≡ before <> (mark <> (digits <> ("+k3s" <> after)))
      → IsMarked tag

skip_digits-split :
    (s : String) → (digits : String) × AllDigits digits × (s ≡ digits <> skip_digits s)
unfolding skip_digits
skip_digits-split String.[] = ("", tt, sym (nil-append ""))
skip_digits-split (String.◌∷◌ c s) = elim (Bool-cases (is_digit c)) [
  | inl digit ↦
      let (digits, all, same) = skip_digits-split s in
      (
        String.◌∷◌ c digits,
        (digit, all),
        rw digit (ap (λ t. String.◌∷◌ c t) same ∙ sym (cons-append c digits (skip_digits s))),
      )
  | inr other ↦ ("", tt, rw other (sym (nil-append (String.◌∷◌ c s))))
]

skip_digits_none : (u : String) → has_prefix "+k3s" u ≡ true → skip_digits u ≡ u
unfolding skip_digits has_prefix
skip_digits_none String.[] h = refl
skip_digits_none (String.◌∷◌ c u) h = elim (Bool-cases (is_digit c)) [
  | inl digit ↦ absurd (ground arith)
  | inr other ↦ rw other refl
]

skip_digits-append :
    (digits u : String)
    → AllDigits digits
    → has_prefix "+k3s" u ≡ true
    → skip_digits (digits <> u) ≡ u
unfolding skip_digits
skip_digits-append String.[] u all h = rw nil-append (skip_digits_none u h)
skip_digits-append (String.◌∷◌ c digits) u (digit, all) h =
    rw (cons-append c digits u, digit) (skip_digits-append digits u all h)

begins_prerelease-split :
    (mark s : String)
    → begins_prerelease mark s ≡ true
    → (digits : String) × (after : String) × AllDigits digits
      × (s ≡ mark <> (digits <> ("+k3s" <> after)))
unfolding trim_prefix
begins_prerelease-split mark s h = elim (Bool-cases (has_prefix mark s)) [
  | inl begins ↦
      let rest = drop_chars mark s in
      let (digits, all, same) = skip_digits-split rest in
      let suffix : has_prefix "+k3s" (skip_digits rest) ≡ true = rw begins at h in
      let after = drop_chars "+k3s" (skip_digits rest) in
      (
        digits,
        after,
        all,
        append-drop_chars mark s begins
            ∙ ap (λ t. mark <> t)
                (same ∙ ap (λ t. digits <> t) (append-drop_chars "+k3s" (skip_digits rest) suffix)),
      )
  | inr other ↦ absurd (cc (rw other at h))
]

begins_prerelease-append :
    (mark digits after : String)
    → AllDigits digits
    → begins_prerelease mark (mark <> (digits <> ("+k3s" <> after))) ≡ true
unfolding trim_prefix
begins_prerelease-append mark digits after all =
    let suffix = has_prefix-append "+k3s" after in
    rw
      (
        has_prefix-append mark (digits <> ("+k3s" <> after)),
        drop_chars-append mark (digits <> ("+k3s" <> after)),
        skip_digits-append digits ("+k3s" <> after) all suffix,
      )
      suffix

here-IsMarked : (s : String) → is_prerelease_here s ≡ true → IsMarked s
here-IsMarked s h = elim (Bool-cases (begins_prerelease "-rc" s)) [
  | inl is ↦ at_start rc (begins_prerelease-split "-rc" s is)
  | inr not_rc ↦ elim (Bool-cases (begins_prerelease "-alpha" s)) [
    | inl is ↦ at_start alpha (begins_prerelease-split "-alpha" s is)
    | inr not_alpha ↦ elim (Bool-cases (begins_prerelease "-beta" s)) [
      | inl is ↦ at_start beta (begins_prerelease-split "-beta" s is)
      | inr not_beta ↦ absurd (cc (rw (not_rc, not_alpha, not_beta) at h))
    ]
  ]
]
  where
    at_start :
        {mark : String}
        → IsMark mark
        → ((digits : String) × (after : String) × AllDigits digits
            × (s ≡ mark <> (digits <> ("+k3s" <> after))))
        → IsMarked s
    at_start {mark} is (digits, after, all, same) =
        marked "" mark digits after is all (same ∙ sym (nil-append _))

cons-IsMarked : (c : Char) (s : String) → IsMarked s → IsMarked (String.◌∷◌ c s)
cons-IsMarked c s (marked before mark digits after is all same) =
    marked (String.◌∷◌ c before) mark digits after is all (
      ap (λ t. String.◌∷◌ c t) same
      ∙ sym (cons-append c before (mark <> (digits <> ("+k3s" <> after)))))

is_prerelease-IsMarked : (s : String) → is_prerelease s ≡ true → IsMarked s
unfolding is_prerelease
is_prerelease-IsMarked String.[] h = here-IsMarked "" h
is_prerelease-IsMarked (String.◌∷◌ c s) h =
    elim (Bool-cases (is_prerelease_here (String.◌∷◌ c s))) [
      | inl here ↦ here-IsMarked (String.◌∷◌ c s) here
      | inr later ↦ cons-IsMarked c s (is_prerelease-IsMarked s (rw later at h))
    ]

mark_here :
    (mark digits after : String)
    → IsMark mark
    → AllDigits digits
    → is_prerelease_here (mark <> (digits <> ("+k3s" <> after))) ≡ true
mark_here mark digits after rc all = rw (begins_prerelease-append "-rc" digits after all) refl
mark_here mark digits after alpha all =
    let begins = begins_prerelease-append "-alpha" digits after all in ground arith
mark_here mark digits after beta all =
    let begins = begins_prerelease-append "-beta" digits after all in ground arith

is_prerelease_of_here : (s : String) → is_prerelease_here s ≡ true → is_prerelease s ≡ true
unfolding is_prerelease
is_prerelease_of_here String.[] h = h
is_prerelease_of_here (String.◌∷◌ c s) h = rw h refl

is_prerelease-append :
    (before s : String) → is_prerelease s ≡ true → is_prerelease (before <> s) ≡ true
unfolding is_prerelease
is_prerelease-append String.[] s h = rw nil-append h
is_prerelease-append (String.◌∷◌ c before) s h =
    rw (cons-append c before s) (ground (arith, is_prerelease-append before s h))

-- The test takes exactly the tags with a mark.
pub is_prerelease_iff : (s : String) → (is_prerelease s ≡ true) ↔ IsMarked s
is_prerelease_iff s = (is_prerelease-IsMarked s, back s)
  where
    back : (s : String) → IsMarked s → is_prerelease s ≡ true
    back s (marked before mark digits after is all same) =
        let end = mark <> (digits <> ("+k3s" <> after)) in
        subst (λ t. is_prerelease t ≡ true) (sym same)
          (is_prerelease-append before end
            (is_prerelease_of_here end (mark_here mark digits after is all)))
