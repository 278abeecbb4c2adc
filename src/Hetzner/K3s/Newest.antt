-- ===== src/Hetzner/K3s/Newest.antt =====
-- `resolveK3sVersion` of pkg/providers/cluster/hetzner/k3s.go gives the newest stable release that fits.
use nebari_infrastructure_co.Prelude.{
  String, ◌<>◌, ◌≡◌, refl, sym, ap, ◌∙◌, subst, ◌↔◌, ◌⊎◌, inl, inr, true, false, Option, none, some,
  List, [], ◌∷◌, ◌++◌, Bool-cases, Option-cases, All, All-reverse, ok, ok-injective,
}
use mathlib.Core.List.{reverse, reverse-cons, reverse-reverse}
use nebari_infrastructure_co.Prelude.Text.{has_part}
use nebari_infrastructure_co.Prelude.Text.{has_prefix, drop_chars}
use nebari_infrastructure_co.Prelude.Prefix.{has_prefix-append, append-drop_chars}
use nebari_infrastructure_co.Hetzner.K3s.Tags.{IsMarked, is_prerelease_iff}
use nebari_infrastructure_co.Hetzner.K3s.Names.{Names, match_prefix_iff}
use nebari_infrastructure_co.Hetzner.K3s.{
  is_prerelease, is_match, first_match, match_prefix, resolve_k3s_version, resolve_prefix,
}

-- A stable tag that begins with the text.
abbrev pub Fits : String → String → Type 0
Fits prefix tag = (¬ IsMarked tag) × ((rest : String) × (tag ≡ prefix <> rest))

is_match_iff : (prefix tag : String) → (is_match prefix tag ≡ true) ↔ Fits prefix tag
is_match_iff prefix tag = elim (Bool-cases (is_prerelease tag)) [
  | inl marked ↦ (
    λ h. absurd (cc (rw marked at h)),
    λ (stable, _). absurd (stable ((is_prerelease_iff tag).0 marked)),
  )
  | inr stable ↦ (
    λ h. (
      λ m. cc ((is_prerelease_iff tag).1 m, stable),
      (drop_chars prefix tag, append-drop_chars prefix tag (rw stable at h)),
    ),
    λ (_, (rest, same)). rw stable (begins rest same),
  )
]
  where
    begins : (rest : String) → tag ≡ prefix <> rest → has_prefix prefix tag ≡ true
    begins rest same = rw same (has_prefix-append prefix rest)

unfit : (prefix tag : String) → is_match prefix tag ≡ false → ¬ Fits prefix tag
unfit prefix tag h fits = cc (h, (is_match_iff prefix tag).1 fits)

not_match : (prefix tag : String) → ¬ Fits prefix tag → is_match prefix tag ≡ false
not_match prefix tag h = elim (Bool-cases (is_match prefix tag)) [
  | inl fits ↦ absurd (h ((is_match_iff prefix tag).0 fits))
  | inr other ↦ other
]

-- The last of the tags that fit: all after it do not.
pub data Newest (prefix : String) (tag : String) : List String → Type 0 where
  last :
      {tags : List String}
      → Fits prefix tag
      → All (λ t. ¬ Fits prefix t) tags
      → Newest prefix tag (tag ∷ tags)
  after : {t : String} {tags : List String} → Newest prefix tag tags → Newest prefix tag (t ∷ tags)

first_match-append :
    (prefix : String) (xs ys : List String)
    → first_match prefix xs ≡ none
    → first_match prefix (xs ++ ys) ≡ first_match prefix ys
unfolding first_match
first_match-append prefix [] ys h = refl
first_match-append prefix (x ∷ xs) ys h = elim (Bool-cases (is_match prefix x)) [
  | inl fits ↦ absurd (cc (rw (fits) at h))
  | inr not_it ↦ rw (not_it) (first_match-append prefix xs ys (rw (not_it) at h))
]

first_match_found :
    (prefix tag : String) (xs ys : List String)
    → first_match prefix xs ≡ some tag
    → first_match prefix (xs ++ ys) ≡ some tag
unfolding first_match
first_match_found prefix tag [] ys h = absurd (cc)
first_match_found prefix tag (x ∷ xs) ys h = elim (Bool-cases (is_match prefix x)) [
  | inl fits ↦ rw (fits) (rw (fits) at h)
  | inr not_it ↦ rw (not_it) (first_match_found prefix tag xs ys (rw (not_it) at h))
]

none-All :
    (prefix : String) (xs : List String)
    → first_match prefix xs ≡ none
    → All (λ t. ¬ Fits prefix t) xs
unfolding first_match
none-All prefix [] h = tt
none-All prefix (x ∷ xs) h = elim (Bool-cases (is_match prefix x)) [
  | inl fits ↦ absurd (cc (rw (fits) at h))
  | inr not_it ↦ (unfit prefix x not_it, none-All prefix xs (rw (not_it) at h))
]

All-none_found :
    (prefix : String) (xs : List String)
    → All (λ t. ¬ Fits prefix t) xs
    → first_match prefix xs ≡ none
unfolding first_match
All-none_found prefix [] h = refl
All-none_found prefix (x ∷ xs) (not_it, h) =
    rw (not_match prefix x not_it) (All-none_found prefix xs h)

first_match-one :
    (prefix tag t : String) → first_match prefix (t ∷ []) ≡ some tag → Fits prefix t × (t ≡ tag)
unfolding first_match
first_match-one prefix tag t h = elim (Bool-cases (is_match prefix t)) [
  | inl fits ↦ ((is_match_iff prefix t).0 fits, cc (rw (fits) at h))
  | inr not_it ↦ absurd (cc (rw (not_it) at h))
]

reverse-Newest :
    (prefix tag : String) (ts : List String)
    → first_match prefix (reverse ts) ≡ some tag
    → Newest prefix tag ts
unfolding first_match
reverse-Newest prefix tag [] h = absurd (cc)
reverse-Newest prefix tag (t ∷ ts) h =
    let split = rw (reverse-cons) at h in
    elim (Option-cases (first_match prefix (reverse ts))) [
      | inl none_before ↦
          let (fits, same) =
            first_match-one prefix tag t
              (sym (first_match-append prefix (reverse ts) (t ∷ []) none_before) ∙ split) in
          let rest =
            All-reverse (λ x. ¬ Fits prefix x) (reverse ts)
              (none-All prefix (reverse ts) none_before) in
          subst (λ x. Newest prefix x (t ∷ ts)) same (last fits (rw (reverse-reverse) at rest))
      | inr (found, here) ↦
          let again = sym (first_match_found prefix found (reverse ts) (t ∷ []) here) ∙ split in
          after (reverse-Newest prefix tag ts (here ∙ again))
    ]

Newest-reverse :
    (prefix tag : String) {ts : List String}
    → Newest prefix tag ts
    → first_match prefix (reverse ts) ≡ some tag
unfolding first_match
Newest-reverse prefix tag (last {tags} fits none_after) = rw (reverse-cons) (
    first_match-append prefix (reverse tags) (tag ∷ [])
      (All-none_found prefix (reverse tags) (All-reverse (λ x. ¬ Fits prefix x) tags none_after))
    ∙ rw ((is_match_iff prefix tag).1 fits) refl)
Newest-reverse prefix tag (after {t} {tags} h) =
    rw (reverse-cons)
      (first_match_found prefix tag (reverse tags) (t ∷ []) (Newest-reverse prefix tag h))

resolve_prefix_iff :
    (version : String) (releases : List String) (p : Option String) (tag : String)
    → (resolve_prefix version releases p ≡ ok tag)
      ↔ ((prefix : String) × (p ≡ some prefix) × Newest prefix tag releases)
resolve_prefix_iff version releases none tag = (λ h. absurd (cc), λ (prefix, h, n). absurd (cc))
resolve_prefix_iff version releases (some prefix) tag = (
  λ h. elim (Option-cases (first_match prefix (reverse releases))) [
    | inl missing ↦ absurd (cc (rw (missing) at h))
    | inr (found, here) ↦
        let same = ok-injective (rw (here) at h) in
        (prefix, refl, reverse-Newest prefix tag releases (here ∙ ap some same))
  ],
  λ (q, same, newest).
      rw
        (Newest-reverse prefix tag
          (subst (λ x. Newest x tag releases) (sym (some_injective same)) newest))
        refl,
)
  where
    some_injective : {a b : String} → ◌≡◌ {A = Option String} (some a) (some b) → a ≡ b
    some_injective h = cc

-- A version that names a release of k3s is resolved to itself. Any other is resolved to a tag exactly when
-- it has, after a "v" that may be left out, two or three parts between its dots, and the tag is, in the list
-- of the releases, the last one that begins with "v", these parts, and the dot or the plus sign that ends
-- the last of them, and that has nowhere a mark of a pre-release, digits if any, and "+k3s" in a row.
pub resolve_k3s_version_iff :
    (version : String) (releases : List String) (tag : String)
    → (resolve_k3s_version version releases ≡ ok tag) ↔ (
        ((has_part "+k3s" version ≡ true) × (version ≡ tag))
        ⊎ ((has_part "+k3s" version ≡ false)
            × ((prefix : String) × Names version prefix × Newest prefix tag releases)))
unfolding resolve_k3s_version
resolve_k3s_version_iff version releases tag =
    let (fore, back) = resolve_prefix_iff version releases (match_prefix version) tag in
    let named = match_prefix_iff version in
    elim (Bool-cases (has_part "+k3s" version)) [
      | inl explicit ↦ (
        λ h. inl (explicit, ok-injective (rw (explicit) at h)),
        elim [ inl (yes_it, same) ↦ rw (explicit) (ap ok same) | inr (not_it, h) ↦ absurd (cc) ],
      )
      | inr short ↦ (
        λ h.
            let (prefix, found, newest) = fore (rw (short) at h) in
            inr (short, (prefix, (named prefix).0 found, newest)),
        elim [
          | inl (yes_it, same) ↦ absurd (cc)
          | inr (not_it, (prefix, names, newest)) ↦
              rw (short) (back (prefix, (named prefix).1 names, newest))
        ],
      )
    ]
