-- ===== src/Hetzner/K3s/Names.antt =====
-- The beginning of the tags that a version asks for: `resolveK3sVersion` of
-- pkg/providers/cluster/hetzner/k3s.go.
use nebari_infrastructure_co.Prelude.{
  String, ◌<>◌, ◌≡◌, refl, sym, ap, ◌∙◌, subst, inl, inr, Option, some, ◌↔◌,
}
use nebari_infrastructure_co.Prelude.Text.{trim_prefix}
use nebari_infrastructure_co.Prelude.Prefix.{NoDot, split_on-first, split_on_one, split_on-append}
use nebari_infrastructure_co.Hetzner.K3s.{match_prefix}

-- A version of two or three parts without dots, after a "v" that may be left out, and how a tag for it
-- begins: with the "v" and the parts, and the dot or the plus sign that ends the last of them.
pub data Names (version : String) : String → Type 0 where
  minor :
      (a b : String)
      → NoDot a
      → NoDot b
      → trim_prefix "v" version ≡ a <> ("." <> b)
      → Names version ("v" <> (a <> ("." <> (b <> "."))))
  patch :
      (a b c : String)
      → NoDot a
      → NoDot b
      → NoDot c
      → trim_prefix "v" version ≡ a <> ("." <> (b <> ("." <> c)))
      → Names version ("v" <> (a <> ("." <> (b <> ("." <> (c <> "+"))))))

some_same : {p q : String} → ◌≡◌ {A = Option String} (some p) (some q) → p ≡ q
some_same h = cc

Names-match_prefix :
    (version : String) {prefix : String} → Names version prefix → match_prefix version ≡ some prefix
unfolding match_prefix
Names-match_prefix version (minor a b na nb same) =
    rw (match_prefix, same, split_on-append a b na, split_on_one b nb) refl
Names-match_prefix version (patch a b c na nb nc same) =
    rw
      (
        match_prefix,
        same,
        split_on-append a (b <> ("." <> c)) na,
        split_on-append b c nb,
        split_on_one c nc,
      )
      refl

match_prefix-Names :
    (version prefix : String) → match_prefix version ≡ some prefix → Names version prefix
unfolding match_prefix
match_prefix-Names version prefix h =
    let (a, tail_a, na, parts, rest) = split_on-first (trim_prefix "v" version) in
    elim rest [
      | inl (one, same) ↦ absurd (cc (rw (match_prefix, parts, one) at h))
      | inr (t, joined, split) ↦
          let (b, bs, nb, parts_b, rest_b) = split_on-first t in
          elim rest_b [
            | inl (two, same_b) ↦
                subst (Names version)
                  (some_same (rw (match_prefix, parts, sym split, parts_b, two) at h))
                  (minor a b na nb (joined ∙ ap (λ u. a <> ("." <> u)) same_b))
            | inr (u, joined_b, split_b) ↦
                let (c, cs, nc, parts_c, rest_c) = split_on-first u in
                elim rest_c [
                  | inl (three, same_c) ↦
                      subst (Names version)
                        (some_same (
                          rw (match_prefix, parts, sym split, parts_b, sym split_b, parts_c, three)
                            at h))
                        (patch a b c na nb nc (
                          joined
                          ∙ ap (λ x. a <> ("." <> x))
                              (joined_b ∙ ap (λ x. b <> ("." <> x)) same_c)))
                  | inr (w, joined_c, split_c) ↦
                      let (d, ds, nd, parts_d, rest_d) = split_on-first w in
                      absurd (
                        cc (
                          rw
                            (
                              match_prefix,
                              parts,
                              sym split,
                              parts_b,
                              sym split_b,
                              parts_c,
                              sym split_c,
                              parts_d,
                            )
                            at h))
                ]
          ]
    ]

-- The code finds the beginning that the version names, when there is one.
pub match_prefix_iff :
    (version prefix : String) → (match_prefix version ≡ some prefix) ↔ Names version prefix
match_prefix_iff version prefix = (match_prefix-Names version prefix, Names-match_prefix version)
