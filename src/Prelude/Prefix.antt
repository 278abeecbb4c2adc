-- ===== src/Prelude/Prefix.antt =====
-- What `has_prefix`, `drop_chars` and `split_on` say of a text.
use nebari_infrastructure_co.Prelude.{
  Char, code, String, ◌<>◌, ◌≡◌, refl, sym, ap, ◌∙◌, ◌⊎◌, inl, inr, true, false, List, [], ◌∷◌,
  arith, nat_eq, is_char, Bool-cases,
}
use text.Mathlib.TextEquality.{codes_equal}
use text.Mathlib.TextLemmas.{nil-append, cons-append}
use nebari_infrastructure_co.Prelude.Text.{has_prefix, drop_chars, split_on}

pub same_code : (c d : Char) → nat_eq (code c) (code d) ≡ true → c ≡ d
same_code c d h = codes_equal c d (ground arith)

pub has_prefix-append : (p s : String) → has_prefix p (p <> s) ≡ true
unfolding has_prefix
has_prefix-append String.[] s = refl
has_prefix-append (String.◌∷◌ c p) s = rw (cons-append c p) (ground (arith, has_prefix-append p s))

pub drop_chars-append : (p s : String) → drop_chars p (p <> s) ≡ s
drop_chars-append String.[] s = nil-append s
drop_chars-append (String.◌∷◌ c p) s = rw (cons-append c p) (drop_chars-append p s)

pub append-drop_chars : (p s : String) → has_prefix p s ≡ true → s ≡ p <> drop_chars p s
unfolding has_prefix
append-drop_chars String.[] s h = sym (nil-append s)
append-drop_chars (String.◌∷◌ c p) String.[] h = absurd (cc)
append-drop_chars (String.◌∷◌ c p) (String.◌∷◌ d s) h =
    elim (Bool-cases (nat_eq (code c) (code d))) [
      | inl same ↦ rw (cons-append c p) (
          ap (λ x. String.◌∷◌ x s) (sym (same_code c d same))
          ∙ ap (λ t. String.◌∷◌ c t) (append-drop_chars p s (rw same at h)))
      | inr other ↦ absurd (cc (rw other at h))
    ]

-- No character of the text is a dot.
abbrev pub NoDot : String → Type 0
NoDot String.[] = Unit
NoDot (String.◌∷◌ c s) = (is_char b'.' c ≡ false) × NoDot s

dot_begins :
    (c : Char) (s : String) → is_char b'.' c ≡ true → has_prefix "." (String.◌∷◌ c s) ≡ true
unfolding has_prefix
dot_begins c s h = ground arith

dot_is : (c : Char) (s : String) → is_char b'.' c ≡ true → String.◌∷◌ c s ≡ "." <> s
dot_is c s h = append-drop_chars "." (String.◌∷◌ c s) (dot_begins c s h)

-- The first of the parts at the dots of a text, and what follows it.
pub split_on-first :
    (s : String)
    → (a : String) × (ps : List String) × NoDot a
      × (split_on b'.' s ≡ a ∷ ps)
      × (((ps ≡ []) × (s ≡ a)) ⊎ ((t : String) × (s ≡ a <> ("." <> t)) × (split_on b'.' t ≡ ps)))
unfolding split_on
split_on-first String.[] = ("", [], tt, refl, inl (refl, refl))
split_on-first (String.◌∷◌ c s) = elim (Bool-cases (is_char b'.' c)) [
  | inl dot ↦ (
    "",
    split_on b'.' s,
    tt,
    rw dot refl,
    inr (s, dot_is c s dot ∙ sym (nil-append ("." <> s)), refl),
  )
  | inr other ↦
      let (a, ps, clean, parts, rest) = split_on-first s in
      (
        String.◌∷◌ c a,
        ps,
        (other, clean),
        rw (other, parts) refl,
        elim rest [
          | inl (last, same) ↦ inl (last, ap (λ t. String.◌∷◌ c t) same)
          | inr (t, same, more) ↦
              inr (t, ap (λ u. String.◌∷◌ c u) same ∙ sym (cons-append c a ("." <> t)), more)
        ],
      )
]

pub split_on_one : (a : String) → NoDot a → split_on b'.' a ≡ a ∷ []
unfolding split_on
split_on_one String.[] clean = refl
split_on_one (String.◌∷◌ c a) (other, clean) = rw (other, split_on_one a clean) refl

pub split_on-append :
    (a t : String) → NoDot a → split_on b'.' (a <> ("." <> t)) ≡ a ∷ split_on b'.' t
unfolding split_on
split_on-append String.[] t clean = rw (nil-append, cons-append, nil-append) refl
split_on-append (String.◌∷◌ c a) t (other, clean) =
    rw (cons-append c a ("." <> t), other, split_on-append a t clean) refl
