-- ===== src/Hetzner/Order.antt =====
-- The order of texts by which `sortWorkers` of pkg/providers/cluster/hetzner/config.go sorts, and that
-- entries may be moved in any order.
use nebari_infrastructure_co.Prelude.{
  Char, code, String, ◌≡◌, refl, sym, ap, ◌∙◌, ◌⊎◌, inl, inr, true, false, List, [], ◌∷◌, arith,
  nat_eq, Bool-cases, All,
}
use mathlib.Core.List.{Permᴰ}
use mathlib.Core.List.Permᴰ
use nebari_infrastructure_co.Prelude.Prefix.{same_code}
use nebari_infrastructure_co.Hetzner.{Entry, text_lt, sink}

text_lt_irreflexive : (s : String) → text_lt s s ≡ false
unfolding text_lt
text_lt_irreflexive String.[] = refl
text_lt_irreflexive (String.◌∷◌ c s) = ground (arith, text_lt_irreflexive s)

text_lt_trans : (s t u : String) → text_lt s t ≡ true → text_lt t u ≡ true → text_lt s u ≡ true
unfolding text_lt
text_lt_trans String.[] String.[] u h k = absurd (cc)
text_lt_trans String.[] (String.◌∷◌ d t) String.[] h k = absurd (cc)
text_lt_trans String.[] (String.◌∷◌ d t) (String.◌∷◌ e u) h k = refl
text_lt_trans (String.◌∷◌ c s) String.[] u h k = absurd (cc)
text_lt_trans (String.◌∷◌ c s) (String.◌∷◌ d t) String.[] h k = absurd (cc)
text_lt_trans (String.◌∷◌ c s) (String.◌∷◌ d t) (String.◌∷◌ e u) h k =
    ground (arith, text_lt_trans s t u)

pub text_lt_asym : (s t : String) → text_lt s t ≡ true → text_lt t s ≡ false
text_lt_asym s t h = elim (Bool-cases (text_lt t s)) [
  | inl back ↦ absurd (cc (text_lt_trans s t s h back, text_lt_irreflexive s))
  | inr no_back ↦ no_back
]

same_heads :
    (c d : Char) (s t : String)
    → text_lt (String.◌∷◌ c s) (String.◌∷◌ d t) ≡ false
    → text_lt (String.◌∷◌ d t) (String.◌∷◌ c s) ≡ false
    → (nat_eq (code c) (code d) ≡ true) × (text_lt s t ≡ false) × (text_lt t s ≡ false)
unfolding text_lt
same_heads c d s t h k = ground arith

text_lt_total : (s t : String) → text_lt s t ≡ false → text_lt t s ≡ false → s ≡ t
unfolding text_lt
text_lt_total String.[] String.[] h k = refl
text_lt_total String.[] (String.◌∷◌ d t) h k = absurd (cc)
text_lt_total (String.◌∷◌ c s) String.[] h k = absurd (cc)
text_lt_total (String.◌∷◌ c s) (String.◌∷◌ d t) h k =
    let (same, ahead, behind) = same_heads c d s t h k in
    ap (λ x. String.◌∷◌ x s) (same_code c d same)
    ∙ ap (λ x. String.◌∷◌ d x) (text_lt_total s t ahead behind)

-- Of two texts that differ, one comes before the other, and not the other way round.
differ-text_lt :
    (s t : String)
    → (s ≡ t → ⊥)
    → ((text_lt s t ≡ true) × (text_lt t s ≡ false))
      ⊎ ((text_lt s t ≡ false) × (text_lt t s ≡ true))
differ-text_lt s t differ = elim (Bool-cases (text_lt s t)) [
  | inl before ↦ inl (before, text_lt_asym s t before)
  | inr other ↦ elim (Bool-cases (text_lt t s)) [
    | inl after ↦ inr (other, after)
    | inr neither ↦ absurd (differ (text_lt_total s t other neither))
  ]
]

sink_past :
    (e l : Entry) (left : List Entry)
    → text_lt e.name l.name ≡ true
    → sink e (l ∷ left) ≡ l ∷ sink e left
unfolding sink
sink_past e l left h = rw (h) refl

-- Two entries with different names may be moved in either order.
pub sink_comm :
    (d e : Entry) (left : List Entry)
    → (d.name ≡ e.name → ⊥)
    → sink d (sink e left) ≡ sink e (sink d left)
unfolding sink
sink_comm d e [] differ = elim (differ-text_lt d.name e.name differ) [
  | inl (a, b) ↦ rw (a, b) refl
  | inr (a, b) ↦ rw (a, b) refl
]
sink_comm d e (l ∷ left) differ =
    let inside = sink_comm d e left differ in
    elim (Bool-cases (text_lt d.name l.name)) [
      | inl dl ↦ elim (Bool-cases (text_lt e.name l.name)) [
        | inl el ↦
            ap (sink d) (sink_past e l left el)
            ∙ sink_past d l (sink e left) dl
            ∙ ap (λ t. l ∷ t) inside
            ∙ sym (sink_past e l (sink d left) el)
            ∙ ap (sink e) (sym (sink_past d l left dl))
        | inr le ↦ elim (differ-text_lt d.name e.name differ) [
          | inl (a, b) ↦ rw (dl, le, dl, a) refl
          | inr (a, b) ↦ absurd (cc (text_lt_trans e.name d.name l.name b dl, le))
        ]
      ]
      | inr ld ↦ elim (Bool-cases (text_lt e.name l.name)) [
        | inl el ↦ elim (differ-text_lt d.name e.name differ) [
          | inl (a, b) ↦ absurd (cc (text_lt_trans d.name e.name l.name a el, ld))
          | inr (a, b) ↦ rw (el, ld, el, b) refl
        ]
        | inr le ↦ elim (differ-text_lt d.name e.name differ) [
          | inl (a, b) ↦ rw (le, ld, a, b) refl
          | inr (a, b) ↦ rw (le, ld, a, b, le) refl
        ]
      ]
    ]

not_lt_trans : (s t u : String) → text_lt s t ≡ false → text_lt t u ≡ false → text_lt s u ≡ false
not_lt_trans s t u h k = elim (Bool-cases (text_lt s u)) [
  | inr not_before ↦ not_before
  | inl before ↦ elim (Bool-cases (text_lt t s)) [
    | inl behind ↦ absurd (cc (text_lt_trans t s u behind before, k))
    | inr neither ↦ absurd (cc (ap (λ x. text_lt x u) (text_lt_total s t h neither), before, k))
  ]
]

-- Each entry comes not before the ones that stand after it in the list, the entries from right to left.
abbrev pub IsDescending : List Entry → Type 0
IsDescending [] = Unit
IsDescending (l ∷ left) = All (λ d. text_lt l.name d.name ≡ false) left × IsDescending left

pub sink-All :
    (Q : Entry → Type 0) (e : Entry) (left : List Entry) → Q e → All Q left → All Q (sink e left)
unfolding sink
sink-All Q e [] q h = (q, tt)
sink-All Q e (l ∷ left) q (r, h) = elim (Bool-cases (text_lt e.name l.name)) [
  | inl past ↦ rw (past) (r, sink-All Q e left q h)
  | inr stop ↦ rw (stop) (q, (r, h))
]

not_before-All :
    (e l : Entry) (left : List Entry)
    → text_lt e.name l.name ≡ false
    → All (λ d. text_lt l.name d.name ≡ false) left
    → All (λ d. text_lt e.name d.name ≡ false) left
not_before-All e l [] h below = tt
not_before-All e l (d ∷ left) h (k, below) =
    (not_lt_trans e.name l.name d.name h k, not_before-All e l left h below)

pub sink-IsDescending :
    (e : Entry) (left : List Entry) → IsDescending left → IsDescending (sink e left)
unfolding sink
sink-IsDescending e [] h = (tt, tt)
sink-IsDescending e (l ∷ left) (below, h) = elim (Bool-cases (text_lt e.name l.name)) [
  | inl past ↦ rw (past) (
    sink-All (λ d. text_lt l.name d.name ≡ false) e left (text_lt_asym e.name l.name past) below,
    sink-IsDescending e left h,
  )
  | inr stop ↦ rw (stop) ((stop, not_before-All e l left stop below), (below, h))
]

pub sink-Permᴰ : (e : Entry) (left : List Entry) → Permᴰ (sink e left) (e ∷ left)
unfolding sink
sink-Permᴰ e [] = Permᴰ.refl (e ∷ [])
sink-Permᴰ e (l ∷ left) = elim (Bool-cases (text_lt e.name l.name)) [
  | inl past ↦
      rw (past)
        (Permᴰ.trans (Permᴰ.cons refl (sink-Permᴰ e left)) (Permᴰ.swap {l = left} refl refl))
  | inr stop ↦ rw (stop) (Permᴰ.refl (e ∷ l ∷ left))
]
