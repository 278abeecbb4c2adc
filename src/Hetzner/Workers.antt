-- ===== src/Hetzner/Workers.antt =====
-- `WorkerGroups` and `sortWorkers` of pkg/providers/cluster/hetzner/config.go.
use nebari_infrastructure_co.Prelude.{
  select, ◌≡◌, refl, sym, ap, ◌∙◌, subst, inl, inr, Bool, true, false, not, List, [], ◌∷◌, ◌++◌,
  if◌then◌else◌, Bool-cases, All, All-append, All-reverse,
}
use mathlib.Core.List.{reverse, reverse-cons, Permᴰ}
use mathlib.Core.List.Permᴰ
use nebari_infrastructure_co.Hetzner.{
  Entry, Config, is_master, text_lt, sink, sink_all, worker_groups,
}
use nebari_infrastructure_co.Hetzner.Order.{sink_comm, IsDescending, sink-IsDescending, sink-Permᴰ}

-- No two entries have one name, as in a map.
pub data AreDistinct : List Entry → Type 0 where
  no_entry : AreDistinct []
  and_other :
      {e : Entry} {es : List Entry}
      → All (λ d. d.name ≡ e.name → ⊥) es
      → AreDistinct es
      → AreDistinct (e ∷ es)

module _ (Q : Entry → Type 0) where
  pub All-Permᴰ : {es fs : List Entry} → Permᴰ es fs → All Q es → All Q fs
  All-Permᴰ Permᴰ.nil h = tt
  All-Permᴰ (Permᴰ.cons same p) (q, rest) = (subst Q same q, All-Permᴰ p rest)
  All-Permᴰ (Permᴰ.swap a b) (q, (r, rest)) = (subst Q b r, (subst Q a q, rest))
  All-Permᴰ (Permᴰ.trans p q) h = All-Permᴰ q (All-Permᴰ p h)

AreDistinct-Permᴰ : {es fs : List Entry} → Permᴰ es fs → AreDistinct es → AreDistinct fs
AreDistinct-Permᴰ Permᴰ.nil h = no_entry
AreDistinct-Permᴰ (Permᴰ.cons {a} {b} {l₂} same p) (and_other new h) =
    and_other
      (subst (λ x. All (λ d. d.name ≡ x.name → ⊥) l₂) same
        (All-Permᴰ (λ d. d.name ≡ a.name → ⊥) p new))
      (AreDistinct-Permᴰ p h)
AreDistinct-Permᴰ (Permᴰ.swap {a} {b} {l} p q) (and_other (ba, new) (and_other more h)) =
    let first = subst (λ x. All (λ d. d.name ≡ x.name → ⊥) l) q more in
    let second = subst (λ x. All (λ d. d.name ≡ x.name → ⊥) l) p new in
    and_other (λ k. ba (ap (λ x. x.name) q ∙ sym k ∙ sym (ap (λ x. x.name) p)), first)
      (and_other second h)
AreDistinct-Permᴰ (Permᴰ.trans p q) h = AreDistinct-Permᴰ q (AreDistinct-Permᴰ p h)

sink_all-Permᴰ :
    {es fs : List Entry} (left : List Entry)
    → Permᴰ es fs
    → AreDistinct es
    → sink_all es left ≡ sink_all fs left
unfolding sink_all
sink_all-Permᴰ left Permᴰ.nil h = refl
sink_all-Permᴰ left (Permᴰ.cons {a} {l₂} same p) (and_other new h) =
    sink_all-Permᴰ (sink a left) p h ∙ ap (λ x. sink_all l₂ (sink x left)) same
sink_all-Permᴰ left (Permᴰ.swap {a} {b} {l} p q) (and_other (ba, new) (and_other more h)) =
    ap (sink_all l) (sink_comm b a left ba ∙ (λ i. sink (p i) (sink (q i) left)))
sink_all-Permᴰ left (Permᴰ.trans p q) h =
    sink_all-Permᴰ left p h ∙ sink_all-Permᴰ left q (AreDistinct-Permᴰ p h)

select-All :
    (Q : Entry → Type 0) (p : Entry → Bool) (es : List Entry) → All Q es → All Q (select p es)
unfolding select
select-All Q p [] h = tt
select-All Q p (e ∷ es) (q, h) = elim (Bool-cases (p e)) [
  | inl kept ↦ rw (kept) (q, select-All Q p es h)
  | inr left ↦ rw (left) (select-All Q p es h)
]

select-AreDistinct :
    (p : Entry → Bool) {es : List Entry} → AreDistinct es → AreDistinct (select p es)
unfolding select
select-AreDistinct p no_entry = no_entry
select-AreDistinct p (and_other {e} {es} new h) = elim (Bool-cases (p e)) [
  | inl kept ↦
      rw (kept)
        (and_other (select-All (λ d. d.name ≡ e.name → ⊥) p es new) (select-AreDistinct p h))
  | inr left ↦ rw (left) (select-AreDistinct p h)
]

cons_if-Permᴰ :
    (b : Bool) (a : Entry) {xs ys : List Entry}
    → Permᴰ xs ys
    → Permᴰ (if b then a ∷ xs else xs) (if b then a ∷ ys else ys)
cons_if-Permᴰ true a p = Permᴰ.cons refl p
cons_if-Permᴰ false a p = p

swap_if-Permᴰ :
    (x y : Bool) (a b : Entry) (l : List Entry)
    → Permᴰ
        (if x then a ∷ (if y then b ∷ l else l) else (if y then b ∷ l else l))
        (if y then b ∷ (if x then a ∷ l else l) else (if x then a ∷ l else l))
swap_if-Permᴰ true true a b l = Permᴰ.swap refl refl
swap_if-Permᴰ true false a b l = Permᴰ.refl (a ∷ l)
swap_if-Permᴰ false true a b l = Permᴰ.refl (b ∷ l)
swap_if-Permᴰ false false a b l = Permᴰ.refl l

pub select-Permᴰ :
    (p : Entry → Bool) {es fs : List Entry} → Permᴰ es fs → Permᴰ (select p es) (select p fs)
unfolding select
select-Permᴰ p Permᴰ.nil = Permᴰ.nil
select-Permᴰ p (Permᴰ.cons {a} {l₁} {l₂} same k) =
    subst (λ x. Permᴰ (select p (a ∷ l₁)) (select p (x ∷ l₂))) same
      (cons_if-Permᴰ (p a) a (select-Permᴰ p k))
select-Permᴰ p (Permᴰ.swap {a} {b} {l} q r) =
    subst (λ t. Permᴰ (select p (a ∷ b ∷ l)) t) (λ i. select p (r i ∷ q i ∷ l))
      (swap_if-Permᴰ (p a) (p b) a b (select p l))
select-Permᴰ p (Permᴰ.trans k l) = Permᴰ.trans (select-Permᴰ p k) (select-Permᴰ p l)

sink_all-IsDescending : (es left : List Entry) → IsDescending left → IsDescending (sink_all es left)
unfolding sink_all
sink_all-IsDescending [] left h = h
sink_all-IsDescending (e ∷ es) left h =
    sink_all-IsDescending es (sink e left) (sink-IsDescending e left h)

sink_all-append : (es left : List Entry) → Permᴰ (sink_all es left) (es ++ left)
unfolding sink_all
sink_all-append [] left = Permᴰ.refl left
sink_all-append (e ∷ es) left =
    Permᴰ.trans (sink_all-append es (sink e left))
      (Permᴰ.trans (Permᴰ.append_left es (sink-Permᴰ e left)) (Permᴰ.middle e es left))

-- Each entry comes not after the ones that stand after it in the list.
abbrev pub IsAscending : List Entry → Type 0
IsAscending [] = Unit
IsAscending (e ∷ es) = All (λ d. text_lt d.name e.name ≡ false) es × IsAscending es

append-IsAscending :
    (es : List Entry) (e : Entry)
    → IsAscending es
    → All (λ d. text_lt e.name d.name ≡ false) es
    → IsAscending (es ++ (e ∷ []))
append-IsAscending [] e h below = (tt, tt)
append-IsAscending (d ∷ es) e (after, h) (k, below) = (
  All-append (λ x. text_lt x.name d.name ≡ false) es (e ∷ []) after (k, tt),
  append-IsAscending es e h below,
)

reverse-IsAscending : (es : List Entry) → IsDescending es → IsAscending (reverse es)
reverse-IsAscending [] h = tt
reverse-IsAscending (e ∷ es) (below, h) = rw (reverse-cons) (
    append-IsAscending (reverse es) e (reverse-IsAscending es h)
      (All-reverse (λ d. text_lt e.name d.name ≡ false) es below))

-- The groups of workers are the groups that are not the masters', each as often as it is set, in the order
-- of their names.
pub worker_groups-IsAscending :
    (c : Config)
    → IsAscending (worker_groups c)
      × Permᴰ (worker_groups c) (select (λ e. not (is_master e)) c.node_groups)
unfolding worker_groups
worker_groups-IsAscending c =
    let workers = select (λ e. not (is_master e)) c.node_groups in
    (
      reverse-IsAscending (sink_all workers []) (sink_all-IsDescending workers [] tt),
      Permᴰ.trans (Permᴰ.reverse (sink_all workers []))
          (Permᴰ.trans (sink_all-append workers []) (Permᴰ.append-nil workers)),
    )

-- When no two groups have one name, the groups of workers are the same list in whatever order a loop goes
-- through the map of the groups.
pub worker_groups_order :
    (c : Config) (others : List Entry)
    → AreDistinct c.node_groups
    → Permᴰ c.node_groups others
    → worker_groups (record c { node_groups = others }) ≡ worker_groups c
unfolding worker_groups
worker_groups_order c others distinct same = ap reverse (
    sym (
      sink_all-Permᴰ [] (select-Permᴰ (λ e. not (is_master e)) same)
        (select-AreDistinct (λ e. not (is_master e)) distinct)))
