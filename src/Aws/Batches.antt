-- ===== src/Aws/Batches.antt =====
-- The loops of pkg/providers/cluster/aws over `i += n`, each of whose rounds takes `xs[i:min(i+n, len(xs))]`.
use nebari_infrastructure_co.Prelude.{
  ℕ, zero, suc, ◌+◌, ◌-◌, ◌≤◌, ◌<◌, ◌≡◌, refl, sym, ap, ◌∙◌, inl, inr, List, [], ◌∷◌, ◌++◌,
  append-nil, arith, ltb, if◌then◌else◌, Bool-cases, length, take, All,
}

abbrev pub min : ℕ → ℕ → ℕ
min a b = if ltb a b then a else b

suc_plus : (i n : ℕ) → suc (i + n) ≡ suc i + n
suc_plus i n = omega arith

plus_minus : (i n : ℕ) → i + n - i ≡ n
plus_minus i n = omega arith

module _ {ℓ} {A : Type ℓ} where
  unfoldable pub drop : ℕ → List A → List A
  drop zero xs = xs
  drop (suc n) [] = []
  drop (suc n) (x ∷ xs) = drop n xs

  -- `xs[i:j]`
  abbrev pub slice : List A → ℕ → ℕ → List A
  slice xs i j = take (j - i) (drop i xs)

  -- The slices that the rounds from `i` on take.
  unfoldable pub batches_from : (fuel n : ℕ) (xs : List A) (i : ℕ) → List (List A)
  batches_from zero n xs i = []
  batches_from (suc fuel) n xs i =
      let rest = batches_from fuel n xs (i + n) in
      if ltb i (length xs) then slice xs i (min (i + n) (length xs)) ∷ rest else []

  -- As many rounds as there are elements are enough, since each takes one at least.
  unfoldable pub batches : ℕ → List A → List (List A)
  unfolding batches_from
  batches n xs = batches_from (length xs) n xs 0

  abbrev pub concat : List (List A) → List A
  concat [] = []
  concat (xs ∷ xss) = xs ++ concat xss

  length-drop : (i : ℕ) (xs : List A) → length (drop i xs) ≡ length xs - i
  unfolding drop
  length-drop zero xs = omega arith
  length-drop (suc i) [] = omega arith
  length-drop (suc i) (x ∷ xs) = omega (arith, length-drop i xs)

  length-take : (i : ℕ) (xs : List A) → i ≤ length xs → length (take i xs) ≡ i
  length-take zero xs h = refl
  length-take (suc i) [] h = absurd (omega arith)
  length-take (suc i) (x ∷ xs) h = ap suc (length-take i xs (omega arith))

  take_all : (n : ℕ) (xs : List A) → length xs ≤ n → take n xs ≡ xs
  take_all zero [] h = refl
  take_all zero (x ∷ xs) h = absurd (omega arith)
  take_all (suc n) [] h = refl
  take_all (suc n) (x ∷ xs) h = ap (λ t. x ∷ t) (take_all n xs (omega arith))

  take-drop : (n : ℕ) (xs : List A) → take n xs ++ drop n xs ≡ xs
  unfolding drop
  take-drop zero xs = refl
  take-drop (suc n) [] = refl
  take-drop (suc n) (x ∷ xs) = ap (λ t. x ∷ t) (take-drop n xs)

  drop-nil : (n : ℕ) → drop n [] ≡ []
  unfolding drop
  drop-nil zero = refl
  drop-nil (suc n) = refl

  drop-drop : (i n : ℕ) (xs : List A) → drop n (drop i xs) ≡ drop (i + n) xs
  unfolding drop
  drop-drop zero n xs = ap (λ k. drop k xs) (omega arith)
  drop-drop (suc i) zero [] = sym (drop-nil (suc i + 0))
  drop-drop (suc i) (suc n) [] = sym (drop-nil (suc i + suc n))
  drop-drop (suc i) n (x ∷ xs) = drop-drop i n xs ∙ ap (λ k. drop k (x ∷ xs)) (suc_plus i n)

  drop_all : (n : ℕ) (xs : List A) → length xs ≤ n → drop n xs ≡ []
  unfolding drop
  drop_all zero [] h = refl
  drop_all zero (x ∷ xs) h = absurd (omega arith)
  drop_all (suc n) [] h = refl
  drop_all (suc n) (x ∷ xs) h = drop_all n xs (omega arith)

  -- One round: what it takes, and what is left for the next.
  round-split :
      (n : ℕ) (xs : List A) (i : ℕ)
      → slice xs i (min (i + n) (length xs)) ++ drop (i + n) xs ≡ drop i xs
  round-split n xs i = elim (Bool-cases (ltb (i + n) (length xs))) [
    | inl more ↦ rw (more, plus_minus i n, sym (drop-drop i n xs)) (take-drop n (drop i xs))
    | inr last ↦
        rw
          (
            last,
            take_all (length xs - i) (drop i xs) (omega (arith, length-drop i xs)),
            drop_all (i + n) xs (ground arith),
          )
          (append-nil (drop i xs))
  ]

  round-length :
      (n : ℕ) (xs : List A) (i : ℕ)
      → 1 ≤ n
      → i < length xs
      → (1 ≤ length (slice xs i (min (i + n) (length xs))))
        × (length (slice xs i (min (i + n) (length xs))) ≤ n)
  round-length n xs i h below =
      rw (length-take (min (i + n) (length xs) - i) (drop i xs) (ground (arith, length-drop i xs)))
        (ground arith)

  rounds :
      (fuel n : ℕ) (xs : List A) (i : ℕ)
      → 1 ≤ n
      → length xs ≤ i + fuel
      → (concat (batches_from fuel n xs i) ≡ drop i xs)
        × All (λ b. (1 ≤ length b) × (length b ≤ n)) (batches_from fuel n xs i)
  unfolding batches_from
  rounds zero n xs i h enough = (sym (drop_all i xs (omega arith)), tt)
  rounds (suc fuel) n xs i h enough =
      let (joined, sizes) = rounds fuel n xs (i + n) h (omega arith) in
      elim (Bool-cases (ltb i (length xs))) [
        | inl more ↦ rw (more) (
          ap (λ t. slice xs i (min (i + n) (length xs)) ++ t) joined ∙ round-split n xs i,
          (round-length n xs i h (ground arith), sizes),
        )
        | inr done ↦ rw (done) (sym (drop_all i xs (ground arith)), tt)
      ]

  -- When a round may take at least one element, the rounds together take the list, each element once and
  -- in its order; and each round takes at least one and at most as many as it may.
  pub batches-partition :
      (n : ℕ) (xs : List A)
      → 1 ≤ n
      → (concat (batches n xs) ≡ xs) × All (λ b. (1 ≤ length b) × (length b ≤ n)) (batches n xs)
  unfolding batches drop
  batches-partition n xs h = rounds (length xs) n xs 0 h (omega arith)
