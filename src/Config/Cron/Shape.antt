-- ===== src/Config/Cron/Shape.antt =====
-- The language of the cron expression: words without blanks, with blanks between them.
use nebari_infrastructure_co.Prelude.{
  ℕ, zero, suc, String, ◌≡◌, refl, ap, ◌↔◌, inl, inr, Bool, true, false, List, [], ◌∷◌, ◌++◌, arith,
  Bool-cases, All,
}
use nebari_infrastructure_co.Prelude.Text
use nebari_infrastructure_co.Config.Cron.{is_blank, Place, word, gap, scan, start, five_field_cron}

-- Every character of the text is blank, or none is, as `b` says.
abbrev pub AllBlank : Bool → List ℕ → Type 0
AllBlank b = All (λ c. is_blank c ≡ b)

-- The same, of a text that is not empty.
abbrev pub IsRun : Bool → List ℕ → Type 0
IsRun b [] = ⊥
IsRun b (c ∷ s) = (is_blank c ≡ b) × AllBlank b s

-- `k + 1` words with blanks between them.
pub data IsWords : ℕ → List ℕ → Type 0 where
  one : (w : List ℕ) → IsRun false w → IsWords 0 w
  more :
      (k : ℕ) (w g s t : List ℕ)
      → IsRun false w
      → IsRun true g
      → IsWords k s
      → t ≡ w ++ (g ++ s)
      → IsWords (suc k) t

-- What the automaton accepts from each place.
abbrev Rest : Place → ℕ → List ℕ → Type 0
Rest word zero s = AllBlank false s
Rest word (suc k) s =
    (w : List ℕ) × (g : List ℕ) × (t : List ℕ) × AllBlank false w
    × IsRun true g
    × IsWords k t
    × (s ≡ w ++ (g ++ t))
Rest gap k s = (g : List ℕ) × (t : List ℕ) × AllBlank true g × IsWords k t × (s ≡ g ++ t)

IsWords-of_Rest : (k c : ℕ) (s : List ℕ) → is_blank c ≡ false → Rest word k s → IsWords k (c ∷ s)
IsWords-of_Rest zero c s b r = one (c ∷ s) (b, r)
IsWords-of_Rest (suc k) c s b (w, g, t, all_w, run_g, ws, e) =
    more k (c ∷ w) g t (c ∷ s) (b, all_w) run_g ws (ap (λ r. c ∷ r) e)

scan_sound : (p : Place) (k : ℕ) (s : List ℕ) → scan p k s ≡ true → Rest p k s
unfolding scan
scan_sound word zero [] h = tt
scan_sound word (suc k) [] h = cc
scan_sound word zero (c ∷ s) h = elim (Bool-cases (is_blank c)) [
  | inl b ↦ absurd (ground arith)
  | inr b ↦ (b, scan_sound word zero s (rw b at h))
]
scan_sound word (suc k) (c ∷ s) h = elim (Bool-cases (is_blank c)) [
  | inl b ↦
      let (g, t, all_g, ws, e) = scan_sound gap k s (rw b at h) in
      ([], c ∷ g, t, tt, (b, all_g), ws, ap (λ r. c ∷ r) e)
  | inr b ↦
      let (w, g, t, all_w, run_g, ws, e) = scan_sound word (suc k) s (rw b at h) in
      (c ∷ w, g, t, (b, all_w), run_g, ws, ap (λ r. c ∷ r) e)
]
scan_sound gap k [] h = cc
scan_sound gap k (c ∷ s) h = elim (Bool-cases (is_blank c)) [
  | inl b ↦
      let (g, t, all_g, ws, e) = scan_sound gap k s (rw b at h) in
      (c ∷ g, t, (b, all_g), ws, ap (λ r. c ∷ r) e)
  | inr b ↦ ([], c ∷ s, tt, IsWords-of_Rest k c s b (scan_sound word k s (rw b at h)), refl)
]

start_sound : (k : ℕ) (s : List ℕ) → start k s ≡ true → IsWords k s
start_sound k [] h = cc
start_sound k (c ∷ s) h = elim (Bool-cases (is_blank c)) [
  | inl b ↦ absurd (ground arith)
  | inr b ↦ IsWords-of_Rest k c s b (scan_sound word k s (rw b at h))
]

scan_last : (w : List ℕ) → AllBlank false w → scan word 0 w ≡ true
unfolding scan
scan_last [] h = refl
scan_last (c ∷ w) (b, h) = rw b (scan_last w h)

scan_over_word :
    (k : ℕ) (w t : List ℕ) → AllBlank false w → scan word (suc k) (w ++ t) ≡ scan word (suc k) t
unfolding scan
scan_over_word k [] t h = refl
scan_over_word k (c ∷ w) t (b, h) = rw b (scan_over_word k w t h)

scan_over_gap : (k : ℕ) (g t : List ℕ) → AllBlank true g → scan gap k (g ++ t) ≡ scan gap k t
unfolding scan
scan_over_gap k [] t h = refl
scan_over_gap k (c ∷ g) t (b, h) = rw b (scan_over_gap k g t h)

scan_gap_of_start : (k : ℕ) (s : List ℕ) → start k s ≡ true → scan gap k s ≡ true
unfolding scan
scan_gap_of_start k [] h = cc
scan_gap_of_start k (c ∷ s) h = ground arith

start_complete : {k : ℕ} {s : List ℕ} → IsWords k s → start k s ≡ true
unfolding scan
start_complete (one (c ∷ w) (b, h)) = rw b (scan_last w h)
start_complete (more k (c ∷ w) (d ∷ g) s t (b, h) (d_blank, all_g) ws e) =
    rw (e, b, scan_over_word k w (d ∷ (g ++ s)) h, d_blank, scan_over_gap k g s all_g)
      (scan_gap_of_start k s (start_complete ws))
start_complete (one [] h) = absurd h
start_complete (more k [] g s t h _ _ _) = absurd h
start_complete (more k (c ∷ w) [] s t _ h _ _) = absurd h

-- A schedule passes the cron check exactly when it is five words without blanks, with one or more
-- blanks between each two and none around them.
pub five_field_cron_iff : (s : String) → (five_field_cron s ≡ true) ↔ IsWords 4 (Text.codes s)
unfolding five_field_cron
five_field_cron_iff s = (start_sound 4 (Text.codes s), start_complete)
