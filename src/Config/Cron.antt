-- ===== src/Config/Cron.antt =====
-- The regular expression `^(\S+\s+){4}\S+$` of pkg/config/backups.go, as the automaton that it
-- describes, over the code points of the text.
pub mod Shape
use nebari_infrastructure_co.Prelude.{
  ℕ, zero, suc, ◌*◌, String, ◌≡◌, refl, Bool, true, false, ◌||◌, List, [], ◌∷◌, nat_eq,
  if◌then◌else◌,
}
use nebari_infrastructure_co.Prelude.Text

-- Go's `\s`: tab, line feed, form feed, carriage return and space.
abbrev pub is_blank : ℕ → Bool
is_blank c = nat_eq c 9 || nat_eq c 10 || nat_eq c 12 || nat_eq c 13 || nat_eq c b' '

pub data Place : Type 0 where
  word gap : Place

-- What a text must still hold: in a word, `k` more words after it; in a gap, the word that the gap
-- leads to and `k` more after that one.
unfoldable pub scan : Place → ℕ → List ℕ → Bool
scan word zero [] = true
scan word (suc k) [] = false
scan word zero (c ∷ s) = let rest = scan word zero s in if is_blank c then false else rest
scan word (suc k) (c ∷ s) =
    let inside = scan word (suc k) s in
    let outside = scan gap k s in if is_blank c then outside else inside
scan gap k [] = false
scan gap k (c ∷ s) =
    let wider = scan gap k s in let inside = scan word k s in if is_blank c then wider else inside

abbrev start : ℕ → List ℕ → Bool
start k [] = false
start k (c ∷ s) = if is_blank c then false else scan word k s

-- `fiveFieldCron.MatchString`.
unfoldable pub five_field_cron : String → Bool
unfolding scan
five_field_cron s = start 4 (Text.codes s)

daily : five_field_cron "0 2 * * *" ≡ true
unfolding five_field_cron
daily = refl

too_short : five_field_cron "0 2 * *" ≡ false
unfolding five_field_cron
too_short = refl

padded : five_field_cron " 0 2 * * *" ≡ false
unfolding five_field_cron
padded = refl
