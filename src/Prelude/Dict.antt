-- ===== src/Prelude/Dict.antt =====
-- Go maps with string keys, as association lists.
use Prim.Native.String.{String}
use mathlib.Core.Path.{◌≡◌, refl}
use mathlib.Core.Option.{Option, none, some}
use mathlib.Core.List.{List, [], ◌∷◌}
use native.Mathlib.Omega.{arith}
use text.Mathlib.Text.{◌==◌}
use text.Mathlib.TextEquality.{eq_iff}
use nebari_infrastructure_co.Prelude.Tests.{if◌then◌else◌, is_some}
use nebari_infrastructure_co.Prelude.Lists.{contains}

module _ {ℓ} {V : Type ℓ} where
  -- Reading a key; the second result of Go's `m[key]` is whether there is a value.
  unfoldable pub lookup : String → List (String × V) → Option V
  lookup key [] = none
  lookup key ((name, value) ∷ rest) = if name == key then some value else lookup key rest

  unfoldable pub keys : List (String × V) → List String
  keys [] = []
  keys ((name, _) ∷ rest) = name ∷ keys rest

  pub contains-keys :
      (entries : List (String × V)) (key : String)
      → contains (keys entries) key ≡ is_some (lookup key entries)
  unfolding keys lookup
  contains-keys [] key = refl
  contains-keys ((name, value) ∷ rest) key = ground (arith, contains-keys rest key)

  -- Writing a key: its value is replaced where it stands, or else the pair comes last.
  unfoldable pub insert : String → V → List (String × V) → List (String × V)
  insert key new [] = (key, new) ∷ []
  insert key new ((name, value) ∷ rest) =
      if key == name then (key, new) ∷ rest else (name, value) ∷ insert key new rest

  pub lookup-insert :
      (key other : String) (new : V) (entries : List (String × V))
      → lookup other (insert key new entries)
        ≡ (if key == other then some new else lookup other entries)
  unfolding insert lookup
  lookup-insert key other new ((name, value) ∷ rest) =
      let later = lookup-insert key other new rest in
      ground (arith, eq_iff key name, eq_iff key other, eq_iff name other)
  lookup-insert key other new [] = refl
