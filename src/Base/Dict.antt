-- ===== src/Base/Dict.antt =====
-- `std::map<std::string, V>`: an association list that `insert` keeps in the order of its keys.
use Prim.Native.Nat.{Ordering}
use Prim.Native.String.{String, compare}
use mathlib.Core.Path.{◌≡◌, refl}
use mathlib.Core.Bool.{Bool, true, false}
use mathlib.Core.Option.{Option, none, some}
use mathlib.Core.List.{List, [], ◌∷◌}
use native.Mathlib.Omega.{arith}
use text.Mathlib.TextEquality.{eq_iff}
use mosaic_core.Base.Tests.{◌==◌, if◌then◌else◌}

abbrev pub Dict {ℓ} : Type ℓ → Type ℓ
Dict V = List (String × V)

abbrev precedes : String → String → Bool
precedes a b = elim (compare a b) [ Ordering.lt ↦ true | _ ↦ false ]

module _ {ℓ} {V : Type ℓ} where
  unfoldable pub lookup : String → Dict V → Option V
  lookup key [] = none
  lookup key ((first, v) ∷ rest) = if first == key then some v else lookup key rest

  -- `m[key] = v`
  unfoldable pub insert : String → V → Dict V → Dict V
  insert key v [] = (key, v) ∷ []
  insert key v ((first, w) ∷ rest) =
      if first == key
      then (key, v) ∷ rest
      else if precedes key first
      then (key, v) ∷ (first, w) ∷ rest
      else (first, w) ∷ insert key v rest

  pub lookup-insert :
      (key other : String) (v : V) (d : Dict V)
      → lookup other (insert key v d) ≡ (if key == other then some v else lookup other d)
  unfolding insert lookup
  lookup-insert key other v [] = refl
  lookup-insert key other v ((first, w) ∷ rest) = ground (
    arith,
    lookup-insert key other v rest,
    eq_iff first other,
    eq_iff first key,
    eq_iff key other,
  )
