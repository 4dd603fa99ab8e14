-- ===== src/Prelude/Assoc.antt =====
-- `std::map` and `std::unordered_map` with text keys, as association lists.
use mathlib.Core.Path.{◌≡◌, refl}
use mathlib.Core.Bool.{not}
use mathlib.Core.List.{List, [], ◌∷◌}
use mathlib.Core.Option.{Option, none, some}
use native.Mathlib.Omega.{arith}
use duck_hunt.Prelude.Tests.{if◌then◌else◌}
use duck_hunt.Prelude.Lists.{keep_if}
use duck_hunt.Prelude.Strings.{Text, text_eq, text_eq_iff}

module _ {ℓ} {V : Type ℓ} where
  unfoldable pub lookup : Text → List (Text × V) → Option V
  lookup k [] = none
  lookup k ((j, v) ∷ m) = if text_eq j k then some v else lookup k m

  -- `m[k] = v`.
  unfoldable pub assign : Text → V → List (Text × V) → List (Text × V)
  assign k v [] = (k, v) ∷ []
  assign k v ((j, w) ∷ m) = if text_eq j k then (k, v) ∷ m else (j, w) ∷ assign k v m

  unfoldable pub erase : Text → List (Text × V) → List (Text × V)
  erase k m = keep_if (λ e. not (text_eq e.0 k)) m

  pub lookup-assign :
      (k j : Text) (v : V) (m : List (Text × V))
      → lookup j (assign k v m) ≡ (if text_eq k j then some v else lookup j m)
  unfolding lookup assign
  lookup-assign k j v [] = refl
  lookup-assign k j v ((l, w) ∷ m) =
      ground (arith, text_eq_iff k j, text_eq_iff l k, text_eq_iff l j, lookup-assign k j v m)

  pub lookup-erase :
      (k j : Text) (m : List (Text × V))
      → lookup j (erase k m) ≡ (if text_eq k j then none else lookup j m)
  unfolding lookup erase
  lookup-erase k j [] = ground arith
  lookup-erase k j ((l, w) ∷ m) =
      ground (arith, text_eq_iff k j, text_eq_iff l k, text_eq_iff l j, lookup-erase k j m)
