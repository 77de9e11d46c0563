-- ===== src/Base/Dict.antt =====
-- Go's `map[string]V`, in order of insertion. A lookup of a missing key gives `none`.
use Prim.Native.String.{String}
use mathlib.Core.Path.{◌≡◌, refl}
use mathlib.Core.Bool.{Bool, false, ◌||◌}
use mathlib.Core.Option.{Option, none, some}
use mathlib.Core.List.{List, [], ◌∷◌}
use native.Mathlib.Omega.{arith}
use text.Mathlib.Text.{◌==◌}
use text.Mathlib.TextEquality.{eq_iff}
use pve_exporter.Base.Tests.{if◌then◌else◌}

abbrev pub Dict {ℓ} : Type ℓ → Type ℓ
Dict V = List (String × V)

module _ {ℓ} {V : Type ℓ} where
  -- v, ok := m[key]
  unfoldable pub lookup : String → Dict V → Option V
  lookup key [] = none
  lookup key ((other, v) ∷ rest) = if other == key then some v else lookup key rest

  -- m[key] = v
  unfoldable pub insert : String → V → Dict V → Dict V
  insert key v [] = (key, v) ∷ []
  insert key v ((other, old) ∷ rest) =
      if other == key then (key, v) ∷ rest else (other, old) ∷ insert key v rest

  pub lookup-nil : (key : String) → lookup key [] ≡ none
  unfolding lookup
  lookup-nil key = refl

  -- What is read after a write.
  pub lookup-insert :
      (key read : String) (v : V) (rest : Dict V)
      → lookup read (insert key v rest) ≡ (if key == read then some v else lookup read rest)
  unfolding insert lookup
  lookup-insert key read v [] = refl
  lookup-insert key read v ((other, old) ∷ rest) =
      ground
        (arith, lookup-insert key read v rest, eq_iff other key, eq_iff key read, eq_iff other read)

-- A set of texts, `map[string]struct{}`, as the list of its members.
unfoldable pub contains : String → List String → Bool
contains k [] = false
contains k (x ∷ xs) = x == k || contains k xs
