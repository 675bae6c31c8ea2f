-- ===== src/Prelude/Maps.antt =====
-- A Go map with string keys as an association list. Nothing modelled here ranges over a map in an
-- order that matters, so a client needs only `lookup` and the laws.
use Prim.Native.String.{String}
use mathlib.Core.Path.{◌≡◌}
use mathlib.Core.Option.{Option, none, some}
use mathlib.Core.List.{List, [], ◌∷◌}
use native.Mathlib.Omega.{arith}
use text.Mathlib.Text.{◌==◌}
use text.Mathlib.TextEquality.{eq_iff}
use remoses.Prelude.Tests.{if◌then◌else◌}

module _ {ℓ} {V : Type ℓ} where
  -- `m[key]`, with whether the key is there.
  unfoldable pub lookup : String → List (String × V) → Option V
  lookup key [] = none
  lookup key (entry ∷ m) = if entry.0 == key then some entry.1 else lookup key m

  -- `delete(m, key)`
  unfoldable pub delete : String → List (String × V) → List (String × V)
  delete key [] = []
  delete key (entry ∷ m) = let rest = delete key m in if entry.0 == key then rest else entry ∷ rest

  -- `m[key] = v`
  unfoldable pub insert : String → V → List (String × V) → List (String × V)
  unfolding delete
  insert key v m = (key, v) ∷ delete key m

  pub lookup-delete :
      (key other : String) (m : List (String × V))
      → lookup other (delete key m) ≡ (if key == other then none else lookup other m)
  unfolding lookup delete
  lookup-delete key other [] = ground arith
  lookup-delete key other (entry ∷ m) =
      ground (
        arith,
        lookup-delete key other m,
        eq_iff entry.0 key,
        eq_iff entry.0 other,
        eq_iff key other,
      )

  -- What a write leaves at any key: the new value at its own, the old values elsewhere.
  pub lookup-insert :
      (key other : String) (v : V) (m : List (String × V))
      → lookup other (insert key v m) ≡ (if key == other then some v else lookup other m)
  unfolding insert lookup
  lookup-insert key other v m = ground (lookup-delete key other m, arith)
