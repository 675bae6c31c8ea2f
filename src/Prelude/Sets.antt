-- ===== src/Prelude/Sets.antt =====
-- A Go set of strings as a list. Nothing modelled here ranges over a set in an order that matters.
use Prim.Native.String.{String}
use mathlib.Core.Path.{◌≡◌, refl}
use mathlib.Core.Bool.{Bool, true, false, ◌&&◌, ◌||◌}
use mathlib.Core.Option.{none}
use mathlib.Core.List.{List, [], ◌∷◌, ◌++◌}
use native.Mathlib.Omega.{arith}
use Prim.Native.Nat.{◌+◌, ◌≤◌}
use text.Mathlib.Text.{◌==◌}
use text.Mathlib.TextEquality.{eq_iff}
use remoses.Prelude.Tests.{if◌then◌else◌}
use remoses.Prelude.Lists.{length}
use remoses.Prelude.Maps.{lookup}

unfoldable pub has : String → List String → Bool
has key [] = false
has key (x ∷ xs) = let rest = has key xs in if x == key then true else rest

-- `s[key] = struct{}{}`
unfoldable pub add_to : String → List String → List String
add_to key s = if has key s then s else key ∷ s

unfoldable pub add_all : List String → List String → List String
add_all [] s = s
add_all (x ∷ xs) s = add_to x (add_all xs s)

-- `delete(s, key)`
unfoldable pub remove : String → List String → List String
remove key [] = []
remove key (x ∷ xs) = let rest = remove key xs in if x == key then rest else x ∷ rest

-- The elements that are among some others too, in order.
unfoldable pub retain : List String → List String → List String
retain keep [] = []
retain keep (x ∷ xs) = let rest = retain keep xs in if has x keep then x ∷ rest else rest

-- The entries of a map whose keys are in a set.
unfoldable pub retain_keys {ℓ} : {V : Type ℓ} → List String → List (String × V) → List (String × V)
retain_keys keep [] = []
retain_keys keep (e ∷ m) = let rest = retain_keys keep m in if has e.0 keep then e ∷ rest else rest

pub has-append :
    (key : String) (xs ys : List String) → has key (xs ++ ys) ≡ (has key xs || has key ys)
unfolding has
has-append key [] ys = ground arith
has-append key (x ∷ xs) ys = ground (arith, has-append key xs ys)

pub has-add_to :
    (key other : String) (s : List String)
    → has other (add_to key s) ≡ (if key == other then true else has other s)
unfolding add_to has
has-add_to key other s = ground (arith, eq_iff key other)

pub has-add_all :
    (other : String) (xs s : List String) → has other (add_all xs s) ≡ (has other xs || has other s)
unfolding add_all has
has-add_all other [] s = ground arith
has-add_all other (x ∷ xs) s =
    ground (arith, has-add_to x other (add_all xs s), has-add_all other xs s)

pub has-remove :
    (key other : String) (s : List String)
    → has other (remove key s) ≡ (if key == other then false else has other s)
unfolding remove has
has-remove key other [] = ground arith
has-remove key other (x ∷ s) =
    ground (arith, has-remove key other s, eq_iff x key, eq_iff x other, eq_iff key other)

pub has-retain :
    (other : String) (keep s : List String)
    → has other (retain keep s) ≡ (has other keep && has other s)
unfolding retain has
has-retain other keep [] = ground arith
has-retain other keep (x ∷ s) = ground (arith, has-retain other keep s, eq_iff x other)

pub lookup-retain_keys {ℓ} :
    {V : Type ℓ} (other : String) (keep : List String) (m : List (String × V))
    → lookup other (retain_keys keep m) ≡ (if has other keep then lookup other m else none)
unfolding retain_keys lookup
lookup-retain_keys other keep [] = ground arith
lookup-retain_keys other keep (e ∷ m) =
    ground (arith, lookup-retain_keys other keep m, eq_iff e.0 other)

-- Lists without repetition.
abbrev pub Distinct : List String → Type 0
Distinct [] = Unit
Distinct (x ∷ xs) = (has x xs ≡ false) × Distinct xs

pub Distinct-snoc :
    (key : String) (xs : List String) → has key xs ≡ false → Distinct xs → Distinct (xs ++ key ∷ [])
unfolding has
Distinct-snoc key [] h d = (refl, tt)
Distinct-snoc key (x ∷ xs) h (fresh, d) = (
  ground (arith, has-append x xs (key ∷ []), eq_iff x key, eq_iff key x),
  Distinct-snoc key xs (ground arith) d,
)

length-remove_le : (key : String) (ys : List String) → length (remove key ys) ≤ length ys
unfolding remove
length-remove_le key [] = omega arith
length-remove_le key (y ∷ ys) = ground (arith, length-remove_le key ys)

length-remove :
    (key : String) (ys : List String) → has key ys ≡ true → length (remove key ys) + 1 ≤ length ys
unfolding has remove
length-remove key [] h = ground arith
length-remove key (y ∷ ys) h = ground (arith, length-remove key ys, length-remove_le key ys)

-- A list without repetition is no longer than one that holds all its elements.
pub Distinct-length :
    (xs ys : List String)
    → Distinct xs
    → ((key : String) → has key xs ≡ true → has key ys ≡ true)
    → length xs ≤ length ys
unfolding has
Distinct-length [] ys d within = omega arith
Distinct-length (x ∷ xs) ys (fresh, d) within = omega (
  arith,
  length-remove x ys (within x (ground (arith, eq_iff x x))),
  Distinct-length xs (remove x ys) d (λ key inside.
      ground (arith, has-remove x key ys, within key (ground (arith)), eq_iff x key)),
)
