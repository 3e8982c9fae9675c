-- ===== src/Base/Lists.antt =====
-- Lists over the native numbers, predicates on lists, and association lists with text keys.
use Prim.Native.Nat.{ℕ, zero, suc, ◌+◌}
use Prim.Native.String.{String}
use mathlib.Core.Path.{◌≡◌, refl}
use mathlib.Core.Logic.{◌⊎◌}
use mathlib.Core.Bool.{Bool, true, false}
use mathlib.Core.Option.{Option, none, some}
use mathlib.Core.List.{List, [], ◌∷◌, ◌++◌}
use native.Mathlib.Omega.{arith}
use text.Mathlib.Text.{◌==◌ as str_eq}
use text.Mathlib.TextEquality.{eq_iff as str_eq_iff}
use selfcloud.Base.Tests.{◌==◌, if◌then◌else◌}

module _ {ℓ} {A : Type ℓ} where
  abbrev pub length : List A → ℕ
  length [] = 0
  length (x ∷ xs) = suc (length xs)

  -- `xs[:n]`, or all of it where it is shorter
  abbrev pub take : ℕ → List A → List A
  take (suc count) (first ∷ rest) = first ∷ take count rest
  take _ _ = []

  -- `xs[n:]`, or nothing where it is shorter
  abbrev pub drop : ℕ → List A → List A
  drop zero elements = elements
  drop (suc count) [] = []
  drop (suc count) (first ∷ rest) = drop count rest

  -- the elements that pass a test, in order
  abbrev pub keep : (A → Bool) → List A → List A
  keep p [] = []
  keep p (x ∷ xs) = let rest = keep p xs in if p x then x ∷ rest else rest

  -- the first element that passes a test
  abbrev pub find_first : (A → Bool) → List A → Option A
  find_first p [] = none
  find_first p (x ∷ xs) = let rest = find_first p xs in if p x then some x else rest

  abbrev pub any_of : (A → Bool) → List A → Bool
  any_of p [] = false
  any_of p (x ∷ xs) = let rest = any_of p xs in if p x then true else rest

  pub length-append : (xs ys : List A) → length (xs ++ ys) ≡ length xs + length ys
  length-append [] ys = omega arith
  length-append (x ∷ xs) ys = omega (arith, length-append xs ys)

-- a predicate of every element
abbrev pub All {ℓ κ} : {A : Type ℓ} → (A → Type κ) → List A → Type κ
All holds (a ∷ rest) = holds a × All holds rest
All holds [] = Unit

abbrev pub Any {ℓ} : {A : Type ℓ} → (A → Type 0) → List A → Type 0
Any holds (a ∷ rest) = holds a ⊎ Any holds rest
Any holds [] = ⊥

module _ {ℓ} {V : Type ℓ} where
  -- `m[key]`
  abbrev pub lookup : String → List (String × V) → Option V
  lookup key ((name, value) ∷ rest) = if str_eq name key then some value else lookup key rest
  lookup key [] = none

  -- `m[key] = value`
  abbrev pub insert : String → V → List (String × V) → List (String × V)
  insert key value ((name, old) ∷ rest) =
      let kept = insert key value rest in
      if str_eq name key then (key, value) ∷ rest else (name, old) ∷ kept
  insert key value [] = (key, value) ∷ []

  -- `delete(m, key)`
  abbrev pub remove : String → List (String × V) → List (String × V)
  remove key ((name, value) ∷ rest) =
      let kept = remove key rest in if str_eq name key then kept else (name, value) ∷ kept
  remove key [] = []

  pub lookup-insert :
      (key at : String) (value : V) (m : List (String × V))
      → lookup at (insert key value m) ≡ (if str_eq key at then some value else lookup at m)
  lookup-insert key at value ((name, old) ∷ rest) = ground (
    arith,
    str_eq_iff name key,
    str_eq_iff key at,
    str_eq_iff name at,
    lookup-insert key at value rest,
  )
  lookup-insert key at value [] = refl

  pub lookup-remove :
      (key at : String) (m : List (String × V))
      → lookup at (remove key m) ≡ (if str_eq key at then none else lookup at m)
  lookup-remove key at ((name, value) ∷ rest) =
      ground (
        arith,
        str_eq_iff name key,
        str_eq_iff key at,
        str_eq_iff name at,
        lookup-remove key at rest,
      )
  lookup-remove key at [] = ground arith

-- the contents of a heap after one cell was written
abbrev pub set_at {ℓ} : {A : Type ℓ} → ℕ → A → (ℕ → A) → ℕ → A
set_at p a cells q = if p == q then a else cells q
