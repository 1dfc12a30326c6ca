-- ===== src/Prelude/Map.antt =====
-- Go's map[string]V as an association list. A range over a map visits its keys in an order that Go
-- does not fix: the model's loops over maps take that order as an argument.
use Prim.Native.Nat.{ℕ, suc, ◌+◌, ◌≤◌}
use mathlib.Core.Path.{◌≡◌, refl}
use mathlib.Core.Bool.{Bool, true}
use mathlib.Core.Option.{Option, none, some}
use mathlib.Core.List.{List, [], ◌∷◌, map}
use native.Mathlib.Omega.{arith}
use go_symphony.Prelude.Tests.{if◌then◌else◌, is_some}
use go_symphony.Prelude.Lists.{length}
use go_symphony.Prelude.Text.{Text, text_eq, text_eq_iff}

abbrev pub Map {ℓ} : Type ℓ → Type ℓ
Map V = List (Text × V)

module _ {ℓ} {V : Type ℓ} where
  unfoldable pub lookup : Text → Map V → Option V
  lookup k [] = none
  lookup k ((j, v) ∷ m) = if text_eq j k then some v else lookup k m

  -- m[k] = v
  unfoldable pub insert : Text → V → Map V → Map V
  insert k v [] = (k, v) ∷ []
  insert k v ((j, w) ∷ m) = if text_eq j k then (k, v) ∷ m else (j, w) ∷ insert k v m

  -- delete(m, k)
  unfoldable pub delete : Text → Map V → Map V
  delete k [] = []
  delete k ((j, w) ∷ m) = let rest = delete k m in if text_eq j k then rest else (j, w) ∷ rest

  abbrev pub has : Text → Map V → Bool
  has k m = is_some (lookup k m)

  abbrev pub keys : Map V → List Text
  keys m = map (λ e. e.0) m

  -- How many entries satisfy a test.
  unfoldable pub count_by : (V → Bool) → Map V → ℕ
  count_by test [] = 0
  count_by test ((j, v) ∷ m) = let rest = count_by test m in if test v then suc rest else rest

  pub lookup-insert :
      (k j : Text) (v : V) (m : Map V)
      → lookup j (insert k v m) ≡ (if text_eq k j then some v else lookup j m)
  unfolding lookup insert
  lookup-insert k j v [] = refl
  lookup-insert k j v ((i, w) ∷ m) =
      ground (arith, text_eq_iff k j, text_eq_iff i k, text_eq_iff i j, lookup-insert k j v m)

  pub lookup-delete :
      (k j : Text) (m : Map V) → lookup j (delete k m) ≡ (if text_eq k j then none else lookup j m)
  unfolding lookup delete
  lookup-delete k j [] = ground arith
  lookup-delete k j ((i, w) ∷ m) =
      ground (arith, text_eq_iff k j, text_eq_iff i k, text_eq_iff i j, lookup-delete k j m)

  pub length-delete-le : (k : Text) (m : Map V) → length (delete k m) ≤ length m
  unfolding delete
  length-delete-le k [] = omega arith
  length-delete-le k ((i, w) ∷ m) = ground (arith, length-delete-le k m)

  pub length-insert-le : (k : Text) (v : V) (m : Map V) → length (insert k v m) ≤ length m + 1
  unfolding insert
  length-insert-le k v [] = omega arith
  length-insert-le k v ((i, w) ∷ m) = ground (arith, length-insert-le k v m)

  -- An overwrite keeps the size.
  pub length-insert_old :
      (k : Text) (v : V) (m : Map V) → has k m ≡ true → length (insert k v m) ≡ length m
  unfolding insert lookup
  length-insert_old k v [] h = cc
  length-insert_old k v ((i, w) ∷ m) h = ground (arith, length-insert_old k v m)

  pub count_by-insert-le :
      (test : V → Bool) (k : Text) (v : V) (m : Map V)
      → count_by test (insert k v m) ≤ count_by test m + 1
  unfolding insert count_by
  count_by-insert-le test k v [] = ground arith
  count_by-insert-le test k v ((i, w) ∷ m) = ground (arith, count_by-insert-le test k v m)

  pub count_by-delete-le :
      (test : V → Bool) (k : Text) (m : Map V) → count_by test (delete k m) ≤ count_by test m
  unfolding delete count_by
  count_by-delete-le test k [] = omega arith
  count_by-delete-le test k ((i, w) ∷ m) = ground (arith, count_by-delete-le test k m)

  -- A new entry counts if it passes the test, and no other way.
  pub count_by-insert_new :
      (test : V → Bool) (k : Text) (v : V) (m : Map V)
      → lookup k m ≡ none
      → count_by test (insert k v m) ≡ (if test v then count_by test m + 1 else count_by test m)
  unfolding insert count_by lookup
  count_by-insert_new test k v [] h = ground arith
  count_by-insert_new test k v ((i, w) ∷ m) h = ground (arith, count_by-insert_new test k v m)

pub ruleset map_laws = (lookup-insert, lookup-delete)
