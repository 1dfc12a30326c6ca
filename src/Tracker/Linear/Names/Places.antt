-- ===== src/Tracker/Linear/Names/Places.antt =====
-- The map `order` of refreshByIDs in internal/trackers/linear/reader.go: the places of the asked ids.
use go_symphony.Prelude.{
  ℕ, suc, ◌+◌, ◌≤◌, ◌<◌, ◌≡◌, refl, ◌∙◌, none, some, List, [], ◌∷◌, arith, if◌then◌else◌, length,
  ltb,
}
use go_symphony.Prelude.Text.{Text, text_eq, text_eq_refl}
use go_symphony.Prelude.Map.{Map, lookup, insert, lookup-insert}
use go_symphony.Tracker.Linear.Names.{order_from, order_index, normalize_ids}
use go_symphony.Tracker.Linear.Names.Laws.{count_of, count-normalize_ids}

-- How many ids stand before the first occurrence of `y`: all of them when it does not occur.
abbrev pub place : Text → List Text → ℕ
place y [] = 0
place y (x ∷ xs) = if text_eq x y then 0 else suc (place y xs)

abbrev IsDistinct : List Text → Type 0
IsDistinct ids = (y : Text) → count_of y ids ≤ 1

place_missing : (y : Text) (ids : List Text) → count_of y ids ≡ 0 → place y ids ≡ length ids
place_missing y [] h = refl
place_missing y (x ∷ xs) h = ground (arith, place_missing y xs)

length-insert_new :
    (k : Text) (v : ℕ) (m : Map ℕ) → lookup k m ≡ none → length (insert k v m) ≡ length m + 1
unfolding insert lookup
length-insert_new k v [] h = ground arith
length-insert_new k v ((i, w) ∷ m) h = ground (arith, length-insert_new k v m)

IsDistinct-tail : (x : Text) (xs : List Text) → IsDistinct (x ∷ xs) → IsDistinct xs
IsDistinct-tail x xs distinct y = omega (arith, distinct y)

lookup-order_from :
    (y : Text) (m : Map ℕ) (i : ℕ) (ids : List Text)
    → IsDistinct ids
    → lookup y (order_from m i ids)
      ≡ (if ltb 0 (count_of y ids) then some (i + place y ids) else lookup y m)
unfolding order_from
lookup-order_from y m i [] distinct = ground arith
lookup-order_from y m i (x ∷ xs) distinct = ground (
  arith,
  lookup-order_from y (insert x i m) (suc i) xs (IsDistinct-tail x xs distinct),
  lookup-insert x y i m,
  distinct y,
)

length-order_from :
    (m : Map ℕ) (i : ℕ) (ids : List Text)
    → IsDistinct ids
    → ((y : Text) → 0 < count_of y ids → lookup y m ≡ none)
    → length (order_from m i ids) ≡ length m + length ids
unfolding order_from
length-order_from m i [] distinct fresh = omega arith
length-order_from m i (x ∷ xs) distinct fresh =
    let rest = IsDistinct-tail x xs distinct in
    let free = fresh x (ground (arith, text_eq_refl x)) in
    length-order_from (insert x i m) (suc i) xs rest
      (λ y h. ground (arith, lookup-insert x y i m, distinct y, fresh y))
    ∙ ground (arith, length-insert_new x i m free)

order_index-place :
    (y : Text) (ids : List Text)
    → IsDistinct ids
    → order_index y (order_from [] 0 ids) ≡ place y ids
unfolding order_index lookup
order_index-place y ids distinct = ground (
  arith,
  lookup-order_from y [] 0 ids distinct,
  length-order_from [] 0 ids distinct (λ z h. refl),
  place_missing y ids,
)

normalize_ids-IsDistinct : (ids : List Text) → IsDistinct (normalize_ids ids)
normalize_ids-IsDistinct ids y = ground (arith, count-normalize_ids y ids)

-- The index of an id in the map of the asked ids is its place among them.
pub order_index-normalize_ids :
    (y : Text) (ids : List Text)
    → order_index y (order_from [] 0 (normalize_ids ids)) ≡ place y (normalize_ids ids)
order_index-normalize_ids y ids =
    order_index-place y (normalize_ids ids) (normalize_ids-IsDistinct ids)
