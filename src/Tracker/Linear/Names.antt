-- ===== src/Tracker/Linear/Names.antt =====
-- internal/trackers/linear/reader.go: the names that are asked for, their batches and their order.
pub mod Laws
pub mod Places
use go_symphony.Prelude.{
  ℕ, zero, suc, ◌+◌, true, false, ◌||◌, none, some, List, [], ◌∷◌, length, take, drop,
}
use go_symphony.Prelude.Text.{Text, trim_space, is_empty}
use go_symphony.Prelude.Map.{Map, lookup, insert, has}

abbrev pub page_size : ℕ
page_size = 50

-- The loop of normalizeStateNames and normalizeIDs, which are the same code: `seen` are the names that
-- are in the result already.
unfoldable pub normalize_from : Map (Unit {0}) → List Text → List Text
unfolding trim_space
normalize_from seen [] = []
normalize_from seen (value ∷ values) =
    let name = trim_space value in
    elim (is_empty name || has name seen) [
      | true ↦ normalize_from seen values
      | false ↦ name ∷ normalize_from (insert name tt seen) values
    ]

unfoldable pub normalize_state_names : List Text → List Text
unfolding normalize_from
normalize_state_names values = normalize_from [] values

unfoldable pub normalize_ids : List Text → List Text
unfolding normalize_from
normalize_ids values = normalize_from [] values

-- `for start := 0; start < len(ids); start += pageSize`, on fuel.
unfoldable pub batches_from : ℕ → List Text → List (List Text)
batches_from zero ids = []
batches_from (suc fuel) [] = []
batches_from (suc fuel) (id ∷ ids) =
    take page_size (id ∷ ids) ∷ batches_from fuel (drop page_size (id ∷ ids))

unfoldable pub batches : List Text → List (List Text)
unfolding batches_from
batches ids = batches_from (length ids) ids

-- The map `order`.
unfoldable pub order_from : Map ℕ → ℕ → List Text → Map ℕ
order_from order i [] = order
order_from order i (id ∷ ids) = order_from (insert id i order) (suc i) ids

-- `len(order)` is that of the map.
unfoldable pub order_index : Text → Map ℕ → ℕ
order_index id order = elim (lookup id order) [ some i ↦ i | none ↦ length order ]
