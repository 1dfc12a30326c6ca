-- ===== src/Tracker/Memory.antt =====
-- internal/trackers/memory/reader.go: a tracker over a fixed list. Copies of values need no model.
pub mod Laws
use go_symphony.Prelude.{
  Bool, true, false, Option, none, some, List, [], ◌∷◌, if◌then◌else◌, filter_by, Fallible, ok,
}
use go_symphony.Prelude.Text.{Text, trim_space, to_lower, is_empty}
use go_symphony.Prelude.Map.{Map, lookup, insert, has}
use go_symphony.Domain.{WorkItem}
use go_symphony.Tracker.Filter.{TrackerReader}

unfoldable pub memory_normalize_state : Text → Text
memory_normalize_state state = to_lower (trim_space state)

unfoldable pub wanted_states : Map (Unit {0}) → List Text → Map (Unit {0})
unfolding memory_normalize_state
wanted_states names [] = names
wanted_states names (state ∷ states) =
    let name = memory_normalize_state state in
    wanted_states (if is_empty name then names else insert name tt names) states

unfoldable pub with_states : Map (Unit {0}) → List WorkItem → List WorkItem
unfolding filter_by memory_normalize_state
with_states [] items = []
with_states (name ∷ names) items =
    filter_by (λ item. has (memory_normalize_state item.state) (name ∷ names)) items

unfoldable pub list_by_states : List WorkItem → List Text → List WorkItem
unfolding with_states wanted_states
list_by_states items states = with_states (wanted_states [] states) items

-- the map `index`: a later item replaces an earlier one of its id
unfoldable pub index_items : Map WorkItem → List WorkItem → Map WorkItem
index_items index [] = index
index_items index (item ∷ items) = index_items (insert item.id item index) items

unfoldable pub pick : Map WorkItem → List Text → List WorkItem
pick index [] = []
pick index (id ∷ ids) =
    let rest = pick index ids in elim (lookup id index) [ none ↦ rest | some item ↦ item ∷ rest ]

unfoldable pub refresh_by_ids : List WorkItem → List Text → List WorkItem
unfolding pick index_items
refresh_by_ids items ids = pick (index_items [] items) ids

-- NewReader
unfoldable pub new_reader : {W : Type 0} → List WorkItem → TrackerReader W
unfolding list_by_states refresh_by_ids
new_reader items = record {
  list_candidates = λ w. (ok items, w);
  list_by_states = λ states w. (ok (list_by_states items states), w);
  refresh_by_ids = λ ids w. (ok (refresh_by_ids items ids), w);
}
