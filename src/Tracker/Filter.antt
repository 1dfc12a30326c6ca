-- ===== src/Tracker/Filter.antt =====
-- internal/tracker/tracker.go and filter.go.
use go_symphony.Prelude.{Bool, ◌||◌, List, [], if◌then◌else◌, Fallible, ok, err, filter_by}
use go_symphony.Prelude.Text.{Text, text_eq, trim_space, to_lower, is_empty}
use go_symphony.Domain.{WorkItem}

-- TrackerReader: three reads of the outside world.
pub record TrackerReader (W : Type 0) : Type 0 where
  pub list_candidates : W → Fallible (List WorkItem) Text × W
  pub list_by_states : List Text → W → Fallible (List WorkItem) Text × W
  pub refresh_by_ids : List Text → W → Fallible (List WorkItem) Text × W

unfoldable pub normalize_match : Text → Text
normalize_match value = to_lower (trim_space value)

unfoldable pub matches_item : Text → WorkItem → Bool
unfolding normalize_match
matches_item match item =
    text_eq (normalize_match item.id) match || text_eq (normalize_match item.identifier) match

-- filteredReader.filter
unfoldable pub filter_items : Text → List WorkItem → List WorkItem
unfolding matches_item filter_by
filter_items match items = if is_empty match then [] else filter_by (matches_item match) items

unfoldable pub filter_result :
    {W : Type 0} → Text → Fallible (List WorkItem) Text × W → Fallible (List WorkItem) Text × W
unfolding filter_items
filter_result match (err e, w) = (err e, w)
filter_result match (ok items, w) = (ok (filter_items match items), w)

unfoldable pub new_filtered_reader : {W : Type 0} → TrackerReader W → Text → TrackerReader W
unfolding filter_result normalize_match
new_filtered_reader reader match =
    let m = normalize_match match in
    record {
      list_candidates = λ w. filter_result m (reader.list_candidates w);
      list_by_states = λ states w. filter_result m (reader.list_by_states states w);
      refresh_by_ids = λ ids w. filter_result m (reader.refresh_by_ids ids w);
    }
