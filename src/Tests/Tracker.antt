-- ===== src/Tests/Tracker.antt =====
-- The memory tracker on a board of two items.
use go_symphony.Prelude.{◌≡◌, not, ◌&&◌, [], ◌∷◌, filter_by}
use go_symphony.Prelude.Text.{codes, is_empty}
use go_symphony.Tracker.Memory.{memory_normalize_state, list_by_states, refresh_by_ids}
use go_symphony.Tracker.Memory.Laws.{list_by_states_lem, refresh_by_ids_lem, refreshed, asks_for}
use go_symphony.Tests.World.{board}

list_by_states_lem_example :
    list_by_states board (codes " todo" ∷ [] ∷ [])
    ≡ filter_by
        (λ item.
          let name = memory_normalize_state item.state in
          not (is_empty name) && asks_for (codes " todo" ∷ [] ∷ []) name)
        board
list_by_states_lem_example = list_by_states_lem board (codes " todo" ∷ [] ∷ [])

refresh_by_ids_lem_example :
    refresh_by_ids board (codes "2" ∷ codes "9" ∷ []) ≡ refreshed board (codes "2" ∷ codes "9" ∷ [])
refresh_by_ids_lem_example = refresh_by_ids_lem board (codes "2" ∷ codes "9" ∷ [])
