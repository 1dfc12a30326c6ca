-- ===== src/Tracker/Linear/Reader.antt =====
-- internal/trackers/linear/reader.go: the reader over a GraphQL client, whose context stands in the world.
pub mod Paging
pub mod Routing
pub mod Refresh
use go_symphony.Prelude.{
  ℕ, zero, suc, Bool, true, false, not, Option, none, some, List, [], ◌∷◌, ◌++◌, map, if◌then◌else◌,
  Fallible, ok, err, ltb, length,
}
use go_symphony.Prelude.Int.{ℤ, pos}
use go_symphony.Prelude.Text.{Text, codes, text_eq, trim_space, is_empty, is_blank}
use go_symphony.Prelude.Decimal.{int_text}
use go_symphony.Prelude.Sorting.{sort_by}
use go_symphony.Prelude.Map.{Map}
use go_symphony.Domain.{WorkItem}
use go_symphony.Config.Settings.{ProviderSettings}
use go_symphony.Json
use go_symphony.Json.{Value, Fields, end, index, fields, items}
use go_symphony.Tracker.Linear.Issue.{
  ReaderError, missing_api_token, missing_project_slug, missing_viewer_identity, missing_end_cursor,
  still_paging, client_error, AssigneeFilter, PageInfo, string_value, nested_map,
  decode_graphql_errors, decode_issues, decode_issues_page,
}
use go_symphony.Tracker.Linear.Names.{
  normalize_state_names, normalize_ids, batches, order_from, order_index, page_size,
}

-- The four documents.
pub data Query : Type 0 where
  candidate_query issues_by_states_query issues_by_ids_query viewer_query : Query

-- GraphQL of the interface Client; a nil map is none.
abbrev pub Client : Type 0 → Type 0
Client W = Query → Fields → W → Fallible (Option Fields) Text × W

abbrev pub default_endpoint : Text
default_endpoint = codes "https://api.linear.app/graphql"

unfoldable pub first_non_empty : Text → Text → Text
first_non_empty a b = if is_empty a then b else a

-- The settings of NewReader's reader.
unfoldable pub new_reader : ProviderSettings → Fallible ProviderSettings ReaderError
unfolding first_non_empty trim_space
new_reader settings =
    let trimmed = record settings {
      endpoint = first_non_empty (trim_space settings.endpoint) default_endpoint;
      api_key = trim_space settings.api_key;
      project = trim_space settings.project;
      assignee = trim_space settings.assignee;
    } in
    if is_empty (trim_space settings.api_key)
    then err missing_api_token
    else if is_empty (trim_space settings.project)
    then err missing_project_slug
    else ok trimmed

abbrev texts : List Text → Value
texts ts = Json.array (items (map Json.text ts))

abbrev count : ℕ → Value
count n = Json.number (record { text = int_text (pos n); truncated = pos n; is_integer = true })

-- A call's result, where the second part goes on with the first one's.
unfoldable pub bind_result :
    {W A B : Type 0}
    → Fallible A ReaderError × W
    → (A → W → Fallible B ReaderError × W)
    → Fallible B ReaderError × W
bind_result (ok a, w) rest = rest a w
bind_result (err e, w) rest = (err e, w)

unfoldable pub answer :
    {W : Type 0} → Fallible (Option Fields) Text × W → Fallible Fields ReaderError × W
unfolding decode_graphql_errors
answer (err e, w) = (err (client_error e), w)
answer (ok body, w) = (decode_graphql_errors body, w)

unfoldable pub viewer_filter : Fields → Fallible (Option AssigneeFilter) ReaderError
unfolding nested_map string_value trim_space
viewer_filter body = elim (nested_map body (codes "data" ∷ codes "viewer" ∷ [])) [
  | none ↦ err missing_viewer_identity
  | some viewer ↦
      let viewer_id = trim_space (string_value (index viewer (codes "id"))) in
      if is_empty viewer_id
      then err missing_viewer_identity
      else ok (some (record { id = viewer_id }))
]

unfoldable pub batch_variables : List Text → Fields
unfolding int_text
batch_variables batch = fields (
    (codes "ids", texts batch)
    ∷ (codes "first", count (length batch))
    ∷ (codes "relationFirst", count page_size)
    ∷ [])

unfoldable pub comes_before : Map ℕ → WorkItem → WorkItem → Bool
unfolding order_index
comes_before order a b = ltb (order_index a.id order) (order_index b.id order)

module _ {W : Type 0} (client : Client W) (parse_time : Text → Option ℤ)
    (settings : ProviderSettings) where
  unfoldable pub graphql : Query → Fields → W → Fallible Fields ReaderError × W
  unfolding answer
  graphql query variables w = answer (client query variables w)

  unfoldable pub assignee_filter : W → Fallible (Option AssigneeFilter) ReaderError × W
  unfolding graphql viewer_filter trim_space
  assignee_filter w =
      let assignee = trim_space settings.assignee in
      if is_empty assignee
      then (ok none, w)
      else if not (text_eq assignee (codes "me"))
      then (ok (some (record { id = assignee })), w)
      else bind_result (graphql viewer_query end w) (λ body w'. (viewer_filter body, w'))

  unfoldable pub page_variables : List Text → Value → Fields
  unfolding int_text
  page_variables states after = fields (
      (codes "projectSlug", Json.text settings.project)
      ∷ (codes "stateNames", texts states)
      ∷ (codes "first", count page_size)
      ∷ (codes "relationFirst", count page_size)
      ∷ (codes "after", after)
      ∷ [])

  -- One round of the loop of listByStatesPage: a page's items and what it says of the next page.
  unfoldable pub read_page :
      Query
      → List Text
      → Option AssigneeFilter
      → Bool
      → Value
      → W
      → Fallible (List WorkItem × PageInfo) ReaderError × W
  unfolding graphql page_variables decode_issues_page
  read_page query states filter set_routable after w =
      bind_result (graphql query (page_variables states after) w)
        (λ body w'. (decode_issues_page parse_time body filter set_routable, w'))

  unfoldable pub list_by_states_page :
      ℕ
      → Query
      → List Text
      → Option AssigneeFilter
      → Bool
      → List WorkItem
      → Value
      → W
      → Fallible (List WorkItem) ReaderError × W
  unfolding read_page
  list_by_states_page zero query states filter set_routable found after w = (err still_paging, w)
  list_by_states_page (suc fuel) query states filter set_routable found after w =
      bind_result (read_page query states filter set_routable after w) (λ page w'.
        elim page.1.has_next [
          | false ↦ (ok (found ++ page.0), w')
          | true ↦ elim (is_blank page.1.end_cursor) [
            | true ↦ (err missing_end_cursor, w')
            | false ↦
                list_by_states_page fuel query states filter set_routable (found ++ page.0)
                  (Json.text page.1.end_cursor) w'
          ]
        ])

  unfoldable pub list_candidates : ℕ → W → Fallible (List WorkItem) ReaderError × W
  unfolding normalize_state_names assignee_filter list_by_states_page
  list_candidates fuel w = elim (normalize_state_names settings.active_states) [
    | [] ↦ (ok [], w)
    | state ∷ states ↦ bind_result (assignee_filter w) (λ filter w'.
        list_by_states_page fuel candidate_query (state ∷ states) filter true [] Json.null w')
  ]

  unfoldable pub list_by_states : ℕ → List Text → W → Fallible (List WorkItem) ReaderError × W
  unfolding normalize_state_names list_by_states_page
  list_by_states fuel names w = elim (normalize_state_names names) [
    | [] ↦ (ok [], w)
    | state ∷ states ↦
        list_by_states_page fuel issues_by_states_query (state ∷ states) none false [] Json.null w
  ]

  unfoldable pub read_batch :
      Option AssigneeFilter → List Text → W → Fallible (List WorkItem) ReaderError × W
  unfolding graphql batch_variables decode_issues
  read_batch filter batch w =
      bind_result (graphql issues_by_ids_query (batch_variables batch) w)
        (λ body w'. (decode_issues parse_time body filter true, w'))

  unfoldable pub read_batches :
      Option AssigneeFilter
      → List WorkItem
      → List (List Text)
      → W
      → Fallible (List WorkItem) ReaderError × W
  unfolding read_batch
  read_batches filter refreshed [] w = (ok refreshed, w)
  read_batches filter refreshed (batch ∷ rest) w =
      bind_result (read_batch filter batch w)
        (λ found w'. read_batches filter (refreshed ++ found) rest w')

  unfoldable pub refresh_by_ids : List Text → W → Fallible (List WorkItem) ReaderError × W
  unfolding normalize_ids assignee_filter read_batches order_from comes_before batches sort_by
  refresh_by_ids ids w = elim (normalize_ids ids) [
    | [] ↦ (ok [], w)
    | id ∷ rest ↦ bind_result (assignee_filter w) (λ filter w1.
        bind_result (read_batches filter [] (batches (id ∷ rest)) w1) (λ refreshed w2.
          (ok (sort_by (comes_before (order_from [] 0 (id ∷ rest))) refreshed), w2)))
  ]
