-- ===== src/Tracker/Linear/Issue.antt =====
-- internal/trackers/linear/reader.go: what is read out of the answers of the GraphQL API. `parse_time`
-- is time.Parse of RFC 3339, brought to UTC.
pub mod Laws
use go_symphony.Prelude.{
  Bool, true, false, not, ◌&&◌, Option, none, some, List, [], ◌∷◌, if◌then◌else◌, Fallible, ok, err,
}
use go_symphony.Prelude.Int.{ℤ}
use go_symphony.Prelude.Text.{Text, codes, text_eq, trim_space, to_lower, is_empty}
use go_symphony.Domain.{WorkItem, Blocker}
use go_symphony.Json
use go_symphony.Json.{Value, Fields, get, index, as_map, as_slice, as_text}

-- The errors of a reader. `still_paging` is no error of the code: it is still reading pages when the
-- fuel of the model runs out.
pub data ReaderError : Type 0 where
  missing_api_token missing_project_slug missing_viewer_identity : ReaderError
  unknown_payload missing_end_cursor still_paging : ReaderError
  graphql_errors : Value → ReaderError
  client_error : Text → ReaderError

pub record AssigneeFilter : Type 0 where
  pub id : Text

pub record PageInfo : Type 0 where
  pub has_next : Bool
  pub end_cursor : Text

unfoldable pub string_value : Value → Text
unfolding as_text
string_value v = elim (as_text v) [ none ↦ [] | some s ↦ s ]

unfoldable pub bool_value : Value → Bool
bool_value (Json.boolean b) = b
bool_value Json.null = false
bool_value (Json.number n) = false
bool_value (Json.text s) = false
bool_value (Json.array xs) = false
bool_value (Json.object m) = false

unfoldable pub nested_any : Value → List Text → Option Value
unfolding as_map get
nested_any v [] = some v
nested_any v (key ∷ keys) = elim (as_map v) [
  | none ↦ none
  | some m ↦ elim (get key m) [ none ↦ none | some next ↦ nested_any next keys ]
]

unfoldable pub nested_string : Fields → List Text → Text
unfolding nested_any string_value
nested_string root keys = elim (nested_any (Json.object root) keys) [
  | none ↦ []
  | some v ↦ string_value v
]

unfoldable pub nested_map : Fields → List Text → Option Fields
unfolding get as_map
nested_map current [] = some current
nested_map current (key ∷ keys) = elim (get key current) [
  | none ↦ none
  | some next ↦ elim (as_map next) [ none ↦ none | some m ↦ nested_map m keys ]
]

-- A decoded number is a json.Number, whose Int64 fails unless it is written as an integer.
unfoldable pub parse_priority : Value → Option ℤ
parse_priority (Json.number n) = if n.is_integer then some n.truncated else none
parse_priority Json.null = none
parse_priority (Json.boolean b) = none
parse_priority (Json.text s) = none
parse_priority (Json.array xs) = none
parse_priority (Json.object m) = none

-- The maps of a list of values; `continue` at the others.
unfoldable pub maps_of : List Value → List Fields
unfolding as_map
maps_of [] = []
maps_of (v ∷ vs) = let rest = maps_of vs in elim (as_map v) [ none ↦ rest | some m ↦ m ∷ rest ]

-- The "nodes" of a nested map, none where there are none.
unfoldable pub nodes_of : Fields → Text → List Fields
unfolding nested_map as_slice index maps_of
nodes_of issue key = elim (nested_map issue (key ∷ [])) [
  | none ↦ []
  | some m ↦ elim (as_slice (index m (codes "nodes"))) [ none ↦ [] | some vs ↦ maps_of vs ]
]

unfoldable pub label_names : List Fields → List Text
unfolding string_value index
label_names [] = []
label_names (label ∷ labels) =
    let rest = label_names labels in
    let name = string_value (index label (codes "name")) in
    if is_empty name then rest else to_lower name ∷ rest

unfoldable pub extract_labels : Fields → List Text
unfolding label_names nodes_of
extract_labels issue = label_names (nodes_of issue (codes "labels"))

unfoldable pub blocker : Fields → Blocker
unfolding string_value nested_string
blocker issue = record {
  id = string_value (index issue (codes "id"));
  identifier = string_value (index issue (codes "identifier"));
  state = nested_string issue (codes "state" ∷ codes "name" ∷ []);
}

unfoldable pub is_blocking : Fields → Bool
unfolding string_value
is_blocking relation =
    text_eq (to_lower (trim_space (string_value (index relation (codes "type"))))) (codes "blocks")

unfoldable pub blockers_of : List Fields → List Blocker
unfolding is_blocking blocker
blockers_of [] = []
blockers_of (relation ∷ relations) =
    let rest = blockers_of relations in
    if not (is_blocking relation)
    then rest
    else elim (as_map (index relation (codes "issue"))) [ none ↦ rest | some m ↦ blocker m ∷ rest ]

unfoldable pub extract_blockers : Fields → List Blocker
unfolding blockers_of nodes_of
extract_blockers issue = blockers_of (nodes_of issue (codes "inverseRelations"))

-- Whether an item goes to the assignee that is asked for; without a filter every item does.
unfoldable pub is_routable : Option AssigneeFilter → Text → Bool
is_routable none assignee = true
is_routable (some filter) assignee = not (is_empty assignee) && text_eq assignee filter.id

unfoldable pub decode_graphql_errors : Option Fields → Fallible Fields ReaderError
unfolding get
decode_graphql_errors none = err unknown_payload
decode_graphql_errors (some body) = elim (get (codes "errors") body) [
  | none ↦ ok body
  | some e ↦ err (graphql_errors e)
]

module _ (parse_time : Text → Option ℤ) where
  unfoldable pub read_time : Value → Option ℤ
  unfolding string_value
  read_time v = let raw = string_value v in if is_empty raw then none else parse_time raw

  unfoldable pub normalize_issue : Option AssigneeFilter → Bool → Fields → WorkItem
  unfolding string_value nested_string parse_priority extract_labels extract_blockers read_time
      is_routable
  normalize_issue filter set_routable issue =
      let assignee = nested_string issue (codes "assignee" ∷ codes "id" ∷ []) in
      record {
        id = string_value (index issue (codes "id"));
        identifier = string_value (index issue (codes "identifier"));
        title = string_value (index issue (codes "title"));
        description = string_value (index issue (codes "description"));
        state = nested_string issue (codes "state" ∷ codes "name" ∷ []);
        priority = parse_priority (index issue (codes "priority"));
        branch_name = string_value (index issue (codes "branchName"));
        url = string_value (index issue (codes "url"));
        assignee_id = assignee;
        labels = extract_labels issue;
        blocked_by = extract_blockers issue;
        routable = if set_routable then some (is_routable filter assignee) else none;
        created_at = read_time (index issue (codes "createdAt"));
        updated_at = read_time (index issue (codes "updatedAt"));
      }

  unfoldable pub normalize_all : Option AssigneeFilter → Bool → List Fields → List WorkItem
  unfolding normalize_issue
  normalize_all filter set_routable [] = []
  normalize_all filter set_routable (issue ∷ issues) =
      normalize_issue filter set_routable issue ∷ normalize_all filter set_routable issues

  unfoldable pub normalize_issue_nodes :
      Option AssigneeFilter → Bool → Value → Fallible (List WorkItem) ReaderError
  unfolding normalize_all maps_of as_slice
  normalize_issue_nodes filter set_routable nodes = elim (as_slice nodes) [
    | none ↦ err unknown_payload
    | some vs ↦ ok (normalize_all filter set_routable (maps_of vs))
  ]

  unfoldable pub decode_issues :
      Fields → Option AssigneeFilter → Bool → Fallible (List WorkItem) ReaderError
  unfolding normalize_issue_nodes nested_map
  decode_issues body filter set_routable =
      elim (nested_map body (codes "data" ∷ codes "issues" ∷ [])) [
        | none ↦ err unknown_payload
        | some issues ↦ normalize_issue_nodes filter set_routable (index issues (codes "nodes"))
      ]

  unfoldable pub page_info : Fields → PageInfo
  unfolding bool_value string_value
  page_info m = record {
    has_next = bool_value (index m (codes "hasNextPage"));
    end_cursor = string_value (index m (codes "endCursor"));
  }

  unfoldable pub decode_issues_page :
      Fields → Option AssigneeFilter → Bool → Fallible (List WorkItem × PageInfo) ReaderError
  unfolding normalize_issue_nodes nested_map page_info
  decode_issues_page body filter set_routable =
      elim (nested_map body (codes "data" ∷ codes "issues" ∷ [])) [
        | none ↦ err unknown_payload
        | some issues ↦
            elim (normalize_issue_nodes filter set_routable (index issues (codes "nodes"))) [
              | err e ↦ err e
              | ok items ↦ elim (as_map (index issues (codes "pageInfo"))) [
                | none ↦ err unknown_payload
                | some m ↦ ok (items, page_info m)
              ]
            ]
      ]
