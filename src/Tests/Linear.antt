-- ===== src/Tests/Linear.antt =====
-- A Linear project of two issues on two pages.
use go_symphony.Prelude.{
  ℕ, zero, suc, ◌≡◌, ◌↔◌, refl, ◌⊎◌, not, ◌&&◌, Bool, true, false, Option, none, some, List, [],
  ◌∷◌, Fallible, ok, err, All, if◌then◌else◌,
}
use go_symphony.Prelude.Int.{ℤ}
use go_symphony.Prelude.Text.{Text, codes, is_empty, text_eq}
use go_symphony.Prelude.Sorting.{IsOrderedBy}
use go_symphony.Prelude.Map.{lookup, insert}
use go_symphony.Domain.{WorkItem}
use go_symphony.Config.Settings.{ProviderSettings}
use go_symphony.Json
use go_symphony.Json.{Value, Fields, fields, items}
use go_symphony.Tracker.Linear.Issue.{AssigneeFilter, ReaderError}
use go_symphony.Tracker.Linear.Issue.Laws.{IsRouted}
use go_symphony.Tracker.Linear.Names.{normalize_ids, batches}
use go_symphony.Tracker.Linear.Names.Laws.{count_of, is_asked, count-normalize_ids}
use go_symphony.Tracker.Linear.Reader.{
  Client, candidate_query, list_by_states_page, refresh_by_ids, assignee_filter, read_batches,
  bind_result,
}
use go_symphony.Tracker.Linear.Reader.Paging.{Pages, list_by_states_page_lem}
use go_symphony.Tracker.Linear.Reader.Refresh.{AskedBefore, refresh_by_ids-IsOrdered}
use mathlib.Core.List.{Perm}

abbrev object : Text → Value → Value
object key v = Json.object (fields ((key, v) ∷ []))

abbrev issue : Text → Value
issue id = Json.object (
    fields (
      (codes "id", Json.text id)
      ∷ (codes "state", object (codes "name") (Json.text (codes "Todo")))
      ∷ (codes "assignee", object (codes "id") (Json.text (codes "u")))
      ∷ []))

abbrev page : List Value → Bool → Fields
page nodes more = fields (
    (
      codes "data",
      object (codes "issues") (
          Json.object (
            fields (
              (codes "nodes", Json.array (items nodes))
              ∷ (
                codes "pageInfo",
                Json.object (
                    fields (
                      (codes "hasNextPage", Json.boolean more)
                      ∷ (codes "endCursor", Json.text (codes "c"))
                      ∷ [])),
              )
              ∷ []))),
    )
    ∷ [])

-- The first call is answered with the first page, and every later one with the second page.
abbrev answer_page : ℕ → Fields
answer_page zero = page (issue (codes "b") ∷ []) true
answer_page (suc n) = page (issue (codes "a") ∷ []) false

abbrev api : Client ℕ
api query variables w = (ok (some (answer_page w)), suc w)

abbrev no_time : Text → Option ℤ
no_time raw = none

abbrev project : ProviderSettings
project = record {
  kind = codes "linear";
  endpoint = [];
  api_key = codes "k";
  project = codes "p";
  assignee = codes "u";
  active_states = codes "Todo" ∷ [];
  terminal_states = [];
}

count-normalize_ids_example :
    count_of (codes "a") (normalize_ids (codes " a" ∷ codes "b" ∷ codes "a " ∷ [])) ≡ (
      if not (is_empty (codes "a"))
        && is_asked (codes "a") (codes " a" ∷ codes "b" ∷ codes "a " ∷ [])
      then 1
      else 0)
count-normalize_ids_example =
    count-normalize_ids (codes "a") (codes " a" ∷ codes "b" ∷ codes "a " ∷ [])

abbrev paged : ℕ → Fallible (List WorkItem) ReaderError × ℕ
paged fuel =
    list_by_states_page api no_time project fuel candidate_query (codes "Todo" ∷ []) none true []
      Json.null 0

abbrev found : List WorkItem
found = elim (paged 2).0 [ ok xs ↦ xs | err e ↦ [] ]

list_by_states_page_lem_example :
    ((fuel : ℕ) × ((paged fuel).0 ≡ ok found))
    ↔ Pages api no_time project candidate_query (codes "Todo" ∷ []) none true Json.null 0 found
list_by_states_page_lem_example =
    list_by_states_page_lem api no_time project candidate_query (codes "Todo" ∷ []) none true
      Json.null 0 found

abbrev asked : List Text
asked = codes "a" ∷ codes "b" ∷ []

abbrev refreshed : List WorkItem
refreshed = elim (refresh_by_ids api no_time project asked 0).0 [ ok xs ↦ xs | err e ↦ [] ]

refreshes : (refresh_by_ids api no_time project asked 0).0 ≡ ok refreshed
unfolding refresh_by_ids lookup bind_result text_eq insert
refreshes = refl

refresh_by_ids-IsOrdered_example :
    ((normalize_ids asked ≡ []) × (refreshed ≡ []))
    ⊎ ((filter : Option AssigneeFilter) × (read : List WorkItem) × (((assignee_filter api no_time
              project 0).0
            ≡ ok filter)
          × (((read_batches api no_time project filter []
                  (batches (normalize_ids asked))
                  (assignee_filter api no_time project 0).1).0
                ≡ ok read)
              × (Perm refreshed read
                  × (IsOrderedBy (AskedBefore (normalize_ids asked)) refreshed
                      × All (IsRouted filter) refreshed)))))
refresh_by_ids-IsOrdered_example =
    refresh_by_ids-IsOrdered api no_time project asked 0 refreshed refreshes
