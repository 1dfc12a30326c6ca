-- ===== src/Tracker/Linear/Reader/Routing.antt =====
-- Which items of internal/trackers/linear/reader.go are marked as the assignee's.
use go_symphony.Prelude.{
  ℕ, ◌≡◌, refl, sym, ◌⊎◌, inl, inr, true, Option, List, [], ◌∷◌, ◌++◌, ok, All,
}
use go_symphony.Prelude.Int.{ℤ}
use go_symphony.Prelude.Text.{Text}
use go_symphony.Domain.{WorkItem}
use go_symphony.Config.Settings.{ProviderSettings}
use go_symphony.Json
use go_symphony.Json.{Value}
use go_symphony.Tracker.Linear.Issue.{AssigneeFilter, PageInfo}
use go_symphony.Tracker.Linear.Issue.Laws.{
  IsRouted, decode_issues-IsRouted, decode_issues_page-IsRouted,
}
use go_symphony.Tracker.Linear.Names.{normalize_state_names}
use go_symphony.Tracker.Linear.Reader.{
  Client, Query, candidate_query, read_page, read_batch, read_batches, list_candidates,
  list_by_states_page, assignee_filter,
}
use go_symphony.Tracker.Linear.Reader.Paging.{
  Pages, last, more, bind_result-ok, ok_value, list_by_states_page-Pages,
}

pub names-cases :
    (names : List Text) → (names ≡ []) ⊎ ((x : Text) × (xs : List Text) × (names ≡ x ∷ xs))
names-cases [] = inl refl
names-cases (x ∷ xs) = inr (x, xs, refl)

All-append : {A : Type 0} (P : A → Type 0) (xs ys : List A) → All P xs → All P ys → All P (xs ++ ys)
All-append P [] ys h k = k
All-append P (x ∷ xs) ys h k = (h.0, All-append P xs ys h.1 k)

module _ {W : Type 0} (client : Client W) (parse_time : Text → Option ℤ)
    (settings : ProviderSettings) where
  read_page-IsRouted :
      (query : Query) (states : List Text) (filter : Option AssigneeFilter) (after : Value) (w : W)
      (found : List WorkItem) (page : PageInfo)
      → (read_page client parse_time settings query states filter true after w).0 ≡ ok (found, page)
      → All (IsRouted filter) found
  unfolding read_page
  read_page-IsRouted query states filter after w found page h =
      let (body, (answered, decoded)) = bind_result-ok _ _ (found, page) h in
      decode_issues_page-IsRouted parse_time filter body found page decoded

  Pages-IsRouted :
      (query : Query) (states : List Text) (filter : Option AssigneeFilter) (after : Value) (w : W)
      (items : List WorkItem)
      → Pages client parse_time settings query states filter true after w items
      → All (IsRouted filter) items
  Pages-IsRouted query states filter after w items (last _ _ _ page read e) =
      read_page-IsRouted query states filter after w items page read
  Pages-IsRouted query states filter after w items (more _ _ here page others read e f pages) =
      All-append (IsRouted filter) here others
        (read_page-IsRouted query states filter after w here page read)
        (Pages-IsRouted query states filter _ _ others pages)

  pub read_batches-IsRouted :
      (filter : Option AssigneeFilter) (bs : List (List Text)) (before : List WorkItem) (w : W)
      (found : List WorkItem)
      → All (IsRouted filter) before
      → (read_batches client parse_time settings filter before bs w).0 ≡ ok found
      → All (IsRouted filter) found
  unfolding read_batches read_batch
  read_batches-IsRouted filter [] before w found p h = rw⁻¹ (ok_value h) p
  read_batches-IsRouted filter (b ∷ bs) before w found p h =
      let (here, (read, others)) = bind_result-ok _ _ found h in
      let (body, (answered, decoded)) = bind_result-ok _ _ here read in
      read_batches-IsRouted filter bs (before ++ here) _ found
        (All-append (IsRouted filter) before here p
          (decode_issues-IsRouted parse_time filter body here decoded))
        others

  paged-IsRouted :
      (fuel : ℕ) (query : Query) (states : List Text) (filter : Option AssigneeFilter) (w : W)
      (items : List WorkItem)
      → (list_by_states_page client parse_time settings fuel query states filter true [] Json.null
          w).0
        ≡ ok items
      → All (IsRouted filter) items
  paged-IsRouted fuel query states filter w items h =
      let (rest, (pages, same)) =
        list_by_states_page-Pages client parse_time settings query states filter true fuel []
          Json.null w items h in
      rw same (Pages-IsRouted query states filter Json.null w rest pages)

  -- Every candidate says whether it goes to the configured assignee: all do where none is configured,
  -- else those whose assignee has its id, which for "me" is the viewer's.
  pub list_candidates-IsRouted :
      (fuel : ℕ) (w : W) (items : List WorkItem)
      → (list_candidates client parse_time settings fuel w).0 ≡ ok items
      → (items ≡ [])
        ⊎ ((filter : Option AssigneeFilter) × (((assignee_filter client parse_time settings w).0
                ≡ ok filter)
              × All (IsRouted filter) items))
  unfolding list_candidates
  list_candidates-IsRouted fuel w items h =
      elim (names-cases (normalize_state_names settings.active_states)) [
        | inl e ↦ inl (sym (ok_value (rw (e, list_candidates) at h)))
        | inr (name, names, e) ↦
            let (filter, (identified, listed)) =
              bind_result-ok _ _ items (rw (e, list_candidates) at h) in
            inr (
              filter,
              (
                identified,
                paged-IsRouted fuel candidate_query (name ∷ names) filter _ items listed,
              ),
            )
      ]
