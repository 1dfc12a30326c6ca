-- ===== src/Tracker/Linear/Issue/Laws.antt =====
-- Which items internal/trackers/linear/reader.go marks as routable.
use go_symphony.Prelude.{
  ◌≡◌, refl, inl, inr, true, Option, some, List, [], ◌∷◌, arith, Fallible, ok, All, Option-cases,
  Fallible-cases,
}
use go_symphony.Prelude.Int.{ℤ}
use go_symphony.Prelude.Text.{Text, codes}
use go_symphony.Domain.{WorkItem}
use go_symphony.Json.{Value, Fields, index, as_map, as_slice}
use go_symphony.Tracker.Linear.Issue.{
  ReaderError, AssigneeFilter, PageInfo, is_routable, nested_map, maps_of, normalize_issue,
  normalize_all, normalize_issue_nodes, decode_issues, decode_issues_page,
}

-- An item that says whether it goes to the assignee.
abbrev pub IsRouted : Option AssigneeFilter → WorkItem → Type 0
IsRouted filter item = item.routable ≡ some (is_routable filter item.assignee_id)

items_same :
    {xs ys : List WorkItem}
    → ◌≡◌ {A = Fallible (List WorkItem) ReaderError} (ok xs) (ok ys)
    → xs ≡ ys
items_same h = cc

first_same :
    {xs ys : List WorkItem} {p q : PageInfo}
    → ◌≡◌ {A = Fallible (List WorkItem × PageInfo) ReaderError} (ok (xs, p)) (ok (ys, q))
    → xs ≡ ys
first_same h = cc

normalize_all-IsRouted :
    (parse_time : Text → Option ℤ) (filter : Option AssigneeFilter) (issues : List Fields)
    → All (IsRouted filter) (normalize_all parse_time filter true issues)
unfolding normalize_all normalize_issue
normalize_all-IsRouted parse_time filter [] = tt
normalize_all-IsRouted parse_time filter (issue ∷ issues) =
    (refl, normalize_all-IsRouted parse_time filter issues)

module _ (parse_time : Text → Option ℤ) (filter : Option AssigneeFilter) where
  nodes-IsRouted :
      (nodes : Value) (found : List WorkItem)
      → normalize_issue_nodes parse_time filter true nodes ≡ ok found
      → All (IsRouted filter) found
  unfolding normalize_issue_nodes
  nodes-IsRouted nodes found h = elim (Option-cases (as_slice nodes)) [
    | inl e ↦ ground arith
    | inr (vs, e) ↦
        rw⁻¹ (items_same (rw (e, normalize_issue_nodes) at h))
          (normalize_all-IsRouted parse_time filter (maps_of vs))
  ]

  pub decode_issues-IsRouted :
      (body : Fields) (found : List WorkItem)
      → decode_issues parse_time body filter true ≡ ok found
      → All (IsRouted filter) found
  unfolding decode_issues
  decode_issues-IsRouted body found h =
      elim (Option-cases (nested_map body (codes "data" ∷ codes "issues" ∷ []))) [
        | inl e ↦ ground arith
        | inr (issues, e) ↦
            nodes-IsRouted (index issues (codes "nodes")) found (rw (e, decode_issues) at h)
      ]

  pub decode_issues_page-IsRouted :
      (body : Fields) (found : List WorkItem) (page : PageInfo)
      → decode_issues_page parse_time body filter true ≡ ok (found, page)
      → All (IsRouted filter) found
  unfolding decode_issues_page
  decode_issues_page-IsRouted body found page h =
      elim (Option-cases (nested_map body (codes "data" ∷ codes "issues" ∷ []))) [
        | inl e ↦ ground arith
        | inr (issues, e) ↦
            elim (Fallible-cases
              (normalize_issue_nodes parse_time filter true (index issues (codes "nodes")))) [
                | inr (x, f) ↦ ground arith
                | inl (here, f) ↦ elim (Option-cases (as_map (index issues (codes "pageInfo")))) [
                  | inl g ↦ ground arith
                  | inr (m, g) ↦
                      nodes-IsRouted (index issues (codes "nodes")) found
                        (rw⁻¹ (first_same (rw (e, f, g, decode_issues_page) at h)) f)
                ]
              ]
      ]
