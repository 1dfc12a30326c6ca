-- ===== src/Tracker/Linear/Reader/Refresh.antt =====
-- What a refresh of internal/trackers/linear/reader.go returns.
use go_symphony.Prelude.{
  ℕ, ◌≤◌, ◌≡◌, sym, ◌⊎◌, inl, inr, true, false, Option, List, [], ◌∷◌, arith, ok, All,
}
use go_symphony.Prelude.Int.{ℤ}
use go_symphony.Prelude.Text.{Text}
use go_symphony.Prelude.Map.{Map}
use go_symphony.Prelude.Sorting.{
  sort_by, sort_by-perm, All-sort_by, sort_by-IsSortedBy, IsOrderedBy, IsSortedBy-IsOrderedBy,
}
use go_symphony.Domain.{WorkItem}
use go_symphony.Config.Settings.{ProviderSettings}
use go_symphony.Tracker.Linear.Issue.{AssigneeFilter}
use go_symphony.Tracker.Linear.Issue.Laws.{IsRouted}
use go_symphony.Tracker.Linear.Names.{normalize_ids, batches, order_from}
use go_symphony.Tracker.Linear.Names.Places.{place, order_index-normalize_ids}
use go_symphony.Tracker.Linear.Reader.{
  Client, assignee_filter, read_batches, comes_before, refresh_by_ids,
}
use go_symphony.Tracker.Linear.Reader.Paging.{bind_result-ok, ok_value}
use go_symphony.Tracker.Linear.Reader.Routing.{names-cases, read_batches-IsRouted}
use mathlib.Core.List.{Perm}

comes_before_asymm :
    (order : Map ℕ) (a b : WorkItem)
    → comes_before order a b ≡ true
    → comes_before order b a ≡ false
unfolding comes_before
comes_before_asymm order a b h = ground arith

comes_before_trans :
    (order : Map ℕ) (a b c : WorkItem)
    → comes_before order b a ≡ false
    → comes_before order c b ≡ false
    → comes_before order c a ≡ false
unfolding comes_before
comes_before_trans order a b c h k = ground arith

-- One item was asked for no later than the other: its id stands among the asked ids no later than the
-- other's, an id that was not asked for after all others.
abbrev pub AskedBefore : List Text → WorkItem → WorkItem → Type 0
AskedBefore ids a b = place a.id ids ≤ place b.id ids

comes_before-AskedBefore :
    (ids : List Text) (a b : WorkItem)
    → comes_before (order_from [] 0 (normalize_ids ids)) b a ≡ false
    → AskedBefore (normalize_ids ids) a b
unfolding comes_before
comes_before-AskedBefore ids a b h =
    ground (arith, order_index-normalize_ids a.id ids, order_index-normalize_ids b.id ids)

ordered_lem :
    (ids : List Text) (filter : Option AssigneeFilter) (found items : List WorkItem)
    → sort_by (comes_before (order_from [] 0 (normalize_ids ids))) found ≡ items
    → All (IsRouted filter) found
    → Perm items found
      × (IsOrderedBy (AskedBefore (normalize_ids ids)) items × All (IsRouted filter) items)
ordered_lem ids filter found items same routed =
    let order = order_from [] 0 (normalize_ids ids) in
    rw⁻¹ same (
      sort_by-perm (comes_before order) found,
      (
        IsSortedBy-IsOrderedBy (comes_before order) (AskedBefore (normalize_ids ids))
            (comes_before-AskedBefore ids) _
            (sort_by-IsSortedBy (comes_before order) (comes_before_asymm order)
              (comes_before_trans order) found),
        All-sort_by (comes_before order) (IsRouted filter) found routed,
      ),
    )

-- A refresh that succeeds returns nothing when no id is asked for. Otherwise the assignee was found out
-- and, from the world after that, the batches of the asked ids were read: it returns what they gave, each
-- item as often as it was given, in the order in which the ids were asked for, and each item says whether
-- it goes to the assignee.
pub refresh_by_ids-IsOrdered :
    {W : Type 0} (client : Client W) (parse_time : Text → Option ℤ) (settings : ProviderSettings)
    (ids : List Text) (w : W) (items : List WorkItem)
    → (refresh_by_ids client parse_time settings ids w).0 ≡ ok items
    → ((normalize_ids ids ≡ []) × (items ≡ []))
      ⊎ ((filter : Option AssigneeFilter) × (found : List WorkItem) × (((assignee_filter client
                parse_time settings w).0
              ≡ ok filter)
            × (((read_batches client parse_time settings filter []
                    (batches (normalize_ids ids))
                    (assignee_filter client parse_time settings w).1).0
                  ≡ ok found)
                × (Perm items found
                    × (IsOrderedBy (AskedBefore (normalize_ids ids)) items
                        × All (IsRouted filter) items)))))
unfolding refresh_by_ids
refresh_by_ids-IsOrdered client parse_time settings ids w items h =
    elim (names-cases (normalize_ids ids)) [
      | inl e ↦ inl (e, sym (ok_value (rw (e, refresh_by_ids) at h)))
      | inr (id, rest, e) ↦
          let (filter, (identified, refreshed)) =
            bind_result-ok _ _ items (rw (e, refresh_by_ids) at h) in
          let (found, (read, sorted)) = bind_result-ok _ _ items refreshed in
          inr (
            filter,
            found,
            (
              identified,
              (
                rw e read,
                ordered_lem ids filter found items (rw e (ok_value sorted)) (
                    read_batches-IsRouted client parse_time settings filter (batches (id ∷ rest)) []
                      _ found tt read),
              ),
            ),
          )
    ]
