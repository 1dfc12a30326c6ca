-- ===== src/Orchestrator/Candidates.antt =====
-- internal/orchestrator/state.go: which work items may run, and in which order they are tried.
pub mod Order
use go_symphony.Prelude.{
  ℕ, zero, suc, Bool, true, false, not, ◌&&◌, ◌||◌, Option, none, some, List, [], ◌∷◌, length, leb,
  ltb, ◌==◌, if◌then◌else◌, is_some,
}
use go_symphony.Prelude.Int.{ℤ, pos, negsuc, ltb_ℤ, leb_ℤ}
use go_symphony.Prelude.Text.{Text, codes, text_eq, text_lt, is_blank}
use go_symphony.Prelude.Map.{Map, lookup, has, count_by}
use go_symphony.Prelude.Sorting.{sort_by}
use go_symphony.Domain.{WorkItem, Blocker}
use go_symphony.Orchestrator.State.{RunningEntry, SchedulerState, normalize_state, first_non_empty}

unfoldable pub is_active : SchedulerState → Text → Bool
is_active s state = has (normalize_state state) s.active_states

unfoldable pub is_terminal : SchedulerState → Text → Bool
is_terminal s state = has (normalize_state state) s.terminal_states

-- `s.stateLimits[...]`, zero for a missing key
unfoldable pub state_limit : SchedulerState → Text → ℤ
state_limit s state = elim (lookup (normalize_state state) s.state_limits) [
  | none ↦ pos 0
  | some limit ↦ limit
]

unfoldable pub in_state : Text → RunningEntry → Bool
in_state name entry = text_eq (normalize_state entry.item.state) name

unfoldable pub running_count_for_state : SchedulerState → Text → ℕ
unfolding in_state
running_count_for_state s state = count_by (in_state (normalize_state state)) s.running

unfoldable pub has_open_blocker : Map (Unit {0}) → List Blocker → Bool
has_open_blocker terminal [] = false
has_open_blocker terminal (b ∷ bs) =
    let rest = has_open_blocker terminal bs in
    if not (has (normalize_state b.state) terminal) then true else rest

unfoldable pub blocked_todo : WorkItem → Map (Unit {0}) → Bool
unfolding has_open_blocker
blocked_todo item terminal =
    if not (text_eq (normalize_state item.state) (codes "todo"))
    then false
    else has_open_blocker terminal item.blocked_by

-- `item.Routable != nil && !*item.Routable`
abbrev pub not_routable : WorkItem → Bool
not_routable item = elim item.routable [ none ↦ false | some r ↦ not r ]

unfoldable pub is_retry_candidate : SchedulerState → WorkItem → Bool
unfolding is_active is_terminal blocked_todo
is_retry_candidate s item =
    if is_blank item.id || is_blank item.identifier || is_blank item.title || is_blank item.state
    then false
    else if is_terminal s item.state || not (is_active s item.state)
    then false
    else if not_routable item
    then false
    else not (blocked_todo item s.terminal_states)

-- `limit > 0 && count >= limit`
abbrev pub reached : ℤ → ℕ → Bool
reached limit count = ltb_ℤ (pos 0) limit && leb_ℤ limit (pos count)

unfoldable pub should_dispatch : SchedulerState → WorkItem → Bool
unfolding is_retry_candidate state_limit running_count_for_state
should_dispatch s item =
    if not (is_retry_candidate s item)
    then false
    else if has item.id s.claimed
    then false
    else if has item.id s.running
    then false
    else if reached s.max_concurrent (length s.running)
    then false
    else not (reached (state_limit s item.state) (running_count_for_state s item.state))

unfoldable pub priority_rank : Option ℤ → ℕ
priority_rank none = 5
priority_rank (some (negsuc n)) = 5
priority_rank (some (pos n)) = if leb 1 n && leb n 4 then n else 5

-- Nanoseconds from the zero time, year 1, to the start of the year 9999.
abbrev far_future : ℤ
far_future = pos 315506361600000000000

unfoldable pub created_at_key : WorkItem → ℤ
created_at_key item = elim item.created_at [ none ↦ far_future | some t ↦ t ]

unfoldable pub candidate_less : WorkItem → WorkItem → Bool
unfolding priority_rank created_at_key first_non_empty
candidate_less a b =
    let pa = priority_rank a.priority in
    let pb = priority_rank b.priority in
    if not (pa == pb)
    then ltb pa pb
    else let ta = created_at_key a in
      let tb = created_at_key b in
      if ltb_ℤ ta tb || ltb_ℤ tb ta
      then ltb_ℤ ta tb
      else text_lt (first_non_empty (a.identifier ∷ a.id ∷ []))
          (first_non_empty (b.identifier ∷ b.id ∷ []))

-- append, then sort.Slice
unfoldable pub sort_candidates : List WorkItem → List WorkItem
unfolding candidate_less sort_by
sort_candidates items = sort_by candidate_less items
