-- ===== src/Tests/Orchestrator.antt =====
-- Retries, limits, totals and polls on concrete inputs.
use go_symphony.Prelude.{
  ℕ, ◌+◌, ◌-◌, ◌≡◌, refl, true, false, none, some, [], ◌∷◌, arith, filter_by, ok,
}
use mathlib.Core.List.{Perm}
use go_symphony.Runner.HostSelection.{contains_host}
use go_symphony.Prelude.Int.{pos, ltb_ℤ}
use go_symphony.Prelude.Text.{Text, codes, text_eq, is_blank, to_lower}
use go_symphony.Prelude.Map.{lookup, insert, count_by}
use go_symphony.Prelude.Sorting.{IsOrderedBy}
use go_symphony.Prelude.{map, ◌≤◌}
use go_symphony.Domain.{WorkItem}
use go_symphony.Orchestrator.State.{
  SchedulerState, RunningEntry, RetryEntry, Deps, new_scheduler_state, next_nonce,
}
use go_symphony.Orchestrator.Backoff.{failure_retry_delay}
use go_symphony.Orchestrator.Backoff.Laws.{failure_retry_delay-min, doubled}
use Prim.Native.Nat.{min}
use go_symphony.Orchestrator.Candidates.{
  sort_candidates, is_retry_candidate, should_dispatch, state_limit, running_count_for_state,
  reached,
}
use go_symphony.Orchestrator.Candidates.Order.{sort_candidates_lem, InOrder}
use go_symphony.Orchestrator.Dispatch.{
  process_candidate, revalidate_candidate, dispatch_item, admit_host,
}
use go_symphony.Orchestrator.Dispatch.Limits.{process_candidate-IsWithin, IsWithin, IsSteady}
use go_symphony.Orchestrator.Dispatch.Gaps.{process_candidate_overrun}
use go_symphony.Orchestrator.Events.Totals.{
  report_all, report_all-sum, Counts, as_totals, grown, IsBelow, IsInt,
}
use go_symphony.Orchestrator.Polling.{request_refresh, begin_poll}
use go_symphony.Orchestrator.Polling.Laws.{request_refresh_twice, request_refresh-begin_poll}
use go_symphony.Orchestrator.Retry.{handle_due_retry}
use go_symphony.Orchestrator.Retry.Once.{handle_due_retry_twice}
use go_symphony.Tests.World.{sunny, sunny-IsSound, todo_item, other_item, board}
use go_symphony.Tests.Scheduler.{some_settings}

abbrev fresh : SchedulerState
fresh = new_scheduler_state some_settings

abbrev ten : Counts
ten = record { input = 4; output = 6; total = 10; seconds = 1 }

abbrev zero_counts : Counts
zero_counts = record { input = 0; output = 0; total = 0; seconds = 0 }

-- The run of the first item, with 10 tokens reported.
abbrev entry : RunningEntry
entry = record {
  item = todo_item;
  attempt = 1;
  started_at = pos 5;
  last_event_at = none;
  last_event_kind = none;
  last_event_message = [];
  session_id = [];
  turn_count = 0;
  worker_host = [];
  workspace_path = codes "/w/ABC-1";
  codex_totals = as_totals ten;
  last_reported_totals = as_totals ten;
  handle = some 7;
}

abbrev more_counts : Counts
more_counts = record { input = 8; output = 9; total = 17; seconds = 3 }

abbrev most_counts : Counts
most_counts = record { input = 8; output = 11; total = 19; seconds = 5 }

-- The first item waits for its second attempt.
abbrev waiting : SchedulerState
waiting = record fresh {
  claimed =
      (
        codes "1",
        record { item_id = codes "1"; item_identifier = codes "ABC-1"; claimed_at = pos 1 },
      )
      ∷ [];
  retrying = (codes "1", retry) ∷ [];
  retry_nonce = 1;
}
  where
    retry : RetryEntry
    retry = record {
      item_id = codes "1";
      item_identifier = codes "ABC-1";
      attempt = 2;
      due_at = pos 20000000000;
      last_error = codes "crash";
      worker_host = [];
      workspace_path = [];
      nonce = 1;
    }

handle_due_retry_twice_example :
    let after = (handle_due_retry sunny waiting 30 (codes "1") 1).0 in
    handle_due_retry sunny after 31 (codes "1") 1 ≡ (after, 31)
handle_due_retry_twice_example =
    handle_due_retry_twice sunny sunny-IsSound waiting 30 31 (codes "1") 1 (omega arith)
      (omega arith)

failure_retry_delay-min_example :
    failure_retry_delay 3 (pos 300000000000) ≡ pos (min (doubled (3 - 1)) 300000000000)
failure_retry_delay-min_example = failure_retry_delay-min 3 300000000000 (omega arith) (omega arith)

report_all-sum_example :
    (report_all fresh entry (map as_totals (more_counts ∷ most_counts ∷ []))).0.codex_totals
    ≡ as_totals (grown zero_counts ten most_counts)
unfolding new_scheduler_state
report_all-sum_example =
    report_all-sum fresh entry zero_counts ten (more_counts ∷ most_counts ∷ []) refl refl
      (more, (most, tt)) within_int
  where
    more : IsBelow ten more_counts
    more = record {
      input = omega arith;
      output = omega arith;
      total = omega arith;
      seconds = omega arith;
    }

    most : IsBelow more_counts most_counts
    most = record {
      input = omega arith;
      output = omega arith;
      total = omega arith;
      seconds = omega arith;
    }

    within_int : IsInt (grown zero_counts ten most_counts)
    within_int = record {
      input = omega arith;
      output = omega arith;
      total = omega arith;
      seconds = omega arith;
    }

steady : IsSteady sunny fresh 3 todo_item (revalidate_candidate sunny fresh 3 todo_item.id).0
unfolding revalidate_candidate is_retry_candidate should_dispatch state_limit
    running_count_for_state new_scheduler_state dispatch_item admit_host filter_by contains_host
    text_eq is_blank to_lower lookup insert count_by
steady = (refl, refl)

within : IsWithin fresh (codes "todo")
unfolding revalidate_candidate is_retry_candidate should_dispatch state_limit
    running_count_for_state new_scheduler_state dispatch_item admit_host filter_by contains_host
    text_eq is_blank to_lower lookup insert count_by
within h = ground arith

process_candidate-IsWithin_example :
    IsWithin (process_candidate sunny fresh 3 todo_item).0 (codes "todo")
process_candidate-IsWithin_example =
    process_candidate-IsWithin sunny fresh 3 todo_item (codes "todo") steady within

fresh_nonce : 0 ≤ fresh.poll_nonce
unfolding new_scheduler_state
fresh_nonce = omega arith

fresh_next : next_nonce fresh.poll_nonce ≡ fresh.poll_nonce + 1
unfolding new_scheduler_state
fresh_next = refl

granted : (request_refresh sunny fresh 3).0.coalesced ≡ false
unfolding request_refresh new_scheduler_state
granted = refl

request_refresh-begin_poll_example :
    begin_poll (request_refresh sunny fresh 3).1 0 ≡ ((request_refresh sunny fresh 3).1, false)
request_refresh-begin_poll_example =
    request_refresh-begin_poll sunny fresh 3 9 0 fresh_nonce fresh_next granted

request_refresh_twice_example :
    let first = request_refresh sunny fresh 3 in
    let second = request_refresh sunny first.1 9 in
    (second.0.coalesced ≡ true) × (second.1 ≡ first.1)
request_refresh_twice_example = request_refresh_twice sunny fresh 3 9 (omega arith)

sort_candidates_lem_example :
    IsOrderedBy InOrder (sort_candidates board) × Perm (sort_candidates board) board
sort_candidates_lem_example = sort_candidates_lem board

abbrev in_state : Text → WorkItem → WorkItem
in_state state item = record item { state = state }

-- The item that the list shows in progress is in "Todo" by now, where another one runs already, and
-- one run is the limit.
abbrev moving : Deps ℕ
moving = record sunny {
  refresh_items = some (λ ids w. (ok (in_state (codes "Todo") other_item ∷ []), w));
}

abbrev busy : SchedulerState
busy = record fresh { running = (codes "1", entry) ∷ [] }

moved :
    (revalidate_candidate moving busy 3 other_item.id).0 ≡ some (in_state (codes "Todo") other_item)
unfolding revalidate_candidate is_retry_candidate should_dispatch state_limit
    running_count_for_state new_scheduler_state dispatch_item admit_host filter_by contains_host
    text_eq is_blank to_lower lookup insert count_by
moved = refl

listed_go : should_dispatch busy other_item ≡ true
unfolding revalidate_candidate is_retry_candidate should_dispatch state_limit
    running_count_for_state new_scheduler_state dispatch_item admit_host filter_by contains_host
    text_eq is_blank to_lower lookup insert count_by
listed_go = refl

full :
    reached (state_limit busy (codes "Todo")) (running_count_for_state busy (codes "Todo")) ≡ true
unfolding revalidate_candidate is_retry_candidate should_dispatch state_limit
    running_count_for_state new_scheduler_state dispatch_item admit_host filter_by contains_host
    text_eq is_blank to_lower lookup insert count_by
full = refl

moved_starts :
    (dispatch_item moving busy
      (revalidate_candidate moving busy 3 other_item.id).1
      (in_state (codes "Todo") other_item)
      0
      []).0
    ≡ true
unfolding revalidate_candidate is_retry_candidate should_dispatch state_limit
    running_count_for_state new_scheduler_state dispatch_item admit_host filter_by contains_host
    text_eq is_blank to_lower lookup insert count_by
moved_starts = refl

process_candidate_overrun_example :
    let after = (process_candidate moving busy 3 other_item).0 in
    ltb_ℤ (state_limit after (codes "Todo")) (pos (running_count_for_state after (codes "Todo")))
    ≡ true
process_candidate_overrun_example =
    process_candidate_overrun moving busy 3 other_item (in_state (codes "Todo") other_item)
      listed_go moved refl full moved_starts
