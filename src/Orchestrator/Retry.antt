-- ===== src/Orchestrator/Retry.antt =====
-- internal/orchestrator/state.go: what happens when a retry falls due.
pub mod Once
use go_symphony.Prelude.{
  ℕ, ◌+◌, Bool, true, false, not, Option, none, some, List, [], ◌∷◌, length, ◌||◌, ◌==◌,
  if◌then◌else◌, Fallible, ok, err,
}
use go_symphony.Prelude.Text.{Text, codes}
use go_symphony.Prelude.Map.{lookup, delete, has}
use go_symphony.Domain.{WorkItem}
use go_symphony.Orchestrator.State.{Deps, StopRunRequest, RetryEntry, SchedulerState}
use go_symphony.Orchestrator.Candidates.{
  is_terminal, is_retry_candidate, state_limit, running_count_for_state, reached,
}
use go_symphony.Orchestrator.Dispatch.{schedule_failure_retry, dispatch_item}

-- retryStatus, with the item where there is one
pub data RetryStatus : Type 0 where
  ready terminal ineligible : WorkItem → RetryStatus
  missing refresh_failed : RetryStatus

unfoldable pub retry_status : SchedulerState → Fallible (List WorkItem) Text → RetryStatus
retry_status s (err e) = refresh_failed
retry_status s (ok []) = missing
retry_status s (ok (item ∷ items)) =
    if is_terminal s item.state
    then terminal item
    else if not (is_retry_candidate s item)
    then ineligible item
    else ready item

abbrev pub no_slots : Text
no_slots = codes "no available orchestrator slots"

module _ {W : Type 0} (d : Deps W) where
  -- the error of stopRun is dropped
  unfoldable pub stop_with_intent : W → Text → Text → Option ℕ → Bool → W
  stop_with_intent w item_id identifier handle cleanup = elim d.stop_run [
    | none ↦ w
    | some stop ↦
        (stop
          (record {
            item_id = item_id;
            item_identifier = identifier;
            handle = handle;
            cleanup_workspace = cleanup;
          })
          w).1
  ]

  unfoldable pub refresh_retry_item : SchedulerState → W → Text → RetryStatus × W
  unfolding retry_status
  refresh_retry_item s w item_id = elim d.refresh_items [
    | none ↦ (refresh_failed, w)
    | some refresh ↦ let r = refresh (item_id ∷ []) w in (retry_status s r.0, r.1)
  ]

  -- the call of scheduleFailureRetry that handleDueRetry makes in its later branches
  unfoldable pub retry_later :
      SchedulerState → W → Text → Text → RetryEntry → Text → SchedulerState × W
  unfolding schedule_failure_retry
  retry_later s w item_id identifier entry reason =
      schedule_failure_retry d s w item_id identifier (entry.attempt + 1) reason entry.worker_host
        entry.workspace_path

  -- after dispatchItem: a dispatch that found no host leaves no retry behind
  unfoldable pub after_dispatch :
      Text → Text → RetryEntry → Bool × SchedulerState × W → SchedulerState × W
  unfolding retry_later
  after_dispatch item_id identifier entry (true, s, w) = (s, w)
  after_dispatch item_id identifier entry (false, s, w) =
      if has item_id s.retrying then (s, w) else retry_later s w item_id identifier entry no_slots

  unfoldable pub finish_retry :
      SchedulerState → Text → RetryEntry → RetryStatus × W → SchedulerState × W
  unfolding retry_later after_dispatch stop_with_intent
  finish_retry s item_id entry (missing, w) = (record s { claimed = delete item_id s.claimed }, w)
  finish_retry s item_id entry (terminal item, w) = (
    record s { claimed = delete item_id s.claimed },
    stop_with_intent w item_id entry.item_identifier none true,
  )
  finish_retry s item_id entry (ineligible item, w) = (
    record s { claimed = delete item_id s.claimed },
    stop_with_intent w item_id entry.item_identifier none false,
  )
  finish_retry s item_id entry (refresh_failed, w) =
      retry_later s w item_id entry.item_identifier entry (codes "retry refresh failed")
  finish_retry s item_id entry (ready item, w) =
      if reached s.max_concurrent (length s.running)
      then retry_later s w item_id item.identifier entry no_slots
      else if reached (state_limit s item.state) (running_count_for_state s item.state)
      then retry_later s w item_id item.identifier entry no_slots
      else after_dispatch item_id item.identifier entry
          (dispatch_item d s w item entry.attempt entry.worker_host)

  unfoldable pub take_retry : SchedulerState → W → Text → RetryEntry → SchedulerState × W
  unfolding refresh_retry_item finish_retry
  take_retry s w item_id entry =
      let s' = record s { retrying = delete item_id s.retrying } in
      finish_retry s' item_id entry (refresh_retry_item s' w item_id)

  unfoldable pub handle_due_retry : SchedulerState → W → Text → ℕ → SchedulerState × W
  unfolding take_retry
  handle_due_retry s w item_id nonce = elim (lookup item_id s.retrying) [
    | none ↦ (s, w)
    | some entry ↦ if not (entry.nonce == nonce) then (s, w) else take_retry s w item_id entry
  ]
