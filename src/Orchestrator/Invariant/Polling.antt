-- ===== src/Orchestrator/Invariant/Polling.antt =====
-- applyRunEvent and handleDueRetry of internal/orchestrator/state.go leave the poll alone.
use go_symphony.Prelude.{
  ℕ, ◌≡◌, ◌∙◌, Bool, true, false, arith, Fallible, ok, err, Option-cases, inl, inr,
}
use go_symphony.Prelude.Text.{Text}
use go_symphony.Prelude.Map.{lookup, delete}
use go_symphony.Domain.{WorkItem, RunEvent, RunEventKind, run_completed}
use go_symphony.Orchestrator.State.{Deps, SchedulerState, StartRunResult, RetryEntry, RunningEntry}
use go_symphony.Orchestrator.Dispatch.{
  schedule_failure_retry, record_run, admit_host, finish_start, start_item, dispatch_item,
}
use go_symphony.Orchestrator.Events.{
  note_totals, note_event, note_rate_limits, finish_event, apply_known_event, apply_run_event,
}
use go_symphony.Orchestrator.Retry.{
  RetryStatus, ready, refresh_failed, refresh_retry_item, retry_later, after_dispatch, finish_retry,
  take_retry, handle_due_retry,
}

-- The poll's nonce and whether one is under way are those of `s`.
pub record SamePoll (s t : SchedulerState) : Type 0 where
  pub checking_same : t.checking ≡ s.checking
  pub poll_nonce_same : t.poll_nonce ≡ s.poll_nonce

noted-SamePoll :
    (s : SchedulerState) (entry : RunningEntry) (event : RunEvent)
    → SamePoll s (note_rate_limits (note_totals s entry event).0 event.rate_limits)
unfolding note_totals note_rate_limits
noted-SamePoll s entry event = ground arith

module _ {W : Type 0} (d : Deps W) where
  finish_event-SamePoll :
      (kind : RunEventKind) (s : SchedulerState) (w : W) (entry : RunningEntry) (event : RunEvent)
      → SamePoll s (finish_event d kind s w entry event).0
  unfolding finish_event schedule_failure_retry
  finish_event-SamePoll run_completed s w entry event = ground arith
  finish_event-SamePoll _ s w entry event = ground arith

  pub apply_run_event-SamePoll :
      (s : SchedulerState) (w : W) (event : RunEvent) → SamePoll s (apply_run_event d s w event).0
  unfolding apply_run_event apply_known_event
  apply_run_event-SamePoll s w event = elim (Option-cases (lookup event.item_id s.running)) [
    | inl absent ↦ rw (absent, apply_run_event) (ground arith)
    | inr (entry, found) ↦
        rw (found, apply_run_event)
          (let n = note_totals s (note_event entry event) event in
            let a = noted-SamePoll s (note_event entry event) event in
            let b =
              finish_event-SamePoll event.kind (note_rate_limits n.0 event.rate_limits) w n.1
                event in
            record {
              checking_same = b.checking_same ∙ a.checking_same;
              poll_nonce_same = b.poll_nonce_same ∙ a.poll_nonce_same;
            })
  ]

  finish_start-SamePoll :
      (s : SchedulerState) (item : WorkItem) (attempt : ℕ) (host : Text)
      (r : Fallible StartRunResult Text × W)
      → SamePoll s (finish_start d s item attempt host r).1
  unfolding finish_start schedule_failure_retry record_run
  finish_start-SamePoll s item attempt host (ok result, w) = ground arith
  finish_start-SamePoll s item attempt host (err e, w) = ground arith

  start_item-SamePoll :
      (s : SchedulerState) (item : WorkItem) (attempt : ℕ) (r : (Text × Bool) × W)
      → SamePoll s (start_item d s item attempt r).1
  unfolding start_item
  start_item-SamePoll s item attempt ((host, false), w) = ground arith
  start_item-SamePoll s item attempt ((host, true), w) = finish_start-SamePoll s item attempt host _

  after_dispatch-SamePoll :
      (item_id identifier : Text) (entry : RetryEntry) (r : Bool × SchedulerState × W)
      → SamePoll r.1 (after_dispatch d item_id identifier entry r).0
  unfolding after_dispatch retry_later schedule_failure_retry
  after_dispatch-SamePoll item_id identifier entry (true, s, w) = ground arith
  after_dispatch-SamePoll item_id identifier entry (false, s, w) = ground arith

  finish_retry-SamePoll :
      (s : SchedulerState) (item_id : Text) (entry : RetryEntry) (r : RetryStatus × W)
      → SamePoll s (finish_retry d s item_id entry r).0
  unfolding finish_retry retry_later schedule_failure_retry dispatch_item
  finish_retry-SamePoll s item_id entry (ready item, w) =
      let r = start_item d s item entry.attempt (admit_host d s entry.worker_host w) in
      ground (
        arith,
        start_item-SamePoll s item entry.attempt (admit_host d s entry.worker_host w),
        after_dispatch-SamePoll item_id item.identifier entry r,
      )
  finish_retry-SamePoll s item_id entry (refresh_failed, w) = ground arith
  finish_retry-SamePoll s item_id entry (_, w) = ground arith

  pub handle_due_retry-SamePoll :
      (s : SchedulerState) (w : W) (item_id : Text) (nonce : ℕ)
      → SamePoll s (handle_due_retry d s w item_id nonce).0
  unfolding handle_due_retry take_retry
  handle_due_retry-SamePoll s w item_id nonce =
      let s' = record s { retrying = delete item_id s.retrying } in
      elim (Option-cases (lookup item_id s.retrying)) [
        | inl absent ↦ rw (absent, handle_due_retry) (ground arith)
        | inr (entry, found) ↦
            rw (found, handle_due_retry)
              (ground
                (arith, finish_retry-SamePoll s' item_id entry (refresh_retry_item d s' w item_id)))
      ]
