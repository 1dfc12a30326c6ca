-- ===== src/Orchestrator/Events.antt =====
-- internal/orchestrator/state.go: what a worker's report changes.
pub mod Phases
pub mod Totals
use go_symphony.Prelude.{
  ℕ, ◌+◌, ◌-◌, Bool, true, false, not, Option, none, some, ◌&&◌, ◌||◌, [], if◌then◌else◌,
}
use go_symphony.Prelude.Int.{ℤ, pos, ltb_ℤ, wrap64, ◌+ℤ◌, ◌-ℤ◌}
use go_symphony.Prelude.Text.{Text, is_empty}
use go_symphony.Prelude.Map.{lookup, insert, delete}
use go_symphony.Domain.{
  CodexTotals, RateLimits, RunEvent, RunEventKind, workspace_created, workspace_path_discovered,
  runner_host_selected, codex_event_received, turn_completed, run_completed, run_failed,
  retry_scheduled,
}
use go_symphony.Orchestrator.State.{
  Deps, RunningEntry, RetryEntry, SchedulerState, next_nonce, has_totals,
}
use go_symphony.Orchestrator.Backoff.{next_failure_attempt}
use go_symphony.Orchestrator.Dispatch.{schedule_failure_retry}

-- `max(0, a - b)`
unfoldable pub count_delta : ℤ → ℤ → ℤ
unfolding ◌-ℤ◌ wrap64
count_delta a b = let d = wrap64 (a -ℤ b) in if ltb_ℤ d (pos 0) then pos 0 else d

-- `a += b`
unfoldable pub count_sum : ℤ → ℤ → ℤ
unfolding ◌+ℤ◌ wrap64
count_sum a b = wrap64 (a +ℤ b)

abbrev pub totals_delta : CodexTotals → CodexTotals → CodexTotals
totals_delta a b = record {
  input_tokens = count_delta a.input_tokens b.input_tokens;
  output_tokens = count_delta a.output_tokens b.output_tokens;
  total_tokens = count_delta a.total_tokens b.total_tokens;
  seconds_running = count_delta a.seconds_running b.seconds_running;
}

abbrev pub totals_sum : CodexTotals → CodexTotals → CodexTotals
totals_sum a b = record {
  input_tokens = count_sum a.input_tokens b.input_tokens;
  output_tokens = count_sum a.output_tokens b.output_tokens;
  total_tokens = count_sum a.total_tokens b.total_tokens;
  seconds_running = count_sum a.seconds_running b.seconds_running;
}

unfoldable pub apply_aggregate_delta :
    SchedulerState → RunningEntry → CodexTotals → SchedulerState × RunningEntry
apply_aggregate_delta s entry totals = (
  record s {
    codex_totals = totals_sum s.codex_totals (totals_delta totals entry.last_reported_totals);
  },
  record entry { codex_totals = totals; last_reported_totals = totals },
)

-- `event.At.IsZero()`
abbrev is_zero_time : ℤ → Bool
is_zero_time t = not (ltb_ℤ t (pos 0) || ltb_ℤ (pos 0) t)

-- `if update != "" { field = update }`
abbrev pub or_keep : Text → Text → Text
or_keep update old = if is_empty update then old else update

abbrev is_turn_completed : RunEventKind → Bool
is_turn_completed turn_completed = true
is_turn_completed _ = false

-- the fields that every event sets
unfoldable pub note_event : RunningEntry → RunEvent → RunningEntry
note_event entry event = record entry {
  last_event_at = if is_zero_time event.at then entry.last_event_at else some event.at;
  last_event_kind = some event.kind;
  last_event_message = event.message;
  worker_host = or_keep event.worker_host entry.worker_host;
  workspace_path = or_keep event.workspace_path entry.workspace_path;
  session_id = or_keep event.session_id entry.session_id;
  turn_count = if is_turn_completed event.kind then entry.turn_count + 1 else entry.turn_count;
}

unfoldable pub note_totals :
    SchedulerState → RunningEntry → RunEvent → SchedulerState × RunningEntry
unfolding apply_aggregate_delta has_totals
note_totals s entry event =
    if has_totals event.codex_totals
    then apply_aggregate_delta s entry event.codex_totals
    else (s, entry)

unfoldable pub note_rate_limits : SchedulerState → Option RateLimits → SchedulerState
note_rate_limits s none = s
note_rate_limits s (some limits) = record s { rate_limits = some limits }

module _ {W : Type 0} (d : Deps W) where
  unfoldable pub schedule_continuation_retry :
      SchedulerState
      → W
      → (item_id identifier worker_host workspace_path : Text) → SchedulerState × W
  schedule_continuation_retry s w item_id identifier worker_host workspace_path =
      let nonce = next_nonce s.retry_nonce in
      let (now, w') = d.now w in
      (
        record s {
          retry_nonce = nonce;
          retrying =
              insert item_id
                (record {
                  item_id = item_id;
                  item_identifier = identifier;
                  attempt = 1;
                  due_at = now +ℤ pos 1000000000;
                  last_error = [];
                  worker_host = worker_host;
                  workspace_path = workspace_path;
                  nonce = nonce;
                })
                s.retrying;
        },
        w',
      )

  -- the switch at the end of applyRunEvent
  unfoldable pub finish_event :
      RunEventKind → SchedulerState → W → RunningEntry → RunEvent → SchedulerState × W
  unfolding schedule_continuation_retry
  finish_event run_completed s w entry event =
      schedule_continuation_retry
        (record s { running = delete event.item_id (insert event.item_id entry s.running) }) w
        entry.item.id entry.item.identifier entry.worker_host entry.workspace_path
  finish_event run_failed s w entry event =
      schedule_failure_retry d
        (record s { running = delete event.item_id (insert event.item_id entry s.running) }) w
        entry.item.id entry.item.identifier (next_failure_attempt entry.attempt)
        (elim event.error [ none ↦ event.message | some e ↦ e ]) entry.worker_host
        entry.workspace_path
  finish_event _ s w entry event = (record s { running = insert event.item_id entry s.running }, w)

  unfoldable pub apply_known_event :
      SchedulerState → W → RunningEntry → RunEvent → SchedulerState × W
  unfolding note_event note_totals note_rate_limits finish_event
  apply_known_event s w entry event =
      let noted = note_totals s (note_event entry event) event in
      finish_event event.kind (note_rate_limits noted.0 event.rate_limits) w noted.1 event

  unfoldable pub apply_run_event : SchedulerState → W → RunEvent → SchedulerState × W
  unfolding apply_known_event
  apply_run_event s w event = elim (lookup event.item_id s.running) [
    | none ↦ (s, w)
    | some entry ↦ apply_known_event s w entry event
  ]
