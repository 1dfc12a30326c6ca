-- ===== src/Orchestrator/Snapshot.antt =====
-- snapshot of internal/orchestrator/state.go: what the rest of the program sees of the scheduler.
-- sort.Slice is the stable sort of go_symphony.Prelude.Sorting.
pub mod Order
pub mod Laws
use go_symphony.Prelude.{
  Bool, true, false, not, ◌||◌, Option, none, some, List, [], ◌∷◌, map, if◌then◌else◌,
}
use go_symphony.Prelude.Int.{ltb_ℤ}
use go_symphony.Prelude.Text.{text_eq, text_lt}
use go_symphony.Prelude.Map.{Map}
use go_symphony.Prelude.Sorting.{sort_by}
use go_symphony.Domain
use go_symphony.Domain.{ActiveRun, Snapshot}
use go_symphony.Orchestrator.State.{RunningEntry, RetryEntry, SchedulerState}

unfoldable pub active_run : RunningEntry → ActiveRun
active_run entry = record {
  item_id = entry.item.id;
  item_identifier = entry.item.identifier;
  state = entry.item.state;
  worker_host = entry.worker_host;
  workspace_path = entry.workspace_path;
  session_id = entry.session_id;
  turn_count = entry.turn_count;
  started_at = entry.started_at;
  last_event_at = entry.last_event_at;
  last_event_kind = entry.last_event_kind;
  last_event_message = entry.last_event_message;
  codex_totals = entry.codex_totals;
}

unfoldable pub waiting_retry : RetryEntry → Domain.RetryEntry
waiting_retry entry = record {
  item_id = entry.item_id;
  item_identifier = entry.item_identifier;
  attempt = entry.attempt;
  due_at = entry.due_at;
  last_error = entry.last_error;
  worker_host = entry.worker_host;
  workspace_path = entry.workspace_path;
}

-- By identifier, id and start.
unfoldable pub run_less : ActiveRun → ActiveRun → Bool
run_less a b =
    if not (text_eq a.item_identifier b.item_identifier)
    then text_lt a.item_identifier b.item_identifier
    else if not (text_eq a.item_id b.item_id)
    then text_lt a.item_id b.item_id
    else ltb_ℤ a.started_at b.started_at

-- By due time, identifier and id.
unfoldable pub retry_less : Domain.RetryEntry → Domain.RetryEntry → Bool
retry_less a b =
    if ltb_ℤ a.due_at b.due_at || ltb_ℤ b.due_at a.due_at
    then ltb_ℤ a.due_at b.due_at
    else if not (text_eq a.item_identifier b.item_identifier)
    then text_lt a.item_identifier b.item_identifier
    else text_lt a.item_id b.item_id

abbrev pub entries : {V : Type 0} → Map V → List V
entries m = map (λ e. e.1) m

unfoldable pub snapshot : SchedulerState → Snapshot
unfolding active_run waiting_retry run_less retry_less sort_by
snapshot s = record {
  running = sort_by run_less (map active_run (entries s.running));
  retrying = sort_by retry_less (map waiting_retry (entries s.retrying));
  polling = record { checking = s.checking; next_poll_at = s.next_poll_at; interval = s.interval };
  codex_totals = s.codex_totals;
  rate_limits = s.rate_limits;
}
