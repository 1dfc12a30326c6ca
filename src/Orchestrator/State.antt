-- ===== src/Orchestrator/State.antt =====
-- internal/orchestrator/state.go: the scheduler's state, and what it calls. The outside (the clock,
-- the tracker, the runs, the order in which Go ranges over a map) is a world that each call may
-- read and change. A handle is an opaque number.
use go_symphony.Prelude.{
  ℕ, ◌+◌, ◌*◌, ◌%◌, Bool, false, not, Option, none, List, [], ◌∷◌, Fallible, if◌then◌else◌, ◌&&◌,
}
use go_symphony.Prelude.Int.{ℤ, pos, is_zero, pos_part, neg_part, wrap64, sub_ℕ}
use go_symphony.Prelude.Text.{Text, trim_space, to_lower, is_blank, is_empty}
use go_symphony.Prelude.Map.{Map, insert}
use go_symphony.Config.Settings.{Settings}
use go_symphony.Domain.{WorkItem, CodexTotals, RateLimits, RunEventKind}
use go_symphony.Runner.HostSelection.{HostSelection}

pub record StartRunRequest : Type 0 where
  pub item : WorkItem
  pub attempt : ℕ
  pub preferred_host : Text

pub record StartRunResult : Type 0 where
  pub handle : Option ℕ
  pub worker_host : Text
  pub workspace_path : Text
  pub session_id : Text

pub record StopRunRequest : Type 0 where
  pub item_id : Text
  pub item_identifier : Text
  pub handle : Option ℕ
  pub cleanup_workspace : Bool

pub record RefreshResult : Type 0 where
  pub queued : Bool
  pub coalesced : Bool

-- serviceDeps, the clock, the format of a duration, and the order of a range over a map's keys.
pub record Deps (W : Type 0) : Type 0 where
  pub now : W → ℤ × W
  pub range : List Text → W → List Text × W
  pub duration_text : ℤ → Text
  pub list_candidates : Option (W → Fallible (List WorkItem) Text × W)
  pub refresh_items : Option (List Text → W → Fallible (List WorkItem) Text × W)
  pub start_run : Option (StartRunRequest → W → Fallible StartRunResult Text × W)
  pub stop_run : Option (StopRunRequest → W → Option Text × W)
  pub host_selection : Option HostSelection
  pub admit_run : Option (Text → W → (Text × Bool) × W)

pub record ClaimedEntry : Type 0 where
  pub item_id : Text
  pub item_identifier : Text
  pub claimed_at : ℤ

pub record RunningEntry : Type 0 where
  pub item : WorkItem
  pub attempt : ℕ
  pub started_at : ℤ
  pub last_event_at : Option ℤ
  pub last_event_kind : Option RunEventKind
  pub last_event_message : Text
  pub session_id : Text
  pub turn_count : ℕ
  pub worker_host : Text
  pub workspace_path : Text
  pub codex_totals : CodexTotals
  pub last_reported_totals : CodexTotals
  pub handle : Option ℕ

pub record RetryEntry : Type 0 where
  pub item_id : Text
  pub item_identifier : Text
  pub attempt : ℕ
  pub due_at : ℤ
  pub last_error : Text
  pub worker_host : Text
  pub workspace_path : Text
  pub nonce : ℕ

pub record SchedulerState : Type 0 where
  pub interval : ℤ
  pub max_concurrent : ℤ
  pub max_retry_backoff : ℤ
  pub stall_timeout : ℤ
  pub active_states : Map (Unit {0})
  pub terminal_states : Map (Unit {0})
  pub state_limits : Map ℤ
  pub next_poll_at : Option ℤ
  pub checking : Bool
  pub poll_nonce : ℕ
  pub retry_nonce : ℕ
  pub claimed : Map ClaimedEntry
  pub running : Map RunningEntry
  pub retrying : Map RetryEntry
  pub codex_totals : CodexTotals
  pub rate_limits : Option RateLimits

abbrev pub no_totals : CodexTotals
no_totals = record {
  input_tokens = pos 0;
  output_tokens = pos 0;
  total_tokens = pos 0;
  seconds_running = pos 0;
}

-- `x++` on a uint64
abbrev pub next_nonce : ℕ → ℕ
next_nonce n = (n + 1) % 18446744073709551616

unfoldable pub normalize_state : Text → Text
normalize_state value = to_lower (trim_space value)

unfoldable pub add_states : Map (Unit {0}) → List Text → Map (Unit {0})
unfolding normalize_state
add_states out [] = out
add_states out (value ∷ values) =
    let name = normalize_state value in
    add_states (if is_empty name then out else insert name tt out) values

unfoldable pub normalize_state_set : List Text → Map (Unit {0})
unfolding add_states
normalize_state_set values = add_states [] values

-- The range over the settings' map is in the list's order: it matters only where two keys have one
-- normal form, of which Go keeps either.
unfoldable pub add_limits : Map ℤ → Map ℤ → Map ℤ
unfolding normalize_state
add_limits out [] = out
add_limits out ((key, value) ∷ values) =
    let name = normalize_state key in
    add_limits (if is_empty name then out else insert name value out) values

unfoldable pub normalize_state_limits : Map ℤ → Map ℤ
unfolding add_limits
normalize_state_limits values = add_limits [] values

abbrev millisecond : ℕ
millisecond = 1000000

-- `time.Duration(ms) * time.Millisecond`
unfoldable pub milliseconds : ℤ → ℤ
unfolding wrap64
milliseconds ms = wrap64 (sub_ℕ (pos_part ms * millisecond) (neg_part ms * millisecond))

unfoldable pub new_scheduler_state : Settings → SchedulerState
unfolding milliseconds normalize_state_set normalize_state_limits
new_scheduler_state settings = record {
  interval = milliseconds settings.polling_interval_ms;
  max_concurrent = settings.agent.max_concurrent_agents;
  max_retry_backoff = milliseconds settings.agent.max_retry_backoff_ms;
  stall_timeout = milliseconds settings.codex.stall_timeout_ms;
  active_states = normalize_state_set settings.provider.active_states;
  terminal_states = normalize_state_set settings.provider.terminal_states;
  state_limits = normalize_state_limits settings.agent.max_concurrent_agents_by_state;
  next_poll_at = none;
  checking = false;
  poll_nonce = 0;
  retry_nonce = 0;
  claimed = [];
  running = [];
  retrying = [];
  codex_totals = no_totals;
  rate_limits = none;
}

unfoldable pub first_non_empty : List Text → Text
first_non_empty [] = []
first_non_empty (value ∷ values) = if is_blank value then first_non_empty values else value

unfoldable pub has_totals : CodexTotals → Bool
has_totals t = not (
    is_zero t.input_tokens
    && is_zero t.output_tokens
    && is_zero t.total_tokens
    && is_zero t.seconds_running)
