-- ===== src/Domain.antt =====
-- internal/domain/types.go: the provider-neutral records. A pointer is an Option, a time.Time the
-- nanoseconds since the zero time, a float64 its bit pattern, an int an integer that the operations
-- wrap around at 64 bits.
use go_symphony.Prelude.{ℕ, Bool, Option, List}
use go_symphony.Prelude.Int.{ℤ}
use go_symphony.Prelude.Text.{Text}

pub record Blocker : Type 0 where
  pub id : Text
  pub identifier : Text
  pub state : Text

pub record WorkItem : Type 0 where
  pub id : Text
  pub identifier : Text
  pub title : Text
  pub description : Text
  pub state : Text
  pub priority : Option ℤ
  pub branch_name : Text
  pub url : Text
  pub assignee_id : Text
  pub labels : List Text
  pub blocked_by : List Blocker
  pub routable : Option Bool
  pub created_at : Option ℤ
  pub updated_at : Option ℤ

pub record CodexTotals : Type 0 where
  pub input_tokens : ℤ
  pub output_tokens : ℤ
  pub total_tokens : ℤ
  pub seconds_running : ℤ

pub record RateLimitBucket : Type 0 where
  pub remaining : Option ℤ
  pub limit : Option ℤ
  pub reset_in_seconds : Option ℤ

pub record RateLimitCredits : Type 0 where
  pub has_credits : Option Bool
  pub unlimited : Option Bool
  pub balance : Option ℕ

pub record RateLimits : Type 0 where
  pub limit_id : Text
  pub primary : Option RateLimitBucket
  pub secondary : Option RateLimitBucket
  pub credits : Option RateLimitCredits

pub data RunEventKind : Type 0 where
  workspace_created workspace_path_discovered runner_host_selected : RunEventKind
  codex_event_received turn_completed run_completed run_failed retry_scheduled : RunEventKind

pub record RunEvent : Type 0 where
  pub kind : RunEventKind
  pub item_id : Text
  pub item_identifier : Text
  pub at : ℤ
  pub attempt : ℕ
  pub worker_host : Text
  pub workspace_path : Text
  pub session_id : Text
  pub message : Text
  pub error : Option Text
  pub codex_totals : CodexTotals
  pub rate_limits : Option RateLimits

pub record ActiveRun : Type 0 where
  pub item_id : Text
  pub item_identifier : Text
  pub state : Text
  pub worker_host : Text
  pub workspace_path : Text
  pub session_id : Text
  pub turn_count : ℕ
  pub started_at : ℤ
  pub last_event_at : Option ℤ
  pub last_event_kind : Option RunEventKind
  pub last_event_message : Text
  pub codex_totals : CodexTotals

pub record RetryEntry : Type 0 where
  pub item_id : Text
  pub item_identifier : Text
  pub attempt : ℕ
  pub due_at : ℤ
  pub last_error : Text
  pub worker_host : Text
  pub workspace_path : Text

pub record PollingState : Type 0 where
  pub checking : Bool
  pub next_poll_at : Option ℤ
  pub interval : ℤ

pub record Snapshot : Type 0 where
  pub running : List ActiveRun
  pub retrying : List RetryEntry
  pub polling : PollingState
  pub codex_totals : CodexTotals
  pub rate_limits : Option RateLimits
