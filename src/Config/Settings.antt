-- ===== src/Config/Settings.antt =====
-- internal/config/settings.go: the settings' records. A pointer is an Option, an `any` a decoded value.
use go_symphony.Prelude.{Bool, Option, List}
use go_symphony.Prelude.Int.{ℤ}
use go_symphony.Prelude.Text.{Text}
use go_symphony.Json.{Value, Fields}
use go_symphony.Prelude.Map.{Map}

pub record ProviderSettings : Type 0 where
  pub kind : Text
  pub endpoint : Text
  pub api_key : Text
  pub project : Text
  pub assignee : Text
  pub active_states : List Text
  pub terminal_states : List Text

pub record WorkerSettings : Type 0 where
  pub ssh_hosts : List Text
  pub max_concurrent_agents_per_host : Option ℤ

pub record AgentSettings : Type 0 where
  pub max_concurrent_agents : ℤ
  pub max_turns : ℤ
  pub max_retry_backoff_ms : ℤ
  pub max_concurrent_agents_by_state : Map ℤ

pub record CodexSettings : Type 0 where
  pub command : Text
  pub approval_policy : Value
  pub thread_sandbox : Text
  pub turn_sandbox_policy : Option Fields
  pub turn_timeout_ms : ℤ
  pub read_timeout_ms : ℤ
  pub stall_timeout_ms : ℤ

pub record HookSettings : Type 0 where
  pub after_create : Text
  pub before_run : Text
  pub after_run : Text
  pub before_remove : Text
  pub timeout_ms : ℤ

pub record ObservabilitySettings : Type 0 where
  pub dashboard_enabled : Bool
  pub refresh_ms : ℤ
  pub render_interval_ms : ℤ

pub record ServerSettings : Type 0 where
  pub port : Option ℤ
  pub host : Text

pub record Settings : Type 0 where
  pub provider : ProviderSettings
  pub polling_interval_ms : ℤ
  pub workspace_root : Text
  pub worker : WorkerSettings
  pub agent : AgentSettings
  pub codex : CodexSettings
  pub hooks : HookSettings
  pub observability : ObservabilitySettings
  pub server : ServerSettings
