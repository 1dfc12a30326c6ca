-- ===== src/Worker/Events.antt =====
-- internal/cli/runtime.go: what a worker holds and calls, and the events that it tells. A call that waits
-- returns when it is done. The wording of an event, which the dashboard's package makes, is any function
-- of the event.
use go_symphony.Workspace.Records.{CreateResult}
use go_symphony.Prelude.{
  ℕ, Bool, true, not, Option, none, some, List, [], ◌∷◌, ◌++◌, if◌then◌else◌, Fallible,
}
use go_symphony.Prelude.Int.{ℤ}
use go_symphony.Prelude.Text.{Text, codes, is_empty}
use go_symphony.Prelude.Decimal.{int_text}
use go_symphony.Json
use go_symphony.Json.{Value, fields}
use go_symphony.Domain.{
  WorkItem, RunEvent, RunEventKind, CodexTotals, codex_event_received, run_failed,
}
use go_symphony.Config.Settings.{Settings}
use go_symphony.Workspace.Paths.{Segments}
use go_symphony.Tracker.Filter.{TrackerReader}
use go_symphony.Orchestrator.State.{no_totals}
use go_symphony.Codex.Types as Codex
use go_symphony.Codex.Types.{
  ToolSpec, ToolCall, ToolResult, ToolError, Event, Session, TurnResult, TokenUsage, TurnStatus,
  SessionError, completed, turn_has_failed, cancelled, config_from_settings,
}
use go_symphony.Codex.Session.{Peer}

pub record RuntimeBundle (W : Type 0) : Type 0 where
  pub prompt_template : Text
  pub dynamic_tools : List ToolSpec
  pub tool_handler : ToolCall → W → Fallible ToolResult ToolError × W

-- The fields of workerManager, the interface WorkspaceController, and the clock, the context and the
-- files that a run reads. `fuel` is the number of lines that one call of a session may read.
pub record Worker (W : Type 0) : Type 0 where
  pub settings : Settings
  pub reader : TrackerReader W
  pub bundles : W → Fallible (RuntimeBundle W) Text × W
  pub create : Text → Text → W → Fallible CreateResult Text × W
  pub run_with_hooks : Text → Text → Text → (W → Option Text × W) → W → Option Text × W
  pub emit : RunEvent → W → W
  pub now : W → ℤ × W
  pub is_cancelled : W → Bool
  pub peer : Peer W
  pub open_transport : Text → Text → W → Option Text × W
  pub eval_symlinks : Segments → Fallible Segments Text
  pub cwd : Segments
  pub summarize : Event → Text
  pub error_text : SessionError → Text
  pub range : List (Text × Text) → List (Text × Text)
  pub fuel : ℕ
  -- The handle of the run, which StopRun reads.
  pub set_workspace : Text → W → W
  pub set_session : Option Session → W → W

abbrev integer : ℤ → Value
integer n = Json.number (record { text = int_text n; truncated = n; is_integer = true })

unfoldable pub kind_text : Codex.EventKind → Text
kind_text Codex.session_started = codes "session_started"
kind_text Codex.turn_completed = codes "turn_completed"
kind_text Codex.turn_failed = codes "turn_failed"
kind_text Codex.turn_cancelled = codes "turn_cancelled"
kind_text Codex.tool_call_completed = codes "tool_call_completed"
kind_text Codex.tool_call_failed = codes "tool_call_failed"
kind_text Codex.unsupported_tool_call = codes "unsupported_tool_call"
kind_text Codex.approval_answered = codes "approval_answered"
kind_text Codex.tool_input_answered = codes "tool_input_answered"
kind_text Codex.malformed_message = codes "malformed_message"
kind_text Codex.unknown_message = codes "unknown_message"

-- The event whose wording is the message of a completed turn.
unfoldable pub usage_event : TokenUsage → Event
unfolding int_text
usage_event u = record {
  kind = Codex.turn_completed;
  method = codes "turn/completed";
  raw = [];
  thread_id = [];
  turn_id = [];
  payload = some (
      fields (
        (
          codes "params",
          Json.object (
              fields (
                (
                  codes "usage",
                  Json.object (
                      fields (
                        (codes "input_tokens", integer u.input_tokens)
                        ∷ (codes "output_tokens", integer u.output_tokens)
                        ∷ (codes "total_tokens", integer u.total_tokens)
                        ∷ [])),
                )
                ∷ [])),
        )
        ∷ []));
}

module _ {W : Type 0} (m : Worker W) (item : WorkItem) (attempt : ℕ) (host : Text) where
  -- An event of the run, told at the time of the clock.
  unfoldable pub tell_run : RunEventKind → Text → Text → Text → Option Text → CodexTotals → W → W
  tell_run kind path session_id message error totals w =
      let (at, w') = m.now w in
      m.emit
        (record {
          kind = kind;
          item_id = item.id;
          item_identifier = item.identifier;
          at = at;
          attempt = attempt;
          worker_host = host;
          workspace_path = path;
          session_id = session_id;
          message = message;
          error = error;
          codex_totals = totals;
          rate_limits = none;
        })
        w'

  unfoldable pub emit_failure : Text → Text → W → W
  unfolding tell_run
  emit_failure path error w = tell_run run_failed path [] error (some error) no_totals w

  unfoldable pub codex_message : Event → Text
  unfolding kind_text
  codex_message e =
      if not (is_empty (m.summarize e))
      then m.summarize e
      else if is_empty e.method
      then kind_text e.kind
      else kind_text e.kind ++ (codes ":" ++ e.method)

  unfoldable pub emit_codex_event : Text → Event → W → W
  unfolding tell_run codex_message
  emit_codex_event path e w =
      tell_run codex_event_received path e.thread_id (codex_message e) none no_totals w
