-- ===== src/Codex/Types.antt =====
-- internal/codex/session.go: the data of a session. A pointer to an error is its text.
use go_symphony.Prelude.{Bool, Option, List, [], ◌∷◌, ◌++◌, map, if◌then◌else◌}
use go_symphony.Prelude.Int.{ℤ, pos, leb_ℤ}
use go_symphony.Prelude.Text.{Text, codes, trim_space}
use go_symphony.Json
use go_symphony.Json.{Value, Fields, end, field, null, fields, items}
use go_symphony.Config.Settings.{Settings}
use go_symphony.Orchestrator.State.{milliseconds}

pub record ToolSpec : Type 0 where
  pub name : Text
  pub description : Text
  pub input_schema : Fields
  pub parameters : Fields

pub record SessionConfig : Type 0 where
  pub command : Text
  pub workspace_root : Text
  pub approval_policy : Value
  pub thread_sandbox : Text
  pub turn_sandbox_policy : Option Fields
  pub dynamic_tools : List ToolSpec
  pub read_timeout : ℤ
  pub turn_timeout : ℤ

pub data EventKind : Type 0 where
  session_started turn_completed turn_failed turn_cancelled : EventKind
  tool_call_completed tool_call_failed unsupported_tool_call : EventKind
  approval_answered tool_input_answered malformed_message unknown_message : EventKind

pub record Event : Type 0 where
  pub kind : EventKind
  pub method : Text
  pub raw : Text
  pub thread_id : Text
  pub turn_id : Text
  pub payload : Option Fields

pub record ToolCall : Type 0 where
  pub id : Text
  pub name : Text
  pub arguments : Value

pub record ToolContentItem : Type 0 where
  pub kind : Text
  pub content : Text

pub record ToolResult : Type 0 where
  pub success : Bool
  pub content_items : List ToolContentItem
  pub result : Value
  pub error : Text

-- ErrUnsupportedTool, or another error.
pub data ToolError : Type 0 where
  unsupported : ToolError
  failed : (text : Text) → ToolError

pub data TurnStatus : Type 0 where
  completed turn_has_failed cancelled : TurnStatus

pub record TokenUsage : Type 0 where
  pub input_tokens : ℤ
  pub output_tokens : ℤ
  pub total_tokens : ℤ

pub record TurnRequest : Type 0 where
  pub prompt : Text
  pub title : Text

pub record TurnResult : Type 0 where
  pub status : TurnStatus
  pub turn_id : Text
  pub usage : TokenUsage

-- The errors of a session's calls. `still_waiting` is no error of the code: the call is still reading
-- when the fuel of the model runs out.
pub data SessionError : Type 0 where
  read_timeout turn_timeout approval_required session_closed still_waiting : SessionError
  transport : (text : Text) → SessionError
  protocol : (kind message : Text) → SessionError
  workspace : (kind path root : Text) → SessionError

pub record Session : Type 0 where
  pub cfg : SessionConfig
  pub workspace_path : Text
  pub non_interactive : Bool
  pub turn_sandbox_policy : Option Fields
  pub thread_id : Text
  pub closed : Bool

-- ConfigFromSettings; clones of values need no model.
unfoldable pub config_from_settings : Settings → SessionConfig
unfolding milliseconds
config_from_settings settings = record {
  command = settings.codex.command;
  workspace_root = settings.workspace_root;
  approval_policy = settings.codex.approval_policy;
  thread_sandbox = settings.codex.thread_sandbox;
  turn_sandbox_policy = settings.codex.turn_sandbox_policy;
  dynamic_tools = [];
  read_timeout = milliseconds settings.codex.read_timeout_ms;
  turn_timeout = milliseconds settings.codex.turn_timeout_ms;
}

-- 30 seconds and one hour stand in for timeouts that are not positive.
unfoldable pub normalize_config : SessionConfig → SessionConfig
normalize_config cfg = record cfg {
  read_timeout = if leb_ℤ cfg.read_timeout (pos 0) then pos 30000000000 else cfg.read_timeout;
  turn_timeout = if leb_ℤ cfg.turn_timeout (pos 0) then pos 3600000000000 else cfg.turn_timeout;
  workspace_root = trim_space cfg.workspace_root;
  command = trim_space cfg.command;
}

abbrev pub omit_empty_text : Text → Text → List (Text × Value)
omit_empty_text key [] = []
omit_empty_text key (c ∷ s) = (key, Json.text (c ∷ s)) ∷ []

abbrev pub omit_empty_map : Text → Fields → List (Text × Value)
omit_empty_map key end = []
omit_empty_map key (field k v rest) = (key, Json.object (field k v rest)) ∷ []

-- The JSON of the structs, by their tags.
unfoldable pub tool_spec_value : ToolSpec → Value
tool_spec_value t = Json.object (
    fields (
      (codes "name", Json.text t.name)
      ∷ (omit_empty_text (codes "description") t.description
          ++ (omit_empty_map (codes "inputSchema") t.input_schema
              ++ omit_empty_map (codes "parameters") t.parameters))))

unfoldable pub content_item_value : ToolContentItem → Value
content_item_value c =
    Json.object
      (fields ((codes "type", Json.text c.kind) ∷ omit_empty_text (codes "text") c.content))

abbrev pub omit_empty_items : List ToolContentItem → List (Text × Value)
omit_empty_items [] = []
omit_empty_items (c ∷ cs) =
    (codes "contentItems", Json.array (items (map content_item_value (c ∷ cs)))) ∷ []

abbrev pub omit_nil : Text → Value → List (Text × Value)
omit_nil key null = []
omit_nil key v = (key, v) ∷ []

unfoldable pub tool_result_value : ToolResult → Value
unfolding content_item_value
tool_result_value r = Json.object (
    fields (
      (codes "success", Json.boolean r.success)
      ∷ (omit_empty_items r.content_items
          ++ (omit_nil (codes "result") r.result ++ omit_empty_text (codes "error") r.error))))
