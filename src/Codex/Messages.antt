-- ===== src/Codex/Messages.antt =====
-- internal/codex/session.go: the messages that a session sends.
use go_symphony.Prelude.{
  true, false, Option, none, some, List, [], ◌∷◌, map, if◌then◌else◌, Fallible, ok, err,
}
use go_symphony.Prelude.Int.{ℤ, pos}
use go_symphony.Prelude.Text.{Text, codes}
use go_symphony.Prelude.Map.{Map}
use go_symphony.Prelude.Decimal.{int_text}
use go_symphony.Json
use go_symphony.Json.{Value, Fields, end, get, index, as_map, fields, items}
use go_symphony.Codex.Types.{
  Session, EventKind, ToolResult, ToolError, unsupported, failed, TurnRequest, tool_call_completed,
  tool_call_failed, unsupported_tool_call, tool_spec_value,
}
use go_symphony.Codex.Answers.{answer_fields}

abbrev pub initialize_id : ℤ
initialize_id = pos 1

abbrev pub thread_start_id : ℤ
thread_start_id = pos 2

abbrev pub turn_start_id : ℤ
turn_start_id = pos 3

unfoldable pub id_value : ℤ → Value
unfolding int_text
id_value n = Json.number (record { text = int_text n; truncated = n; is_integer = true })

-- {"method": …, "id": …, "params": …}
unfoldable pub request : Text → ℤ → List (Text × Value) → Fields
unfolding id_value
request method id params = fields (
    (codes "method", Json.text method)
    ∷ (codes "id", id_value id)
    ∷ (codes "params", Json.object (fields params))
    ∷ [])

-- {"id": …, "result": …}
unfoldable pub reply : Fields → Value → Fields
reply payload result =
    fields ((codes "id", index payload (codes "id")) ∷ (codes "result", result) ∷ [])

unfoldable pub initialize_request : Fields
unfolding request
initialize_request = request (codes "initialize") initialize_id (
    (codes "capabilities", Json.object (fields ((codes "experimentalApi", Json.boolean true) ∷ [])))
    ∷ (
      codes "clientInfo",
      Json.object (
          fields (
            (codes "name", Json.text (codes "symphony-orchestrator"))
            ∷ (codes "title", Json.text (codes "Symphony Orchestrator"))
            ∷ (codes "version", Json.text (codes "0.1.0"))
            ∷ [])),
    )
    ∷ [])

unfoldable pub initialized_notice : Fields
initialized_notice =
    fields
      ((codes "method", Json.text (codes "initialized")) ∷ (codes "params", Json.object end) ∷ [])

unfoldable pub thread_start_request : Session → Fields
unfolding request tool_spec_value
thread_start_request s = request (codes "thread/start") thread_start_id (
    (codes "approvalPolicy", s.cfg.approval_policy)
    ∷ (codes "sandbox", Json.text s.cfg.thread_sandbox)
    ∷ (codes "cwd", Json.text s.workspace_path)
    ∷ (codes "dynamicTools", Json.array (items (map tool_spec_value s.cfg.dynamic_tools)))
    ∷ [])

abbrev policy_param : Option Fields → List (Text × Value)
policy_param none = []
policy_param (some end) = []
policy_param (some (Json.field k v rest)) =
    (codes "sandboxPolicy", Json.object (Json.field k v rest)) ∷ []

abbrev text_input : Text → Value
text_input prompt =
    Json.object
      (fields ((codes "type", Json.text (codes "text")) ∷ (codes "text", Json.text prompt) ∷ []))

unfoldable pub turn_start_request : Session → TurnRequest → Fields
unfolding request
turn_start_request s r = request (codes "turn/start") turn_start_id (
    (codes "threadId", Json.text s.thread_id)
    ∷ (codes "input", Json.array (items (text_input r.prompt ∷ [])))
    ∷ (codes "cwd", Json.text s.workspace_path)
    ∷ (codes "title", Json.text r.title)
    ∷ (codes "approvalPolicy", s.cfg.approval_policy)
    ∷ policy_param s.turn_sandbox_policy)

unfoldable pub decision_result : Text → Value
decision_result decision = Json.object (fields ((codes "decision", Json.text decision) ∷ []))

unfoldable pub answers_result : Map Text → Value
unfolding answer_fields
answers_result answers =
    Json.object (fields ((codes "answers", Json.object (answer_fields answers)) ∷ []))

abbrev failure : Text → ToolResult
failure e = record { success = false; content_items = []; result = Json.null; error = e }

-- The result that is sent for a tool call, and the event that tells of it.
unfoldable pub tool_outcome : Fallible ToolResult ToolError → ToolResult × EventKind
tool_outcome (err unsupported) = (failure (codes "unsupported_tool_call"), unsupported_tool_call)
tool_outcome (err (failed e)) = (failure e, tool_call_failed)
tool_outcome (ok result) =
    (result, if result.success then tool_call_completed else tool_call_failed)
