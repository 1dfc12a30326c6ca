-- ===== src/Codex/Session/Turns.antt =====
-- RunTurn of internal/codex/session.go.

use go_symphony.Codex.Messages.{turn_start_request, turn_start_id}
use go_symphony.Prelude.{ℕ, ◌||◌, none, some, [], ◌∷◌, if◌then◌else◌, Fallible, ok, err}
use go_symphony.Prelude.Int.{pos}
use go_symphony.Prelude.Text.{Text, codes, text_eq, is_empty}
use go_symphony.Json.{Fields}
use go_symphony.Codex.Types.{
  Session, EventKind, TurnRequest, TurnResult, TurnStatus, TokenUsage, SessionError, turn_timeout,
  session_closed, protocol, turn_completed, turn_failed, turn_cancelled, malformed_message,
  unknown_message, completed, turn_has_failed, cancelled,
}
use go_symphony.Codex.Payload.{method_of, nested_string, usage_from_payload}
use go_symphony.Codex.Session.{
  Peer, Step, again, done, loop_until, on_read, and_then, tell, write, await_response,
  handle_approval, handle_user_input, handle_tool_call,
}

-- What the methods of a turn's messages ask for.
pub data Message : Type 0 where
  completes fails cancels asks_approval asks_input calls_tool says_else : Message

unfoldable pub classify : Text → Message
classify method =
    if text_eq method (codes "turn/completed")
    then completes
    else if text_eq method (codes "turn/failed")
    then fails
    else if text_eq method (codes "turn/cancelled")
    then cancels
    else if text_eq method (codes "item/commandExecution/requestApproval")
        || text_eq method (codes "execCommandApproval")
        || text_eq method (codes "applyPatchApproval")
        || text_eq method (codes "item/fileChange/requestApproval")
    then asks_approval
    else if text_eq method (codes "item/tool/requestUserInput")
    then asks_input
    else if text_eq method (codes "item/tool/call")
    then calls_tool
    else says_else

abbrev pub no_usage : TokenUsage
no_usage = record { input_tokens = pos 0; output_tokens = pos 0; total_tokens = pos 0 }

-- `if err := …; err != nil { return …, err }`, and the loop goes on.
unfoldable pub unless_failed : {W A : Type 0} → Fallible (Unit {0}) SessionError × W → Step A × W
unless_failed (ok x, w) = (again, w)
unless_failed (err e, w) = (done (err e), w)

module _ {W : Type 0} (o : Peer W) (s : Session) where
  unfoldable pub end_turn :
      TurnStatus → TokenUsage → EventKind → Fields → Text → Text → W → Step TurnResult × W
  unfolding tell method_of
  end_turn status usage kind payload raw turn_id w = (
    done (ok (record { status = status; turn_id = turn_id; usage = usage })),
    tell o s kind (method_of o.sprint payload) raw turn_id (some payload) w,
  )

  unfoldable pub on_message : Message → Text → Fields → Text → W → Step TurnResult × W
  unfolding end_turn handle_approval handle_user_input handle_tool_call unless_failed
      usage_from_payload
  on_message completes turn_id payload raw w =
      end_turn completed (usage_from_payload payload) turn_completed payload raw turn_id w
  on_message fails turn_id payload raw w =
      end_turn turn_has_failed no_usage turn_failed payload raw turn_id w
  on_message cancels turn_id payload raw w =
      end_turn cancelled no_usage turn_cancelled payload raw turn_id w
  on_message asks_approval turn_id payload raw w =
      unless_failed (handle_approval o s payload raw turn_id w)
  on_message asks_input turn_id payload raw w =
      unless_failed (handle_user_input o s payload raw turn_id w)
  on_message calls_tool turn_id payload raw w =
      unless_failed (handle_tool_call o s payload raw turn_id w)
  on_message says_else turn_id payload raw w =
      (again, tell o s unknown_message (method_of o.sprint payload) raw turn_id (some payload) w)

  unfoldable pub turn_line : Text → Text → W → Step TurnResult × W
  unfolding on_message classify
  turn_line turn_id raw w = elim (o.decode raw) [
    | none ↦ (again, tell o s malformed_message [] raw turn_id none w)
    | some payload ↦ on_message (classify (method_of o.sprint payload)) turn_id payload raw w
  ]

  unfoldable pub turn_round : Text → W → Step TurnResult × W
  unfolding turn_line on_read
  turn_round turn_id w = on_read turn_timeout (turn_line turn_id) (o.read_line w)

  -- The part behind the response to turn/start.
  unfoldable pub follow_turn : ℕ → Fields → W → Fallible TurnResult SessionError × W
  unfolding turn_round nested_string
  follow_turn fuel result w =
      let turn_id = nested_string o.sprint result (codes "turn" ∷ codes "id" ∷ []) in
      if is_empty turn_id
      then (err (protocol (codes "invalid_turn_payload") []), w)
      else loop_until (turn_round turn_id) fuel (o.start_scope s.cfg.turn_timeout w)

  unfoldable pub run_turn : ℕ → TurnRequest → W → Fallible TurnResult SessionError × W
  unfolding write await_response follow_turn
  run_turn fuel r w =
      if s.closed
      then (err session_closed, w)
      else and_then (write o s (turn_start_request s r) w)
          (λ _ w1. and_then (await_response o s fuel turn_start_id w1) (follow_turn fuel))
