-- ===== src/Codex/Session.antt =====
-- internal/codex/session.go: what a session does over a transport, a tool handler and an event sink.
-- The two mutexes make each call one step. A deadline starts with `start_scope`, which the reads of the
-- transport answer to. The loops read lines on fuel.
pub mod Loops
pub mod Keeps
pub mod Turns
pub mod Start
pub mod Outcome
pub mod Ends
pub mod Consent
pub mod Failures
use go_symphony.Codex.Messages.{answers_result, decision_result, reply, tool_outcome}
use go_symphony.Prelude.{
  ℕ, zero, suc, Bool, not, Option, none, some, [], map, if◌then◌else◌, Fallible, ok, err,
}
use go_symphony.Prelude.Int.{ℤ}
use go_symphony.Prelude.Text.{Text, codes, is_empty}
use go_symphony.Prelude.Map.{Map}
use go_symphony.Json.{Value, Fields, get, index, as_map}
use go_symphony.Codex.Types.{
  Session, Event, EventKind, ToolCall, ToolResult, ToolError, unsupported, failed, SessionError,
  read_timeout, approval_required, still_waiting, transport, protocol, approval_answered,
  tool_input_answered, malformed_message, unknown_message, tool_result_value,
}
use go_symphony.Codex.Payload.{
  id_string, same_id, method_of, error_message, tool_call_name, tool_call_arguments,
  is_never_approval_policy,
}
use go_symphony.Codex.Answers.{approval_decision, approval_answers, unavailable_answers}

-- An error of ReadLine: whether it is a context's error, the error of the caller's context, whether the
-- scope's deadline has passed, and its text.
pub record ReadFailure : Type 0 where
  pub of_context : Bool
  pub parent_error : Option Text
  pub deadline_passed : Bool
  pub reason : Text

pub data ReadEnd : Type 0 where
  line : (raw : Text) → ReadEnd
  broken : ReadFailure → ReadEnd

-- What a session is connected to. `decode` is json.Unmarshal into a map, where null gives the nil map.
pub record Peer (W : Type 0) : Type 0 where
  pub sprint : Value → Text
  pub decode : Text → Option Fields
  pub start_scope : ℤ → W → W
  pub read_line : W → ReadEnd × W
  pub write_json : Fields → W → Option Text × W
  pub close_transport : W → Option Text × W
  pub handle_tool : ToolCall → W → Fallible ToolResult ToolError × W
  pub emit : Event → W → W

unfoldable pub scoped_error : ReadFailure → SessionError → SessionError
scoped_error f timed_out = if not f.of_context then transport f.reason else elim f.parent_error [
  | some e ↦ transport e
  | none ↦ if f.deadline_passed then timed_out else transport f.reason
]

-- How one round of a reading loop ends.
pub data Step (A : Type 0) : Type 0 where
  again : Step A
  done : Fallible A SessionError → Step A

-- A loop that reads until a round is done.
unfoldable pub loop_until : {W A : Type 0} → (W → Step A × W) → ℕ → W → Fallible A SessionError × W
loop_until step zero w = (err still_waiting, w)
loop_until step (suc fuel) w = elim (step w).0 [
  | again ↦ loop_until step fuel (step w).1
  | done r ↦ (r, (step w).1)
]

-- The rest of a call, unless it has failed.
unfoldable pub and_then :
    {W A B : Type 0}
    → Fallible A SessionError × W
    → (A → W → Fallible B SessionError × W)
    → Fallible B SessionError × W
and_then (ok a, w) rest = rest a w
and_then (err e, w) rest = (err e, w)

-- A round begins with a read, whose failure ends the loop.
unfoldable pub on_read :
    {W A : Type 0} → SessionError → (Text → W → Step A × W) → ReadEnd × W → Step A × W
unfolding scoped_error
on_read timed_out rest (broken f, w) = (done (err (scoped_error f timed_out)), w)
on_read timed_out rest (line raw, w) = rest raw w

module _ {W : Type 0} (o : Peer W) (s : Session) where
  unfoldable pub tell : EventKind → Text → Text → Text → Option Fields → W → W
  tell kind method raw turn_id payload w =
      o.emit
        (record {
          kind = kind;
          method = method;
          raw = raw;
          thread_id = s.thread_id;
          turn_id = turn_id;
          payload = payload;
        })
        w

  unfoldable pub write : Fields → W → Fallible (Unit {0}) SessionError × W
  write message w =
      let (e, w') = o.write_json message w in
      (elim e [ none ↦ ok tt | some t ↦ err (transport t) ], w')

  -- The result of a response, by its "error" and its "result".
  unfoldable pub response_result : Fields → Fallible Fields SessionError
  unfolding error_message
  response_result payload = elim (get (codes "error") payload) [
    | some e ↦ err (protocol (codes "response_error") (error_message o.sprint e))
    | none ↦ elim (as_map (index payload (codes "result"))) [
      | some r ↦ ok r
      | none ↦ err (protocol (codes "response_error") [])
    ]
  ]

  unfoldable pub await_line : ℤ → Text → W → Step Fields × W
  unfolding response_result same_id tell
  await_line id raw w = elim (o.decode raw) [
    | none ↦ (again, tell malformed_message [] raw [] none w)
    | some payload ↦
        if same_id o.sprint (index payload (codes "id")) id
        then (done (response_result payload), w)
        else (again, tell unknown_message (method_of o.sprint payload) raw [] (some payload) w)
  ]

  unfoldable pub await_round : ℤ → W → Step Fields × W
  unfolding on_read await_line
  await_round id w = on_read read_timeout (await_line id) (o.read_line w)

  unfoldable pub await_response : ℕ → ℤ → W → Fallible Fields SessionError × W
  unfolding loop_until await_round
  await_response fuel id w = loop_until (await_round id) fuel (o.start_scope s.cfg.read_timeout w)

  unfoldable pub handle_approval : Fields → Text → Text → W → Fallible (Unit {0}) SessionError × W
  unfolding write tell reply
  handle_approval payload raw turn_id w =
      let method = method_of o.sprint payload in
      if not (is_never_approval_policy s.cfg.approval_policy)
      then (err approval_required, w)
      else if is_empty (approval_decision method)
      then (err approval_required, w)
      else and_then (write (reply payload (decision_result (approval_decision method))) w)
          (λ _ w'. (ok tt, tell approval_answered method raw turn_id (some payload) w'))

  unfoldable pub choose_answers : Fields → Option (Map Text)
  choose_answers payload = elim (approval_answers o.sprint payload) [
    | some answers ↦ some answers
    | none ↦ unavailable_answers o.sprint payload
  ]

  unfoldable pub handle_user_input : Fields → Text → Text → W → Fallible (Unit {0}) SessionError × W
  unfolding choose_answers write tell
  handle_user_input payload raw turn_id w =
      if not s.non_interactive then (err approval_required, w) else elim (choose_answers payload) [
        | none ↦ (err approval_required, w)
        | some answers ↦ and_then (write (reply payload (answers_result answers)) w) (λ _ w'. (
          ok tt,
          tell tool_input_answered (method_of o.sprint payload) raw turn_id (some payload) w',
        ))
      ]

  unfoldable pub call_tool : Fields → W → Fallible ToolResult ToolError × W
  call_tool payload w =
      let name = tool_call_name o.sprint payload in
      if is_empty name
      then (err unsupported, w)
      else o.handle_tool
          (record {
            id = id_string o.sprint (index payload (codes "id"));
            name = name;
            arguments = tool_call_arguments payload;
          })
          w

  unfoldable pub handle_tool_call : Fields → Text → Text → W → Fallible (Unit {0}) SessionError × W
  unfolding call_tool tool_outcome write tell
  handle_tool_call payload raw turn_id w =
      let (answer, w1) = call_tool payload w in
      let (result, kind) = tool_outcome answer in
      and_then (write (reply payload (tool_result_value result)) w1)
        (λ _ w2. (ok tt, tell kind (method_of o.sprint payload) raw turn_id (some payload) w2))
