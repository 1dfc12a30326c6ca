-- ===== src/Codex/Session/Keeps.antt =====
-- What the calls of a session keep, of internal/codex/session.go, whatever its peer sends.
use go_symphony.Codex.Messages.{
  turn_start_request, turn_start_id, decision_result, answers_result, reply,
}
use go_symphony.Prelude.{
  ℕ, ◌≡◌, inl, inr, Bool, true, false, Option, none, some, [], ◌∷◌, if◌then◌else◌, Fallible, ok,
  err, Bool-cases, Option-cases,
}
use go_symphony.Prelude.Int.{ℤ}
use go_symphony.Prelude.Text.{Text, codes, is_empty}
use go_symphony.Prelude.Map.{Map}
use go_symphony.Json.{Fields, index}
use go_symphony.Codex.Types.{
  Session, Event, EventKind, ToolCall, ToolResult, TurnRequest, TurnResult, SessionError,
  read_timeout, turn_timeout, unknown_message, malformed_message, turn_completed, turn_failed,
  turn_cancelled, approval_answered, tool_input_answered, tool_result_value,
}
use go_symphony.Codex.Payload.{
  is_never_approval_policy, same_id, method_of, nested_string, tool_call_name,
}
use go_symphony.Codex.Answers.{approval_decision}
use go_symphony.Codex.Session.{
  Peer, Step, ReadEnd, line, broken, on_read, and_then, tell, write, await_line, await_round,
  await_response, handle_approval, handle_user_input, handle_tool_call, call_tool, choose_answers,
}
use go_symphony.Codex.Session.Loops.{loop_until-keeps, and_then-keeps}
use go_symphony.Codex.Session.Turns.{
  Message, completes, fails, cancels, asks_approval, asks_input, calls_tool, says_else,
  unless_failed, classify, on_message, turn_line, turn_round, follow_turn, run_turn,
}

-- P is kept by the peer's side of a session, and by each message that is allowed.
pub record Kept {W : Type 0} (o : Peer W) (allowed : Fields → Type 0) (P : W → Type 0)
    : Type 0 where
  pub scopes : (t : ℤ) (w : W) → P w → P (o.start_scope t w)
  pub tools : (c : ToolCall) (w : W) → P w → P (o.handle_tool c w).1
  pub emits : (e : Event) (w : W) → P w → P (o.emit e w)
  pub writes : (m : Fields) (w : W) → allowed m → P w → P (o.write_json m w).1

-- What a session may send in a turn.
pub record Allows (s : Session) (allowed : Fields → Type 0) : Type 0 where
  pub answers : (payload : Fields) (m : Map Text) → allowed (reply payload (answers_result m))
  pub results : (payload : Fields) (r : ToolResult) → allowed (reply payload (tool_result_value r))
  pub decisions :
      (payload : Fields) (decision : Text)
      → is_never_approval_policy s.cfg.approval_policy ≡ true
      → allowed (reply payload (decision_result decision))

on_read-keeps :
    {W A : Type 0} (P : W → Type 0) (e : SessionError) (rest : Text → W → Step A × W)
    (r : ReadEnd × W)
    → ((raw : Text) (w : W) → P w → P (rest raw w).1)
    → P r.1
    → P (on_read e rest r).1
unfolding on_read
on_read-keeps P e rest (broken f, w) keeps p = p
on_read-keeps P e rest (line raw, w) keeps p = keeps raw w p

if-keeps :
    {W A : Type 0} (P : W → Type 0) (b : Bool) (x y : A × W)
    → P x.1
    → P y.1
    → P (if b then x else y).1
if-keeps P true x y p q = p
if-keeps P false x y p q = q

unless_failed-keeps :
    {W : Type 0} (A : Type 0) (P : W → Type 0) (r : Fallible (Unit {0}) SessionError × W)
    → P r.1
    → P (unless_failed {A = A} r).1
unfolding unless_failed
unless_failed-keeps A P (ok x, w) p = p
unless_failed-keeps A P (err e, w) p = p

module _ {W : Type 0} (o : Peer W) (s : Session) (allowed : Fields → Type 0) (P : W → Type 0)
    (k : Kept o allowed P) where
  tell-keeps :
      (kind : EventKind) (method raw turn_id : Text) (payload : Option Fields) (w : W)
      → P w
      → P (tell o s kind method raw turn_id payload w)
  unfolding tell
  tell-keeps kind method raw turn_id payload w p = k.emits _ w p

  pub write-keeps : (m : Fields) (w : W) → allowed m → P w → P (write o s m w).1
  unfolding write
  write-keeps m w a p = k.writes m w a p

  await_line-keeps : (id : ℤ) (raw : Text) (w : W) → P w → P (await_line o s id raw w).1
  unfolding await_line
  await_line-keeps id raw w p = elim (Option-cases (o.decode raw)) [
    | inl e ↦ rw (e, await_line) (tell-keeps malformed_message [] raw [] none w p)
    | inr (payload, e) ↦ elim (Bool-cases (same_id o.sprint (index payload (codes "id")) id)) [
      | inl f ↦ rw (e, f, await_line) p
      | inr f ↦
          rw (e, f, await_line)
            (tell-keeps unknown_message (method_of o.sprint payload) raw [] (some payload) w p)
    ]
  ]

  -- What holds after the read holds after the round.
  pub await_round-keeps : (id : ℤ) (w : W) → P (o.read_line w).1 → P (await_round o s id w).1
  unfolding await_round
  await_round-keeps id w p =
      on_read-keeps P read_timeout (await_line o s id) (o.read_line w) (await_line-keeps id) p

  pub await_response-keeps :
      ((w : W) → P w → P (o.read_line w).1)
      → (fuel : ℕ) (id : ℤ) (w : W) → P w
      → P (await_response o s fuel id w).1
  unfolding await_response
  await_response-keeps reads fuel id w p =
      loop_until-keeps P (await_round o s id) (λ v q. await_round-keeps id v (reads v q)) fuel
        (o.start_scope s.cfg.read_timeout w) (k.scopes s.cfg.read_timeout w p)

  module _ (a : Allows s allowed) where
    handle_approval-keeps :
        (payload : Fields) (raw turn_id : Text) (w : W)
        → P w
        → P (handle_approval o s payload raw turn_id w).1
    unfolding handle_approval
    handle_approval-keeps payload raw turn_id w p =
        let decision = approval_decision (method_of o.sprint payload) in
        elim (Bool-cases (is_never_approval_policy s.cfg.approval_policy)) [
          | inr e ↦ rw (e, handle_approval) p
          | inl e ↦ elim (Bool-cases (is_empty decision)) [
            | inl f ↦ rw (e, f, handle_approval) p
            | inr f ↦
                rw (e, f, handle_approval)
                  (and_then-keeps P (write o s (reply payload (decision_result decision)) w)
                    (λ x v. (
                      ok tt,
                      tell o s approval_answered (method_of o.sprint payload) raw turn_id
                          (some payload) v,
                    ))
                    (write-keeps (reply payload (decision_result decision)) w
                      (a.decisions payload decision e) p)
                    (λ x v q.
                      tell-keeps approval_answered (method_of o.sprint payload) raw turn_id
                        (some payload) v q))
          ]
        ]

    handle_user_input-keeps :
        (payload : Fields) (raw turn_id : Text) (w : W)
        → P w
        → P (handle_user_input o s payload raw turn_id w).1
    unfolding handle_user_input
    handle_user_input-keeps payload raw turn_id w p = elim (Bool-cases s.non_interactive) [
      | inr e ↦ rw (e, handle_user_input) p
      | inl e ↦ elim (Option-cases (choose_answers o s payload)) [
        | inl f ↦ rw (e, f, handle_user_input) p
        | inr (answers, f) ↦
            rw (e, f, handle_user_input)
              (and_then-keeps P (write o s (reply payload (answers_result answers)) w)
                (λ x v. (
                  ok tt,
                  tell o s tool_input_answered (method_of o.sprint payload) raw turn_id
                      (some payload) v,
                ))
                (write-keeps (reply payload (answers_result answers)) w (a.answers payload answers)
                  p)
                (λ x v q.
                  tell-keeps tool_input_answered (method_of o.sprint payload) raw turn_id
                    (some payload) v q))
      ]
    ]

    call_tool-keeps : (payload : Fields) (w : W) → P w → P (call_tool o s payload w).1
    unfolding call_tool
    call_tool-keeps payload w p = elim (Bool-cases (is_empty (tool_call_name o.sprint payload))) [
      | inl e ↦ rw (e, call_tool) p
      | inr e ↦ rw (e, call_tool) (k.tools _ w p)
    ]

    handle_tool_call-keeps :
        (payload : Fields) (raw turn_id : Text) (w : W)
        → P w
        → P (handle_tool_call o s payload raw turn_id w).1
    unfolding handle_tool_call
    handle_tool_call-keeps payload raw turn_id w p =
        and_then-keeps P _ _ (write-keeps _ _ (a.results payload _) (call_tool-keeps payload w p))
          (λ x v q. tell-keeps _ _ raw turn_id (some payload) v q)

    on_message-keeps :
        (m : Message) (turn_id : Text) (payload : Fields) (raw : Text) (w : W)
        → P w
        → P (on_message o s m turn_id payload raw w).1
    unfolding on_message
    on_message-keeps completes turn_id payload raw w p =
        tell-keeps turn_completed (method_of o.sprint payload) raw turn_id (some payload) w p
    on_message-keeps fails turn_id payload raw w p =
        tell-keeps turn_failed (method_of o.sprint payload) raw turn_id (some payload) w p
    on_message-keeps cancels turn_id payload raw w p =
        tell-keeps turn_cancelled (method_of o.sprint payload) raw turn_id (some payload) w p
    on_message-keeps asks_approval turn_id payload raw w p =
        unless_failed-keeps TurnResult P _ (handle_approval-keeps payload raw turn_id w p)
    on_message-keeps asks_input turn_id payload raw w p =
        unless_failed-keeps TurnResult P _ (handle_user_input-keeps payload raw turn_id w p)
    on_message-keeps calls_tool turn_id payload raw w p =
        unless_failed-keeps TurnResult P _ (handle_tool_call-keeps payload raw turn_id w p)
    on_message-keeps says_else turn_id payload raw w p =
        tell-keeps unknown_message (method_of o.sprint payload) raw turn_id (some payload) w p

    turn_line-keeps : (turn_id raw : Text) (w : W) → P w → P (turn_line o s turn_id raw w).1
    unfolding turn_line
    turn_line-keeps turn_id raw w p = elim (Option-cases (o.decode raw)) [
      | inl e ↦ rw (e, turn_line) (tell-keeps malformed_message [] raw turn_id none w p)
      | inr (payload, e) ↦
          rw (e, turn_line)
            (on_message-keeps (classify (method_of o.sprint payload)) turn_id payload raw w p)
    ]

    -- What holds after the read holds after the round.
    pub turn_round-keeps :
        (turn_id : Text) (w : W) → P (o.read_line w).1 → P (turn_round o s turn_id w).1
    unfolding turn_round
    turn_round-keeps turn_id w p =
        on_read-keeps P turn_timeout (turn_line o s turn_id) (o.read_line w)
          (turn_line-keeps turn_id) p

    module _ (reads : (w : W) → P w → P (o.read_line w).1) where
      follow_turn-keeps :
          (fuel : ℕ) (result : Fields) (w : W) → P w → P (follow_turn o s fuel result w).1
      unfolding follow_turn
      follow_turn-keeps fuel result w p =
          let turn_id = nested_string o.sprint result (codes "turn" ∷ codes "id" ∷ []) in
          elim (Bool-cases (is_empty turn_id)) [
            | inl e ↦ rw (e, follow_turn) p
            | inr e ↦
                rw (e, follow_turn)
                  (loop_until-keeps P (turn_round o s turn_id)
                    (λ v q. turn_round-keeps turn_id v (reads v q)) fuel
                    (o.start_scope s.cfg.turn_timeout w) (k.scopes s.cfg.turn_timeout w p))
          ]

      pub run_turn-keeps :
          (fuel : ℕ) (r : TurnRequest) (w : W)
          → allowed (turn_start_request s r)
          → P w
          → P (run_turn o s fuel r w).1
      unfolding run_turn
      run_turn-keeps fuel r w b p = if-keeps P s.closed _ _ p (
          and_then-keeps P (write o s (turn_start_request s r) w)
            (λ x v. and_then (await_response o s fuel turn_start_id v) (follow_turn o s fuel))
            (write-keeps (turn_start_request s r) w b p)
            (λ x v q.
              and_then-keeps P (await_response o s fuel turn_start_id v) (follow_turn o s fuel)
                (await_response-keeps reads fuel turn_start_id v q) (follow_turn-keeps fuel)))
