-- ===== src/Codex/Session/Ends.antt =====
-- A turn of internal/codex/session.go ends on every peer whose lines come to an end.
use go_symphony.Codex.Messages.{turn_start_request, turn_start_id}
use go_symphony.Prelude.{
  ℕ, ◌≤◌, ◌<◌, ◌≡◌, ◌≢◌, refl, inl, inr, Bool, true, false, [], ◌∷◌, arith, if◌then◌else◌, Fallible,
  ok, err, Bool-cases, Option-cases,
}
use go_symphony.Prelude.Int.{ℤ}
use go_symphony.Prelude.Text.{Text, codes, is_empty}
use go_symphony.Json.{Fields, index}
use go_symphony.Codex.Types.{
  Session, TurnRequest, SessionError, read_timeout, turn_timeout, still_waiting,
}
use go_symphony.Codex.Payload.{same_id, method_of, nested_string, is_never_approval_policy}
use go_symphony.Codex.Answers.{approval_decision}
use go_symphony.Codex.Session.{
  Peer, ReadFailure, ReadEnd, Step, line, broken, again, done, on_read, and_then, scoped_error,
  write, response_result, await_line, await_round, await_response, handle_approval,
  handle_user_input, handle_tool_call, choose_answers,
}
use go_symphony.Codex.Session.Loops.{loop_until-ends, and_then-ends}
use go_symphony.Codex.Session.Keeps.{
  Kept, Allows, await_round-keeps, await_response-keeps, turn_round-keeps, write-keeps,
}
use go_symphony.Codex.Session.Turns.{
  Message, completes, fails, cancels, asks_approval, asks_input, calls_tool, says_else, classify,
  end_turn, unless_failed, on_message, turn_line, turn_round, follow_turn, run_turn,
}

-- `left` bounds the lines the peer has still to send: a line that is read lowers it, nothing raises it.
pub record Drains {W : Type 0} (o : Peer W) (left : W → ℕ) : Type 0 where
  pub others : (n : ℕ) → Kept o (λ m. Unit {0}) (λ w. left w ≤ n)
  pub reads : (w : W) → left (o.read_line w).1 ≤ left w
  pub lines : (w : W) (raw : Text) → (o.read_line w).0 ≡ line raw → left (o.read_line w).1 < left w

abbrev Waits : {A : Type 0} → Fallible A SessionError → Type 0
Waits r = r ≡ err still_waiting

all_allowed : (s : Session) → Allows s (λ m. Unit {0})
all_allowed s = record {
  answers = λ payload m. tt;
  results = λ payload r. tt;
  decisions = λ payload d e. tt;
}

scoped_error-ends :
    (f : ReadFailure) (e : SessionError) → e ≢ still_waiting → scoped_error f e ≢ still_waiting
unfolding scoped_error
scoped_error-ends f e h = ground arith

on_read-ends :
    {W A : Type 0} (e : SessionError) (rest : Text → W → Step A × W) (r : ReadEnd × W)
    → e ≢ still_waiting
    → ((raw : Text) → (rest raw r.1).0 ≢ done (err still_waiting))
    → (on_read e rest r).0 ≢ done (err still_waiting)
unfolding on_read
on_read-ends e rest (broken f, w) h k = λ n. scoped_error-ends f e h (ground arith)
on_read-ends e rest (line raw, w) h k = k raw

on_read-again :
    {W A : Type 0} (e : SessionError) (rest : Text → W → Step A × W) (r : ReadEnd × W)
    → (on_read e rest r).0 ≡ again
    → (raw : Text) × (r.0 ≡ line raw)
unfolding on_read
on_read-again e rest (broken f, w) h = ground arith
on_read-again e rest (line raw, w) h = (raw, refl)

unless_failed-ends :
    {W A : Type 0} (r : Fallible (Unit {0}) SessionError × W)
    → r.0 ≢ err still_waiting
    → (unless_failed {A = A} r).0 ≢ done (err still_waiting)
unfolding unless_failed
unless_failed-ends (ok x, w) h = ground arith
unless_failed-ends (err e, w) h = λ n. h (ground arith)

if-ends :
    {W A : Type 0} (b : Bool) (e : SessionError) (w : W) (rest : Fallible A SessionError × W)
    → e ≢ still_waiting
    → rest.0 ≢ err still_waiting
    → (if b then (err e, w) else rest).0 ≢ err still_waiting
if-ends true e w rest h k = λ n. h (ground arith)
if-ends false e w rest h k = k

module _ {W : Type 0} (o : Peer W) (s : Session) where
  write-ends : (m : Fields) (w : W) → (write o s m w).0 ≢ err still_waiting
  unfolding write
  write-ends m w = elim (Option-cases (o.write_json m w).0) [
    | inl e ↦ rw (e, write) (ground arith)
    | inr (t, e) ↦ rw (e, write) (ground arith)
  ]

  response_result-ends : (payload : Fields) → response_result o s payload ≢ err still_waiting
  unfolding response_result
  response_result-ends payload = ground arith

  await_line-ends :
      (id : ℤ) (raw : Text) (w : W) → (await_line o s id raw w).0 ≢ done (err still_waiting)
  unfolding await_line
  await_line-ends id raw w = elim (Option-cases (o.decode raw)) [
    | inl e ↦ rw (e, await_line) (ground arith)
    | inr (payload, e) ↦ elim (Bool-cases (same_id o.sprint (index payload (codes "id")) id)) [
      | inl f ↦ rw (e, f, await_line) (λ n. response_result-ends payload (ground arith))
      | inr f ↦ rw (e, f, await_line) (ground arith)
    ]
  ]

  handle_approval-ends :
      (payload : Fields) (raw turn_id : Text) (w : W)
      → (handle_approval o s payload raw turn_id w).0 ≢ err still_waiting
  unfolding handle_approval
  handle_approval-ends payload raw turn_id w =
      let decision = approval_decision (method_of o.sprint payload) in
      elim (Bool-cases (is_never_approval_policy s.cfg.approval_policy)) [
        | inr e ↦ rw (e, handle_approval) (ground arith)
        | inl e ↦ elim (Bool-cases (is_empty decision)) [
          | inl f ↦ rw (e, f, handle_approval) (ground arith)
          | inr f ↦
              rw (e, f, handle_approval) (and_then-ends _ _ (write-ends _ w) (λ a e. ground arith))
        ]
      ]

  handle_user_input-ends :
      (payload : Fields) (raw turn_id : Text) (w : W)
      → (handle_user_input o s payload raw turn_id w).0 ≢ err still_waiting
  unfolding handle_user_input
  handle_user_input-ends payload raw turn_id w = elim (Bool-cases s.non_interactive) [
    | inr e ↦ rw (e, handle_user_input) (ground arith)
    | inl e ↦ elim (Option-cases (choose_answers o s payload)) [
      | inl f ↦ rw (e, f, handle_user_input) (ground arith)
      | inr (answers, f) ↦
          rw (e, f, handle_user_input) (and_then-ends _ _ (write-ends _ w) (λ a e. ground arith))
    ]
  ]

  handle_tool_call-ends :
      (payload : Fields) (raw turn_id : Text) (w : W)
      → (handle_tool_call o s payload raw turn_id w).0 ≢ err still_waiting
  unfolding handle_tool_call
  handle_tool_call-ends payload raw turn_id w =
      and_then-ends _ _ (write-ends _ _) (λ a e. ground arith)

  on_message-ends :
      (m : Message) (turn_id : Text) (payload : Fields) (raw : Text) (w : W)
      → (on_message o s m turn_id payload raw w).0 ≢ done (err still_waiting)
  unfolding on_message end_turn
  on_message-ends completes turn_id payload raw w = ground arith
  on_message-ends fails turn_id payload raw w = ground arith
  on_message-ends cancels turn_id payload raw w = ground arith
  on_message-ends asks_approval turn_id payload raw w =
      unless_failed-ends _ (handle_approval-ends payload raw turn_id w)
  on_message-ends asks_input turn_id payload raw w =
      unless_failed-ends _ (handle_user_input-ends payload raw turn_id w)
  on_message-ends calls_tool turn_id payload raw w =
      unless_failed-ends _ (handle_tool_call-ends payload raw turn_id w)
  on_message-ends says_else turn_id payload raw w = ground arith

  turn_line-ends :
      (turn_id raw : Text) (w : W) → (turn_line o s turn_id raw w).0 ≢ done (err still_waiting)
  unfolding turn_line
  turn_line-ends turn_id raw w = elim (Option-cases (o.decode raw)) [
    | inl e ↦ rw (e, turn_line) (ground arith)
    | inr (payload, e) ↦
        rw (e, turn_line)
          (on_message-ends (classify (method_of o.sprint payload)) turn_id payload raw w)
  ]

  module _ (left : W → ℕ) (d : Drains o left) where
    await_round-falls :
        (id : ℤ) (w : W) → (await_round o s id w).0 ≡ again → left (await_round o s id w).1 < left w
    unfolding await_round
    await_round-falls id w h =
        let (raw, e) = on_read-again read_timeout (await_line o s id) (o.read_line w) h in
        let kept =
          await_round-keeps o s _ _ (d.others (left (o.read_line w).1)) id w (omega arith) in
        omega (arith, d.lines w raw e, kept)

    turn_round-falls :
        (turn_id : Text) (w : W)
        → (turn_round o s turn_id w).0 ≡ again
        → left (turn_round o s turn_id w).1 < left w
    unfolding turn_round
    turn_round-falls turn_id w h =
        let (raw, e) = on_read-again turn_timeout (turn_line o s turn_id) (o.read_line w) h in
        let kept =
          turn_round-keeps o s _ _ (d.others (left (o.read_line w).1)) (all_allowed s) turn_id w
            (omega arith) in
        omega (arith, d.lines w raw e, kept)

    await_response-ends :
        (fuel : ℕ) (id : ℤ) (w : W)
        → left w < fuel
        → (await_response o s fuel id w).0 ≢ err still_waiting
    unfolding await_response await_round
    await_response-ends fuel id w h =
        loop_until-ends left (await_round o s id) (await_round-falls id)
          (λ v.
            on_read-ends read_timeout (await_line o s id) (o.read_line v) (ground arith)
              (λ raw. await_line-ends id raw (o.read_line v).1))
          fuel _ (omega (arith, (d.others (left w)).scopes s.cfg.read_timeout w (omega arith)))

    follow_turn-ends :
        (fuel : ℕ) (result : Fields) (w : W)
        → left w < fuel
        → (follow_turn o s fuel result w).0 ≢ err still_waiting
    unfolding follow_turn turn_round
    follow_turn-ends fuel result w h =
        let turn_id = nested_string o.sprint result (codes "turn" ∷ codes "id" ∷ []) in
        elim (Bool-cases (is_empty turn_id)) [
          | inl e ↦ rw (e, follow_turn) (ground arith)
          | inr e ↦
              rw (e, follow_turn)
                (loop_until-ends left (turn_round o s turn_id) (turn_round-falls turn_id)
                  (λ v.
                    on_read-ends turn_timeout (turn_line o s turn_id) (o.read_line v) (ground arith)
                      (λ raw. turn_line-ends turn_id raw (o.read_line v).1))
                  fuel _
                  (omega (arith, (d.others (left w)).scopes s.cfg.turn_timeout w (omega arith))))
        ]

    open_turn-ends :
        (fuel : ℕ) (r : TurnRequest) (w : W)
        → left w < fuel
        → (and_then
            (write o s (turn_start_request s r) w)
            (λ x v. and_then (await_response o s fuel turn_start_id v) (follow_turn o s fuel))).0
          ≢ err still_waiting
    open_turn-ends fuel r w h =
        let wrote =
          write-keeps o s _ _ (d.others (left w)) (turn_start_request s r) w tt (omega arith) in
        let w1 = (write o s (turn_start_request s r) w).1 in
        let below : left w1 < fuel = omega (arith, wrote) in
        let answered =
          await_response-keeps o s _ _ (d.others (left w1)) (λ v q. omega (arith, d.reads v, q))
            fuel turn_start_id w1 (omega arith) in
        and_then-ends _ _ (write-ends _ w) (λ x e.
          and_then-ends _ _ (await_response-ends fuel turn_start_id w1 below)
            (λ result f. follow_turn-ends fuel result _ (omega (arith, answered, below))))

    -- RunTurn ends on fuel above the number of lines the peer has still to send, whatever they are: its
    -- result is never that it is still reading.
    pub run_turn-ends :
        (fuel : ℕ) (r : TurnRequest) (w : W)
        → left w < fuel
        → (run_turn o s fuel r w).0 ≢ err still_waiting
    unfolding run_turn
    run_turn-ends fuel r w h = if-ends s.closed _ w _ (ground arith) (open_turn-ends fuel r w h)
