-- ===== src/Codex/Session/Outcome.antt =====
-- What a call of internal/codex/session.go that succeeds has read.
use go_symphony.Codex.Messages.{turn_start_request, turn_start_id}
use go_symphony.Prelude.{
  ℕ, ◌≡◌, ◌≢◌, refl, ap, sym, ◌∙◌, inl, inr, Bool, true, false, none, some, [], ◌∷◌, arith,
  if◌then◌else◌, Fallible, ok, err, Bool-cases, Option-cases,
}
use go_symphony.Prelude.Int.{ℤ}
use go_symphony.Prelude.Text.{Text, codes, text_eq, is_empty}
use go_symphony.Json.{Fields, get, index, as_map}
use go_symphony.Codex.Types.{
  Session, TurnRequest, TurnResult, TurnStatus, TokenUsage, SessionError, EventKind, read_timeout,
  turn_timeout, completed, turn_has_failed, cancelled, turn_completed, turn_failed, turn_cancelled,
  session_closed,
}
use go_symphony.Codex.Payload.{same_id, method_of, usage_from_payload, nested_string}
use go_symphony.Codex.Session.{
  Peer, Step, ReadEnd, line, broken, done, on_read, and_then, write, response_result, await_line,
  await_round, await_response,
}
use go_symphony.Codex.Session.Loops.{Rounds, loop_until-done, and_then-ok, and_then-same}
use go_symphony.Codex.Session.Turns.{
  Message, completes, fails, cancels, asks_approval, asks_input, calls_tool, says_else, classify,
  no_usage, end_turn, unless_failed, on_message, turn_line, turn_round, follow_turn, run_turn,
}

-- A line that was read, and what it decodes to.
abbrev pub Read : {W : Type 0} → Peer W → W → Text → Fields → Type 0
Read o v raw payload = ((o.read_line v).0 ≡ line raw) × (o.decode raw ≡ some payload)

on_read-done :
    {W A : Type 0} (e : SessionError) (rest : Text → W → Step A × W) (r : ReadEnd × W) (a : A)
    → (on_read e rest r).0 ≡ done (ok a)
    → (raw : Text) × ((r.0 ≡ line raw) × ((rest raw r.1).0 ≡ done (ok a)))
unfolding on_read
on_read-done e rest (broken f, w) a h = ground arith
on_read-done e rest (line raw, w) a h = (raw, (refl, h))

unless_failed-done :
    {W A : Type 0} (r : Fallible (Unit {0}) SessionError × W) (a : A)
    → (unless_failed r).0 ≢ done (ok a)
unfolding unless_failed
unless_failed-done (ok x, w) a = ground arith
unless_failed-done (err e, w) a = ground arith

done_injective : {A : Type 0} (x y : Fallible A SessionError) → done x ≡ done y → x ≡ y
done_injective x y h = cc

done-ok : {A : Type 0} (a b : A) → done (ok a) ≡ done (ok b) → a ≡ b
done-ok a b h = cc

is_empty-false : (t : Text) → is_empty t ≡ false → t ≢ []
is_empty-false t h = ground arith

if-ok :
    {W A : Type 0} (b : Bool) (e : SessionError) (w : W) (rest : Fallible A SessionError × W)
    (a : A)
    → (if b then (err e, w) else rest).0 ≡ ok a
    → (if b then (err e, w) else rest) ≡ rest
if-ok true e w rest a h = cc
if-ok false e w rest a h = refl

-- The method that tells of a status.
abbrev pub status_method : TurnStatus → Text
status_method completed = codes "turn/completed"
status_method turn_has_failed = codes "turn/failed"
status_method cancelled = codes "turn/cancelled"

-- The usage that a result reports.
abbrev pub Reports : Fields → TurnStatus → TokenUsage → Type 0
Reports payload completed usage = usage ≡ usage_from_payload payload
Reports payload turn_has_failed usage = usage ≡ no_usage
Reports payload cancelled usage = usage ≡ no_usage

abbrev pub Tells : (Text → TurnStatus → Type 0)
Tells method status = text_eq method (status_method status) ≡ true

classify-completes : (method : Text) → classify method ≡ completes → Tells method completed
unfolding classify
classify-completes method h = ground arith

classify-fails : (method : Text) → classify method ≡ fails → Tells method turn_has_failed
unfolding classify
classify-fails method h = ground arith

classify-cancels : (method : Text) → classify method ≡ cancels → Tells method cancelled
unfolding classify
classify-cancels method h = ground arith

module _ {W : Type 0} (o : Peer W) (s : Session) where
  response_result-ok :
      (payload result : Fields)
      → response_result o s payload ≡ ok result
      → (get (codes "error") payload ≡ none)
        × (as_map (index payload (codes "result")) ≡ some result)
  unfolding response_result
  response_result-ok payload result h = elim (Option-cases (get (codes "error") payload)) [
    | inr (e, f) ↦ ground arith
    | inl f ↦ elim (Option-cases (as_map (index payload (codes "result")))) [
      | inl g ↦ ground arith
      | inr (r, g) ↦ (f, ground arith)
    ]
  ]

  await_line-IsAnswer :
      (id : ℤ) (raw : Text) (w : W) (result : Fields)
      → (await_line o s id raw w).0 ≡ done (ok result)
      → (payload : Fields) × ((o.decode raw ≡ some payload)
          × ((same_id o.sprint (index payload (codes "id")) id ≡ true)
              × ((get (codes "error") payload ≡ none)
                  × (as_map (index payload (codes "result")) ≡ some result))))
  unfolding await_line
  await_line-IsAnswer id raw w result h = elim (Option-cases (o.decode raw)) [
    | inl e ↦ ground arith
    | inr (payload, e) ↦ elim (Bool-cases (same_id o.sprint (index payload (codes "id")) id)) [
      | inl f ↦ (
        payload,
        (
          e,
          (f, response_result-ok payload result (done_injective _ _ (rw (e, f, await_line) at h))),
        ),
      )
      | inr f ↦ ground arith
    ]
  ]

  -- A response that is returned is the "result" of a line that was read, whose "id" is the request's and
  -- that has no "error".
  pub await_response-IsAnswer :
      (fuel : ℕ) (id : ℤ) (w : W) (result : Fields)
      → (await_response o s fuel id w).0 ≡ ok result
      → (v : W) × (raw : Text) × (payload : Fields) × (Read o v raw payload
          × ((same_id o.sprint (index payload (codes "id")) id ≡ true)
              × ((get (codes "error") payload ≡ none)
                  × (as_map (index payload (codes "result")) ≡ some result))))
  unfolding await_response await_round await_line
  await_response-IsAnswer fuel id w result h =
      let (v, (rounds, (at, last))) =
        loop_until-done (await_round o s id) fuel (o.start_scope s.cfg.read_timeout w) (ok result) h
          (ground arith) in
      let (raw, (is_read, ends)) =
        on_read-done read_timeout (await_line o s id) (o.read_line v) result at in
      let (payload, answer) = await_line-IsAnswer id raw (o.read_line v).1 result ends in
      (v, raw, payload, ((is_read, answer.0), answer.1))

  end_turn-Tells :
      (status : TurnStatus) (usage : TokenUsage) (kind : EventKind) (payload : Fields)
      (raw turn_id : Text) (w : W) (r : TurnResult) (method : Text)
      → Tells method status
      → Reports payload status usage
      → (end_turn o s status usage kind payload raw turn_id w).0 ≡ done (ok r)
      → (r.turn_id ≡ turn_id) × (Tells method r.status × Reports payload r.status r.usage)
  unfolding end_turn
  end_turn-Tells status usage kind payload raw turn_id w r method t u h =
      let e = done-ok (record { status = status; turn_id = turn_id; usage = usage }) r h in
      rw⁻¹ e (refl, (t, u))

  on_message-Tells :
      (m : Message) (turn_id : Text) (payload : Fields) (raw : Text) (w : W) (r : TurnResult)
      (method : Text)
      → classify method ≡ m
      → (on_message o s m turn_id payload raw w).0 ≡ done (ok r)
      → (r.turn_id ≡ turn_id) × (Tells method r.status × Reports payload r.status r.usage)
  unfolding on_message classify
  on_message-Tells completes turn_id payload raw w r method c h =
      end_turn-Tells completed (usage_from_payload payload) turn_completed payload raw turn_id w r
        method (classify-completes method c) refl h
  on_message-Tells fails turn_id payload raw w r method c h =
      end_turn-Tells turn_has_failed no_usage turn_failed payload raw turn_id w r method
        (classify-fails method c) refl h
  on_message-Tells cancels turn_id payload raw w r method c h =
      end_turn-Tells cancelled no_usage turn_cancelled payload raw turn_id w r method
        (classify-cancels method c) refl h
  on_message-Tells asks_approval turn_id payload raw w r method c h =
      elim (unless_failed-done _ r h) [ ]
  on_message-Tells asks_input turn_id payload raw w r method c h =
      elim (unless_failed-done _ r h) [ ]
  on_message-Tells calls_tool turn_id payload raw w r method c h =
      elim (unless_failed-done _ r h) [ ]
  on_message-Tells says_else turn_id payload raw w r method c h = ground arith

  turn_line-Tells :
      (turn_id raw : Text) (w : W) (r : TurnResult)
      → (turn_line o s turn_id raw w).0 ≡ done (ok r)
      → (payload : Fields) × ((o.decode raw ≡ some payload)
          × ((r.turn_id ≡ turn_id)
              × (Tells (method_of o.sprint payload) r.status × Reports payload r.status r.usage)))
  unfolding turn_line
  turn_line-Tells turn_id raw w r h = elim (Option-cases (o.decode raw)) [
    | inl e ↦ ground arith
    | inr (payload, e) ↦ (
      payload,
      (
        e,
        on_message-Tells (classify (method_of o.sprint payload)) turn_id payload raw w r
            (method_of o.sprint payload) refl (rw (e, turn_line) at h),
      ),
    )
  ]

  turn_round-Tells :
      (turn_id : Text) (v : W) (r : TurnResult)
      → (turn_round o s turn_id v).0 ≡ done (ok r)
      → (raw : Text) × (payload : Fields) × (Read o v raw payload
          × ((r.turn_id ≡ turn_id)
              × (Tells (method_of o.sprint payload) r.status × Reports payload r.status r.usage)))
  unfolding turn_round
  turn_round-Tells turn_id v r at =
      let (raw, (is_read, ends)) =
        on_read-done turn_timeout (turn_line o s turn_id) (o.read_line v) r at in
      let (payload, (decodes, (same, told))) =
        turn_line-Tells turn_id raw (o.read_line v).1 r ends in
      (raw, payload, ((is_read, decodes), (same, told)))

  -- In a turn that is followed from the world `w` and leaves the world `u`, the last message that was
  -- read tells the result: the rounds before it led from `w` to the world `v`, in which it was read, and
  -- `u` is what its own round left.
  abbrev pub IsTold : W → W → TurnResult → Type 0
  IsTold w u r =
      (v : W) × (raw : Text) × (payload : Fields) × (Rounds (turn_round o s r.turn_id)
          (o.start_scope s.cfg.turn_timeout w) v
        × ((u ≡ (turn_round o s r.turn_id v).1)
            × (Read o v raw payload
                × (Tells (method_of o.sprint payload) r.status
                    × Reports payload r.status r.usage))))

  follow_turn-Tells :
      (fuel : ℕ) (result : Fields) (w : W) (r : TurnResult)
      → (follow_turn o s fuel result w).0 ≡ ok r
      → (r.turn_id ≢ []) × IsTold w (follow_turn o s fuel result w).1 r
  unfolding follow_turn
  follow_turn-Tells fuel result w r h =
      let turn_id = nested_string o.sprint result (codes "turn" ∷ codes "id" ∷ []) in
      elim (Bool-cases (is_empty turn_id)) [
        | inl e ↦ ground arith
        | inr e ↦
            let (v, (rounds, (at, last))) =
              loop_until-done (turn_round o s turn_id) fuel (o.start_scope s.cfg.turn_timeout w)
                (ok r) (rw (e, follow_turn) at h) (ground arith) in
            let (raw, payload, (is_read, (same, told))) = turn_round-Tells turn_id v r at in
            (
              rw same (is_empty-false turn_id e),
              (
                v,
                raw,
                payload,
                (rw same rounds, (rw (e, same, follow_turn) last, (is_read, told))),
              ),
            )
      ]

  -- A turn that returns a result has a turn id, and the result is told by the last message that was read
  -- in the turn, after the response to "turn/start": its method gives the status, and a completed turn
  -- reports the usage of that message, another one none.
  pub run_turn-Tells :
      (fuel : ℕ) (request : TurnRequest) (w : W) (r : TurnResult)
      → (run_turn o s fuel request w).0 ≡ ok r
      → (r.turn_id ≢ [])
        × IsTold
            (await_response o s fuel turn_start_id (write o s (turn_start_request s request) w).1).1
            (run_turn o s fuel request w).1
            r
  unfolding run_turn
  run_turn-Tells fuel request w r h =
      let rest = λ (x : Unit {0}) (v : W).
        and_then (await_response o s fuel turn_start_id v) (follow_turn o s fuel) in
      let wrote = write o s (turn_start_request s request) w in
      let answer = await_response o s fuel turn_start_id wrote.1 in
      let is_open = if-ok s.closed session_closed w (and_then wrote rest) r h in
      let started : (and_then wrote rest).0 ≡ ok r = ap (λ x. x.0) (sym is_open) ∙ h in
      let (x, (written, answers)) = and_then-ok wrote rest r started in
      let (result, (answered, follows)) = and_then-ok answer (follow_turn o s fuel) r answers in
      let ran : run_turn o s fuel request w ≡ follow_turn o s fuel result answer.1 =
        is_open
        ∙ and_then-same wrote rest x written
        ∙ and_then-same answer (follow_turn o s fuel) result answered in
      let told = follow_turn-Tells fuel result answer.1 r follows in (told.0, rw ran told.1)
