-- ===== src/Codex/Session/Consent.antt =====
-- When a turn of internal/codex/session.go sends no decision on an approval request.
use go_symphony.Codex.Messages.{turn_start_request, request, reply, answers_result}
use go_symphony.Prelude.{
  ℕ, ◌≡◌, refl, false, none, List, [], ◌∷◌, ◌++◌, inl, inr, Bool-cases, arith,
}
use go_symphony.Prelude.Text.{Text, codes, text_eq}
use go_symphony.Prelude.Map.{Map}
use go_symphony.Json
use go_symphony.Json.{Value, Fields, end, get, index, map_or_nil, fields}
use go_symphony.Codex.Types.{
  Session, ToolContentItem, ToolResult, TurnRequest, tool_result_value, omit_empty_text,
  omit_empty_items, omit_nil,
}
use go_symphony.Codex.Payload.{is_never_approval_policy}
use go_symphony.Codex.Session.{Peer}
use go_symphony.Codex.Session.Keeps.{Kept, run_turn-keeps}
use go_symphony.Codex.Session.Turns.{run_turn}

-- A message without a decision in its result.
unfoldable pub IsUndecided : Fields → Type 0
IsUndecided m = get (codes "decision") (map_or_nil (index m (codes "result"))) ≡ none

get-++ :
    (k : Text) (xs ys : List (Text × Value))
    → get k (fields xs) ≡ none
    → get k (fields ys) ≡ none
    → get k (fields (xs ++ ys)) ≡ none
unfolding get
get-++ k [] ys h j = j
get-++ k ((key, v) ∷ xs) ys h j = elim (Bool-cases (text_eq key k)) [
  | inl e ↦ ground arith
  | inr e ↦ rw (e, get) (get-++ k xs ys (rw (e, get) at h) j)
]

no_items :
    (cs : List ToolContentItem) → get (codes "decision") (fields (omit_empty_items cs)) ≡ none
unfolding get text_eq
no_items [] = refl
no_items (c ∷ cs) = refl

no_result : (v : Value) → get (codes "decision") (fields (omit_nil (codes "result") v)) ≡ none
unfolding get text_eq
no_result Json.null = refl
no_result (Json.boolean b) = refl
no_result (Json.number n) = refl
no_result (Json.text s) = refl
no_result (Json.array xs) = refl
no_result (Json.object m) = refl

no_error : (e : Text) → get (codes "decision") (fields (omit_empty_text (codes "error") e)) ≡ none
unfolding get text_eq
no_error [] = refl
no_error (c ∷ s) = refl

tool_result-IsUndecided :
    (payload : Fields) (r : ToolResult) → IsUndecided (reply payload (tool_result_value r))
unfolding IsUndecided tool_result_value reply get map_or_nil index text_eq
tool_result-IsUndecided payload r =
    get-++ (codes "decision") (omit_empty_items r.content_items)
      (omit_nil (codes "result") r.result ++ omit_empty_text (codes "error") r.error)
      (no_items r.content_items)
      (get-++ (codes "decision") (omit_nil (codes "result") r.result)
        (omit_empty_text (codes "error") r.error) (no_result r.result) (no_error r.error))

answers-IsUndecided :
    (payload : Fields) (m : Map Text) → IsUndecided (reply payload (answers_result m))
unfolding IsUndecided answers_result reply get map_or_nil index text_eq
answers-IsUndecided payload m = refl

turn_start-IsUndecided : (s : Session) (r : TurnRequest) → IsUndecided (turn_start_request s r)
unfolding IsUndecided turn_start_request request get map_or_nil index text_eq
turn_start-IsUndecided s r = refl

-- Under an approval policy other than "never" a turn never sends a decision, which is the answer to an
-- approval request: what the peer's side and every message whose result has no "decision" keep, the
-- whole turn keeps, whatever the peer sends. Answers to questions for user input are not decisions.
pub run_turn-IsUndecided :
    {W : Type 0} (o : Peer W) (s : Session) (P : W → Type 0)
    → is_never_approval_policy s.cfg.approval_policy ≡ false
    → Kept o IsUndecided P
    → ((w : W) → P w → P (o.read_line w).1)
    → (fuel : ℕ) (r : TurnRequest) (w : W) → P w
    → P (run_turn o s fuel r w).1
run_turn-IsUndecided o s P asks kept reads fuel r w p =
    run_turn-keeps o s IsUndecided P kept
      (record {
        answers = answers-IsUndecided;
        results = tool_result-IsUndecided;
        decisions = λ payload d e. ground (arith, asks);
      })
      reads fuel r w (turn_start-IsUndecided s r) p
