-- ===== src/Codex/Answers.antt =====
-- internal/codex/session.go: the answers to approvals and to questions, when nobody can be asked.
pub mod Laws
use go_symphony.Prelude.{
  Bool, true, false, ◌&&◌, ◌||◌, ◌==◌, Option, none, some, List, [], ◌∷◌, if◌then◌else◌,
}
use go_symphony.Prelude.Text.{Text, codes, text_eq, trim_space, to_lower, is_empty}
use go_symphony.Prelude.Map.{Map, insert}
use go_symphony.Json
use go_symphony.Json.{Value, Fields, index, as_map, map_or_nil, slice_or_nil, fields, items}
use go_symphony.Codex.Payload.{string_value}

abbrev pub non_interactive_input_answer : Text
non_interactive_input_answer =
    codes "This is a non-interactive session. Operator input is unavailable."

-- "" for a method that is no approval.
unfoldable pub approval_decision : Text → Text
approval_decision method =
    if text_eq method (codes "item/commandExecution/requestApproval")
      || text_eq method (codes "item/fileChange/requestApproval")
    then codes "acceptForSession"
    else if text_eq method (codes "execCommandApproval")
        || text_eq method (codes "applyPatchApproval")
    then codes "approved_for_session"
    else []

unfoldable pub has_prefix : Text → Text → Bool
has_prefix s [] = true
has_prefix [] (p ∷ ps) = false
has_prefix (c ∷ s) (p ∷ ps) = c == p && has_prefix s ps

unfoldable pub keep_maps : List Value → List Fields
keep_maps [] = []
keep_maps (v ∷ vs) = let rest = keep_maps vs in elim (as_map v) [ none ↦ rest | some m ↦ m ∷ rest ]

unfoldable pub payload_questions : Fields → List Fields
unfolding keep_maps
payload_questions payload =
    let params = map_or_nil (index payload (codes "params")) in
    keep_maps (slice_or_nil (index params (codes "questions")))

module _ (sprint : Value → Text) where
  abbrev label_of : Value → Text
  label_of option = string_value sprint (index (map_or_nil option) (codes "label"))

  unfoldable pub is_approving : Text → Bool
  unfolding has_prefix
  is_approving label =
      let normalized = to_lower (trim_space label) in
      has_prefix normalized (codes "approve") || has_prefix normalized (codes "allow")

  -- The loop over the options: the two exact labels end it, the first approving one is kept.
  unfoldable pub option_label : Text → List Value → Text
  unfolding is_approving
  option_label fallback [] = fallback
  option_label fallback (option ∷ options) =
      let label = label_of option in
      let rest =
        option_label (if is_empty fallback && is_approving label then label else fallback)
          options in
      if text_eq label (codes "Approve this Session")
      then label
      else if text_eq label (codes "Approve Once")
      then label
      else rest

  unfoldable pub approval_option_label : Fields → Text
  unfolding option_label
  approval_option_label question = option_label [] (slice_or_nil (index question (codes "options")))

  -- The map of answers: each question's id to the one answer that `answer` gives, none if a question
  -- has no id or no answer.
  unfoldable pub answer_all : (Fields → Text) → Map Text → List Fields → Option (Map Text)
  answer_all answer answers [] = some answers
  answer_all answer answers (question ∷ questions) =
      let id = string_value sprint (index question (codes "id")) in
      let rest = answer_all answer (insert id (answer question) answers) questions in
      if is_empty id then none else if is_empty (answer question) then none else rest

  abbrev unless_empty : List Fields → Option (Map Text) → Option (Map Text)
  unless_empty [] answers = none
  unless_empty (q ∷ qs) answers = answers

  unfoldable pub approval_answers : Fields → Option (Map Text)
  unfolding answer_all approval_option_label payload_questions
  approval_answers payload =
      unless_empty (payload_questions payload)
        (answer_all approval_option_label [] (payload_questions payload))

  unfoldable pub unavailable_answers : Fields → Option (Map Text)
  unfolding answer_all payload_questions
  unavailable_answers payload =
      unless_empty (payload_questions payload)
        (answer_all (λ q. non_interactive_input_answer) [] (payload_questions payload))

unfoldable pub answer_fields : Map Text → Fields
answer_fields [] = Json.end
answer_fields ((id, answer) ∷ rest) =
    Json.field id
      (Json.object (fields ((codes "answers", Json.array (items (Json.text answer ∷ []))) ∷ [])))
      (answer_fields rest)
