-- ===== src/Worker/Prompt.antt =====
-- internal/cli/runtime.go: the prompts of a run, and the names it shows.
pub mod Laws
use go_symphony.Prelude.{
  ℕ, zero, suc, ◌-◌, Bool, true, false, not, ◌||◌, Option, none, some, List, [], ◌∷◌, ◌++◌,
  if◌then◌else◌, length, drop,
}
use go_symphony.Prelude.Int.{pos}
use go_symphony.Prelude.Text.{Text, codes, text_eq, trim_space, to_lower, is_empty, is_blank}
use go_symphony.Prelude.Decimal.{int_text}
use go_symphony.Domain.{WorkItem}
use go_symphony.Config.Settings.{Settings}
use go_symphony.Config.Workflow.{default_prompt_template}
use go_symphony.Codex.Answers.{has_prefix}

-- strings.Index of a marker: the text before its first occurrence, and the text behind it.
unfoldable pub cut_at : Text → Text → Option (Text × Text)
cut_at marker [] = if is_empty marker then some ([], []) else none
cut_at marker (c ∷ s) = elim (has_prefix (c ∷ s) marker) [
  | true ↦ some ([], drop (length marker) (c ∷ s))
  | false ↦ elim (cut_at marker s) [ none ↦ none | some parts ↦ some (c ∷ parts.0, parts.1) ]
]

abbrev pub if_marker : Text
if_marker = codes "{% if issue.description %}"

abbrev pub else_marker : Text
else_marker = codes "{% else %}"

abbrev pub endif_marker : Text
endif_marker = codes "{% endif %}"

unfoldable pub render_issue_description_conditional : Text → Text → Text
unfolding cut_at
render_issue_description_conditional template description = elim (cut_at if_marker template) [
  | none ↦ template
  | some start ↦ elim (cut_at else_marker start.1) [
    | none ↦ template
    | some chosen ↦ elim (cut_at endif_marker chosen.1) [
      | none ↦ template
      | some other ↦ start.0 ++ ((if is_empty description then other.0 else chosen.0) ++ other.1)
    ]
  ]
]

-- strings.ReplaceAll of a text that is not empty; `skip` characters belong to the last occurrence.
unfoldable pub replace_from : Text → Text → ℕ → Text → Text
unfolding has_prefix
replace_from old new skip [] = []
replace_from old new (suc skip) (c ∷ s) = replace_from old new skip s
replace_from old new zero (c ∷ s) = elim (has_prefix (c ∷ s) old) [
  | true ↦ new ++ replace_from old new (length old - 1) s
  | false ↦ c ∷ replace_from old new 0 s
]

unfoldable pub replace_all : Text → Text → Text → Text
unfolding replace_from
replace_all template old new = replace_from old new 0 template

-- The map `replacements`.
unfoldable pub replacements : WorkItem → List (Text × Text)
replacements item =
    (codes "issue.id", item.id)
    ∷ (codes "issue.identifier", item.identifier)
    ∷ (codes "issue.title", item.title)
    ∷ (codes "issue.description", item.description)
    ∷ (codes "issue.state", item.state)
    ∷ (codes "issue.url", item.url)
    ∷ (codes "issue.branch_name", item.branch_name)
    ∷ (codes "issue.branchName", item.branch_name)
    ∷ []

unfoldable pub replace_keys : Text → List (Text × Text) → Text
unfolding replace_all
replace_keys template [] = template
replace_keys template ((key, value) ∷ rest) =
    let spaced = replace_all template (codes "{{ " ++ (key ++ codes " }}")) value in
    replace_keys (replace_all spaced (codes "{{" ++ (key ++ codes "}}")) value) rest

-- `range` is the order in which Go visits the map.
unfoldable pub render_prompt : (List (Text × Text) → List (Text × Text)) → Text → WorkItem → Text
unfolding render_issue_description_conditional replace_keys replacements trim_space is_blank
render_prompt range given item =
    let template = if is_blank given then default_prompt_template else given in
    trim_space (
      replace_keys (render_issue_description_conditional template (trim_space item.description))
        (range (replacements item)))

unfoldable pub continuation_prompt : ℕ → ℕ → Text
unfolding int_text
continuation_prompt turn max_turns =
    codes
      "Continuation guidance:\n\n- The previous Codex turn completed normally, but the work item is still in an active state.\n- This is continuation turn #"
    ++ (int_text (pos turn)
        ++ (codes " of "
            ++ (int_text (pos max_turns)
                ++ codes
                    " for the current agent run.\n- Resume from the current workspace and thread context instead of restarting from scratch.\n- Focus on the remaining ticket work.")))

unfoldable pub state_in : Text → List Text → Bool
unfolding to_lower trim_space
state_in state [] = false
state_in state (candidate ∷ states) =
    let rest = state_in state states in
    if text_eq (to_lower (trim_space candidate)) (to_lower (trim_space state)) then true else rest

unfoldable pub workspace_message : Bool → Text
workspace_message created = if created then codes "created" else codes "reused"

unfoldable pub runtime_project_url : Settings → Text
unfolding is_blank trim_space
runtime_project_url settings =
    if not (text_eq settings.provider.kind (codes "linear")) || is_blank settings.provider.project
    then []
    else codes "https://linear.app/project/"
      ++ (trim_space settings.provider.project ++ codes "/issues")
