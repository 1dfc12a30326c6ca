-- ===== src/Config/Workflow.antt =====
-- internal/config/workflow.go: the workflow file, settings in YAML between two lines `---` and a prompt.
-- `decode_yaml` is yaml.Unmarshal; a Value has one kind of map, which normalizeYAMLValue leaves alone.
pub mod Laws
use go_symphony.Prelude.{
  ℕ, true, false, ◌&&◌, ◌==◌, none, some, List, [], ◌∷◌, ◌++◌, map, if◌then◌else◌, Fallible, ok,
  err,
}
use go_symphony.Prelude.Text.{Text, codes, text_eq, trim_space, is_empty, is_blank}
use go_symphony.Workspace.Paths.{join_path}
use go_symphony.Json.{Value, Fields, end, as_map}

pub record Workflow : Type 0 where
  pub path : Text
  pub config : Fields
  pub prompt : Text
  pub prompt_template : Text

pub data LoadError : Type 0 where
  missing_workflow_file : (path cause : Text) → LoadError
  workflow_parse : (cause : Text) → LoadError
  front_matter_not_map : LoadError
  other_error : (cause : Text) → LoadError

-- strings.Join with "\n"
unfoldable pub join_lines : List Text → Text
join_lines [] = []
join_lines (l ∷ []) = l
join_lines (l ∷ k ∷ ls) = l ++ (10 ∷ join_lines (k ∷ ls))

-- strings.ReplaceAll of "\r\n" by "\n"
unfoldable pub replace_crlf : Text → Text
replace_crlf [] = []
replace_crlf (c ∷ []) = c ∷ []
replace_crlf (c ∷ d ∷ s) = elim (c == 13 && d == 10) [
  | true ↦ 10 ∷ replace_crlf s
  | false ↦ c ∷ replace_crlf (d ∷ s)
]

-- strings.ReplaceAll of "\r" by "\n"
unfoldable pub replace_cr : Text → Text
replace_cr [] = []
replace_cr (c ∷ s) = (if c == 13 then 10 else c) ∷ replace_cr s

abbrev push : ℕ → List Text → List Text
push c [] = (c ∷ []) ∷ []
push c (l ∷ ls) = (c ∷ l) ∷ ls

-- strings.Split at "\n"
unfoldable pub split_newlines : Text → List Text
split_newlines [] = [] ∷ []
split_newlines (c ∷ s) = let rest = split_newlines s in if c == 10 then [] ∷ rest else push c rest

unfoldable pub split_lines : Text → List Text
unfolding replace_crlf replace_cr split_newlines
split_lines content = split_newlines (replace_cr (replace_crlf content))

abbrev pub marker : Text
marker = codes "---"

-- The loop of splitFrontMatter, behind the first line.
unfoldable pub until_marker : List Text → List Text × List Text
until_marker [] = ([], [])
until_marker (l ∷ ls) =
    let rest = until_marker ls in if text_eq l marker then ([], ls) else (l ∷ rest.0, rest.1)

unfoldable pub split_front_matter : List Text → List Text × List Text
unfolding until_marker
split_front_matter [] = ([], [])
split_front_matter (l ∷ ls) = if text_eq l marker then until_marker ls else ([], l ∷ ls)

abbrev pub default_prompt_template : Text
default_prompt_template = join_lines (
    codes "You are working on a Linear issue."
    ∷ []
    ∷ codes "Identifier: {{ issue.identifier }}"
    ∷ codes "Title: {{ issue.title }}"
    ∷ []
    ∷ codes "Body:"
    ∷ codes "{% if issue.description %}"
    ∷ codes "{{ issue.description }}"
    ∷ codes "{% else %}"
    ∷ codes "No description provided."
    ∷ codes "{% endif %}"
    ∷ [])

unfoldable pub effective_prompt_template : Workflow → Text
unfolding join_lines
effective_prompt_template workflow =
    if is_blank workflow.prompt_template then default_prompt_template else workflow.prompt_template

unfoldable pub resolved_workflow_path : Fallible Text Text → Text → Fallible Text Text
unfolding join_path
resolved_workflow_path getwd [] = elim getwd [
  | err e ↦ err e
  | ok cwd ↦ ok (join_path cwd (codes "WORKFLOW.md"))
]
resolved_workflow_path getwd (c ∷ explicit) = ok (c ∷ explicit)

module _ (decode_yaml : Text → Fallible Value Text) where
  unfoldable pub decode_front_matter : List Text → Fallible Fields LoadError
  unfolding join_lines as_map trim_space
  decode_front_matter lines =
      let content = trim_space (join_lines lines) in
      if is_empty content then ok end else elim (decode_yaml content) [
        | err e ↦ err (workflow_parse e)
        | ok raw ↦ elim (as_map raw) [ none ↦ err front_matter_not_map | some m ↦ ok m ]
      ]

  unfoldable pub parse : Text → Text → Fallible Workflow LoadError
  unfolding split_front_matter split_lines decode_front_matter join_lines trim_space
  parse content path =
      let parts = split_front_matter (split_lines content) in
      let prompt = trim_space (join_lines parts.1) in
      elim (decode_front_matter parts.0) [
        | err e ↦ err e
        | ok config ↦
            ok (record { path = path; config = config; prompt = prompt; prompt_template = prompt })
      ]
