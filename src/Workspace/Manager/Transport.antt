-- ===== src/Workspace/Manager/Transport.antt =====
-- runnerTransport of internal/workspace/manager.go.
pub mod Laws
use go_symphony.Prelude.{
  ℕ, Bool, true, false, not, ◌&&◌, ◌||◌, Option, none, some, List, [], ◌∷◌, ◌++◌, ◌==◌,
  if◌then◌else◌, Fallible, ok, err,
}
use go_symphony.Prelude.Int.{ℤ, pos, is_zero}
use go_symphony.Prelude.Text.{Text, codes, text_eq, is_empty, is_blank}
use go_symphony.Runner.Shell.{all_safe, escape_quotes}
use go_symphony.Runner.Command.{CommandRequest, CommandResult, RunError, split_first}
use go_symphony.Workspace.Paths.{Segments, Lstat}

-- os.Stat
pub data Stat : Type 0 where
  directory other_file no_file : Stat
  stat_failed : (text : Text) → Stat

-- The machine: its working directory, its file system and the executor of commands. An error is
-- its text, none is nil.
pub record Machine (W : Type 0) : Type 0 where
  pub cwd : Segments
  pub lstat : Segments → W → Lstat
  pub stat : Text → W → Stat
  pub mkdir_all : Text → W → Option Text × W
  pub remove_all : Text → W → Option Text × W
  pub run_command : CommandRequest → W → Fallible CommandResult RunError × W
  pub error_text : RunError → Text
  pub status_text : ℤ → Text

unfoldable pub quote_shell : Text → Text
unfolding all_safe escape_quotes
quote_shell value =
    if is_empty value
    then codes "''"
    else if all_safe value
    then value
    else 39 ∷ escape_quotes value ++ 39 ∷ []

abbrev pub remote_workspace_marker : Text
remote_workspace_marker = codes "__go_symphony_workspace__:"

unfoldable pub remote_ensure_command : Text → Text
unfolding quote_shell
remote_ensure_command path =
    codes "set -eu\n"
    ++ codes "workspace="
    ++ quote_shell path
    ++ codes "\ncreated=0\n"
    ++ codes
        "if [ -e \"$workspace\" ] && [ ! -d \"$workspace\" ]; then rm -rf -- \"$workspace\"; fi\n"
    ++ codes "if [ ! -d \"$workspace\" ]; then mkdir -p -- \"$workspace\"; created=1; fi\n"
    ++ codes "cd \"$workspace\"\nprintf '"
    ++ remote_workspace_marker
    ++ codes "%s:%s\\n' \"$created\" \"$(pwd -P)\""

unfoldable pub strip_prefix : Text → Text → Option Text
strip_prefix [] s = some s
strip_prefix (p ∷ ps) [] = none
strip_prefix (p ∷ ps) (c ∷ s) = let rest = strip_prefix ps s in if p == c then rest else none

unfoldable pub split_lines : Text → List Text
split_lines [] = [] ∷ []
split_lines (c ∷ s) = elim (split_lines s) [
  | [] ↦ (c ∷ []) ∷ []
  | line ∷ lines ↦ if c == 10 then [] ∷ line ∷ lines else (c ∷ line) ∷ lines
]

-- What stands behind the marker: "0:" or "1:" and a path.
unfoldable pub parse_payload : Text → Fallible (Text × Bool) Text
unfolding split_first
parse_payload payload = elim (split_first b':' payload) [
  | none ↦ err (codes "remote workspace marker not found")
  | some (flag, path) ↦
      if is_blank path
      then err (codes "remote workspace marker not found")
      else if text_eq flag (codes "0")
      then ok (path, false)
      else if text_eq flag (codes "1")
      then ok (path, true)
      else err (codes "remote workspace marker not found")
]

-- The first line with the marker decides.
unfoldable pub parse_lines : List Text → Fallible (Text × Bool) Text
unfolding strip_prefix parse_payload
parse_lines [] = err (codes "remote workspace marker not found")
parse_lines (line ∷ lines) = elim (strip_prefix remote_workspace_marker line) [
  | none ↦ parse_lines lines
  | some payload ↦ parse_payload payload
]

unfoldable pub parse_remote_ensure_output : Text → Fallible (Text × Bool) Text
unfolding parse_lines split_lines
parse_remote_ensure_output output = parse_lines (split_lines output)

module _ {W : Type 0} (o : Machine W) where
  unfoldable pub run_in_workspace : Text → Text → Text → ℤ → W → Fallible CommandResult RunError × W
  run_in_workspace host dir command timeout w =
      o.run_command (record { host = host; dir = dir; command = command; timeout = timeout }) w

  unfoldable pub ensure_remote : ℤ → Text → Text → W → Fallible (Text × Bool) Text × W
  unfolding remote_ensure_command parse_remote_ensure_output
  ensure_remote timeout host path w =
      let (answer, w') =
        o.run_command
          (record {
            host = host;
            dir = [];
            command = remote_ensure_command path;
            timeout = timeout;
          })
          w in
      elim answer [
        | err e ↦ (err (o.error_text e), w')
        | ok result ↦
            if is_zero result.status then (parse_remote_ensure_output result.output, w') else (
              err (
                  codes "remote workspace prepare failed with status "
                  ++ o.status_text result.status
                  ++ codes ": "
                  ++ result.output),
              w',
            )
      ]

  unfoldable pub make_directory : Text → W → Fallible (Text × Bool) Text × W
  make_directory path w =
      let (error, w') = o.mkdir_all path w in
      elim error [ some e ↦ (err e, w') | none ↦ (ok (path, true), w') ]

  unfoldable pub ensure_local : Text → W → Fallible (Text × Bool) Text × W
  unfolding make_directory
  ensure_local path w = elim (o.stat path w) [
    | directory ↦ (ok (path, false), w)
    | other_file ↦
        (let (error, w') = o.remove_all path w in
          elim error [ some e ↦ (err e, w') | none ↦ make_directory path w' ])
    | no_file ↦ make_directory path w
    | stat_failed e ↦ (err e, w)
  ]

  unfoldable pub ensure_workspace : ℤ → Text → Text → W → Fallible (Text × Bool) Text × W
  unfolding ensure_remote ensure_local
  ensure_workspace timeout host path w =
      if is_empty host then ensure_local path w else ensure_remote timeout host path w

  unfoldable pub remove_workspace : ℤ → Text → Text → W → Option Text × W
  unfolding quote_shell
  remove_workspace timeout host path w =
      if is_empty host
      then o.remove_all path w
      else let (answer, w') =
          o.run_command
            (record {
              host = host;
              dir = [];
              command = codes "rm -rf -- " ++ quote_shell path;
              timeout = timeout;
            })
            w in
        elim answer [
          | err e ↦ (some (o.error_text e), w')
          | ok result ↦ if is_zero result.status then (none, w') else (
            some (
                codes "remote workspace remove failed with status "
                ++ o.status_text result.status
                ++ codes ": "
                ++ result.output),
            w',
          )
        ]
