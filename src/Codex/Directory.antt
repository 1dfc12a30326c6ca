-- ===== src/Codex/Directory.antt =====
-- validateWorkspacePath of internal/codex/session.go. filepath.EvalSymlinks is a parameter: the real
-- path of an absolute path, or an error.
pub mod Laws
use go_symphony.Prelude.{Bool, false, ◌||◌, if◌then◌else◌, Fallible, ok, err}
use go_symphony.Prelude.Text.{Text, codes, is_blank}
use go_symphony.Workspace.Paths.{Segments, absolute, show_path, is_within_root, path_eq}
use go_symphony.Codex.Types.{SessionError, workspace}

-- pathWithin: Rel is neither "." nor does it lead upwards.
unfoldable pub path_within : Segments → Segments → Bool
unfolding is_within_root path_eq
path_within root path = if path_eq path root then false else is_within_root path root

-- The decisions on the real paths and the cleaned ones.
unfoldable pub accept_directory :
    (root workspace_path root_abs workspace_abs : Segments) → Fallible Text SessionError
unfolding path_within
accept_directory root path root_abs path_abs =
    if path_eq path root
    then err (workspace (codes "workspace_equals_root") (show_path path) (show_path root))
    else if path_within root path
    then ok (show_path path)
    else if path_within root_abs path_abs
    then err (workspace (codes "workspace_symlink_escape") (show_path path) (show_path root))
    else err (workspace (codes "workspace_outside_root") (show_path path) (show_path root))

module _ (eval_symlinks : Segments → Fallible Segments Text) (cwd : Segments) where
  unfoldable pub validate_workspace_path : (root path : Text) → Fallible Text SessionError
  unfolding accept_directory absolute
  validate_workspace_path root path =
      if is_blank root || is_blank path
      then err (workspace (codes "workspace_path_unreadable") path root)
      else elim (eval_symlinks (absolute cwd root)) [
        | err e ↦ err (
            workspace (codes "workspace_path_unreadable") (show_path (absolute cwd root))
              (show_path (absolute cwd root)))
        | ok real_root ↦ elim (eval_symlinks (absolute cwd path)) [
          | err e ↦ err (
              workspace (codes "workspace_path_unreadable") (show_path (absolute cwd path))
                (show_path real_root))
          | ok real_path ↦
              accept_directory real_root real_path (absolute cwd root) (absolute cwd path)
        ]
      ]
