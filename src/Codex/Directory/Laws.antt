-- ===== src/Codex/Directory/Laws.antt =====
-- Where a session may work, in internal/codex/session.go.
use go_symphony.Prelude.{
  ◌≡◌, ◌≢◌, [], ◌++◌, arith, Fallible, ok, Bool-cases, inl, inr, Fallible-cases,
}
use go_symphony.Prelude.Text.{Text}
use go_symphony.Workspace.Paths.{Segments, absolute, show_path, is_within_root, path_eq}
use go_symphony.Workspace.Paths.Laws.{is_within_root-append, path_eq-append}
use go_symphony.Codex.Directory.{path_within, accept_directory, validate_workspace_path}

-- Something below the root.
abbrev pub IsBelow : Segments → Text → Type 0
IsBelow root p = (below : Segments) × (below ≢ []) × (p ≡ show_path (root ++ below))

accept_directory-IsBelow :
    (root path root_abs path_abs : Segments) (p : Text)
    → accept_directory root path root_abs path_abs ≡ ok p
    → IsBelow root p
unfolding accept_directory path_within
accept_directory-IsBelow root path root_abs path_abs p h = elim (Bool-cases (path_eq path root)) [
  | inl e ↦ ground arith
  | inr e ↦ elim (Bool-cases (is_within_root path root)) [
    | inl i ↦
        let (below, same) = is_within_root-append path root i in
        (below, path_eq-append path root below e same, ground arith)
    | inr i ↦ ground arith
  ]
]

-- A session starts only in a directory that lies strictly below the workspace root, where both are
-- taken with their symbolic links resolved.
pub validate_workspace_path-IsBelow :
    (eval_symlinks : Segments → Fallible Segments Text) (cwd : Segments) (root path p : Text)
    → validate_workspace_path eval_symlinks cwd root path ≡ ok p
    → (real_root : Segments) × ((eval_symlinks (absolute cwd root) ≡ ok real_root)
        × IsBelow real_root p)
unfolding validate_workspace_path
validate_workspace_path-IsBelow eval_symlinks cwd root path p h =
    elim (Fallible-cases (eval_symlinks (absolute cwd root))) [
      | inr (x, e) ↦ ground arith
      | inl (real_root, e) ↦ elim (Fallible-cases (eval_symlinks (absolute cwd path))) [
        | inr (x, f) ↦ ground arith
        | inl (real_path, f) ↦ (
          real_root,
          (
            e,
            accept_directory-IsBelow real_root real_path (absolute cwd root) (absolute cwd path) p
                (ground arith),
          ),
        )
      ]
    ]
