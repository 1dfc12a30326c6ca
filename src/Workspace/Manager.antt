-- ===== src/Workspace/Manager.antt =====
-- internal/workspace/manager.go: the manager's operations over the machine's file system and the
-- executor of commands.
pub mod Transport
pub mod Laws
use go_symphony.Workspace.Records.{
  workspace_path_unreadable, workspace_equals_root, workspace_outside_root,
  workspace_symlink_escape, workspace_prepare_failed, WorkspaceError, workspace_error, Manager,
  CreateResult, HookPolicy, hook_timeout, hook_error, remove_accepted_error,
}
use mathlib.Core.Option as Option
use go_symphony.Prelude.{
  ℕ, ◌⊎◌, inl, inr, Bool, true, false, not, ◌&&◌, ◌||◌, Option, none, some, List, [], ◌∷◌, ◌==◌,
  if◌then◌else◌, Fallible, ok, err,
}
use go_symphony.Prelude.Text.{Text, codes, is_empty, is_blank}
use go_symphony.Workspace.Paths.{
  Segments, Lstat, absolute, show_path, join_path, safe_identifier, canonicalize_path,
  is_within_root, path_eq,
}
use go_symphony.Workspace.Manager.Transport.{
  Machine, ensure_workspace, run_in_workspace, remove_workspace, directory, other_file, no_file,
  stat_failed,
}

unfoldable pub has_line_break : Text → Bool
has_line_break [] = false
has_line_break (c ∷ s) = c == 10 || c == 13 || c == 0 || has_line_break s

unfoldable pub validate_remote_path : Text → Text → Fallible Text WorkspaceError
unfolding has_line_break
validate_remote_path path host =
    if is_blank path
    then err (record (workspace_error workspace_path_unreadable path) {
      worker_host = host;
      cause = codes "empty path";
    })
    else if has_line_break path
    then err (record (workspace_error workspace_path_unreadable path) {
      worker_host = host;
      cause = codes "invalid characters";
    })
    else ok path

-- The decisions of validateLocalPath on the two canonical paths and the two cleaned ones.
unfoldable pub place : Segments → Segments → Segments → Segments → Fallible Text WorkspaceError
place workspace root expanded expanded_root =
    if path_eq workspace root
    then err (record (workspace_error workspace_equals_root (show_path workspace)) {
      root = show_path root;
    })
    else if is_within_root workspace root
    then ok (show_path workspace)
    else if is_within_root expanded expanded_root
    then err (record (workspace_error workspace_symlink_escape (show_path expanded)) {
      root = show_path root;
    })
    else err (record (workspace_error workspace_outside_root (show_path workspace)) {
      root = show_path root;
    })

-- validateLocalPath, none while canonicalizePath is still running on the fuel.
unfoldable pub validate_local_path :
    ℕ → (Segments → Lstat) → Segments → Text → Text → Option (Fallible Text WorkspaceError)
unfolding place
validate_local_path fuel lstat cwd root path =
    elim (canonicalize_path fuel lstat (absolute cwd path)) [
      | none ↦ none
      | some (err e) ↦
          some (err (record (workspace_error workspace_path_unreadable path) { cause = e }))
      | some (ok workspace) ↦ elim (canonicalize_path fuel lstat (absolute cwd root)) [
        | none ↦ none
        | some (err e) ↦
            some (err (record (workspace_error workspace_path_unreadable root) { cause = e }))
        | some (ok top) ↦ some (place workspace top (absolute cwd path) (absolute cwd root))
      ]
    ]

abbrev is_empty_list : {A : Type 0} → List A → Bool
is_empty_list [] = true
is_empty_list (x ∷ xs) = false

-- The part of RunWithHooks behind before_run: an error of the hook is returned, a nil run is nothing.
unfoldable pub run_unless :
    {W : Type 0}
    → Option WorkspaceError
    → Option (W → Option Text × W)
    → W
    → Option (WorkspaceError ⊎ Text) × W
run_unless (some e) run w = (some (inl e), w)
run_unless none none w = (none, w)
run_unless none (some run) w = let (error, w') = run w in (Option.map inr error, w')

module _ {W : Type 0} (o : Machine W) (m : Manager) where
  -- runHook: none is nil. The log of an ignored error is not modelled.
  unfoldable pub run_hook : Text → Text → HookPolicy → W → Option WorkspaceError × W
  unfolding hook_error hook_timeout
  run_hook path host policy w =
      if is_blank policy.command
      then (none, w)
      else let (result, w') =
          run_in_workspace o host path policy.command (hook_timeout m.hooks) w in
        (
          if policy.best_effort
              then none
              else hook_error path host policy (hook_timeout m.hooks) result,
          w',
        )

  abbrev pub after_create_policy : HookPolicy
  after_create_policy = record {
    name = codes "after_create";
    command = m.hooks.after_create;
    best_effort = false;
  }

  abbrev pub before_run_policy : HookPolicy
  before_run_policy = record {
    name = codes "before_run";
    command = m.hooks.before_run;
    best_effort = false;
  }

  abbrev pub after_run_policy : HookPolicy
  after_run_policy = record {
    name = codes "after_run";
    command = m.hooks.after_run;
    best_effort = true;
  }

  abbrev pub before_remove_policy : HookPolicy
  before_remove_policy = record {
    name = codes "before_remove";
    command = m.hooks.before_remove;
    best_effort = true;
  }

  -- PathForIdentifier: none while a symbolic link is followed beyond the fuel.
  unfoldable pub path_for_identifier : ℕ → Text → Text → W → Option (Fallible Text WorkspaceError)
  unfolding validate_remote_path validate_local_path
  path_for_identifier fuel identifier host w =
      let path = join_path m.root (safe_identifier identifier) in
      if is_empty host
      then validate_local_path fuel (λ p. o.lstat p w) o.cwd m.root path
      else some (validate_remote_path path host)

  unfoldable pub create_at : Text → Text → W → Fallible CreateResult WorkspaceError × W
  unfolding run_hook
  create_at path host w =
      let (answer, w1) = ensure_workspace o (hook_timeout m.hooks) host path w in
      elim answer [
        | err e ↦ (
          err (record (workspace_error workspace_prepare_failed path) {
            worker_host = host;
            cause = e;
          }),
          w1,
        )
        | ok (resolved, created) ↦
            if not created
            then (ok (record { path = resolved; created = false }), w1)
            else let (error, w2) = run_hook resolved host after_create_policy w1 in
              elim error [
                | some e ↦ (err e, w2)
                | none ↦ (ok (record { path = resolved; created = true }), w2)
              ]
      ]

  unfoldable pub create : ℕ → Text → Text → W → Option (Fallible CreateResult WorkspaceError × W)
  unfolding path_for_identifier create_at
  create fuel identifier host w = elim (path_for_identifier fuel identifier host w) [
    | none ↦ none
    | some (err e) ↦ some (err e, w)
    | some (ok path) ↦ some (create_at path host w)
  ]

  -- RunWithHooks: `run` answers a text for an error. The after_run hook runs on every way out.
  unfoldable pub run_with_hooks :
      Text → Text → Option (W → Option Text × W) → W → Option (WorkspaceError ⊎ Text) × W
  unfolding run_hook run_unless
  run_with_hooks path host run w =
      let (error, w1) = run_hook path host before_run_policy w in
      let (result, w2) = run_unless error run w1 in
      (result, (run_hook path host after_run_policy w2).1)

  -- What Remove does with a path that it has accepted.
  unfoldable pub remove_accepted : Text → Text → W → Option WorkspaceError × W
  unfolding remove_accepted_error hook_timeout
  remove_accepted path host w =
      let (error, w') = remove_workspace o (hook_timeout m.hooks) host path w in
      (Option.map (remove_accepted_error path host) error, w')

  unfoldable pub remove_local : Text → W → Option WorkspaceError × W
  unfolding run_hook remove_accepted remove_accepted_error
  remove_local path w = elim (o.stat path w) [
    | directory ↦ remove_accepted path [] (run_hook path [] before_remove_policy w).1
    | other_file ↦ remove_accepted path [] w
    | no_file ↦ (none, w)
    | stat_failed e ↦ (some (remove_accepted_error path [] e), w)
  ]

  -- Remove, none while a symbolic link is followed beyond the fuel.
  unfoldable pub remove : ℕ → Text → Text → W → Option (Option WorkspaceError × W)
  unfolding remove_local validate_local_path validate_remote_path run_hook remove_accepted
  remove fuel path host w =
      if is_empty host
      then elim (validate_local_path fuel (λ p. o.lstat p w) o.cwd m.root path) [
        | none ↦ none
        | some (err e) ↦ some (some e, w)
        | some (ok accepted) ↦ some (remove_local accepted w)
      ]
      else elim (validate_remote_path path host) [
        | err e ↦ some (some e, w)
        | ok accepted ↦
            some (remove_accepted accepted host (run_hook accepted host before_remove_policy w).1)
      ]

  -- RemoveIssueWorkspaces on one host.
  unfoldable pub remove_issue_at : ℕ → Text → Text → W → Option (Option WorkspaceError × W)
  unfolding path_for_identifier remove
  remove_issue_at fuel identifier host w = elim (path_for_identifier fuel identifier host w) [
    | none ↦ none
    | some (err e) ↦ some (some e, w)
    | some (ok path) ↦ remove fuel path host w
  ]

  -- Its loop over the worker hosts, which are not empty: the errors, in their order.
  unfoldable pub remove_on_hosts : ℕ → Text → List Text → W → Option (List WorkspaceError × W)
  unfolding remove_issue_at
  remove_on_hosts fuel identifier [] w = some ([], w)
  remove_on_hosts fuel identifier (host ∷ hosts) w = elim (remove_issue_at fuel identifier host w) [
    | none ↦ none
    | some (e, w1) ↦ elim (remove_on_hosts fuel identifier hosts w1) [
      | none ↦ none
      | some (es, w2) ↦ some (elim e [ none ↦ es | some x ↦ x ∷ es ], w2)
    ]
  ]

  -- RemoveIssueWorkspaces: no error is nil.
  unfoldable pub remove_issue_workspaces : ℕ → Text → Text → W → Option (List WorkspaceError × W)
  unfolding remove_issue_at remove_on_hosts
  remove_issue_workspaces fuel identifier host w =
      if is_empty host && not (is_empty_list m.worker_hosts)
      then remove_on_hosts fuel identifier m.worker_hosts w
      else elim (remove_issue_at fuel identifier host w) [
        | none ↦ none
        | some (none, w1) ↦ some ([], w1)
        | some (some e, w1) ↦ some (e ∷ [], w1)
      ]
