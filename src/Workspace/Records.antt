-- ===== src/Workspace/Records.antt =====
-- internal/workspace/manager.go: its data, and the errors that it makes.
use go_symphony.Prelude.{
  ◌*◌, Bool, Option, none, some, List, [], ◌∷◌, if◌then◌else◌, Fallible, ok, err,
}
use go_symphony.Prelude.Int.{ℤ, pos, sub_ℕ, pos_part, neg_part, wrap64, is_zero}
use go_symphony.Prelude.Text.{Text, codes, trim_space, is_empty}
use go_symphony.Config.Settings.{Settings, HookSettings}
use go_symphony.Runner.Command.{CommandResult, RunError, deadline_exceeded, canceled, not_started}

pub data ErrorKind : Type 0 where
  workspace_path_unreadable workspace_equals_root workspace_outside_root : ErrorKind
  workspace_symlink_escape workspace_hook_timeout workspace_hook_failed : ErrorKind
  workspace_prepare_failed workspace_remove_failed : ErrorKind

-- The fields that the branches set; `cause` is the text of Err.
pub record WorkspaceError : Type 0 where
  pub kind : ErrorKind
  pub path : Text
  pub root : Text
  pub hook : Text
  pub worker_host : Text
  pub status : ℤ
  pub output : Text
  pub timeout : ℤ
  pub cause : Text

abbrev pub workspace_error : ErrorKind → Text → WorkspaceError
workspace_error kind path = record {
  kind = kind;
  path = path;
  root = [];
  hook = [];
  worker_host = [];
  status = pos 0;
  output = [];
  timeout = pos 0;
  cause = [];
}

pub record Manager : Type 0 where
  pub root : Text
  pub hooks : HookSettings
  pub worker_hosts : List Text

pub record CreateResult : Type 0 where
  pub path : Text
  pub created : Bool

pub record HookPolicy : Type 0 where
  pub name : Text
  pub command : Text
  pub best_effort : Bool

unfoldable pub normalize_worker_hosts : List Text → List Text
normalize_worker_hosts [] = []
normalize_worker_hosts (host ∷ hosts) =
    let rest = normalize_worker_hosts hosts in
    if is_empty (trim_space host) then rest else trim_space host ∷ rest

-- A count of milliseconds as a time.Duration, in nanoseconds.
unfoldable pub hook_timeout : HookSettings → ℤ
hook_timeout hooks =
    wrap64 (sub_ℕ (pos_part hooks.timeout_ms * 1000000) (neg_part hooks.timeout_ms * 1000000))

unfoldable pub new_manager : Settings → Manager
unfolding normalize_worker_hosts
new_manager settings = record {
  root = settings.workspace_root;
  hooks = settings.hooks;
  worker_hosts = normalize_worker_hosts settings.worker.ssh_hosts;
}

-- The error of a hook that ended, without the best effort's mercy: none for nil.
unfoldable pub hook_error :
    Text → Text → HookPolicy → ℤ → Fallible CommandResult RunError → Option WorkspaceError
hook_error path host policy timeout (err deadline_exceeded) =
    some (record (workspace_error workspace_hook_timeout path) {
      hook = policy.name;
      worker_host = host;
      timeout = timeout;
      cause = codes "context deadline exceeded";
    })
hook_error path host policy timeout (err canceled) =
    some (record (workspace_error workspace_hook_failed path) {
      hook = policy.name;
      worker_host = host;
      cause = codes "context canceled";
    })
hook_error path host policy timeout (err (not_started e)) =
    some (record (workspace_error workspace_hook_failed path) {
      hook = policy.name;
      worker_host = host;
      cause = e;
    })
hook_error path host policy timeout (ok result) =
    if is_zero result.status
    then none
    else some (record (workspace_error workspace_hook_failed path) {
      hook = policy.name;
      worker_host = host;
      status = result.status;
      output = result.output;
    })

unfoldable pub remove_accepted_error : Text → Text → Text → WorkspaceError
remove_accepted_error path host e = record (workspace_error workspace_remove_failed path) {
  worker_host = host;
  cause = e;
}
