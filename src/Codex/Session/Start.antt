-- ===== src/Codex/Session/Start.antt =====
-- StartSession and Close of internal/codex/session.go.

use go_symphony.Codex.Messages.{
  initialize_request, initialized_notice, thread_start_request, initialize_id, thread_start_id,
}
use go_symphony.Prelude.{
  ℕ, Bool, true, false, Option, none, some, [], ◌∷◌, if◌then◌else◌, Fallible, ok, err,
}
use go_symphony.Prelude.Text.{Text, codes, is_empty}
use go_symphony.Json.{Fields}
use go_symphony.Workspace.Paths.{Segments}
use go_symphony.Codex.Types.{
  SessionConfig, Session, SessionError, transport, protocol, session_started, normalize_config,
}
use go_symphony.Codex.Payload.{nested_string}
use go_symphony.Codex.Directory.{validate_workspace_path}
use go_symphony.Codex.Session.{Peer, and_then, tell, write, await_response}

pub record SessionOptions : Type 0 where
  pub config : SessionConfig
  pub workspace_path : Text
  pub non_interactive : Bool
  pub turn_sandbox_policy : Option Fields

unfoldable pub first_map : Option Fields → Option Fields → Option Fields
first_map (some m) other = some m
first_map none other = other

unfoldable pub new_session : SessionOptions → Text → Session
unfolding normalize_config first_map
new_session opts path = record {
  cfg = normalize_config opts.config;
  workspace_path = path;
  non_interactive = opts.non_interactive;
  turn_sandbox_policy = first_map opts.turn_sandbox_policy opts.config.turn_sandbox_policy;
  thread_id = [];
  closed = false;
}

module _ {W : Type 0} (o : Peer W) where
  unfoldable pub take_thread : Session → Fields → W → Fallible Session SessionError × W
  unfolding tell nested_string
  take_thread s result w =
      let thread_id = nested_string o.sprint result (codes "thread" ∷ codes "id" ∷ []) in
      let s' = record s { thread_id = thread_id } in
      if is_empty thread_id
      then (err (protocol (codes "invalid_thread_payload") []), w)
      else (ok s', tell o s' session_started [] [] [] none w)

  unfoldable pub bootstrap : ℕ → Session → W → Fallible Session SessionError × W
  unfolding write await_response take_thread
  bootstrap fuel s w = and_then (write o s initialize_request w) (λ _ w1.
      and_then (await_response o s fuel initialize_id w1) (λ _ w2.
        and_then (write o s initialized_notice w2) (λ _ w3.
          and_then (write o s (thread_start_request s) w3)
            (λ _ w4. and_then (await_response o s fuel thread_start_id w4) (take_thread s)))))

  -- A session that did not start closes its transport.
  unfoldable pub close_failed :
      Fallible Session SessionError × W → Fallible Session SessionError × W
  close_failed (ok s, w) = (ok s, w)
  close_failed (err e, w) = (err e, (o.close_transport w).1)

  unfoldable pub connect :
      ℕ → SessionOptions → Text → Option Text × W → Fallible Session SessionError × W
  unfolding close_failed bootstrap new_session
  connect fuel opts path (some e, w) = (err (transport e), w)
  connect fuel opts path (none, w) = close_failed (bootstrap fuel (new_session opts path) w)

  -- The transport factory is `open_transport`, by command and directory.
  unfoldable pub start_session :
      (Segments → Fallible Segments Text)
      → Segments
      → (Text → Text → W → Option Text × W)
      → ℕ
      → SessionOptions
      → W
      → Fallible Session SessionError × W
  unfolding connect validate_workspace_path
  start_session eval_symlinks cwd open_transport fuel opts w =
      let cfg = normalize_config opts.config in
      elim (validate_workspace_path eval_symlinks cwd cfg.workspace_root opts.workspace_path) [
        | err e ↦ (err e, w)
        | ok path ↦ connect fuel opts path (open_transport cfg.command path w)
      ]

  unfoldable pub close_session : Session → W → (Session × Option Text) × W
  close_session s w =
      if s.closed
      then ((s, none), w)
      else let (e, w') = o.close_transport w in ((record s { closed = true }, e), w')
