-- ===== src/Codex/Session/Failures.antt =====
-- How StartSession and Close of internal/codex/session.go end.
use go_symphony.Prelude.{
  ℕ, ◌≡◌, ◌≢◌, refl, ◌⊎◌, inl, inr, Bool, true, false, Option, none, some, [], ◌∷◌, arith,
  if◌then◌else◌, Fallible, ok, err, Bool-cases, Fallible-cases,
}
use go_symphony.Prelude.Text.{Text, codes, is_empty}
use go_symphony.Json.{Fields}
use go_symphony.Workspace.Paths.{Segments, absolute}
use go_symphony.Codex.Types.{
  Session, SessionError, transport, session_closed, TurnRequest, normalize_config,
}
use go_symphony.Codex.Payload.{nested_string}
use go_symphony.Codex.Directory.{validate_workspace_path}
use go_symphony.Codex.Directory.Laws.{IsBelow, validate_workspace_path-IsBelow}
use go_symphony.Codex.Session.{Peer, and_then}
use go_symphony.Codex.Session.Turns.{run_turn}
use go_symphony.Codex.Session.Start.{
  SessionOptions, new_session, take_thread, bootstrap, close_failed, connect, start_session,
  close_session,
}

-- A session that was opened in p.
abbrev pub IsOpened : Text → Session → Type 0
IsOpened p s = (s.thread_id ≢ []) × ((s.closed ≡ false) × (s.workspace_path ≡ p))

ok-injective : (a b : Session) → ◌≡◌ {A = Fallible Session SessionError} (ok a) (ok b) → a ≡ b
ok-injective a b h = cc

if-true : {A : Type 0} (b : Bool) (x y : A) → b ≡ true → (if b then x else y) ≡ x
if-true true x y h = refl
if-true false x y h = cc

closed_after :
    {W : Type 0} (b : Bool) (s : Session) (w : W)
    → s.closed ≡ b
    → (x : Session × Option Text) (v : W) → x.0.closed ≡ true
    → (if◌then◌else◌ {A = (Session × Option Text) × W} b ((s, none), w) (x, v)).0.0.closed ≡ true
closed_after true s w e x v h = e
closed_after false s w e x v h = h

and_then-from :
    {W A B X : Type 0} (r : Fallible A SessionError × W)
    (rest : A → W → Fallible B SessionError × W) (b : B)
    → ((a : A) (v : W) → (rest a v).0 ≡ ok b → X)
    → (and_then r rest).0 ≡ ok b
    → X
unfolding and_then
and_then-from (ok a, w) rest b use_it h = use_it a w h
and_then-from (err e, w) rest b use_it h = ground arith

module _ {W : Type 0} (o : Peer W) where
  close_failed-closes :
      (r : Fallible Session SessionError × W) (e : SessionError)
      → (close_failed o r).0 ≡ err e
      → (v : W) × ((close_failed o r).1 ≡ (o.close_transport v).1)
  unfolding close_failed
  close_failed-closes (ok s, w) e h = ground arith
  close_failed-closes (err x, w) e h = (w, refl)

  close_failed-ok :
      (r : Fallible Session SessionError × W) (s : Session)
      → (close_failed o r).0 ≡ ok s
      → r.0 ≡ ok s
  unfolding close_failed
  close_failed-ok (ok x, w) s h = h
  close_failed-ok (err e, w) s h = cc

  take_thread-IsOpened :
      (s0 s : Session) (result : Fields) (w : W)
      → s0.closed ≡ false
      → (take_thread o s0 result w).0 ≡ ok s
      → IsOpened s0.workspace_path s
  unfolding take_thread
  take_thread-IsOpened s0 s result w c h =
      let thread_id = nested_string o.sprint result (codes "thread" ∷ codes "id" ∷ []) in
      elim (Bool-cases (is_empty thread_id)) [
        | inl e ↦ ground arith
        | inr e ↦
            let opened = record s0 { thread_id = thread_id } in
            let same = ok-injective opened s (rw (e, take_thread) at h) in
            rw⁻¹ same (λ n. ground arith, (c, refl))
      ]

  bootstrap-IsOpened :
      (fuel : ℕ) (s0 s : Session) (w : W)
      → s0.closed ≡ false
      → (bootstrap o fuel s0 w).0 ≡ ok s
      → IsOpened s0.workspace_path s
  unfolding bootstrap
  bootstrap-IsOpened fuel s0 s w c h =
      and_then-from _ _ s
        (λ x1 v1. and_then-from _ _ s (λ x2 v2. and_then-from _ _ s (λ x3 v3.
          and_then-from _ _ s
            (λ x4 v4. and_then-from _ _ s (λ x5 v5. take_thread-IsOpened s0 s x5 v5 c)))))
        h

  connect-IsOpened :
      (fuel : ℕ) (opts : SessionOptions) (path : Text) (r : Option Text × W) (s : Session)
      → (connect o fuel opts path r).0 ≡ ok s
      → IsOpened path s
  unfolding connect new_session
  connect-IsOpened fuel opts path (some e, w) s h = ground arith
  connect-IsOpened fuel opts path (none, w) s h =
      bootstrap-IsOpened fuel (new_session opts path) s w refl
        (close_failed-ok (bootstrap o fuel (new_session opts path) w) s h)

  connect-closes :
      (fuel : ℕ) (opts : SessionOptions) (path : Text) (r : Option Text × W) (e : SessionError)
      → (connect o fuel opts path r).0 ≡ err e
      → ((t : Text) × ((r.0 ≡ some t) × (e ≡ transport t)))
        ⊎ ((v : W) × ((connect o fuel opts path r).1 ≡ (o.close_transport v).1))
  unfolding connect
  connect-closes fuel opts path (some t, w) e h = inl (t, (refl, ground arith))
  connect-closes fuel opts path (none, w) e h =
      inr (close_failed-closes (bootstrap o fuel (new_session opts path) w) e h)

  module _ (eval_symlinks : Segments → Fallible Segments Text) (cwd : Segments)
      (open_transport : Text → Text → W → Option Text × W) (fuel : ℕ) (opts : SessionOptions)
      (w : W) where
    -- A session that starts is open, has a thread id, and works in a directory that lies strictly below
    -- the workspace root of its configuration.
    pub start_session-IsOpened :
        (s : Session)
        → (start_session o eval_symlinks cwd open_transport fuel opts w).0 ≡ ok s
        → (p : Text) × (root : Segments) × ((eval_symlinks
                (absolute cwd (normalize_config opts.config).workspace_root)
              ≡ ok root)
            × (IsBelow root p × IsOpened p s))
    unfolding start_session
    start_session-IsOpened s h =
        let root_text = (normalize_config opts.config).workspace_root in
        elim (Fallible-cases
          (validate_workspace_path eval_symlinks cwd root_text opts.workspace_path)) [
            | inr (x, e) ↦ ground arith
            | inl (p, e) ↦
                let (root, (resolves, below)) =
                  validate_workspace_path-IsBelow eval_symlinks cwd root_text opts.workspace_path p
                    e in
                (
                  p,
                  root,
                  (
                    resolves,
                    (below, connect-IsOpened fuel opts p _ s (rw (e, start_session) at h)),
                  ),
                )
          ]

    -- A session that does not start leaves no transport open: its directory was refused before one was
    -- opened, or opening it failed, or the last thing done was to close it.
    pub start_session-closes :
        (e : SessionError)
        → (start_session o eval_symlinks cwd open_transport fuel opts w).0 ≡ err e
        → ((start_session o eval_symlinks cwd open_transport fuel opts w).1 ≡ w)
          ⊎ ((p : Text) × (((t : Text) × (((open_transport
                        (normalize_config opts.config).command
                        p
                        w).0
                      ≡ some t)
                    × (e ≡ transport t)))
                ⊎ ((v : W) × ((start_session o eval_symlinks cwd open_transport fuel opts w).1
                      ≡ (o.close_transport v).1))))
    unfolding start_session
    start_session-closes e h =
        let root_text = (normalize_config opts.config).workspace_root in
        elim (Fallible-cases
          (validate_workspace_path eval_symlinks cwd root_text opts.workspace_path)) [
            | inr (x, f) ↦ inl (rw (f, start_session) refl)
            | inl (p, f) ↦ inr (
              p,
              rw (f, start_session) (connect-closes fuel opts p _ e (rw (f, start_session) at h)),
            )
          ]

  close_session-closed : (s : Session) (w : W) → (close_session o s w).0.0.closed ≡ true
  unfolding close_session
  close_session-closed s w =
      closed_after s.closed s w refl (record s { closed = true }, (o.close_transport w).0)
        (o.close_transport w).1 refl

  -- Close: the session is closed afterwards, whatever the transport says; a second Close reports no
  -- error and does nothing; a closed session starts no turn.
  pub close_session-once :
      (s : Session) (w : W) (fuel : ℕ) (r : TurnRequest)
      → let closed = close_session o s w in
        let s' = closed.0.0 in
        (s'.closed ≡ true)
        × ((close_session o s' closed.1 ≡ ((s', none), closed.1))
            × (run_turn o s' fuel r closed.1 ≡ (err session_closed, closed.1)))
  unfolding close_session run_turn
  close_session-once s w fuel r =
      let is_closed = close_session-closed s w in
      (is_closed, (if-true _ _ _ is_closed, if-true _ _ _ is_closed))
