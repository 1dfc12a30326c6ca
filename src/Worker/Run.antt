-- ===== src/Worker/Run.antt =====
-- internal/cli/runtime.go: what a worker does for one run.
pub mod Reconciled
use go_symphony.Prelude.{
  ℕ, zero, suc, Bool, true, false, not, ◌||◌, Option, none, some, List, [], ◌∷◌, ◌++◌, ◌==◌,
  if◌then◌else◌, Fallible, ok, err,
}
use go_symphony.Prelude.Int.{ℤ, pos, negsuc, pos_part}
use go_symphony.Prelude.Text.{Text, codes}
use go_symphony.Domain.{
  WorkItem, CodexTotals, workspace_created, workspace_path_discovered, runner_host_selected,
  run_completed,
}
use go_symphony.Domain as Domain
use go_symphony.Config.Settings.{Settings}
use go_symphony.Orchestrator.State.{no_totals}
use go_symphony.Orchestrator.Candidates.{not_routable}
use go_symphony.Codex.Types as Codex
use go_symphony.Codex.Types.{
  Session, TurnResult, TokenUsage, TurnStatus, completed, turn_has_failed, cancelled,
  config_from_settings,
}
use go_symphony.Codex.Session.{Peer}
use go_symphony.Codex.Session.Turns.{run_turn}
use go_symphony.Codex.Session.Start.{start_session, close_session}
use go_symphony.Worker.Prompt.{render_prompt, continuation_prompt, state_in, workspace_message}
use go_symphony.Worker.Events.{
  RuntimeBundle, Worker, usage_event, tell_run, emit_failure, emit_codex_event,
}

unfoldable pub turn_error : TurnStatus → Option Text
turn_error completed = none
turn_error turn_has_failed = some (codes "codex turn failed")
turn_error cancelled = some (codes "codex turn cancelled")

unfoldable pub turns_allowed : ℤ → ℕ
turns_allowed (pos zero) = 1
turns_allowed (pos (suc n)) = suc n
turns_allowed (negsuc n) = 1

-- What refreshForContinuation asks of an item.
unfoldable pub is_continued : Settings → WorkItem → Bool
unfolding state_in
is_continued settings item =
    if not_routable item
    then false
    else if not (state_in item.state settings.provider.active_states)
        || state_in item.state settings.provider.terminal_states
    then false
    else true

unfoldable pub usage_totals : TokenUsage → CodexTotals
usage_totals u = record no_totals {
  input_tokens = u.input_tokens;
  output_tokens = u.output_tokens;
  total_tokens = u.total_tokens;
}

module _ {W : Type 0} (m : Worker W) (item : WorkItem) (attempt : ℕ) (host : Text) where
  -- The peer of a run's session: its tool handler is the bundle's, its sink the run's events.
  unfoldable pub run_peer : RuntimeBundle W → Text → Peer W
  unfolding emit_codex_event
  run_peer bundle path = record m.peer {
    handle_tool = bundle.tool_handler;
    emit = emit_codex_event m item attempt host path;
  }

  unfoldable pub continued : List WorkItem → Option WorkItem
  unfolding is_continued
  continued [] = none
  continued (x ∷ xs) = if is_continued m.settings x then some x else none

  -- refreshForContinuation: the item, if the run goes on with it.
  unfoldable pub refresh_for_continuation : Text → W → Fallible (Option WorkItem) Text × W
  unfolding continued
  refresh_for_continuation id w =
      let (answer, w') = m.reader.refresh_by_ids (id ∷ []) w in
      (elim answer [ err e ↦ err e | ok items ↦ ok (continued items) ], w')

  unfoldable pub turn_prompt : RuntimeBundle W → ℕ → WorkItem → Text
  unfolding render_prompt continuation_prompt turns_allowed
  turn_prompt bundle turn current =
      if turn == 1
      then render_prompt m.range bundle.prompt_template current
      else continuation_prompt turn (turns_allowed m.settings.agent.max_turns)

  unfoldable pub turn_request : RuntimeBundle W → ℕ → WorkItem → Codex.TurnRequest
  unfolding turn_prompt
  turn_request bundle turn current = record {
    prompt = turn_prompt bundle turn current;
    title = current.identifier ++ (codes ": " ++ current.title);
  }

  unfoldable pub tell_turn : Session → Text → TurnResult → W → W
  unfolding tell_run usage_totals
  tell_turn s path result w =
      tell_run m item attempt host Domain.turn_completed path s.thread_id
        (m.summarize (usage_event result.usage)) none (usage_totals result.usage) w

  -- The loop over the turns from `turn` on, `left` of them.
  unfoldable pub run_turns :
      RuntimeBundle W → Session → Text → ℕ → ℕ → WorkItem → W → Option Text × W
  unfolding turn_request tell_turn refresh_for_continuation turn_error run_turn run_peer
  run_turns bundle s path zero turn current w = (none, w)
  run_turns bundle s path (suc left) turn current w =
      let (answer, w1) =
        run_turn (run_peer bundle path) s m.fuel (turn_request bundle turn current) w in
      elim answer [
        | err e ↦ (some (m.error_text e), w1)
        | ok result ↦ elim (turn_error result.status) [
          | some e ↦ (some e, w1)
          | none ↦
              let (next, w2) = refresh_for_continuation current.id (tell_turn s path result w1) in
              elim next [
                | err e ↦ (some e, w2)
                | ok none ↦ (none, w2)
                | ok (some refreshed) ↦ run_turns bundle s path left (suc turn) refreshed w2
              ]
        ]
      ]

  -- The deferred calls at the end of runCodexLoop.
  unfoldable pub end_session : RuntimeBundle W → Text → Session → Option Text × W → Option Text × W
  unfolding close_session run_peer
  end_session bundle path s (error, w) =
      (error, m.set_session none (close_session (run_peer bundle path) s w).1)

  unfoldable pub run_codex_loop : Text → W → Option Text × W
  unfolding start_session config_from_settings run_turns end_session turns_allowed
  run_codex_loop path w =
      let (chosen, w1) = m.bundles w in
      elim chosen [
        | err e ↦ (some e, w1)
        | ok bundle ↦
            let config = record (config_from_settings m.settings) {
              dynamic_tools = bundle.dynamic_tools;
            } in
            let (started, w2) =
              start_session (run_peer bundle path) m.eval_symlinks m.cwd m.open_transport m.fuel
                (record {
                  config = config;
                  workspace_path = path;
                  non_interactive = true;
                  turn_sandbox_policy = none;
                })
                w1 in
            elim started [
              | err e ↦ (some (m.error_text e), w2)
              | ok s ↦ end_session bundle path s (
                  run_turns bundle s path (turns_allowed m.settings.agent.max_turns) 1 item
                    (m.set_session (some s) w2))
            ]
      ]

  -- The part of runWorker behind RunWithHooks.
  unfoldable pub finish_run : Text → Option Text → W → W
  unfolding tell_run emit_failure
  finish_run path error w = if m.is_cancelled w then w else elim error [
    | some e ↦ emit_failure m item attempt host path e w
    | none ↦ tell_run m item attempt host run_completed path [] [] none no_totals w
  ]

  unfoldable pub run_worker : W → W
  unfolding tell_run emit_failure run_codex_loop finish_run workspace_message
  run_worker w =
      let (answer, w1) =
        m.create item.identifier host
          (tell_run m item attempt host runner_host_selected [] [] [] none no_totals w) in
      elim answer [
        | err e ↦ emit_failure m item attempt host [] e w1
        | ok made ↦
            let w2 =
              tell_run m item attempt host workspace_created made.path []
                (workspace_message made.created) none no_totals (m.set_workspace made.path w1) in
            let w3 =
              tell_run m item attempt host workspace_path_discovered made.path [] [] none no_totals
                w2 in
            let (error, w4) =
              m.run_with_hooks made.path item.identifier host (run_codex_loop made.path) w3 in
            finish_run made.path error w4
      ]
