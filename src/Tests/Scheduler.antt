-- ===== src/Tests/Scheduler.antt =====
-- The scheduler's service and its states in the worlds of go_symphony.Tests.World.
use go_symphony.Prelude.{◌≡◌, false, none, some, List, [], ◌∷◌}
use go_symphony.Prelude.Int.{pos}
use go_symphony.Prelude.Text.{codes}
use go_symphony.Json
use go_symphony.Config.Settings.{Settings}
use go_symphony.Domain.{RunEvent, ActiveRun, run_failed}
use go_symphony.Orchestrator.State.{SchedulerState, new_scheduler_state, no_totals}
use go_symphony.Orchestrator.Service.{new_service, poll_tick, poll_cycle, poll_state}
use go_symphony.Orchestrator.Service.Runs.{Action, refreshes, reports, fires, run}
use go_symphony.Orchestrator.Service.Liveness.{run-new_service-IsServing, IsServing}
use go_symphony.Orchestrator.Service.Scheduler.{
  run-new_service-Inv, new_scheduler_state-Inv, poll_state-Inv,
}
use go_symphony.Orchestrator.Invariant.Fits.{Inv}
use go_symphony.Orchestrator.Events.{apply_run_event}
use go_symphony.Orchestrator.Events.Phases.{apply_run_event-phase, phase_of, after_event}
use go_symphony.Prelude.Text.{text_eq}
use go_symphony.Prelude.{if◌then◌else◌, Pairs}
use go_symphony.Prelude.Sorting.{IsOrderedBy}
use go_symphony.Domain
use go_symphony.Orchestrator.Snapshot.{entries, snapshot}
use go_symphony.Orchestrator.Snapshot.Laws.{
  snapshot_lem, ShowsRun, ShowsRetry, RunBefore, RetryBefore,
}
use mathlib.Core.List.{Perm}
use go_symphony.Tests.World.{sunny, sunny-IsSound}

abbrev pub some_settings : Settings
some_settings = record {
  provider = record {
    kind = codes "memory";
    endpoint = [];
    api_key = [];
    project = [];
    assignee = [];
    active_states = codes "Todo" ∷ codes "In Progress" ∷ [];
    terminal_states = codes "Done" ∷ [];
  };
  polling_interval_ms = pos 30000;
  workspace_root = codes "/w";
  worker = record { ssh_hosts = []; max_concurrent_agents_per_host = none };
  agent = record {
    max_concurrent_agents = pos 10;
    max_turns = pos 20;
    max_retry_backoff_ms = pos 300000;
    max_concurrent_agents_by_state = (codes "todo", pos 1) ∷ [];
  };
  codex = record {
    command = codes "codex app-server";
    approval_policy = Json.text (codes "never");
    thread_sandbox = [];
    turn_sandbox_policy = none;
    turn_timeout_ms = pos 3600000;
    read_timeout_ms = pos 30000;
    stall_timeout_ms = pos 300000;
  };
  hooks = record {
    after_create = codes "git init";
    before_run = [];
    after_run = [];
    before_remove = codes "git status";
    timeout_ms = pos 60000;
  };
  observability = record {
    dashboard_enabled = false;
    refresh_ms = pos 1000;
    render_interval_ms = pos 16;
  };
  server = record { port = none; host = [] };
}

abbrev pub failure : RunEvent
failure = record {
  kind = run_failed;
  item_id = codes "1";
  item_identifier = codes "ABC-1";
  at = pos 9000000000;
  attempt = 0;
  worker_host = [];
  workspace_path = [];
  session_id = [];
  message = [];
  error = some (codes "crash");
  codex_totals = no_totals;
  rate_limits = none;
}

-- The first poll, a run that fails, a refresh, and the poll that the refresh asked for.
abbrev some_actions : List Action
some_actions =
    fires (record { id = 1; delay = pos 0; callback = poll_tick 1 })
    ∷ fires (record { id = 2; delay = pos 0; callback = poll_cycle 1 })
    ∷ reports failure
    ∷ refreshes
    ∷ fires (record { id = 5; delay = pos 0; callback = poll_tick 3 })
    ∷ []

-- What a poll leaves of a new state: both items of the board run.
abbrev pub polled : SchedulerState
polled = (poll_state sunny (new_scheduler_state some_settings) 5).0

polled-Inv : Inv polled
polled-Inv =
    poll_state-Inv sunny sunny-IsSound (new_scheduler_state some_settings) 5
      (new_scheduler_state-Inv some_settings)

run-new_service-Inv_example :
    let started = new_service sunny some_settings (pos 0) 5 in
    Inv (run sunny some_actions started.0 started.1).0.state
run-new_service-Inv_example =
    run-new_service-Inv sunny sunny-IsSound some_settings (pos 0) 5 some_actions

run-new_service-IsServing_example :
    let started = new_service sunny some_settings (pos 0) 5 in
    IsServing (run sunny some_actions started.0 started.1).0
run-new_service-IsServing_example =
    run-new_service-IsServing sunny sunny-IsSound some_settings (pos 0) 5 some_actions

apply_run_event-phase_example : phase_of (apply_run_event sunny polled 20 failure).0 (codes "1") ≡ (
    if text_eq (codes "1") (codes "1")
    then after_event run_failed (phase_of polled (codes "1"))
    else phase_of polled (codes "1"))
apply_run_event-phase_example = apply_run_event-phase sunny polled 20 failure (codes "1") polled-Inv

snapshot_lem_example :
    (runs : List ActiveRun) × (retries : List Domain.RetryEntry) × ((Pairs ShowsRun
          (entries polled.running)
          runs
        × (Perm (snapshot polled).running runs × IsOrderedBy RunBefore (snapshot polled).running))
      × ((Pairs ShowsRetry (entries polled.retrying) retries
            × (Perm (snapshot polled).retrying retries
                × IsOrderedBy RetryBefore (snapshot polled).retrying))
          × (((snapshot polled).polling.checking ≡ polled.checking)
              × (((snapshot polled).polling.next_poll_at ≡ polled.next_poll_at)
                  × (((snapshot polled).polling.interval ≡ polled.interval)
                      × (((snapshot polled).codex_totals ≡ polled.codex_totals)
                          × ((snapshot polled).rate_limits ≡ polled.rate_limits)))))))
snapshot_lem_example = snapshot_lem polled
