-- ===== src/Orchestrator/Snapshot/Laws.antt =====
-- What a snapshot of internal/orchestrator/state.go shows, and in which order.
use mathlib.Core.List.{Perm}
use go_symphony.Prelude.{◌≡◌, refl, ◌⊎◌, true, false, List, [], ◌∷◌, map, arith, Pairs}
use go_symphony.Prelude.Int.{ltb_ℤ, leb_ℤ}
use go_symphony.Prelude.Text.{text_lt, text_eq_iff, text_lt_connex}
use go_symphony.Prelude.Sorting.{
  sort_by-IsSortedBy, sort_by-perm, IsOrderedBy, IsSortedBy-IsOrderedBy,
}
use go_symphony.Domain
use go_symphony.Domain.{ActiveRun}
use go_symphony.Orchestrator.State.{RunningEntry, RetryEntry, SchedulerState}
use go_symphony.Orchestrator.Snapshot.{
  active_run, waiting_retry, run_less, retry_less, entries, snapshot,
}
use go_symphony.Orchestrator.Snapshot.Order.{
  run_less_asymm, run_le_trans, retry_less_asymm, retry_le_trans,
}

-- A shown run tells of a running entry: its item, where it runs, since when, and what it last told.
pub record ShowsRun (entry : RunningEntry) (run : ActiveRun) : Type 0 where
  pub same_id : run.item_id ≡ entry.item.id
  pub same_identifier : run.item_identifier ≡ entry.item.identifier
  pub same_state : run.state ≡ entry.item.state
  pub same_worker_host : run.worker_host ≡ entry.worker_host
  pub same_workspace_path : run.workspace_path ≡ entry.workspace_path
  pub same_session_id : run.session_id ≡ entry.session_id
  pub same_turn_count : run.turn_count ≡ entry.turn_count
  pub same_started_at : run.started_at ≡ entry.started_at
  pub same_last_event_at : run.last_event_at ≡ entry.last_event_at
  pub same_last_event_kind : run.last_event_kind ≡ entry.last_event_kind
  pub same_last_event_message : run.last_event_message ≡ entry.last_event_message
  pub same_codex_totals : run.codex_totals ≡ entry.codex_totals

-- A shown retry tells of a waiting one.
pub record ShowsRetry (entry : RetryEntry) (shown : Domain.RetryEntry) : Type 0 where
  pub same_item_id : shown.item_id ≡ entry.item_id
  pub same_item_identifier : shown.item_identifier ≡ entry.item_identifier
  pub same_attempt : shown.attempt ≡ entry.attempt
  pub same_due_at : shown.due_at ≡ entry.due_at
  pub same_last_error : shown.last_error ≡ entry.last_error
  pub same_worker_host : shown.worker_host ≡ entry.worker_host
  pub same_workspace_path : shown.workspace_path ≡ entry.workspace_path

-- By identifier, then id, then start.
abbrev pub RunBefore : ActiveRun → ActiveRun → Type 0
RunBefore a b =
    (text_lt a.item_identifier b.item_identifier ≡ true)
    ⊎ ((a.item_identifier ≡ b.item_identifier)
        × ((text_lt a.item_id b.item_id ≡ true)
            ⊎ ((a.item_id ≡ b.item_id) × (leb_ℤ a.started_at b.started_at ≡ true))))

-- By due time, then identifier, then id.
abbrev pub RetryBefore : Domain.RetryEntry → Domain.RetryEntry → Type 0
RetryBefore a b =
    (ltb_ℤ a.due_at b.due_at ≡ true)
    ⊎ ((leb_ℤ a.due_at b.due_at ≡ true)
        × ((leb_ℤ b.due_at a.due_at ≡ true)
            × ((text_lt a.item_identifier b.item_identifier ≡ true)
                ⊎ ((a.item_identifier ≡ b.item_identifier)
                    × (text_lt b.item_id a.item_id ≡ false)))))

run_less-RunBefore : (a b : ActiveRun) → run_less b a ≡ false → RunBefore a b
unfolding run_less
run_less-RunBefore a b h = ground (
  arith,
  text_eq_iff b.item_identifier a.item_identifier,
  text_eq_iff b.item_id a.item_id,
  text_lt_connex a.item_identifier b.item_identifier,
  text_lt_connex a.item_id b.item_id,
)

retry_less-RetryBefore : (a b : Domain.RetryEntry) → retry_less b a ≡ false → RetryBefore a b
unfolding retry_less
retry_less-RetryBefore a b h = ground (
  arith,
  text_eq_iff b.item_identifier a.item_identifier,
  text_lt_connex a.item_identifier b.item_identifier,
)

shows_runs : (es : List RunningEntry) → Pairs ShowsRun es (map active_run es)
unfolding active_run
shows_runs [] = tt
shows_runs (e ∷ es) = (
  record {
    same_id = refl;
    same_identifier = refl;
    same_state = refl;
    same_worker_host = refl;
    same_workspace_path = refl;
    same_session_id = refl;
    same_turn_count = refl;
    same_started_at = refl;
    same_last_event_at = refl;
    same_last_event_kind = refl;
    same_last_event_message = refl;
    same_codex_totals = refl;
  },
  shows_runs es,
)

shows_retries : (es : List RetryEntry) → Pairs ShowsRetry es (map waiting_retry es)
unfolding waiting_retry
shows_retries [] = tt
shows_retries (e ∷ es) = (
  record {
    same_item_id = refl;
    same_item_identifier = refl;
    same_attempt = refl;
    same_due_at = refl;
    same_last_error = refl;
    same_worker_host = refl;
    same_workspace_path = refl;
  },
  shows_retries es,
)

-- A snapshot shows one run for each running entry of the state and one retry for each waiting one, with
-- the fields of that entry, and no others: the runs ordered by identifier, id and start, the retries by
-- due time, identifier and id. It shows the state of polling, the totals and the rate limits as they are.
pub snapshot_lem :
    (s : SchedulerState)
    → (runs : List ActiveRun) × (retries : List Domain.RetryEntry) × ((Pairs ShowsRun
            (entries s.running)
            runs
          × (Perm (snapshot s).running runs × IsOrderedBy RunBefore (snapshot s).running))
        × ((Pairs ShowsRetry (entries s.retrying) retries
              × (Perm (snapshot s).retrying retries
                  × IsOrderedBy RetryBefore (snapshot s).retrying))
            × (((snapshot s).polling.checking ≡ s.checking)
                × (((snapshot s).polling.next_poll_at ≡ s.next_poll_at)
                    × (((snapshot s).polling.interval ≡ s.interval)
                        × (((snapshot s).codex_totals ≡ s.codex_totals)
                            × ((snapshot s).rate_limits ≡ s.rate_limits)))))))
unfolding snapshot
snapshot_lem s =
    let runs = map active_run (entries s.running) in
    let retries = map waiting_retry (entries s.retrying) in
    (
      runs,
      retries,
      (
        (
          shows_runs (entries s.running),
          (
            sort_by-perm run_less runs,
            IsSortedBy-IsOrderedBy run_less RunBefore run_less-RunBefore _
                (sort_by-IsSortedBy run_less run_less_asymm run_le_trans runs),
          ),
        ),
        (
          (
            shows_retries (entries s.retrying),
            (
              sort_by-perm retry_less retries,
              IsSortedBy-IsOrderedBy retry_less RetryBefore retry_less-RetryBefore _
                  (sort_by-IsSortedBy retry_less retry_less_asymm retry_le_trans retries),
            ),
          ),
          (refl, (refl, (refl, (refl, refl)))),
        ),
      ),
    )
