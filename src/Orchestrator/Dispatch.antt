-- ===== src/Orchestrator/Dispatch.antt =====
-- internal/orchestrator/state.go: starting a run, and the loop over the candidates.
pub mod Limits
pub mod Gaps
use go_symphony.Prelude.{
  ℕ, ◌+◌, Bool, true, false, not, Option, none, some, List, [], ◌∷◌, ◌++◌, ◌==◌, if◌then◌else◌,
  Fallible, ok, err,
}
use go_symphony.Prelude.Int.{ℤ, ◌+ℤ◌}
use go_symphony.Prelude.Text.{Text, codes, text_lt, trim_space, is_empty}
use go_symphony.Prelude.Map.{Map, lookup, insert, delete}
use go_symphony.Domain.{WorkItem}
use go_symphony.Runner.HostSelection.{HostLoad, select}
use go_symphony.Orchestrator.State.{
  Deps, StartRunRequest, StartRunResult, ClaimedEntry, RunningEntry, RetryEntry, SchedulerState,
  no_totals, next_nonce, first_non_empty,
}
use go_symphony.Orchestrator.Candidates.{is_retry_candidate, should_dispatch, sort_candidates}
use go_symphony.Orchestrator.Backoff.{failure_retry_delay}

-- the first loop of hostLoads
unfoldable pub count_hosts : Map ℕ → Map RunningEntry → Map ℕ
count_hosts counts [] = counts
count_hosts counts ((_, entry) ∷ running) =
    let host = trim_space entry.worker_host in
    let n : ℕ = elim (lookup host counts) [ none ↦ 0 | some n ↦ n ] in
    count_hosts (if is_empty host then counts else insert host (n + 1) counts) running

-- sort.Strings over the keys of a map, each with its value
unfoldable pub insert_load : HostLoad → List HostLoad → List HostLoad
insert_load x [] = x ∷ []
insert_load x (y ∷ ys) =
    let rest = insert_load x ys in if text_lt y.host x.host then y ∷ rest else x ∷ y ∷ ys

unfoldable pub sorted_loads : Map ℕ → List HostLoad
unfolding insert_load
sorted_loads [] = []
sorted_loads ((host, n) ∷ counts) =
    insert_load (record { host = host; running = n }) (sorted_loads counts)

unfoldable pub host_loads : SchedulerState → List HostLoad
unfolding count_hosts sorted_loads
host_loads s = sorted_loads (count_hosts [] s.running)

-- A zero WorkItem.
abbrev pub no_item : WorkItem
no_item = record {
  id = [];
  identifier = [];
  title = [];
  description = [];
  state = [];
  priority = none;
  branch_name = [];
  url = [];
  assignee_id = [];
  labels = [];
  blocked_by = [];
  routable = none;
  created_at = none;
  updated_at = none;
}

module _ {W : Type 0} (d : Deps W) where
  unfoldable pub admit_host : SchedulerState → Text → W → (Text × Bool) × W
  unfolding host_loads
  admit_host s preferred w = elim d.host_selection [
    | some selection ↦ (select selection preferred (host_loads s), w)
    | none ↦ elim d.admit_run [ none ↦ ((preferred, true), w) | some admit ↦ admit preferred w ]
  ]

  unfoldable pub schedule_failure_retry :
      SchedulerState
      → W
      → (item_id identifier : Text) (attempt : ℕ) (last_error worker_host workspace_path : Text)
      → SchedulerState × W
  schedule_failure_retry s w item_id identifier attempt last_error worker_host workspace_path =
      let first = if attempt == 0 then 1 else attempt in
      let nonce = next_nonce s.retry_nonce in
      let (now, w') = d.now w in
      (
        record s {
          retry_nonce = nonce;
          retrying =
              insert item_id
                (record {
                  item_id = item_id;
                  item_identifier = identifier;
                  attempt = first;
                  due_at = now +ℤ failure_retry_delay first s.max_retry_backoff;
                  last_error = last_error;
                  worker_host = worker_host;
                  workspace_path = workspace_path;
                  nonce = nonce;
                })
                s.retrying;
        },
        w',
      )

  -- the end of dispatchItem, once the run is started
  unfoldable pub record_run :
      SchedulerState → W → WorkItem → ℕ → Text → StartRunResult → SchedulerState × W
  record_run s w item attempt host result =
      let (claimed_at, w1) = d.now w in
      let (started_at, w2) = d.now w1 in
      (
        record s {
          claimed =
              insert item.id
                (record {
                  item_id = item.id;
                  item_identifier = item.identifier;
                  claimed_at = claimed_at;
                })
                s.claimed;
          running =
              insert item.id
                (record {
                  item = item;
                  attempt = attempt;
                  started_at = started_at;
                  last_event_at = none;
                  last_event_kind = none;
                  last_event_message = [];
                  session_id = result.session_id;
                  turn_count = 0;
                  worker_host = first_non_empty (result.worker_host ∷ host ∷ []);
                  workspace_path = result.workspace_path;
                  codex_totals = no_totals;
                  last_reported_totals = no_totals;
                  handle = result.handle;
                })
                s.running;
          retrying = delete item.id s.retrying;
        },
        w2,
      )

  -- dispatchItem after the answer of startRun
  unfoldable pub finish_start :
      SchedulerState
      → WorkItem
      → ℕ
      → Text
      → Fallible StartRunResult Text × W
      → Bool × SchedulerState × W
  unfolding schedule_failure_retry record_run
  finish_start s item attempt host (ok result, w) =
      let (s', w') = record_run s w item attempt host result in (true, s', w')
  finish_start s item attempt host (err e, w) =
      let next = if attempt == 0 then 1 else attempt + 1 in
      let (s', w') =
        schedule_failure_retry s w item.id item.identifier next (codes "failed to start run: " ++ e)
          host [] in
      (false, s', w')

  abbrev started_without_runner : Text → StartRunResult
  started_without_runner host = record {
    handle = none;
    worker_host = host;
    workspace_path = [];
    session_id = [];
  }

  unfoldable pub start_item :
      SchedulerState → WorkItem → ℕ → (Text × Bool) × W → Bool × SchedulerState × W
  unfolding finish_start
  start_item s item attempt ((host, false), w) = (false, s, w)
  start_item s item attempt ((host, true), w) = finish_start s item attempt host (elim d.start_run [
    | none ↦ (ok (started_without_runner host), w)
    | some start ↦ start (record { item = item; attempt = attempt; preferred_host = host }) w
  ])

  unfoldable pub dispatch_item :
      SchedulerState → W → WorkItem → ℕ → Text → Bool × SchedulerState × W
  unfolding admit_host start_item
  dispatch_item s w item attempt preferred = start_item s item attempt (admit_host s preferred w)

  unfoldable pub revalidated :
      SchedulerState → Fallible (List WorkItem) Text × W → Option WorkItem × W
  revalidated s (err e, w) = (none, w)
  revalidated s (ok [], w) = (none, w)
  revalidated s (ok (item ∷ items), w) =
      (if not (is_retry_candidate s item) then none else some item, w)

  unfoldable pub revalidate_candidate : SchedulerState → W → Text → Option WorkItem × W
  unfolding revalidated
  revalidate_candidate s w item_id = elim d.refresh_items [
    | none ↦ (elim (lookup item_id s.running) [ none ↦ none | some entry ↦ some entry.item ], w)
    | some refresh ↦ revalidated s (refresh (item_id ∷ []) w)
  ]

  unfoldable pub dispatch_revalidated : SchedulerState → Option WorkItem × W → SchedulerState × W
  unfolding dispatch_item
  dispatch_revalidated s (none, w) = (s, w)
  dispatch_revalidated s (some item, w) = let r = dispatch_item s w item 0 [] in (r.1, r.2)

  -- one round of the loop of processCandidates
  unfoldable pub process_candidate : SchedulerState → W → WorkItem → SchedulerState × W
  unfolding revalidate_candidate dispatch_revalidated
  process_candidate s w item =
      if not (should_dispatch s item)
      then (s, w)
      else dispatch_revalidated s (revalidate_candidate s w item.id)

  unfoldable pub process_sorted : SchedulerState → W → List WorkItem → SchedulerState × W
  unfolding process_candidate
  process_sorted s w [] = (s, w)
  process_sorted s w (item ∷ items) =
      let r = process_candidate s w item in process_sorted r.0 r.1 items

  unfoldable pub process_candidates : SchedulerState → W → List WorkItem → SchedulerState × W
  unfolding process_sorted
  process_candidates s w candidates = process_sorted s w (sort_candidates candidates)
