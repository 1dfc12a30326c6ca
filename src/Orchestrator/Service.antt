-- ===== src/Orchestrator/Service.antt =====
-- internal/orchestrator/service.go: the timers around the scheduler. Each method runs under the
-- mutex, so a method is one step. A timer is the pointer that AfterFunc returns, with the call that
-- it will make; `pending` are the timers that have neither fired nor been stopped. AfterFunc and
-- Stop are those of the package time.
pub mod Runs
pub mod Frames
pub mod Scheduler
pub mod Pending
pub mod Sync
pub mod Alive
pub mod Liveness
use go_symphony.Prelude.{
  ℕ, suc, ◌+◌, Bool, true, false, not, ◌&&◌, ◌||◌, Option, none, some, List, [], ◌∷◌, ◌==◌,
  if◌then◌else◌, Fallible, ok, err,
}
use go_symphony.Prelude.Int.{ℤ, pos, ltb_ℤ, saturate64, ◌+ℤ◌, ◌-ℤ◌}
use go_symphony.Prelude.Text.{Text, text_eq}
use go_symphony.Prelude.Map.{Map, lookup, insert, delete, keys}
use go_symphony.Config.Settings.{Settings}
use go_symphony.Domain.{WorkItem, RunEvent}
use go_symphony.Runner.HostSelection.{HostSelection}
use go_symphony.Orchestrator.State.{
  Deps, RefreshResult, RetryEntry, SchedulerState, new_scheduler_state,
}
use go_symphony.Orchestrator.Polling.{schedule_poll_at, begin_poll, finish_poll, request_refresh}
use go_symphony.Orchestrator.Dispatch.{process_candidates}
use go_symphony.Orchestrator.Events.{apply_run_event}
use go_symphony.Orchestrator.Retry.{handle_due_retry}
use go_symphony.Orchestrator.Reconcile.{reconcile_stalled, reconcile_running}

pub data Callback : Type 0 where
  poll_tick : ℕ → Callback
  poll_cycle : ℕ → Callback
  retry_tick : Text → ℕ → Callback

pub record Timer : Type 0 where
  pub id : ℕ
  pub delay : ℤ
  pub callback : Callback

pub record ScheduledRetry : Type 0 where
  pub nonce : ℕ
  pub timer : Timer

pub record Service : Type 0 where
  pub state : SchedulerState
  pub poll_transition_delay : ℤ
  pub poll_timer : Option Timer
  pub poll_cycle_timer : Option Timer
  pub retry_timers : Map ScheduledRetry
  pub closed : Bool
  pub pending : List Timer
  pub next_timer : ℕ

unfoldable pub same_callback : Callback → Callback → Bool
same_callback (poll_tick m) (poll_tick n) = m == n
same_callback (poll_cycle m) (poll_cycle n) = m == n
same_callback (retry_tick j m) (retry_tick k n) = text_eq j k && m == n
same_callback _ _ = false

unfoldable pub same_timer : Timer → Timer → Bool
unfolding same_callback
same_timer t u = t.id == u.id && same_callback t.callback u.callback

unfoldable pub without_timer : Timer → List Timer → List Timer
without_timer t [] = []
without_timer t (u ∷ us) =
    let rest = without_timer t us in if same_timer t u then rest else u ∷ rest

-- timer.Stop()
unfoldable pub stop_timer : Service → Timer → Service
unfolding without_timer same_timer
stop_timer s t = record s { pending = without_timer t s.pending }

-- `if s.timer != nil { s.timer.Stop() }`
unfoldable pub stop_if_set : Service → Option Timer → Service
unfolding stop_timer
stop_if_set s none = s
stop_if_set s (some t) = stop_timer s t

-- The timer that the next AfterFunc returns. When it fires is up to the steps of the service.
unfoldable pub new_timer : Service → ℤ → Callback → Timer
new_timer s delay callback = record { id = s.next_timer; delay = delay; callback = callback }

unfoldable pub after_func : Service → ℤ → Callback → Service
unfolding new_timer
after_func s delay callback = record s {
  pending = new_timer s delay callback ∷ s.pending;
  next_timer = suc s.next_timer;
}

-- the test that keeps a timer in the first loop of syncRetryTimersLocked
unfoldable pub is_current : ScheduledRetry → Option RetryEntry → Bool
is_current scheduled none = false
is_current scheduled (some entry) = scheduled.nonce == entry.nonce

unfoldable pub drop_stale : Service → Text → Option ScheduledRetry → Service
unfolding is_current stop_timer
drop_stale s item_id none = s
drop_stale s item_id (some scheduled) =
    if is_current scheduled (lookup item_id s.state.retrying)
    then s
    else record (stop_timer s scheduled.timer) { retry_timers = delete item_id s.retry_timers }

unfoldable pub drop_stale_loop : Service → List Text → Service
unfolding drop_stale
drop_stale_loop s [] = s
drop_stale_loop s (item_id ∷ ids) =
    drop_stale_loop (drop_stale s item_id (lookup item_id s.retry_timers)) ids

unfoldable pub has_timer : Option ScheduledRetry → RetryEntry → Bool
has_timer none entry = false
has_timer (some current) entry = current.nonce == entry.nonce

-- `entry.DueAt.Sub(now)`, not below zero
unfoldable pub retry_delay : RetryEntry → ℤ → ℤ
unfolding saturate64 ◌-ℤ◌
retry_delay entry now =
    let delay = saturate64 (entry.due_at -ℤ now) in if ltb_ℤ delay (pos 0) then pos 0 else delay

unfoldable pub arm_retry : Service → ℤ → Text → Option RetryEntry → Service
unfolding has_timer after_func new_timer retry_delay
arm_retry s now item_id none = s
arm_retry s now item_id (some entry) =
    if has_timer (lookup item_id s.retry_timers) entry
    then s
    else let callback = retry_tick item_id entry.nonce in
      let delay = retry_delay entry now in
      record (after_func s delay callback) {
        retry_timers =
            insert item_id (record { nonce = entry.nonce; timer = new_timer s delay callback })
              s.retry_timers;
      }

unfoldable pub arm_loop : Service → ℤ → List Text → Service
unfolding arm_retry
arm_loop s now [] = s
arm_loop s now (item_id ∷ ids) =
    arm_loop (arm_retry s now item_id (lookup item_id s.state.retrying)) now ids

unfoldable pub close_retry : Service → Text → Option ScheduledRetry → Service
unfolding stop_timer
close_retry s item_id none = s
close_retry s item_id (some scheduled) = record (stop_timer s scheduled.timer) {
  retry_timers = delete item_id s.retry_timers;
}

-- the loop of close over the retry timers
unfoldable pub close_loop : Service → List Text → Service
unfolding close_retry
close_loop s [] = s
close_loop s (item_id ∷ ids) =
    close_loop (close_retry s item_id (lookup item_id s.retry_timers)) ids

-- the service before its first poll is scheduled
unfoldable pub bare_service : Settings → ℤ → Service
unfolding new_scheduler_state
bare_service settings transition_delay = record {
  state = new_scheduler_state settings;
  poll_transition_delay = transition_delay;
  poll_timer = none;
  poll_cycle_timer = none;
  retry_timers = [];
  closed = false;
  pending = [];
  next_timer = 0;
}

-- the end of schedulePoll: the next poll's time, nonce and timer
unfoldable pub arm_poll : Service → ℤ → ℤ → Service
unfolding after_func new_timer schedule_poll_at
arm_poll s at delay =
    let s' = record s { state = schedule_poll_at s.state at } in
    let callback = poll_tick s'.state.poll_nonce in
    record (after_func s' delay callback) { poll_timer = some (new_timer s' delay callback) }

-- the end of handlePollTick: the timer of the poll's work
unfoldable pub arm_cycle : Service → ℕ → Service
unfolding after_func new_timer
arm_cycle s nonce =
    let delay = s.poll_transition_delay in
    let callback = poll_cycle nonce in
    record (after_func s delay callback) { poll_cycle_timer = some (new_timer s delay callback) }

module _ {W : Type 0} (d : Deps W) where
  unfoldable pub schedule_poll : Service → W → ℤ → Service × W
  unfolding stop_if_set arm_poll
  schedule_poll s w delay =
      if s.closed
      then (s, w)
      else let (now, w') = d.now w in
        (arm_poll (stop_if_set s s.poll_timer) (now +ℤ delay) delay, w')

  unfoldable pub sync_retry_timers : Service → W → Service × W
  unfolding drop_stale_loop arm_loop
  sync_retry_timers s w =
      let (scheduled, w1) = d.range (keys s.retry_timers) w in
      let s1 = drop_stale_loop s scheduled in
      let (now, w2) = d.now w1 in
      let (due, w3) = d.range (keys s1.state.retrying) w2 in (arm_loop s1 now due, w3)

  unfoldable pub service_request_refresh : Service → W → RefreshResult × Service × W
  unfolding request_refresh schedule_poll
  service_request_refresh s w =
      let r = request_refresh d s.state w in
      let s' = record s { state = r.1 } in
      if not r.0.coalesced
      then (let p = schedule_poll s' r.2 (pos 0) in (r.0, p.0, p.1))
      else (r.0, s', r.2)

  unfoldable pub service_apply_run_event : Service → W → RunEvent → Service × W
  unfolding apply_run_event sync_retry_timers
  service_apply_run_event s w event =
      let r = apply_run_event d s.state w event in sync_retry_timers (record s { state = r.0 }) r.1

  unfoldable pub handle_poll_tick : Service → W → ℕ → Service × W
  unfolding begin_poll stop_if_set arm_cycle
  handle_poll_tick s w nonce =
      if s.closed
      then (s, w)
      else let b = begin_poll s.state nonce in
        if not b.1
        then (s, w)
        else (arm_cycle (stop_if_set (record s { state = b.0 }) s.poll_cycle_timer) nonce, w)

  unfoldable pub list_and_process :
      SchedulerState → Fallible (List WorkItem) Text × W → SchedulerState × W
  unfolding process_candidates
  list_and_process s (err e, w) = (s, w)
  list_and_process s (ok candidates, w) = process_candidates d s w candidates

  -- what a poll does to the scheduler
  unfoldable pub poll_state : SchedulerState → W → SchedulerState × W
  unfolding reconcile_stalled reconcile_running list_and_process
  poll_state s w =
      let r1 = reconcile_stalled d s w in
      let r2 = reconcile_running d r1.0 r1.1 in
      elim d.list_candidates [ none ↦ r2 | some list ↦ list_and_process r2.0 (list r2.1) ]

  unfoldable pub handle_poll_cycle : Service → W → ℕ → Service × W
  unfolding poll_state sync_retry_timers finish_poll schedule_poll
  handle_poll_cycle s w nonce =
      if s.closed || (not s.state.checking || not (nonce == s.state.poll_nonce))
      then (s, w)
      else let r = poll_state s.state w in
        let synced = sync_retry_timers (record s { state = r.0 }) r.1 in
        let f = finish_poll d synced.0.state synced.1 in
        let s' = record synced.0 { state = f.0 } in schedule_poll s' f.1 s'.state.interval

  unfoldable pub handle_retry_tick : Service → W → Text → ℕ → Service × W
  unfolding handle_due_retry sync_retry_timers
  handle_retry_tick s w item_id nonce =
      if s.closed
      then (s, w)
      else let fired : Bool = elim (lookup item_id s.retry_timers) [
        | none ↦ false
        | some current ↦ current.nonce == nonce
      ] in
        let timers = if fired then delete item_id s.retry_timers else s.retry_timers in
        let r = handle_due_retry d s.state w item_id nonce in
        sync_retry_timers (record s { state = r.0; retry_timers = timers }) r.1

  unfoldable pub close : Service → W → Service × W
  unfolding stop_if_set close_loop
  close s w =
      let s1 = stop_if_set (record s { closed = true }) s.poll_timer in
      let s2 = stop_if_set s1 s.poll_cycle_timer in
      let (order, w') = d.range (keys s2.retry_timers) w in (close_loop s2 order, w')

  -- newService, once the dependencies are completed by `with_hosts`
  unfoldable pub new_service : Settings → ℤ → W → Service × W
  unfolding bare_service schedule_poll
  new_service settings transition_delay w =
      schedule_poll (bare_service settings transition_delay) w (pos 0)

-- The default for a missing host selection, by the settings.
unfoldable pub with_hosts : {W : Type 0} → Settings → Deps W → Deps W
with_hosts settings d = elim d.host_selection [
  | some selection ↦ d
  | none ↦ elim d.admit_run [
    | some admit ↦ d
    | none ↦ record d {
      host_selection = some (record {
        hosts = settings.worker.ssh_hosts;
        max_per_host = settings.worker.max_concurrent_agents_per_host;
      });
    }
  ]
]
