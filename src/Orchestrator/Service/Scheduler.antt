-- ===== src/Orchestrator/Service/Scheduler.antt =====
-- The methods of internal/orchestrator/service.go keep the invariant of the scheduler's state.
use go_symphony.Prelude.{
  ℕ, ◌≡◌, refl, ◌∙◌, inl, inr, true, not, ◌||◌, ◌==◌, none, some, List, [], ◌∷◌, arith, Fallible,
  ok, err, Bool-cases,
}
use go_symphony.Prelude.Int.{ℤ, pos}
use go_symphony.Prelude.Text.{Text}
use go_symphony.Prelude.Map.{lookup, keys}
use go_symphony.Config.Settings.{Settings}
use go_symphony.Domain.{WorkItem}
use go_symphony.Orchestrator.State.{Deps, SchedulerState, new_scheduler_state}
use go_symphony.Orchestrator.Polling.{request_refresh, begin_poll, finish_poll}
use go_symphony.Orchestrator.Events.{apply_run_event}
use go_symphony.Orchestrator.Retry.{handle_due_retry}
use go_symphony.Orchestrator.Reconcile.{reconcile_stalled, reconcile_running}
use go_symphony.Orchestrator.Service.{
  Callback, poll_tick, poll_cycle, retry_tick, Service, stop_timer, stop_if_set, schedule_poll,
  sync_retry_timers, service_request_refresh, service_apply_run_event, handle_poll_tick,
  list_and_process, poll_state, handle_poll_cycle, handle_retry_tick, close, new_service,
  bare_service,
}
use go_symphony.Orchestrator.Service.Frames.{
  stop_if_set-SameRest, close_loop-SameRest, sync_retry_timers-SameRest,
}
use go_symphony.Orchestrator.Service.Runs.{
  Action, refreshes, closes, reports, fires, call, perform, run,
}
use go_symphony.Orchestrator.Invariant.Fits.{Inv, SameMaps, SameMaps-Inv}
use go_symphony.Orchestrator.Invariant.Dispatch.{IsSound, process_candidates-Inv}
use go_symphony.Orchestrator.Invariant.Events.{apply_run_event-Inv}
use go_symphony.Orchestrator.Invariant.Retry.{handle_due_retry-Inv}
use go_symphony.Orchestrator.Invariant.Reconcile.{reconcile_stalled-Inv, reconcile_running-Inv}

module _ {W : Type 0} (d : Deps W) where
  sync_retry_timers-Inv :
      (s : Service) (w : W) → Inv s.state → Inv (sync_retry_timers d s w).0.state
  sync_retry_timers-Inv s w v = rw (sync_retry_timers-SameRest d s w).state_same v

  schedule_poll-SameMaps :
      (s : Service) (w : W) (delay : ℤ) → SameMaps s.state (schedule_poll d s w delay).0.state
  unfolding schedule_poll
  schedule_poll-SameMaps s w delay = ground (arith, stop_if_set-SameRest s s.poll_timer)

  schedule_poll-Inv :
      (s : Service) (w : W) (delay : ℤ) → Inv s.state → Inv (schedule_poll d s w delay).0.state
  schedule_poll-Inv s w delay = SameMaps-Inv (schedule_poll-SameMaps s w delay)

  request_refresh-SameMaps : (s : SchedulerState) (w : W) → SameMaps s (request_refresh d s w).1
  unfolding request_refresh
  request_refresh-SameMaps s w = ground arith

  service_request_refresh-Inv :
      (s : Service) (w : W) → Inv s.state → Inv (service_request_refresh d s w).1.state
  unfolding service_request_refresh
  service_request_refresh-Inv s w v =
      let r = request_refresh d s.state w in
      let u = SameMaps-Inv (request_refresh-SameMaps s.state w) v in
      elim (Bool-cases r.0.coalesced) [
        | inl yes_coalesced ↦ rw yes_coalesced u
        | inr fresh ↦ rw fresh (schedule_poll-Inv (record s { state = r.1 }) r.2 (pos 0) u)
      ]

  handle_poll_tick-SameMaps :
      (s : Service) (w : W) (nonce : ℕ) → SameMaps s.state (handle_poll_tick d s w nonce).0.state
  unfolding handle_poll_tick
  handle_poll_tick-SameMaps s w nonce = ground (
    arith,
    stop_if_set-SameRest (record s { state = (begin_poll s.state nonce).0 }) s.poll_cycle_timer,
  )

  close-state : (s : Service) (w : W) → (close d s w).0.state ≡ s.state
  unfolding close
  close-state s w =
      let s0 = record s { closed = true } in
      let s1 = stop_if_set s0 s.poll_timer in
      let s2 = stop_if_set s1 s.poll_cycle_timer in
      (close_loop-SameRest s2 (d.range (keys s2.retry_timers) w).0).state_same
      ∙ (stop_if_set-SameRest s1 s.poll_cycle_timer).state_same
      ∙ (stop_if_set-SameRest s0 s.poll_timer).state_same

  finish_poll-SameMaps : (s : SchedulerState) (w : W) → SameMaps s (finish_poll d s w).0
  unfolding finish_poll
  finish_poll-SameMaps s w = (refl, refl, refl, refl)

  module _ (sound : IsSound d) where
    list_and_process-Inv :
        (s : SchedulerState) (r : Fallible (List WorkItem) Text × W)
        → Inv s
        → Inv (list_and_process d s r).0
    unfolding list_and_process
    list_and_process-Inv s (err e, w) v = v
    list_and_process-Inv s (ok candidates, w) v = process_candidates-Inv d sound s w candidates v

    -- A whole poll keeps the invariant.
    pub poll_state-Inv : (s : SchedulerState) (w : W) → Inv s → Inv (poll_state d s w).0
    unfolding poll_state
    poll_state-Inv s w v =
        let r1 = reconcile_stalled d s w in
        let r2 = reconcile_running d r1.0 r1.1 in
        let u = reconcile_running-Inv d sound r1.0 r1.1 (reconcile_stalled-Inv d s w v) in
        elim d.list_candidates
          as (λ o.
            Inv
              (elim o as (λ x. SchedulerState × W) [
                | none ↦ r2
                | some list ↦ list_and_process d r2.0 (list r2.1)
              ]).0) [ none ↦ u | some list ↦ list_and_process-Inv r2.0 (list r2.1) u ]

    handle_poll_cycle-Inv :
        (s : Service) (w : W) (nonce : ℕ)
        → Inv s.state
        → Inv (handle_poll_cycle d s w nonce).0.state
    unfolding handle_poll_cycle
    handle_poll_cycle-Inv s w nonce v =
        elim (Bool-cases
          (s.closed || (not s.state.checking || not (nonce == s.state.poll_nonce)))) [
            | inl skipped ↦ rw skipped v
            | inr on ↦ rw on (
                let r = poll_state d s.state w in
                let synced = sync_retry_timers d (record s { state = r.0 }) r.1 in
                let f = finish_poll d synced.0.state synced.1 in
                schedule_poll-Inv (record synced.0 { state = f.0 }) f.1 f.0.interval
                  (SameMaps-Inv (finish_poll-SameMaps synced.0.state synced.1) (
                    sync_retry_timers-Inv (record s { state = r.0 }) r.1
                      (poll_state-Inv s.state w v))))
          ]

    handle_retry_tick-Inv :
        (s : Service) (w : W) (id : Text) (nonce : ℕ)
        → Inv s.state
        → Inv (handle_retry_tick d s w id nonce).0.state
    unfolding handle_retry_tick
    handle_retry_tick-Inv s w id nonce v = elim (Bool-cases s.closed) [
      | inl shut ↦ rw shut v
      | inr alive ↦ rw alive (
          let r = handle_due_retry d s.state w id nonce in
          sync_retry_timers-Inv _ r.1 (handle_due_retry-Inv d sound s.state w id nonce v))
    ]

    call-Inv : (c : Callback) (s : Service) (w : W) → Inv s.state → Inv (call d c s w).0.state
    unfolding call
    call-Inv (poll_tick nonce) s w = SameMaps-Inv (handle_poll_tick-SameMaps s w nonce)
    call-Inv (poll_cycle nonce) s w = handle_poll_cycle-Inv s w nonce
    call-Inv (retry_tick id nonce) s w = handle_retry_tick-Inv s w id nonce

    perform-Inv : (a : Action) (s : Service) (w : W) → Inv s.state → Inv (perform d a s w).0.state
    unfolding perform service_apply_run_event stop_timer
    perform-Inv refreshes s w v = service_request_refresh-Inv s w v
    perform-Inv closes s w v = rw (close-state s w) v
    perform-Inv (reports event) s w v =
        let r = apply_run_event d s.state w event in
        sync_retry_timers-Inv (record s { state = r.0 }) r.1
          (apply_run_event-Inv d s.state w event v)
    perform-Inv (fires timer) s w v = call-Inv timer.callback (stop_timer s timer) w v

    pub run-Inv :
        (actions : List Action) (s : Service) (w : W)
        → Inv s.state
        → Inv (run d actions s w).0.state
    unfolding run
    run-Inv [] s w v = v
    run-Inv (a ∷ actions) s w v =
        let r = perform d a s w in run-Inv actions r.0 r.1 (perform-Inv a s w v)

pub new_scheduler_state-Inv : (settings : Settings) → Inv (new_scheduler_state settings)
unfolding new_scheduler_state lookup
new_scheduler_state-Inv settings = record { fits = λ k. tt; bounded = λ h. ground arith }

-- A new service, whatever is asked of it in whatever order, whatever its runs report and whatever
-- timer fires: a running item is claimed, stored under its own id and waits for no retry; a waiting
-- retry names its item and an attempt of at least 1; and no more runs are started than a positive
-- limit allows.
pub run-new_service-Inv :
    {W : Type 0} (d : Deps W) (sound : IsSound d) (settings : Settings) (delay : ℤ) (w : W)
    (actions : List Action)
    → let started = new_service d settings delay w in
      Inv (run d actions started.0 started.1).0.state
unfolding new_service bare_service
run-new_service-Inv d sound settings delay w actions =
    let started = new_service d settings delay w in
    run-Inv d sound actions started.0 started.1 (
      schedule_poll-Inv d (bare_service settings delay) w (pos 0)
        (new_scheduler_state-Inv settings))
