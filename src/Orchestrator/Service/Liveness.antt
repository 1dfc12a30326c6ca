-- ===== src/Orchestrator/Service/Liveness.antt =====
-- internal/orchestrator/service.go: no step of an open service loses the next poll or a retry.
use go_symphony.Prelude.{
  ℕ, ◌≡◌, refl, ap, ◌∙◌, ◌⊎◌, inl, inr, Bool, true, false, not, ◌||◌, ◌==◌, none, some, List, [],
  ◌∷◌, arith, if◌then◌else◌, Bool-cases, Option-cases,
}
use go_symphony.Prelude.Int.{ℤ, pos}
use go_symphony.Prelude.Text.{Text}
use go_symphony.Prelude.Map.{Map, lookup, delete, keys}
use go_symphony.Config.Settings.{Settings}
use go_symphony.Domain.{RunEvent}
use go_symphony.Orchestrator.State.{Deps, SchedulerState}
use go_symphony.Orchestrator.Polling.{begin_poll, finish_poll, request_refresh, schedule_poll_at}
use go_symphony.Orchestrator.Events.{apply_run_event}
use go_symphony.Orchestrator.Retry.{handle_due_retry}
use go_symphony.Orchestrator.Invariant.Dispatch.{IsSound}
use go_symphony.Orchestrator.Invariant.Polling.{apply_run_event-SamePoll, handle_due_retry-SamePoll}
use go_symphony.Orchestrator.Service.{
  Callback, poll_tick, poll_cycle, retry_tick, Timer, ScheduledRetry, Service, same_callback,
  without_timer, stop_timer, stop_if_set, arm_cycle, schedule_poll, sync_retry_timers,
  service_request_refresh, service_apply_run_event, handle_poll_tick, poll_state, handle_poll_cycle,
  handle_retry_tick, close, bare_service, new_service,
}
use go_symphony.Orchestrator.Service.Runs.{
  Action, refreshes, closes, reports, fires, call, perform, run,
}
use go_symphony.Orchestrator.Service.Frames.{
  stop_if_set-SameRest, close_loop-SameRest, sync_retry_timers-SameRest,
}
use go_symphony.Orchestrator.Service.Pending.{
  has_callback, has_callback-without, is_retry_tick, RetriesFit, RetriesFit-fired, RetriesFit-stale,
  retry_other,
}
use go_symphony.Orchestrator.Service.Alive.{
  awaited, IsAlive, IsReady, stop_if_set-IsReady, arm_cycle-IsAlive, IsAlive→IsReady, awaited-poll,
  awaited-same, fired-IsAlive, fired-IsReady, schedule_poll-IsAlive, sync_retry_timers-IsReady,
  sync_retry_timers-IsAlive,
}

tick_other :
    (s : SchedulerState) (n : ℕ)
    → (n == s.poll_nonce) ≡ false
    → same_callback (poll_tick n) (awaited s) ≡ false
unfolding awaited same_callback
tick_other s n h = ground arith

cycle_other :
    (s : SchedulerState) (n : ℕ)
    → (not s.checking || not (n == s.poll_nonce)) ≡ true
    → same_callback (poll_cycle n) (awaited s) ≡ false
unfolding awaited same_callback
cycle_other s n h = ground arith

-- A ready service stays so when only the poll's fields of its scheduler change.
begun-IsReady :
    (s : Service) (n : ℕ) → IsReady s → IsReady (record s { state = (begin_poll s.state n).0 })
unfolding begin_poll
begun-IsReady s n h = record {
  poll = h.poll;
  cycle = h.cycle;
  retries = h.retries;
  armed = λ k. let a = h.armed k in ground (arith, a);
}

begun_cycle-IsAlive :
    (s : Service) (n : ℕ)
    → n ≡ s.state.poll_nonce
    → IsReady s
    → IsAlive (
        arm_cycle
          (stop_if_set (record s { state = (begin_poll s.state n).0 }) s.poll_cycle_timer)
          n)
begun_cycle-IsAlive s n now h =
    let s1 = record s { state = (begin_poll s.state n).0 } in
    let same = (stop_if_set-SameRest s1 s.poll_cycle_timer).state_same in
    arm_cycle-IsAlive (stop_if_set s1 s.poll_cycle_timer) n
      (ap (λ (x : SchedulerState). x.checking) same ∙ (unfold begin_poll in ground arith))
      (ap (λ (x : SchedulerState). x.poll_nonce) same ∙ (unfold begin_poll in ground arith))
      (stop_if_set-IsReady s1 s.poll_cycle_timer h.cycle (begun-IsReady s n h))

module _ {W : Type 0} (d : Deps W) (sound : IsSound d) (s : Service) (is_open : s.closed ≡ false)
    (h : IsAlive s) where
  handle_poll_tick-IsAlive :
      (w : W) (t : Timer) (n : ℕ)
      → t.callback ≡ poll_tick n
      → IsAlive (handle_poll_tick d (stop_timer s t) w n).0
  unfolding handle_poll_tick stop_timer
  handle_poll_tick-IsAlive w t n made =
      let poll = ap is_retry_tick made in
      elim (Bool-cases (n == s.state.poll_nonce)) [
        | inl now ↦ ground (
          arith,
          begun_cycle-IsAlive (stop_timer s t) n (ground arith) (fired-IsReady s t poll h),
        )
        | inr stale ↦
            let other =
              ap (λ (c : Callback). same_callback c (awaited s.state)) made
              ∙ tick_other s.state n stale in
            ground (arith, fired-IsAlive s t poll other h)
      ]

  handle_poll_cycle-IsAlive :
      (w : W) (t : Timer) (n : ℕ)
      → t.callback ≡ poll_cycle n
      → IsAlive (handle_poll_cycle d (stop_timer s t) w n).0
  unfolding handle_poll_cycle stop_timer finish_poll
  handle_poll_cycle-IsAlive w t n made =
      let poll = ap is_retry_tick made in
      let s0 = stop_timer s t in
      elim (Bool-cases (not s.state.checking || not (n == s.state.poll_nonce))) [
        | inl skipped ↦
            let other =
              ap (λ (c : Callback). same_callback c (awaited s.state)) made
              ∙ cycle_other s.state n skipped in
            ground (arith, fired-IsAlive s t poll other h)
        | inr on ↦
            let r = poll_state d s.state w in
            let s1 = record s0 { state = r.0 } in
            let ready = fired-IsReady s t poll h in
            let synced = sync_retry_timers d s1 r.1 in
            let f = finish_poll d synced.0.state synced.1 in
            let s2 = record synced.0 { state = f.0 } in
            let fit = sync_retry_timers-IsReady d sound s1 r.1 h.poll h.cycle ready.retries in
            let same = sync_retry_timers-SameRest d s1 r.1 in
            ground (
              arith,
              schedule_poll-IsAlive d sound s2 f.1 f.0.interval (same.closed_same ∙ is_open) refl
                  (record {
                    poll = fit.poll;
                    cycle = fit.cycle;
                    retries = fit.retries;
                    armed = fit.armed;
                  }),
            )
      ]

  -- The map of the retry timers after a retry's timer fired.
  fired_timers : Text → ℕ → Map ScheduledRetry
  fired_timers id n =
      let fired : Bool = elim (lookup id s.retry_timers) [
        | none ↦ false
        | some current ↦ current.nonce == n
      ] in
      if fired then delete id s.retry_timers else s.retry_timers

  fired_timers-RetriesFit :
      (t : Timer) (id : Text) (n : ℕ)
      → t.callback ≡ retry_tick id n
      → RetriesFit (fired_timers id n) (without_timer t s.pending)
  unfolding fired_timers
  fired_timers-RetriesFit t id n made = elim (Option-cases (lookup id s.retry_timers)) [
    | inl absent ↦
        rw (absent, fired_timers)
          (RetriesFit-stale s.retry_timers s.pending h.retries id t n made (λ sr found. cc))
    | inr (current, found) ↦ elim (Bool-cases (current.nonce == n)) [
      | inl hit ↦
          rw (found, hit, fired_timers)
            (RetriesFit-fired s.retry_timers s.pending h.retries id t n made)
      | inr miss ↦
          rw (found, miss, fired_timers)
            (RetriesFit-stale s.retry_timers s.pending h.retries id t n made
              (λ sr again. ground arith))
    ]
  ]

  handle_retry_tick-IsAlive :
      (w : W) (t : Timer) (id : Text) (n : ℕ)
      → t.callback ≡ retry_tick id n
      → IsAlive (handle_retry_tick d (stop_timer s t) w id n).0
  unfolding handle_retry_tick stop_timer fired_timers
  handle_retry_tick-IsAlive w t id n made =
      let s0 = stop_timer s t in
      let r = handle_due_retry d s.state w id n in
      let s1 = record s0 { state = r.0; retry_timers = fired_timers id n } in
      let same = awaited-same s.state r.0 (handle_due_retry-SamePoll d s.state w id n) in
      let pending =
        ap (λ (c : Callback). has_callback c (without_timer t s.pending)) same
        ∙ has_callback-without (awaited s.state) t s.pending
            (retry_other t.callback (awaited s.state) id n made (awaited-poll s.state))
        ∙ h.awaits in
      ground (
        arith,
        sync_retry_timers-IsAlive d sound s1 r.1 h.poll h.cycle
            (fired_timers-RetriesFit t id n made) pending,
      )

  -- Whatever timer fires, in time or late.
  call-IsAlive :
      (w : W) (t : Timer) (c : Callback) → t.callback ≡ c → IsAlive (call d c (stop_timer s t) w).0
  unfolding call
  call-IsAlive w t (poll_tick n) made = handle_poll_tick-IsAlive w t n made
  call-IsAlive w t (poll_cycle n) made = handle_poll_cycle-IsAlive w t n made
  call-IsAlive w t (retry_tick id n) made = handle_retry_tick-IsAlive w t id n made

  service_apply_run_event-IsAlive :
      (w : W) (event : RunEvent) → IsAlive (service_apply_run_event d s w event).0
  unfolding service_apply_run_event
  service_apply_run_event-IsAlive w event =
      let r = apply_run_event d s.state w event in
      let same = awaited-same s.state r.0 (apply_run_event-SamePoll d s.state w event) in
      sync_retry_timers-IsAlive d sound (record s { state = r.0 }) r.1 h.poll h.cycle h.retries
        (ap (λ (c : Callback). has_callback c s.pending) same ∙ h.awaits)

  service_request_refresh-IsAlive : (w : W) → IsAlive (service_request_refresh d s w).1
  unfolding service_request_refresh request_refresh schedule_poll_at
  service_request_refresh-IsAlive w =
      let r = request_refresh d s.state w in
      let ready = IsAlive→IsReady s h in
      elim (Bool-cases s.state.checking) [
        | inl busy ↦ ground (arith, h)
        | inr idle ↦ ground (
          arith,
          h,
          schedule_poll-IsAlive d sound (record s { state = r.1 }) r.2 (pos 0) is_open
              (ground arith)
              (record {
                poll = h.poll;
                cycle = h.cycle;
                retries = h.retries;
                armed = λ k. let a = h.armed k in ground (arith, a);
              }),
        )
      ]

module _ {W : Type 0} (d : Deps W) where
  close-closed : (s : Service) (w : W) → (close d s w).0.closed ≡ true
  unfolding close
  close-closed s w =
      let s0 = record s { closed = true } in
      let s1 = stop_if_set s0 s.poll_timer in
      let s2 = stop_if_set s1 s.poll_cycle_timer in
      (close_loop-SameRest s2 (d.range (keys s2.retry_timers) w).0).closed_same
      ∙ (stop_if_set-SameRest s1 s.poll_cycle_timer).closed_same
      ∙ (stop_if_set-SameRest s0 s.poll_timer).closed_same

  call-closed :
      (c : Callback) (s : Service) (w : W) → s.closed ≡ true → (call d c s w).0.closed ≡ true
  unfolding call handle_poll_tick handle_poll_cycle handle_retry_tick
  call-closed (poll_tick n) s w shut = ground arith
  call-closed (poll_cycle n) s w shut = ground arith
  call-closed (retry_tick id n) s w shut = ground arith

  -- A closed service stays closed.
  perform-closed :
      (a : Action) (s : Service) (w : W) → s.closed ≡ true → (perform d a s w).0.closed ≡ true
  unfolding perform stop_timer service_request_refresh service_apply_run_event schedule_poll
  perform-closed refreshes s w shut = ground arith
  perform-closed closes s w shut = close-closed s w
  perform-closed (reports event) s w shut =
      let r = apply_run_event d s.state w event in
      (sync_retry_timers-SameRest d (record s { state = r.0 }) r.1).closed_same ∙ shut
  perform-closed (fires t) s w shut = call-closed t.callback (stop_timer s t) w shut

-- Closed for good, or alive.
abbrev pub IsServing : Service → Type 0
IsServing s = (s.closed ≡ true) ⊎ IsAlive s

module _ {W : Type 0} (d : Deps W) (sound : IsSound d) where
  perform-IsAlive :
      (a : Action) (s : Service) (w : W)
      → s.closed ≡ false
      → IsAlive s
      → IsServing (perform d a s w).0
  unfolding perform
  perform-IsAlive refreshes s w is_open h =
      inr (service_request_refresh-IsAlive d sound s is_open h w)
  perform-IsAlive closes s w is_open h = inl (close-closed d s w)
  perform-IsAlive (reports event) s w is_open h =
      inr (service_apply_run_event-IsAlive d sound s is_open h w event)
  perform-IsAlive (fires t) s w is_open h =
      inr (call-IsAlive d sound s is_open h w t t.callback refl)

  perform-IsServing :
      (a : Action) (s : Service) (w : W) → IsServing s → IsServing (perform d a s w).0
  perform-IsServing a s w (inl shut) = inl (perform-closed d a s w shut)
  perform-IsServing a s w (inr h) = elim (Bool-cases s.closed) [
    | inl shut ↦ inl (perform-closed d a s w shut)
    | inr is_open ↦ perform-IsAlive a s w is_open h
  ]

  run-IsServing :
      (actions : List Action) (s : Service) (w : W) → IsServing s → IsServing (run d actions s w).0
  unfolding run
  run-IsServing [] s w h = h
  run-IsServing (a ∷ actions) s w h =
      let r = perform d a s w in run-IsServing actions r.0 r.1 (perform-IsServing a s w h)

  bare_service-IsReady : (settings : Settings) (delay : ℤ) → IsReady (bare_service settings delay)
  unfolding bare_service lookup
  bare_service-IsReady settings delay = record {
    poll = tt;
    cycle = tt;
    retries = λ k sr e. cc;
    armed = λ k e found. cc;
  }

  -- A new service, whatever happens to it in whatever order, timers that fire late included: unless it
  -- was closed, the timer of the next poll, or of the work of the poll under way, is pending with the
  -- current nonce, and every retry that waits has a pending timer with its own nonce.
  pub run-new_service-IsServing :
      (settings : Settings) (delay : ℤ) (w : W) (actions : List Action)
      → let started = new_service d settings delay w in
        IsServing (run d actions started.0 started.1).0
  unfolding new_service
  run-new_service-IsServing settings delay w actions =
      let started = new_service d settings delay w in
      run-IsServing actions started.0 started.1 (
        inr (
          schedule_poll-IsAlive d sound (bare_service settings delay) w (pos 0)
            (unfold bare_service in refl) (unfold bare_service in refl)
            (bare_service-IsReady settings delay)))
