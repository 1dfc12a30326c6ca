-- ===== src/Orchestrator/Service/Alive.antt =====
-- internal/orchestrator/service.go: until the service is closed, a poll is on its way and every
-- waiting retry has a timer.
use go_symphony.Prelude.{
  ℕ, ◌≡◌, refl, ap, ◌∙◌, true, false, Option, none, some, arith, if◌then◌else◌,
}
use go_symphony.Prelude.Int.{ℤ, ◌+ℤ◌}
use go_symphony.Prelude.Text.{Text}
use go_symphony.Orchestrator.State.{Deps, SchedulerState, next_nonce}
use go_symphony.Orchestrator.Polling.{schedule_poll_at}
use go_symphony.Orchestrator.Invariant.Dispatch.{IsSound}
use go_symphony.Orchestrator.Invariant.Polling.{SamePoll}
use go_symphony.Orchestrator.Service.{
  Callback, poll_tick, poll_cycle, Timer, Service, same_callback, stop_timer, stop_if_set,
  new_timer, arm_poll, arm_cycle, schedule_poll, sync_retry_timers,
}
use go_symphony.Orchestrator.Service.Frames.{stop_if_set-SameRest, sync_retry_timers-SameRest}
use go_symphony.Orchestrator.Service.Pending.{
  has_callback, has_callback-without, same_callback_refl, is_retry_tick, IsPollTimer, RetriesFit,
  RetriesFit-stop, RetriesFit-more,
}
use go_symphony.Orchestrator.Service.Sync.{
  IsArmed, sync_retry_timers-Holds, sync_retry_timers-IsArmed,
}

-- The call that the service waits for: the poll's, or the start of the next.
unfoldable pub awaited : SchedulerState → Callback
awaited s = if s.checking then poll_cycle s.poll_nonce else poll_tick s.poll_nonce

-- The timers of the polls are set for polls, each retry timer is pending and makes its retry's call,
-- the awaited poll is pending, and every waiting retry has a timer with its nonce.
pub record IsAlive (s : Service) : Type 0 where
  pub poll : IsPollTimer s.poll_timer
  pub cycle : IsPollTimer s.poll_cycle_timer
  pub retries : RetriesFit s.retry_timers s.pending
  pub awaits : has_callback (awaited s.state) s.pending ≡ true
  pub armed : (k : Text) → IsArmed s k

-- The same, but for the awaited poll.
pub record IsReady (s : Service) : Type 0 where
  pub poll : IsPollTimer s.poll_timer
  pub cycle : IsPollTimer s.poll_cycle_timer
  pub retries : RetriesFit s.retry_timers s.pending
  pub armed : (k : Text) → IsArmed s k

pub stop_if_set-IsReady :
    (s : Service) (t : Option Timer) → IsPollTimer t → IsReady s → IsReady (stop_if_set s t)
unfolding stop_if_set
stop_if_set-IsReady s none poll h = h
stop_if_set-IsReady s (some t) poll h = record {
  poll = h.poll;
  cycle = h.cycle;
  retries = RetriesFit-stop s.retry_timers s.pending h.retries t poll;
  armed = h.armed;
}

-- A poll's timer is what is awaited while no poll is under way.
pub arm_poll-IsAlive :
    (s : Service) (at delay : ℤ)
    → s.state.checking ≡ false
    → IsReady s
    → IsAlive (arm_poll s at delay)
unfolding arm_poll awaited has_callback
arm_poll-IsAlive s at delay idle h = record {
  poll = refl;
  cycle = h.cycle;
  retries =
      let s' = record s { state = schedule_poll_at s.state at } in
      RetriesFit-more s.retry_timers s.pending h.retries
        (new_timer s' delay (poll_tick s'.state.poll_nonce));
  awaits = rw idle (ground (arith, same_callback_refl (poll_tick (next_nonce s.state.poll_nonce))));
  armed = h.armed;
}

-- The timer of the poll's work is what is awaited while a poll is under way.
pub arm_cycle-IsAlive :
    (s : Service) (nonce : ℕ)
    → s.state.checking ≡ true
    → s.state.poll_nonce ≡ nonce
    → IsReady s
    → IsAlive (arm_cycle s nonce)
unfolding arm_cycle awaited has_callback
arm_cycle-IsAlive s nonce busy same h = record {
  poll = h.poll;
  cycle = refl;
  retries =
      RetriesFit-more s.retry_timers s.pending h.retries
        (new_timer s s.poll_transition_delay (poll_cycle nonce));
  awaits = rw (busy, same) (ground (arith, same_callback_refl (poll_cycle nonce)));
  armed = h.armed;
}

pub IsAlive→IsReady : (s : Service) → IsAlive s → IsReady s
IsAlive→IsReady s h = record {
  poll = h.poll;
  cycle = h.cycle;
  retries = h.retries;
  armed = h.armed;
}

pub awaited-poll : (s : SchedulerState) → is_retry_tick (awaited s) ≡ false
unfolding awaited
awaited-poll s = ground arith

pub awaited-same : (s t : SchedulerState) → SamePoll s t → awaited t ≡ awaited s
unfolding awaited
awaited-same s t h = ground arith

-- What becomes of the awaited call when a timer fires that makes another.
pub fired-IsAlive :
    (s : Service) (t : Timer)
    → is_retry_tick t.callback ≡ false
    → same_callback t.callback (awaited s.state) ≡ false
    → IsAlive s
    → IsAlive (stop_timer s t)
unfolding stop_timer
fired-IsAlive s t poll other h = record {
  poll = h.poll;
  cycle = h.cycle;
  retries = RetriesFit-stop s.retry_timers s.pending h.retries t poll;
  awaits = has_callback-without (awaited s.state) t s.pending other ∙ h.awaits;
  armed = h.armed;
}

pub fired-IsReady :
    (s : Service) (t : Timer)
    → is_retry_tick t.callback ≡ false
    → IsAlive s
    → IsReady (stop_timer s t)
unfolding stop_timer
fired-IsReady s t poll h = record {
  poll = h.poll;
  cycle = h.cycle;
  retries = RetriesFit-stop s.retry_timers s.pending h.retries t poll;
  armed = h.armed;
}

module _ {W : Type 0} (d : Deps W) (sound : IsSound d) where
  pub schedule_poll-IsAlive :
      (s : Service) (w : W) (delay : ℤ)
      → s.closed ≡ false
      → s.state.checking ≡ false
      → IsReady s
      → IsAlive (schedule_poll d s w delay).0
  unfolding schedule_poll
  schedule_poll-IsAlive s w delay alive idle h =
      let same = stop_if_set-SameRest s s.poll_timer in
      ground (
        arith,
        arm_poll-IsAlive (stop_if_set s s.poll_timer) ((d.now w).0 +ℤ delay) delay
            (ap (λ (x : SchedulerState). x.checking) same.state_same ∙ idle)
            (stop_if_set-IsReady s s.poll_timer h.poll h),
      )

  pub sync_retry_timers-IsReady :
      (s : Service) (w : W)
      → IsPollTimer s.poll_timer
      → IsPollTimer s.poll_cycle_timer
      → RetriesFit s.retry_timers s.pending
      → IsReady (sync_retry_timers d s w).0
  sync_retry_timers-IsReady s w poll cycle fit =
      let same = sync_retry_timers-SameRest d s w in
      record {
        poll = rw same.poll_timer_same poll;
        cycle = rw same.poll_cycle_timer_same cycle;
        retries = (sync_retry_timers-Holds (poll_tick 0) refl _ d s w (fit, refl)).0;
        armed = sync_retry_timers-IsArmed d sound s w;
      }

  pub sync_retry_timers-IsAlive :
      (s : Service) (w : W)
      → IsPollTimer s.poll_timer
      → IsPollTimer s.poll_cycle_timer
      → RetriesFit s.retry_timers s.pending
      → has_callback (awaited s.state) s.pending ≡ true
      → IsAlive (sync_retry_timers d s w).0
  sync_retry_timers-IsAlive s w poll cycle fit pending =
      let same = sync_retry_timers-SameRest d s w in
      let h = sync_retry_timers-IsReady s w poll cycle fit in
      record {
        poll = h.poll;
        cycle = h.cycle;
        retries = h.retries;
        awaits =
            rw same.state_same
              (sync_retry_timers-Holds (awaited s.state) (awaited-poll s.state) true d s w
                (fit, pending)).1;
        armed = h.armed;
      }
