-- ===== src/Orchestrator/Service/Frames.antt =====
-- What syncRetryTimersLocked of internal/orchestrator/service.go leaves alone.
use go_symphony.Prelude.{◌≡◌, refl, ◌∙◌, Option, none, some, List, [], ◌∷◌, arith}
use go_symphony.Prelude.Int.{ℤ}
use go_symphony.Prelude.Text.{Text}
use go_symphony.Prelude.Map.{lookup, keys}
use go_symphony.Orchestrator.State.{Deps, RetryEntry}
use go_symphony.Orchestrator.Service.{
  Timer, ScheduledRetry, Service, stop_if_set, drop_stale, drop_stale_loop, arm_retry, arm_loop,
  close_retry, close_loop, sync_retry_timers,
}

-- The fields other than the timers are those of `s`.
pub record SameRest (s t : Service) : Type 0 where
  pub state_same : t.state ≡ s.state
  pub closed_same : t.closed ≡ s.closed
  pub poll_timer_same : t.poll_timer ≡ s.poll_timer
  pub poll_cycle_timer_same : t.poll_cycle_timer ≡ s.poll_cycle_timer

SameRest-refl : (s : Service) → SameRest s s
SameRest-refl s = record {
  state_same = refl;
  closed_same = refl;
  poll_timer_same = refl;
  poll_cycle_timer_same = refl;
}

SameRest-trans : {s t u : Service} → SameRest s t → SameRest t u → SameRest s u
SameRest-trans a b = record {
  state_same = b.state_same ∙ a.state_same;
  closed_same = b.closed_same ∙ a.closed_same;
  poll_timer_same = b.poll_timer_same ∙ a.poll_timer_same;
  poll_cycle_timer_same = b.poll_cycle_timer_same ∙ a.poll_cycle_timer_same;
}

pub stop_if_set-SameRest : (s : Service) (t : Option Timer) → SameRest s (stop_if_set s t)
unfolding stop_if_set
stop_if_set-SameRest s none = ground arith
stop_if_set-SameRest s (some t) = ground arith

drop_stale-SameRest :
    (s : Service) (id : Text) (e : Option ScheduledRetry) → SameRest s (drop_stale s id e)
unfolding drop_stale
drop_stale-SameRest s id none = ground arith
drop_stale-SameRest s id (some e) = ground arith

pub drop_stale_loop-SameRest : (s : Service) (ids : List Text) → SameRest s (drop_stale_loop s ids)
unfolding drop_stale_loop
drop_stale_loop-SameRest s [] = SameRest-refl s
drop_stale_loop-SameRest s (id ∷ ids) =
    let e = lookup id s.retry_timers in
    SameRest-trans (drop_stale-SameRest s id e) (drop_stale_loop-SameRest (drop_stale s id e) ids)

pub arm_retry-SameRest :
    (s : Service) (now : ℤ) (id : Text) (e : Option RetryEntry) → SameRest s (arm_retry s now id e)
unfolding arm_retry
arm_retry-SameRest s now id none = ground arith
arm_retry-SameRest s now id (some e) = ground arith

arm_loop-SameRest : (s : Service) (now : ℤ) (ids : List Text) → SameRest s (arm_loop s now ids)
unfolding arm_loop
arm_loop-SameRest s now [] = SameRest-refl s
arm_loop-SameRest s now (id ∷ ids) =
    let e = lookup id s.state.retrying in
    SameRest-trans (arm_retry-SameRest s now id e)
      (arm_loop-SameRest (arm_retry s now id e) now ids)

close_retry-SameRest :
    (s : Service) (id : Text) (e : Option ScheduledRetry) → SameRest s (close_retry s id e)
unfolding close_retry
close_retry-SameRest s id none = ground arith
close_retry-SameRest s id (some e) = ground arith

pub close_loop-SameRest : (s : Service) (ids : List Text) → SameRest s (close_loop s ids)
unfolding close_loop
close_loop-SameRest s [] = SameRest-refl s
close_loop-SameRest s (id ∷ ids) =
    let e = lookup id s.retry_timers in
    SameRest-trans (close_retry-SameRest s id e) (close_loop-SameRest (close_retry s id e) ids)

pub sync_retry_timers-SameRest :
    {W : Type 0} (d : Deps W) (s : Service) (w : W) → SameRest s (sync_retry_timers d s w).0
unfolding sync_retry_timers
sync_retry_timers-SameRest d s w =
    let scheduled = d.range (keys s.retry_timers) w in
    let s1 = drop_stale_loop s scheduled.0 in
    let n = d.now scheduled.1 in
    let due = d.range (keys s1.state.retrying) n.1 in
    SameRest-trans (drop_stale_loop-SameRest s scheduled.0) (arm_loop-SameRest s1 n.0 due.0)
