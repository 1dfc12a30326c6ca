-- ===== src/Orchestrator/Service/Runs.antt =====
-- internal/orchestrator/service.go: the steps that the service takes, in any order. A timer may fire
-- at any time, also one that was stopped when its call was already under way.
use go_symphony.Prelude.{List, [], ◌∷◌}
use go_symphony.Domain.{RunEvent}
use go_symphony.Orchestrator.State.{Deps}
use go_symphony.Orchestrator.Service.{
  Callback, poll_tick, poll_cycle, retry_tick, Timer, Service, stop_timer, service_request_refresh,
  service_apply_run_event, handle_poll_tick, handle_poll_cycle, handle_retry_tick, close,
}

pub data Action : Type 0 where
  refreshes closes : Action
  reports : RunEvent → Action
  fires : Timer → Action

module _ {W : Type 0} (d : Deps W) where
  unfoldable pub call : Callback → Service → W → Service × W
  call (poll_tick nonce) s w = handle_poll_tick d s w nonce
  call (poll_cycle nonce) s w = handle_poll_cycle d s w nonce
  call (retry_tick item_id nonce) s w = handle_retry_tick d s w item_id nonce

  unfoldable pub perform : Action → Service → W → Service × W
  unfolding call
  perform refreshes s w = let r = service_request_refresh d s w in (r.1, r.2)
  perform closes s w = close d s w
  perform (reports event) s w = service_apply_run_event d s w event
  perform (fires timer) s w = call timer.callback (stop_timer s timer) w

  unfoldable pub run : List Action → Service → W → Service × W
  unfolding perform
  run [] s w = (s, w)
  run (action ∷ actions) s w = let r = perform action s w in run actions r.0 r.1
