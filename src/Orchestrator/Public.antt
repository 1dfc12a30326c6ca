-- ===== src/Orchestrator/Public.antt =====
-- internal/orchestrator/public.go: the service that the rest of the program holds. A nil *Service is
-- none; the conversions between the two packages' records keep every field, so they need no model.
use go_symphony.Prelude.{Bool, true, false, Option, none, some, if◌then◌else◌, Fallible, List}
use go_symphony.Prelude.Int.{ℤ, pos}
use go_symphony.Prelude.Text.{Text}
use go_symphony.Config.Settings.{Settings}
use go_symphony.Domain.{WorkItem, RunEvent, Snapshot}
use go_symphony.Orchestrator.State.{
  Deps, StartRunRequest, StartRunResult, StopRunRequest, RefreshResult,
}
use go_symphony.Orchestrator.Snapshot.{snapshot}
use go_symphony.Orchestrator.Service.{
  Service, new_service, with_hosts, service_request_refresh, service_apply_run_event, close,
}

-- What the caller gives, beside the clock, the order of the loops and the text of durations.
pub record Dependencies (W : Type 0) : Type 0 where
  pub list_candidates : Option (W → Fallible (List WorkItem) Text × W)
  pub refresh_items : Option (List Text → W → Fallible (List WorkItem) Text × W)
  pub start_run : Option (StartRunRequest → W → Fallible StartRunResult Text × W)
  pub stop_run : Option (StopRunRequest → W → Option Text × W)

pub record Handle : Type 0 where
  pub inner : Service
  pub closed : Bool

-- 20 milliseconds
abbrev pub default_poll_transition_delay : ℤ
default_poll_transition_delay = pos 20000000

module _ {W : Type 0} (now : W → ℤ × W) (range : List Text → W → List Text × W)
    (duration_text : ℤ → Text) (settings : Settings) (d : Dependencies W) where
  unfoldable pub inner_deps : Deps W
  unfolding with_hosts
  inner_deps = with_hosts settings (record {
    now = now;
    range = range;
    duration_text = duration_text;
    list_candidates = d.list_candidates;
    refresh_items = d.refresh_items;
    start_run = d.start_run;
    stop_run = d.stop_run;
    host_selection = none;
    admit_run = none;
  })

  unfoldable pub start : W → Handle × W
  unfolding new_service inner_deps
  start w =
      let (inner, w') = new_service inner_deps settings default_poll_transition_delay w in
      (record { inner = inner; closed = false }, w')

-- none for the zero Snapshot of a nil *Service
unfoldable pub public_snapshot : Option Handle → Option Snapshot
unfolding snapshot
public_snapshot none = none
public_snapshot (some h) = some (snapshot h.inner.state)

module _ {W : Type 0} (d : Deps W) where
  unfoldable pub public_request_refresh : Option Handle → W → RefreshResult × Option Handle × W
  unfolding service_request_refresh
  public_request_refresh none w = (record { queued = false; coalesced = false }, none, w)
  public_request_refresh (some h) w =
      let (result, inner, w') = service_request_refresh d h.inner w in
      (result, some (record h { inner = inner }), w')

  unfoldable pub public_apply_run_event : Option Handle → RunEvent → W → Option Handle × W
  unfolding service_apply_run_event
  public_apply_run_event none event w = (none, w)
  public_apply_run_event (some h) event w =
      let (inner, w') = service_apply_run_event d h.inner w event in
      (some (record h { inner = inner }), w')

  -- Close of the handle: the second call does nothing.
  unfoldable pub public_close : Option Handle → W → Option Handle × W
  unfolding close
  public_close none w = (none, w)
  public_close (some h) w =
      if h.closed
      then (some h, w)
      else let (inner, w') = close d h.inner w in
        (some (record { inner = inner; closed = true }), w')
