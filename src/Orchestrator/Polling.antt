-- ===== src/Orchestrator/Polling.antt =====
-- internal/orchestrator/state.go: the poll's time, its nonce, and a refresh on request.
pub mod Laws
use go_symphony.Prelude.{
  ℕ, ◌+◌, ◌%◌, Bool, true, false, not, Option, none, some, ◌==◌, if◌then◌else◌,
}
use go_symphony.Prelude.Int.{ℤ, ltb_ℤ, ◌+ℤ◌}
use go_symphony.Orchestrator.State.{Deps, RefreshResult, SchedulerState, next_nonce}

unfoldable pub schedule_poll_at : SchedulerState → ℤ → SchedulerState
schedule_poll_at s at = record s { poll_nonce = next_nonce s.poll_nonce; next_poll_at = some at }

unfoldable pub begin_poll : SchedulerState → ℕ → SchedulerState × Bool
begin_poll s nonce =
    if not (nonce == s.poll_nonce)
    then (s, false)
    else (record s { checking = true; next_poll_at = none }, true)

-- `s.nextPollAt != nil && !s.nextPollAt.After(now)`
abbrev pub is_due : Option ℤ → ℤ → Bool
is_due none now = false
is_due (some at) now = not (ltb_ℤ now at)

module _ {W : Type 0} (d : Deps W) where
  unfoldable pub finish_poll : SchedulerState → W → SchedulerState × W
  finish_poll s w =
      let (now, w') = d.now w in
      (
        record s {
          next_poll_at = some (now +ℤ s.interval);
          checking = false;
          poll_nonce = next_nonce s.poll_nonce;
        },
        w',
      )

  unfoldable pub request_refresh : SchedulerState → W → RefreshResult × SchedulerState × W
  unfolding schedule_poll_at
  request_refresh s w =
      let (now, w') = d.now w in
      if s.checking
      then (record { queued = true; coalesced = true }, s, w')
      else if is_due s.next_poll_at now
      then (record { queued = true; coalesced = true }, s, w')
      else (record { queued = true; coalesced = false }, schedule_poll_at s now, w')
