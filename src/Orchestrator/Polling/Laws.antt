-- ===== src/Orchestrator/Polling/Laws.antt =====
-- requestRefresh of internal/orchestrator/state.go: a refresh that is on its way is not asked for twice.
use go_symphony.Prelude.{ℕ, ◌+◌, ◌≤◌, ◌≡◌, true, false, arith}
use go_symphony.Prelude.Int.{◌≤ℤ◌}
use go_symphony.Orchestrator.State.{Deps, SchedulerState, next_nonce}
use go_symphony.Orchestrator.Polling.{request_refresh, begin_poll}

module _ {W : Type 0} (d : Deps W) (s : SchedulerState) (w later : W) where
  -- After a refresh was requested, a second request at a time that is not earlier is coalesced and
  -- leaves the state as it is, whether or not the first was coalesced.
  pub request_refresh_twice :
      (d.now w).0 ≤ℤ (d.now later).0
      → let first = request_refresh d s w in
        let second = request_refresh d first.1 later in
        (second.0.coalesced ≡ true) × (second.1 ≡ first.1)
  unfolding request_refresh
  request_refresh_twice h = ground arith

  -- After a refresh was granted no earlier tick does anything: nonces count up, so every tick that was
  -- scheduled before carries one that is at most the nonce of that time. The counter has not wrapped
  -- around.
  pub request_refresh-begin_poll :
      (nonce : ℕ)
      → nonce ≤ s.poll_nonce
      → next_nonce s.poll_nonce ≡ s.poll_nonce + 1
      → (request_refresh d s w).0.coalesced ≡ false
      → begin_poll (request_refresh d s w).1 nonce ≡ ((request_refresh d s w).1, false)
  unfolding request_refresh begin_poll
  request_refresh-begin_poll nonce same small granted = ground arith
