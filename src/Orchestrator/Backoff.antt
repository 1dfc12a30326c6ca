-- ===== src/Orchestrator/Backoff.antt =====
-- internal/orchestrator/state.go: the attempt that follows a failure, and how long it waits.
pub mod Laws
use go_symphony.Prelude.{ℕ, zero, suc, ◌+◌, ◌-◌, Bool, true, false, ◌&&◌, ltb, leb, if◌then◌else◌}
use go_symphony.Prelude.Int.{ℤ, pos, ltb_ℤ, leb_ℤ, wrap64, ◌+ℤ◌}

unfoldable pub next_failure_attempt : ℕ → ℕ
next_failure_attempt current = if ltb 0 current then current + 1 else 1

-- 10 * time.Second
abbrev pub base_delay : ℤ
base_delay = pos 10000000000

-- the loop `for i := 1; i < attempt; i++`, by the rounds left, and the test after it
unfoldable pub delay_rounds : ℕ → ℤ → ℤ → ℤ
unfolding wrap64 ◌+ℤ◌
delay_rounds zero max_backoff delay =
    if ltb_ℤ (pos 0) max_backoff && ltb_ℤ max_backoff delay then max_backoff else delay
delay_rounds (suc rounds) max_backoff delay =
    let doubled = wrap64 (delay +ℤ delay) in
    let rest = delay_rounds rounds max_backoff doubled in
    if ltb_ℤ (pos 0) max_backoff && leb_ℤ max_backoff doubled then max_backoff else rest

unfoldable pub failure_retry_delay : ℕ → ℤ → ℤ
unfolding delay_rounds
failure_retry_delay attempt max_backoff = delay_rounds (attempt - 1) max_backoff base_delay
