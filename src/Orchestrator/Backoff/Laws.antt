-- ===== src/Orchestrator/Backoff/Laws.antt =====
-- failureRetryDelay of internal/orchestrator/state.go against its closed form.
use Prim.Native.Nat.{min}
use native.Mathlib.Nat.{pow-suc}
use go_symphony.Prelude.{
  ℕ, zero, suc, ◌+◌, ◌-◌, ◌*◌, ◌^◌, ◌≤◌, ◌<◌, ◌≡◌, ap, inl, inr, arith, leb, Bool-cases,
}
use go_symphony.Prelude.Int.{pos, half_word, wrap64, ◌+ℤ◌}
use go_symphony.Orchestrator.Backoff.{delay_rounds, failure_retry_delay}

-- Ten seconds in nanoseconds, doubled for each failure before the last.
abbrev pub doubled : ℕ → ℕ
doubled n = 10000000000 * 2 ^ n

double_pos : (n : ℕ) → n + n < half_word → wrap64 (pos n +ℤ pos n) ≡ pos (n + n)
unfolding wrap64 ◌+ℤ◌
double_pos n h = ground arith

one_le_pow : (r : ℕ) → 1 ≤ 2 ^ r
one_le_pow zero = omega arith
one_le_pow (suc r) = omega (arith, one_le_pow r, pow-suc 2 r)

le_mul : (n p : ℕ) → 1 ≤ p → n ≤ n * p
le_mul n p h = grind arith

-- One more doubling.
mul_pow-suc : (n r : ℕ) → n * 2 ^ suc r ≡ (n + n) * 2 ^ r
mul_pow-suc n r = omega (arith, ap (λ (t : ℕ). n * t) (pow-suc 2 r))

-- The loop, from a delay of `n` nanoseconds, with a cap at which no doubling overflows.
delay_rounds-min :
    (rounds cap n : ℕ)
    → 0 < cap
    → cap + cap ≤ half_word
    → n + n < half_word
    → delay_rounds rounds (pos cap) (pos n) ≡ pos (min (n * 2 ^ rounds) cap)
unfolding delay_rounds
delay_rounds-min zero cap n positive fits small = ground arith
delay_rounds-min (suc r) cap n positive fits small =
    rw (double_pos n small) (elim (Bool-cases (leb cap (n + n))) [
      | inl over ↦ ground (arith, mul_pow-suc n r, le_mul (n + n) (2 ^ r) (one_le_pow r))
      | inr below ↦
          ground
            (arith, mul_pow-suc n r, delay_rounds-min r cap (n + n) positive fits (ground arith))
    ])

-- For a positive cap of at most 2 ^ 62 nanoseconds the wait before an attempt is ten seconds doubled
-- for each earlier failure, or the cap if that is less.
pub failure_retry_delay-min :
    (attempt cap : ℕ)
    → 0 < cap
    → cap + cap ≤ half_word
    → failure_retry_delay attempt (pos cap) ≡ pos (min (doubled (attempt - 1)) cap)
unfolding failure_retry_delay
failure_retry_delay-min attempt cap positive fits =
    delay_rounds-min (attempt - 1) cap 10000000000 positive fits (omega arith)
