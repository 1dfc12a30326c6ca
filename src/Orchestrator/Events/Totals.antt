-- ===== src/Orchestrator/Events/Totals.antt =====
-- applyAggregateDelta of internal/orchestrator/state.go: the totals over all runs.
use go_symphony.Prelude.{ℕ, ◌+◌, ◌-◌, ◌≤◌, ◌<◌, ◌≡◌, refl, ap, ◌∙◌, List, [], ◌∷◌, map, arith}
use go_symphony.Prelude.Int.{pos, half_word, wrap64, wrap64_pos, ◌+ℤ◌, ◌-ℤ◌}
use go_symphony.Domain.{CodexTotals}
use go_symphony.Orchestrator.State.{SchedulerState, RunningEntry}
use go_symphony.Orchestrator.Events.{
  apply_aggregate_delta, totals_delta, totals_sum, count_delta, count_sum,
}

-- The reports of one run, in order.
unfoldable pub report_all :
    SchedulerState → RunningEntry → List CodexTotals → SchedulerState × RunningEntry
unfolding apply_aggregate_delta
report_all s e [] = (s, e)
report_all s e (t ∷ ts) = let r = apply_aggregate_delta s e t in report_all r.0 r.1 ts

-- Counts that are not negative.
pub record Counts : Type 0 where
  pub input : ℕ
  pub output : ℕ
  pub total : ℕ
  pub seconds : ℕ

abbrev pub as_totals : Counts → CodexTotals
as_totals c = record {
  input_tokens = pos c.input;
  output_tokens = pos c.output;
  total_tokens = pos c.total;
  seconds_running = pos c.seconds;
}

-- What `b` has more than `a`, on top of `sum`.
abbrev pub grown : Counts → Counts → Counts → Counts
grown sum a b = record {
  input = sum.input + (b.input - a.input);
  output = sum.output + (b.output - a.output);
  total = sum.total + (b.total - a.total);
  seconds = sum.seconds + (b.seconds - a.seconds);
}

-- No count of `a` is above that of `b`.
pub record IsBelow (a b : Counts) : Type 0 where
  pub input : a.input ≤ b.input
  pub output : a.output ≤ b.output
  pub total : a.total ≤ b.total
  pub seconds : a.seconds ≤ b.seconds

-- The counts are values of an int.
pub record IsInt (a : Counts) : Type 0 where
  pub input : a.input < half_word
  pub output : a.output < half_word
  pub total : a.total < half_word
  pub seconds : a.seconds < half_word

-- The reports never go down, from `a` on.
abbrev pub IsRising : Counts → List Counts → Type 0
IsRising a [] = Unit
IsRising a (t ∷ ts) = IsBelow a t × IsRising t ts

abbrev pub last_of : Counts → List Counts → Counts
last_of a [] = a
last_of a (t ∷ ts) = last_of t ts

IsRising-last : (a : Counts) (ts : List Counts) → IsRising a ts → IsBelow a (last_of a ts)
IsRising-last a [] h = ground arith
IsRising-last a (t ∷ ts) h = ground (arith, IsRising-last t ts h.1)

count_delta_pos : (a b : ℕ) → a ≤ b → b - a < half_word → count_delta (pos b) (pos a) ≡ pos (b - a)
unfolding count_delta wrap64 ◌-ℤ◌
count_delta_pos a b h k = ground (arith, wrap64_pos (b - a) k)

count_sum_pos : (a b : ℕ) → a + b < half_word → count_sum (pos a) (pos b) ≡ pos (a + b)
unfolding count_sum wrap64 ◌+ℤ◌
count_sum_pos a b h = ground (arith, wrap64_pos (a + b) h)

count_grows :
    (sum a b : ℕ)
    → a ≤ b
    → sum + (b - a) < half_word
    → count_sum (pos sum) (count_delta (pos b) (pos a)) ≡ pos (sum + (b - a))
count_grows sum a b h k = rw (count_delta_pos a b h (omega arith)) (count_sum_pos sum (b - a) k)

totals_grow :
    (sum a b : Counts)
    → IsBelow a b
    → IsInt (grown sum a b)
    → totals_sum (as_totals sum) (totals_delta (as_totals b) (as_totals a))
      ≡ as_totals (grown sum a b)
totals_grow sum a b h k =
    rw
      (
        count_grows sum.input a.input b.input h.input k.input,
        count_grows sum.output a.output b.output h.output k.output,
        count_grows sum.total a.total b.total h.total k.total,
        count_grows sum.seconds a.seconds b.seconds h.seconds k.seconds,
      )
      refl

grown-grown :
    (sum a b c : Counts) → IsBelow a b → IsBelow b c → grown (grown sum a b) b c ≡ grown sum a c
grown-grown sum a b c h k = ground arith

grown-IsInt :
    (sum a b c : Counts) → IsBelow a b → IsBelow b c → IsInt (grown sum a c) → IsInt (grown sum a b)
grown-IsInt sum a b c h k n = ground arith

-- When the counts of a run are not negative and never go down, and the sum over all runs stays within
-- an int, then however often the run reports its running counts, that sum grows by exactly what the
-- last report adds to what was reported before.
pub report_all-sum :
    (s : SchedulerState) (e : RunningEntry) (sum last : Counts) (ts : List Counts)
    → s.codex_totals ≡ as_totals sum
    → e.last_reported_totals ≡ as_totals last
    → IsRising last ts
    → IsInt (grown sum last (last_of last ts))
    → (report_all s e (map as_totals ts)).0.codex_totals
      ≡ as_totals (grown sum last (last_of last ts))
unfolding report_all
report_all-sum s e sum last [] p q h k = p ∙ ground arith
report_all-sum s e sum last (t ∷ ts) p q h k =
    let r = apply_aggregate_delta s e (as_totals t) in
    let end = last_of t ts in
    let rises = IsRising-last t ts h.1 in
    let joined = grown-grown sum last t end h.0 rises in
    report_all-sum r.0 r.1 (grown sum last t) t ts
      (rw (p, q) (totals_grow sum last t h.0 (grown-IsInt sum last t end h.0 rises k))) refl h.1
      (rw joined k)
    ∙ ap as_totals joined
