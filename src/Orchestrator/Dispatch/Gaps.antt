-- ===== src/Orchestrator/Dispatch/Gaps.antt =====
-- What the guards of processCandidates in internal/orchestrator/state.go do not see: a state that
-- changed since the list was read, and a start that failed.
use go_symphony.Prelude.{ℕ, ◌+◌, ◌≡◌, true, Option, none, some, [], arith}
use go_symphony.Prelude.Int.{ℤ, pos, ltb_ℤ}
use go_symphony.Prelude.Text.{Text, text_eq_refl}
use go_symphony.Domain.{WorkItem}
use go_symphony.Orchestrator.State.{Deps, SchedulerState}
use go_symphony.Orchestrator.Candidates.{
  reached, state_limit, running_count_for_state, should_dispatch,
}
use go_symphony.Orchestrator.Dispatch.{
  dispatch_item, revalidate_candidate, dispatch_revalidated, process_candidate,
}
use go_symphony.Orchestrator.Dispatch.Limits.{
  dispatch_item-Outcome, started-count, same-state_limit, should_dispatch-room,
}

above_limit : (limit : ℤ) (n : ℕ) → reached limit n ≡ true → ltb_ℤ limit (pos (n + 1)) ≡ true
above_limit limit n full = ground arith

module _ {W : Type 0} (d : Deps W) (s : SchedulerState) where
  dispatch_revalidated-some :
      (r : Option WorkItem × W) (x : WorkItem)
      → r.0 ≡ some x
      → let f = dispatch_item d s r.1 x 0 [] in dispatch_revalidated d s r ≡ (f.1, f.2)
  unfolding dispatch_revalidated
  dispatch_revalidated-some (none, w) x found = cc
  dispatch_revalidated-some (some y, w) x found = cc

module _ {W : Type 0} (d : Deps W) (s : SchedulerState) (w : W) (item : WorkItem) where
  process_candidate-dispatches :
      (x : WorkItem)
      → should_dispatch s item ≡ true
      → (revalidate_candidate d s w item.id).0 ≡ some x
      → let f = dispatch_item d s (revalidate_candidate d s w item.id).1 x 0 [] in
        process_candidate d s w item ≡ (f.1, f.2)
  unfolding process_candidate
  process_candidate-dispatches x go found =
      rw go (dispatch_revalidated-some d s (revalidate_candidate d s w item.id) x found)

  -- If the refresh returns a listed item in a state that has no room left, and the run starts, there is
  -- one run more in that state than its positive limit allows: only the state of the list was checked.
  pub process_candidate_overrun :
      (x : WorkItem)
      → should_dispatch s item ≡ true
      → (revalidate_candidate d s w item.id).0 ≡ some x
      → x.id ≡ item.id
      → reached (state_limit s x.state) (running_count_for_state s x.state) ≡ true
      → (dispatch_item d s (revalidate_candidate d s w item.id).1 x 0 []).0 ≡ true
      → let after = (process_candidate d s w item).0 in
        ltb_ℤ (state_limit after x.state) (pos (running_count_for_state after x.state)) ≡ true
  process_candidate_overrun x go found same full started =
      let w' = (revalidate_candidate d s w item.id).1 in
      let f = dispatch_item d s w' x 0 [] in
      let out = dispatch_item-Outcome d s w' x 0 [] in
      let e = out.added started in
      let idle = (should_dispatch-room s item go).1 in
      let count = started-count s f.1 x e.0 x.state (rw same idle) e.1 e.2 in
      let limit = same-state_limit s f.1 x.state out.limits in
      rw (process_candidate-dispatches x go found) (
        rw (limit, count, text_eq_refl)
          (above_limit (state_limit s x.state) (running_count_for_state s x.state) full))
