-- ===== src/Orchestrator/Events/Phases.antt =====
-- applyRunEvent of internal/orchestrator/state.go against an abstract life of a work item.
use go_symphony.Prelude.{
  ℕ, ◌+◌, ◌≡◌, refl, ◌∙◌, inl, inr, Option, none, some, arith, if◌then◌else◌, ap, Option-cases,
}
use go_symphony.Prelude.Text.{Text, text_eq, text_eq_iff}
use go_symphony.Prelude.Map.{lookup, map_laws}
use go_symphony.Domain.{WorkItem, RunEvent, RunEventKind, run_completed, run_failed}
use go_symphony.Orchestrator.State.{Deps, SchedulerState, RunningEntry, RetryEntry}
use go_symphony.Orchestrator.Backoff.{next_failure_attempt}
use go_symphony.Orchestrator.Dispatch.{schedule_failure_retry}
use go_symphony.Orchestrator.Events.{
  schedule_continuation_retry, finish_event, note_event, note_totals, note_rate_limits,
  apply_known_event, apply_run_event,
}
use go_symphony.Orchestrator.Invariant.Fits.{Inv, running-keyed, SameMaps}
use go_symphony.Orchestrator.Invariant.Events.{noted-SameMaps}

-- Where a work item stands: not scheduled, running for an attempt, or waiting for one.
pub data Phase : Type 0 where
  released : Phase
  runs : ℕ → Phase
  waits : ℕ → Phase

abbrev pub phase_from : Option RunningEntry → Option RetryEntry → Phase
phase_from (some e) r = runs e.attempt
phase_from none (some r) = waits r.attempt
phase_from none none = released

abbrev pub phase_of : SchedulerState → Text → Phase
phase_of s k = phase_from (lookup k s.running) (lookup k s.retrying)

-- A run that completes waits for its first continuation, one that fails for its next attempt; nothing
-- else changes.
abbrev pub after_event : RunEventKind → Phase → Phase
after_event run_completed (runs a) = waits 1
after_event run_failed (runs a) = waits (a + 1)
after_event kind p = p

module _ {W : Type 0} (d : Deps W) where
  finish_event-phase :
      (kind : RunEventKind) (s : SchedulerState) (w : W) (e : RunningEntry) (event : RunEvent)
      (k : Text)
      → e.item.id ≡ event.item_id
      → lookup event.item_id s.retrying ≡ none
      → phase_of (finish_event d kind s w e event).0 k
        ≡ (if text_eq event.item_id k then after_event kind (runs e.attempt) else phase_of s k)
  unfolding finish_event schedule_continuation_retry schedule_failure_retry next_failure_attempt
  finish_event-phase run_completed s w e event k same idle =
      rw same (simp map_laws (ground (arith, text_eq_iff event.item_id k)))
  finish_event-phase run_failed s w e event k same idle =
      rw same (simp map_laws (ground (arith, text_eq_iff event.item_id k)))
  finish_event-phase _ s w e event k same idle =
      simp map_laws (ground (arith, text_eq_iff event.item_id k))

after_event-idle :
    (kind : RunEventKind) (r : Option RetryEntry)
    → after_event kind (phase_from none r) ≡ phase_from none r
after_event-idle run_completed none = refl
after_event-idle run_completed (some r) = refl
after_event-idle _ none = refl
after_event-idle _ (some r) = refl

noted-attempt :
    (s : SchedulerState) (entry : RunningEntry) (event : RunEvent)
    → (note_totals s (note_event entry event) event).1.attempt ≡ entry.attempt
unfolding note_totals note_event
noted-attempt s entry event = ground arith

SameMaps-phase : (s t : SchedulerState) (k : Text) → SameMaps s t → phase_of t k ≡ phase_of s k
SameMaps-phase s t k h = rw (h.1, h.2)

module _ {W : Type 0} (d : Deps W) where
  apply_known_event-phase :
      (s : SchedulerState) (w : W) (entry : RunningEntry) (event : RunEvent) (k : Text)
      → Inv s
      → lookup event.item_id s.running ≡ some entry
      → phase_of (apply_known_event d s w entry event).0 k ≡ (
          if text_eq event.item_id k
          then after_event event.kind (runs entry.attempt)
          else phase_of s k)
  unfolding apply_known_event
  apply_known_event-phase s w entry event k v found =
      let n = note_totals s (note_event entry event) event in
      let t = note_rate_limits n.0 event.rate_limits in
      let same = noted-SameMaps s (note_event entry event) event in
      let keyed = running-keyed s event.item_id v entry found in
      finish_event-phase d event.kind t w n.1 event k
        (ap (λ (x : WorkItem). x.id) same.1 ∙ (unfold note_event in keyed.0)) (rw same.0.2 keyed.2)
      ∙ rw (noted-attempt s entry event, SameMaps-phase s t k same.0)

  -- In a state that meets the invariant an event moves its own item as the abstract life says, and no
  -- other item: completed runs wait for attempt 1, failed runs for the attempt after theirs, and any
  -- other event, or one for an item that is not running, moves nothing.
  pub apply_run_event-phase :
      (s : SchedulerState) (w : W) (event : RunEvent) (k : Text)
      → Inv s
      → phase_of (apply_run_event d s w event).0 k
        ≡ (if text_eq event.item_id k then after_event event.kind (phase_of s k) else phase_of s k)
  unfolding apply_run_event
  apply_run_event-phase s w event k v = elim (Option-cases (lookup event.item_id s.running)) [
    | inl absent ↦
        rw (absent, apply_run_event)
          (ground
            (arith, text_eq_iff event.item_id k, after_event-idle event.kind (lookup k s.retrying)))
    | inr (entry, found) ↦
        rw (found, apply_run_event)
          (apply_known_event-phase s w entry event k v found
            ∙ ground (arith, text_eq_iff event.item_id k))
  ]
