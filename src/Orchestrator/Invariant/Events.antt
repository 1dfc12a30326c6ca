-- ===== src/Orchestrator/Invariant/Events.antt =====
-- applyRunEvent of internal/orchestrator/state.go keeps the invariant.
use go_symphony.Prelude.{◌≡◌, ap, ◌∙◌, inl, inr, none, some, arith, Option-cases}
use go_symphony.Prelude.Text.{Text, text_eq_iff, text_eq_refl}
use go_symphony.Prelude.Map.{lookup, insert, delete, map_laws, lookup-delete}
use go_symphony.Domain.{WorkItem, RunEvent, RunEventKind, run_completed, run_failed}
use go_symphony.Orchestrator.State.{Deps, RunningEntry, SchedulerState}
use go_symphony.Orchestrator.Backoff.{next_failure_attempt}
use go_symphony.Orchestrator.Events.{
  schedule_continuation_retry, finish_event, apply_known_event, apply_run_event, note_totals,
  note_event, note_rate_limits,
}
use go_symphony.Orchestrator.Invariant.Fits.{
  Inv, SameMaps, SameMaps-Inv, schedule_failure_retry-Inv, running-keyed, put_running-Inv,
  drop_running-Inv,
}

pub noted-SameMaps :
    (s : SchedulerState) (entry : RunningEntry) (event : RunEvent)
    → let n = note_totals s entry event in
      SameMaps s (note_rate_limits n.0 event.rate_limits) × (n.1.item ≡ entry.item)
unfolding note_totals note_rate_limits
noted-SameMaps s entry event = ground arith

module _ {W : Type 0} (d : Deps W) where
  schedule_continuation_retry-Inv :
      (s : SchedulerState) (w : W) (item_id identifier host path : Text)
      → lookup item_id s.running ≡ none
      → Inv s
      → Inv (schedule_continuation_retry d s w item_id identifier host path).0
  unfolding schedule_continuation_retry
  schedule_continuation_retry-Inv s w item_id identifier host path idle v = record {
    fits = λ k. let h = v.fits k in simp map_laws (ground (arith, text_eq_iff item_id k));
    bounded = v.bounded;
  }

  -- What is left of the running map once the entry is removed.
  ended-Inv :
      (s : SchedulerState) (id : Text) (e e' : RunningEntry)
      → lookup id s.running ≡ some e
      → e'.item.id ≡ id
      → Inv s
      → Inv (record s { running = delete id (insert id e' s.running) })
  ended-Inv s id e e' found same v =
      drop_running-Inv (record s { running = insert id e' s.running }) id
        (put_running-Inv s id e e' found same v)

  ended-idle :
      (s : SchedulerState) (id id' : Text) (e' : RunningEntry)
      → id' ≡ id
      → lookup id' (delete id (insert id e' s.running)) ≡ none
  ended-idle s id id' e' same = rw (same, lookup-delete, text_eq_refl)

  finish_event-Inv :
      (kind : RunEventKind) (s : SchedulerState) (w : W) (e entry : RunningEntry) (event : RunEvent)
      → lookup event.item_id s.running ≡ some e
      → entry.item.id ≡ event.item_id
      → Inv s
      → Inv (finish_event d kind s w entry event).0
  unfolding finish_event
  finish_event-Inv run_completed s w e entry event found same v =
      schedule_continuation_retry-Inv _ w entry.item.id entry.item.identifier entry.worker_host
        entry.workspace_path (ended-idle s event.item_id entry.item.id entry same)
        (ended-Inv s event.item_id e entry found same v)
  finish_event-Inv run_failed s w e entry event found same v =
      schedule_failure_retry-Inv d _ w entry.item.id entry.item.identifier
        (next_failure_attempt entry.attempt) _ entry.worker_host entry.workspace_path
        (ended-idle s event.item_id entry.item.id entry same)
        (ended-Inv s event.item_id e entry found same v)
  finish_event-Inv _ s w e entry event found same v =
      put_running-Inv s event.item_id e entry found same v

  apply_known_event-Inv :
      (s : SchedulerState) (w : W) (entry : RunningEntry) (event : RunEvent)
      → lookup event.item_id s.running ≡ some entry
      → Inv s
      → Inv (apply_known_event d s w entry event).0
  unfolding apply_known_event
  apply_known_event-Inv s w entry event found v =
      let n = note_totals s (note_event entry event) event in
      let same = noted-SameMaps s (note_event entry event) event in
      finish_event-Inv event.kind (note_rate_limits n.0 event.rate_limits) w entry n.1 event
        (rw same.0.1 found)
        (ap (λ (x : WorkItem). x.id) same.1
          ∙ (unfold note_event in (running-keyed s event.item_id v entry found).0))
        (SameMaps-Inv same.0 v)

  -- applyRunEvent keeps the invariant, for every event.
  pub apply_run_event-Inv :
      (s : SchedulerState) (w : W) (event : RunEvent) → Inv s → Inv (apply_run_event d s w event).0
  unfolding apply_run_event
  apply_run_event-Inv s w event v = elim (Option-cases (lookup event.item_id s.running)) [
    | inl absent ↦ rw (absent, apply_run_event) v
    | inr (entry, found) ↦
        rw (found, apply_run_event) (apply_known_event-Inv s w entry event found v)
  ]
