-- ===== src/Orchestrator/Invariant/Retry.antt =====
-- handleDueRetry of internal/orchestrator/state.go keeps the invariant.
use go_symphony.Prelude.{
  ℕ, ◌+◌, ◌≡◌, refl, inl, inr, Bool, true, false, none, List, [], ◌∷◌, length, arith, Fallible, ok,
  err, Bool-cases, Option-cases, ◌==◌,
}
use go_symphony.Prelude.Text.{Text, text_eq_iff}
use go_symphony.Prelude.Map.{lookup, has}
use go_symphony.Domain.{WorkItem}
use go_symphony.Runner.HostSelection.{contains_host}
use go_symphony.Orchestrator.State.{Deps, SchedulerState, RetryEntry, StartRunResult}
use go_symphony.Orchestrator.Candidates.{reached, state_limit, running_count_for_state}
use go_symphony.Orchestrator.Dispatch.{finish_start, start_item, dispatch_item, admit_host}
use go_symphony.Orchestrator.Retry.{
  RetryStatus, ready, terminal, ineligible, missing, refresh_failed, retry_status,
  refresh_retry_item, retry_later, after_dispatch, finish_retry, take_retry, handle_due_retry,
}
use go_symphony.Orchestrator.Invariant.Fits.{
  Inv, schedule_failure_retry-Inv, drop_claim-Inv, drop_retry-Inv, retrying-idle,
}
use go_symphony.Orchestrator.Invariant.Dispatch.{IsSound, AllAmong, dispatch_item-Inv}

-- The item that a refresh found is the one that was asked for.
abbrev pub IsOf : Text → RetryStatus → Type 0
IsOf id (ready item) = item.id ≡ id
IsOf id _ = Unit {0}

module _ {W : Type 0} (d : Deps W) where
  -- A dispatch that is refused leaves the running map alone.
  finish_start-refused :
      (s : SchedulerState) (item : WorkItem) (attempt : ℕ) (host : Text)
      (r : Fallible StartRunResult Text × W)
      → (finish_start d s item attempt host r).0 ≡ false
      → (finish_start d s item attempt host r).1.running ≡ s.running
  unfolding finish_start
  finish_start-refused s item attempt host (ok result, w) h = cc
  finish_start-refused s item attempt host (err e, w) h = refl

  start_item-refused :
      (s : SchedulerState) (item : WorkItem) (attempt : ℕ) (r : (Text × Bool) × W)
      → (start_item d s item attempt r).0 ≡ false
      → (start_item d s item attempt r).1.running ≡ s.running
  unfolding start_item
  start_item-refused s item attempt ((host, false), w) h = refl
  start_item-refused s item attempt ((host, true), w) h =
      finish_start-refused s item attempt host _ h

  pub dispatch_item-refused :
      (s : SchedulerState) (w : W) (item : WorkItem) (attempt : ℕ) (preferred : Text)
      → (dispatch_item d s w item attempt preferred).0 ≡ false
      → (dispatch_item d s w item attempt preferred).1.running ≡ s.running
  unfolding dispatch_item
  dispatch_item-refused s w item attempt preferred h =
      start_item-refused s item attempt (admit_host d s preferred w) h

  retry_later-Inv :
      (s : SchedulerState) (w : W) (item_id identifier : Text) (entry : RetryEntry) (reason : Text)
      → lookup item_id s.running ≡ none
      → Inv s
      → Inv (retry_later d s w item_id identifier entry reason).0
  unfolding retry_later
  retry_later-Inv s w item_id identifier entry reason idle v =
      schedule_failure_retry-Inv d s w item_id identifier (entry.attempt + 1) reason
        entry.worker_host entry.workspace_path idle v

  after_dispatch-Inv :
      (item_id identifier : Text) (entry : RetryEntry) (r : Bool × SchedulerState × W)
      → (r.0 ≡ false → lookup item_id r.1.running ≡ none)
      → Inv r.1
      → Inv (after_dispatch d item_id identifier entry r).0
  unfolding after_dispatch
  after_dispatch-Inv item_id identifier entry (true, s, w) idle v = v
  after_dispatch-Inv item_id identifier entry (false, s, w) idle v =
      elim (Bool-cases (has item_id s.retrying)) [
        | inl kept ↦ rw kept v
        | inr lost ↦ rw lost (retry_later-Inv s w item_id identifier entry _ (idle refl) v)
      ]

  finish_retry-Inv :
      (s : SchedulerState) (item_id : Text) (entry : RetryEntry) (r : RetryStatus × W)
      → IsOf item_id r.0
      → lookup item_id s.running ≡ none
      → Inv s
      → Inv (finish_retry d s item_id entry r).0
  unfolding finish_retry
  finish_retry-Inv s item_id entry (missing, w) of idle v = drop_claim-Inv s item_id idle v
  finish_retry-Inv s item_id entry (terminal item, w) of idle v = drop_claim-Inv s item_id idle v
  finish_retry-Inv s item_id entry (ineligible item, w) of idle v = drop_claim-Inv s item_id idle v
  finish_retry-Inv s item_id entry (refresh_failed, w) of idle v =
      retry_later-Inv s w item_id entry.item_identifier entry _ idle v
  finish_retry-Inv s item_id entry (ready item, w) of idle v =
      elim (Bool-cases (reached s.max_concurrent (length s.running))) [
        | inl full ↦ rw full (retry_later-Inv s w item_id item.identifier entry _ idle v)
        | inr room ↦
            rw room
              (elim (Bool-cases
                (reached (state_limit s item.state) (running_count_for_state s item.state))) [
                  | inl full ↦ rw full (retry_later-Inv s w item_id item.identifier entry _ idle v)
                  | inr free ↦ rw free (
                      after_dispatch-Inv item_id item.identifier entry _
                        (λ refused.
                          rw
                            (dispatch_item-refused s w item entry.attempt entry.worker_host refused)
                            idle)
                        (dispatch_item-Inv d s w item entry.attempt entry.worker_host (rw of idle)
                          room v))
                ])
      ]

  retry_status-IsOf :
      (s : SchedulerState) (id : Text) (r : Fallible (List WorkItem) Text)
      → AllAmong (id ∷ []) r
      → IsOf id (retry_status s r)
  unfolding retry_status contains_host
  retry_status-IsOf s id (err e) h = tt
  retry_status-IsOf s id (ok []) h = tt
  retry_status-IsOf s id (ok (x ∷ xs)) h = ground (arith, text_eq_iff id x.id)

  pub refresh_retry_item-IsOf :
      IsSound d → (s : SchedulerState) (w : W) (id : Text) → IsOf id (refresh_retry_item d s w id).0
  unfolding refresh_retry_item
  refresh_retry_item-IsOf sound s w id = elim (Option-cases d.refresh_items) [
    | inl absent ↦ rw (absent, refresh_retry_item) tt
    | inr (refresh, given) ↦
        rw (given, refresh_retry_item)
          (retry_status-IsOf s id _ (sound.refreshes refresh given (id ∷ []) w))
  ]

  module _ (sound : IsSound d) where
    take_retry-Inv :
        (s : SchedulerState) (w : W) (item_id : Text) (entry : RetryEntry)
        → lookup item_id s.running ≡ none
        → Inv s
        → Inv (take_retry d s w item_id entry).0
    unfolding take_retry
    take_retry-Inv s w item_id entry idle v =
        finish_retry-Inv _ item_id entry _ (refresh_retry_item-IsOf sound _ w item_id) idle
          (drop_retry-Inv s item_id v)

    -- handleDueRetry keeps the invariant, for every nonce.
    pub handle_due_retry-Inv :
        (s : SchedulerState) (w : W) (item_id : Text) (nonce : ℕ)
        → Inv s
        → Inv (handle_due_retry d s w item_id nonce).0
    unfolding handle_due_retry
    handle_due_retry-Inv s w item_id nonce v = elim (Option-cases (lookup item_id s.retrying)) [
      | inl absent ↦ rw (absent, handle_due_retry) v
      | inr (entry, found) ↦
          rw (found, handle_due_retry)
            (elim (Bool-cases (entry.nonce == nonce)) [
              | inl current ↦
                  rw current
                    (take_retry-Inv s w item_id entry (retrying-idle s item_id v entry found).0 v)
              | inr stale ↦ rw stale v
            ])
    ]
