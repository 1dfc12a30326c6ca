-- ===== src/Orchestrator/Retry/Once.antt =====
-- handleDueRetry of internal/orchestrator/state.go: a retry's timer acts once.
use go_symphony.Prelude.{
  ℕ, ◌+◌, ◌≤◌, ◌<◌, ◌≡◌, refl, inl, inr, Bool, true, false, none, some, arith, Fallible, ok, err,
  Bool-cases, Option-cases, ◌==◌,
}
use go_symphony.Prelude.Int.{word}
use go_symphony.Prelude.Text.{Text, text_eq_refl}
use go_symphony.Prelude.Map.{lookup, has, delete, lookup-insert, lookup-delete}
use go_symphony.Domain.{WorkItem}
use go_symphony.Orchestrator.State.{Deps, SchedulerState, RetryEntry, StartRunResult, next_nonce}
use go_symphony.Orchestrator.Dispatch.{
  schedule_failure_retry, record_run, admit_host, finish_start, start_item, dispatch_item,
}
use go_symphony.Orchestrator.Retry.{
  no_slots, RetryStatus, ready, terminal, ineligible, missing, refresh_failed, refresh_retry_item,
  retry_later, after_dispatch, finish_retry, take_retry, handle_due_retry,
}
use go_symphony.Orchestrator.Invariant.Dispatch.{IsSound}
use go_symphony.Orchestrator.Invariant.Retry.{IsOf, refresh_retry_item-IsOf}

-- A retry that waits for the item has the nonce `m`.
abbrev HasNonce : ℕ → Text → SchedulerState → Type 0
HasNonce m id t = (e : RetryEntry) → lookup id t.retrying ≡ some e → e.nonce ≡ m

module _ {W : Type 0} (d : Deps W) (s : SchedulerState) (id : Text) where
  schedule-HasNonce :
      (t : SchedulerState) (w : W) (identifier : Text) (attempt : ℕ) (last_error host path : Text)
      → t.retry_nonce ≡ s.retry_nonce
      → HasNonce
          (next_nonce s.retry_nonce)
          id
          (schedule_failure_retry d t w id identifier attempt last_error host path).0
  unfolding schedule_failure_retry
  schedule-HasNonce t w identifier attempt last_error host path same e found =
      let new = simp (lookup-insert, text_eq_refl) at found in ground arith

  -- A start leaves no other retry for its item, and one that is refused with none left has taken no
  -- nonce.
  abbrev Spent : Bool × SchedulerState × W → Type 0
  Spent r =
      HasNonce (next_nonce s.retry_nonce) id r.1
      × (r.0 ≡ false → has id r.1.retrying ≡ false → r.1.retry_nonce ≡ s.retry_nonce)

  finish_start-Spent :
      (item : WorkItem) (attempt : ℕ) (host : Text) (r : Fallible StartRunResult Text × W)
      → item.id ≡ id
      → Spent (finish_start d s item attempt host r)
  unfolding finish_start record_run schedule_failure_retry
  finish_start-Spent item attempt host (ok result, w) of = (
    λ e found. let gone = simp (of, lookup-delete, text_eq_refl) at found in ground arith,
    λ refused. cc,
  )
  finish_start-Spent item attempt host (err x, w) of = (
    λ e found. let new = simp (of, lookup-insert, text_eq_refl) at found in ground arith,
    λ refused lost. let here = simp (of, lookup-insert, text_eq_refl) at lost in cc,
  )

  start_item-Spent :
      (item : WorkItem) (attempt : ℕ) (r : (Text × Bool) × W)
      → item.id ≡ id
      → lookup id s.retrying ≡ none
      → Spent (start_item d s item attempt r)
  unfolding start_item
  start_item-Spent item attempt ((host, false), w) of idle = (λ e found. cc, λ refused lost. refl)
  start_item-Spent item attempt ((host, true), w) of idle =
      finish_start-Spent item attempt host _ of

  retry_later-HasNonce :
      (t : SchedulerState) (w : W) (identifier : Text) (entry : RetryEntry) (reason : Text)
      → t.retry_nonce ≡ s.retry_nonce
      → HasNonce (next_nonce s.retry_nonce) id (retry_later d t w id identifier entry reason).0
  unfolding retry_later
  retry_later-HasNonce t w identifier entry reason same =
      schedule-HasNonce t w identifier (entry.attempt + 1) reason entry.worker_host
        entry.workspace_path same

  after_dispatch-HasNonce :
      (identifier : Text) (entry : RetryEntry) (r : Bool × SchedulerState × W)
      → Spent r
      → HasNonce (next_nonce s.retry_nonce) id (after_dispatch d id identifier entry r).0
  unfolding after_dispatch
  after_dispatch-HasNonce identifier entry (true, t, w) spent = spent.0
  after_dispatch-HasNonce identifier entry (false, t, w) spent =
      elim (Bool-cases (has id t.retrying)) [
        | inl kept ↦ rw kept spent.0
        | inr lost ↦ rw lost (retry_later-HasNonce t w identifier entry _ (spent.1 refl lost))
      ]

  finish_retry-HasNonce :
      (entry : RetryEntry) (r : RetryStatus × W)
      → IsOf id r.0
      → lookup id s.retrying ≡ none
      → HasNonce (next_nonce s.retry_nonce) id (finish_retry d s id entry r).0
  unfolding finish_retry dispatch_item
  finish_retry-HasNonce entry (missing, w) of idle e found = cc
  finish_retry-HasNonce entry (terminal item, w) of idle e found = cc
  finish_retry-HasNonce entry (ineligible item, w) of idle e found = cc
  finish_retry-HasNonce entry (refresh_failed, w) of idle e found =
      retry_later-HasNonce s w entry.item_identifier entry _ refl e found
  finish_retry-HasNonce entry (ready item, w) of idle e found = ground (
    arith,
    retry_later-HasNonce s w item.identifier entry no_slots refl e,
    after_dispatch-HasNonce item.identifier entry
        (start_item d s item entry.attempt (admit_host d s entry.worker_host w))
        (start_item-Spent item entry.attempt (admit_host d s entry.worker_host w) of idle) e,
  )

module _ {W : Type 0} (d : Deps W) (sound : IsSound d) where
  take_retry-HasNonce :
      (s : SchedulerState) (w : W) (id : Text) (entry : RetryEntry)
      → HasNonce (next_nonce s.retry_nonce) id (take_retry d s w id entry).0
  unfolding take_retry
  take_retry-HasNonce s w id entry =
      let s' = record s { retrying = delete id s.retrying } in
      finish_retry-HasNonce d s' id entry (refresh_retry_item d s' w id)
        (refresh_retry_item-IsOf d sound s' w id) (rw (lookup-delete, text_eq_refl))

  -- A tick whose nonce no waiting retry of the item has changes nothing.
  handle_due_retry_stale :
      (s : SchedulerState) (w : W) (id : Text) (nonce : ℕ)
      → ((e : RetryEntry) → lookup id s.retrying ≡ some e → (e.nonce == nonce) ≡ false)
      → handle_due_retry d s w id nonce ≡ (s, w)
  unfolding handle_due_retry
  handle_due_retry_stale s w id nonce stale = elim (Option-cases (lookup id s.retrying)) [
    | inl absent ↦ rw (absent, handle_due_retry)
    | inr (e, found) ↦ rw (found, handle_due_retry, stale e found)
  ]

  handle_due_retry-spent :
      (s : SchedulerState) (w : W) (id : Text) (nonce : ℕ)
      → nonce ≤ s.retry_nonce
      → s.retry_nonce + 1 < word
      → (e : RetryEntry) → lookup id (handle_due_retry d s w id nonce).0.retrying ≡ some e
      → (e.nonce == nonce) ≡ false
  unfolding handle_due_retry
  handle_due_retry-spent s w id nonce below small e found =
      elim (Option-cases (lookup id s.retrying)) [
        | inl absent ↦ let same = rw (absent, handle_due_retry) at found in cc
        | inr (x, waiting) ↦
            let after = rw (waiting, handle_due_retry) at found in
            elim (Bool-cases (x.nonce == nonce)) [
              | inl hit ↦
                  let taken = rw hit at after in
                  let new = take_retry-HasNonce s w id x e taken in ground arith
              | inr miss ↦ let kept = rw miss at after in ground arith
            ]
      ]

  -- When the timer of a retry fires a second time, with the nonce that it had, nothing happens, as long
  -- as the nonces have not wrapped around.
  pub handle_due_retry_twice :
      (s : SchedulerState) (w later : W) (id : Text) (nonce : ℕ)
      → nonce ≤ s.retry_nonce
      → s.retry_nonce + 1 < word
      → let after = (handle_due_retry d s w id nonce).0 in
        handle_due_retry d after later id nonce ≡ (after, later)
  handle_due_retry_twice s w later id nonce below small =
      handle_due_retry_stale (handle_due_retry d s w id nonce).0 later id nonce
        (handle_due_retry-spent s w id nonce below small)
