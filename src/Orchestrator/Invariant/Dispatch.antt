-- ===== src/Orchestrator/Invariant/Dispatch.antt =====
-- processCandidates and dispatchItem of internal/orchestrator/state.go keep the invariant.
use go_symphony.Prelude.{
  ℕ, ◌+◌, ◌≡◌, refl, inl, inr, Bool, true, false, Option, none, some, List, [], ◌∷◌, length, arith,
  if◌then◌else◌, Fallible, ok, err, All, Bool-cases, Option-cases, ◌==◌,
}
use go_symphony.Prelude.Text.{Text, text_eq_iff}
use go_symphony.Prelude.Map.{lookup}
use go_symphony.Domain.{WorkItem}
use go_symphony.Runner.HostSelection.{contains_host}
use go_symphony.Orchestrator.State.{Deps, SchedulerState, StartRunResult}
use go_symphony.Orchestrator.Candidates.{reached, should_dispatch, sort_candidates}
use go_symphony.Orchestrator.Dispatch.{
  admit_host, finish_start, start_item, dispatch_item, revalidated, revalidate_candidate,
  dispatch_revalidated, process_candidate, process_sorted, process_candidates,
}
use go_symphony.Orchestrator.Invariant.Fits.{Inv, record_run-Inv, schedule_failure_retry-Inv}

abbrev pub AllAmong : List Text → Fallible (List WorkItem) Text → Type 0
AllAmong ids (err e) = Unit
AllAmong ids (ok items) = All (λ i. contains_host ids i.id ≡ true) items

-- No element stands twice in the list.
abbrev pub IsDistinct : List Text → Type 0
IsDistinct [] = Unit
IsDistinct (x ∷ xs) = (contains_host xs x ≡ false) × IsDistinct xs

-- What the scheduler relies on: a refresh returns only items that it was asked for, and a range over
-- a map meets every key, and none twice.
pub record IsSound {W : Type 0} (d : Deps W) : Type 0 where
  pub refreshes :
      (refresh : List Text → W → Fallible (List WorkItem) Text × W)
      → d.refresh_items ≡ some refresh
      → (ids : List Text) (w : W) → AllAmong ids (refresh ids w).0
  pub ranges : (ks : List Text) (w : W) → IsDistinct (d.range ks w).0
  pub covers :
      (ks : List Text) (w : W) (k : Text)
      → contains_host ks k ≡ true
      → contains_host (d.range ks w).0 k ≡ true

module _ {W : Type 0} (d : Deps W) where
  finish_start-Inv :
      (s : SchedulerState) (item : WorkItem) (attempt : ℕ) (host : Text)
      (r : Fallible StartRunResult Text × W)
      → lookup item.id s.running ≡ none
      → reached s.max_concurrent (length s.running) ≡ false
      → Inv s
      → Inv (finish_start d s item attempt host r).1
  unfolding finish_start
  finish_start-Inv s item attempt host (ok result, w) idle room v =
      record_run-Inv d s w item attempt host result room v
  finish_start-Inv s item attempt host (err e, w) idle room v =
      schedule_failure_retry-Inv d s w item.id item.identifier
        (if attempt == 0 then 1 else attempt + 1) _ host [] idle v

  start_item-Inv :
      (s : SchedulerState) (item : WorkItem) (attempt : ℕ) (r : (Text × Bool) × W)
      → lookup item.id s.running ≡ none
      → reached s.max_concurrent (length s.running) ≡ false
      → Inv s
      → Inv (start_item d s item attempt r).1
  unfolding start_item
  start_item-Inv s item attempt ((host, false), w) idle room v = v
  start_item-Inv s item attempt ((host, true), w) idle room v =
      finish_start-Inv s item attempt host _ idle room v

  -- dispatchItem keeps the invariant where its callers' guards hold.
  pub dispatch_item-Inv :
      (s : SchedulerState) (w : W) (item : WorkItem) (attempt : ℕ) (preferred : Text)
      → lookup item.id s.running ≡ none
      → reached s.max_concurrent (length s.running) ≡ false
      → Inv s
      → Inv (dispatch_item d s w item attempt preferred).1
  unfolding dispatch_item
  dispatch_item-Inv s w item attempt preferred idle room v =
      start_item-Inv s item attempt (admit_host d s preferred w) idle room v

  -- What the guard of a dispatch says.
  should_dispatch-guards :
      (s : SchedulerState) (item : WorkItem)
      → should_dispatch s item ≡ true
      → (lookup item.id s.running ≡ none) × (reached s.max_concurrent (length s.running) ≡ false)
  unfolding should_dispatch
  should_dispatch-guards s item h = ground arith

  revalidated-id :
      (s : SchedulerState) (id : Text) (r : Fallible (List WorkItem) Text × W) (item : WorkItem)
      → AllAmong (id ∷ []) r.0
      → (revalidated d s r).0 ≡ some item
      → item.id ≡ id
  unfolding revalidated contains_host
  revalidated-id s id (err e, w) item h e' = cc
  revalidated-id s id (ok [], w) item h e' = cc
  revalidated-id s id (ok (x ∷ xs), w) item h e' = ground (arith, text_eq_iff id x.id)

  revalidate_candidate-id :
      IsSound d
      → (s : SchedulerState) (w : W) (id : Text) (item : WorkItem) → lookup id s.running ≡ none
      → (revalidate_candidate d s w id).0 ≡ some item
      → item.id ≡ id
  unfolding revalidate_candidate
  revalidate_candidate-id sound s w id item idle e = elim (Option-cases d.refresh_items) [
    | inl absent ↦ ground arith
    | inr (refresh, given) ↦
        revalidated-id s id (refresh (id ∷ []) w) item (sound.refreshes refresh given (id ∷ []) w)
          (ground arith)
  ]

  dispatch_revalidated-Inv :
      (s : SchedulerState) (r : Option WorkItem × W)
      → ((item : WorkItem) → r.0 ≡ some item → lookup item.id s.running ≡ none)
      → reached s.max_concurrent (length s.running) ≡ false
      → Inv s
      → Inv (dispatch_revalidated d s r).0
  unfolding dispatch_revalidated
  dispatch_revalidated-Inv s (none, w) idle room v = v
  dispatch_revalidated-Inv s (some item, w) idle room v =
      dispatch_item-Inv s w item 0 [] (idle item refl) room v

  module _ (sound : IsSound d) where
    process_candidate-Inv :
        (s : SchedulerState) (w : W) (item : WorkItem)
        → Inv s
        → Inv (process_candidate d s w item).0
    unfolding process_candidate
    process_candidate-Inv s w item v = elim (Bool-cases (should_dispatch s item)) [
      | inl yes_dispatch ↦ rw yes_dispatch (
          let guards = should_dispatch-guards s item yes_dispatch in
          dispatch_revalidated-Inv s (revalidate_candidate d s w item.id)
            (λ x e.
              let same = revalidate_candidate-id sound s w item.id x guards.0 e in rw same guards.0)
            guards.1 v)
      | inr skipped ↦ rw skipped v
    ]

    process_sorted-Inv :
        (s : SchedulerState) (w : W) (items : List WorkItem)
        → Inv s
        → Inv (process_sorted d s w items).0
    unfolding process_sorted
    process_sorted-Inv s w [] v = v
    process_sorted-Inv s w (item ∷ items) v =
        let r = process_candidate d s w item in
        process_sorted-Inv r.0 r.1 items (process_candidate-Inv s w item v)

    -- processCandidates keeps the invariant, whatever the tracker lists.
    pub process_candidates-Inv :
        (s : SchedulerState) (w : W) (candidates : List WorkItem)
        → Inv s
        → Inv (process_candidates d s w candidates).0
    unfolding process_candidates
    process_candidates-Inv s w candidates v = process_sorted-Inv s w (sort_candidates candidates) v
