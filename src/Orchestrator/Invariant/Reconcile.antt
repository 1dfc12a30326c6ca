-- ===== src/Orchestrator/Invariant/Reconcile.antt =====
-- reconcileStalled and reconcileRunning of internal/orchestrator/state.go keep the invariant.
use go_symphony.Prelude.{
  ◌≡◌, refl, ◌∙◌, inl, inr, Bool, true, false, Option, none, some, List, [], ◌∷◌, arith, Fallible,
  ok, err, All, Bool-cases,
}
use go_symphony.Prelude.Int.{ℤ, pos, leb_ℤ}
use go_symphony.Prelude.Text.{Text, text_eq, text_eq_iff, text_eq_refl}
use go_symphony.Prelude.Map.{Map, lookup, insert, delete, keys, lookup-delete, lookup-insert}
use go_symphony.Domain.{WorkItem}
use go_symphony.Runner.HostSelection.{contains_host}
use go_symphony.Orchestrator.State.{Deps, SchedulerState, RunningEntry}
use go_symphony.Orchestrator.Backoff.{next_failure_attempt}
use go_symphony.Orchestrator.Reconcile.{
  stop_stalled, check_stalled, stalled_loop, reconcile_stalled, visible_items, invalidate_run,
  reconcile_entry, check_visible, visible_loop, reconcile_refreshed, reconcile_ids,
  reconcile_running, idle_time,
}
use go_symphony.Orchestrator.Invariant.Fits.{
  Inv, schedule_failure_retry-Inv, drop_running-Inv, drop_claim-Inv, drop_retry-Inv,
  put_running-Inv, running-keyed,
}
use go_symphony.Orchestrator.Invariant.Dispatch.{IsSound, IsDistinct}

-- Every item of the map stands under its own id.
abbrev IsKeyed : Map WorkItem → Type 0
IsKeyed m = (k : Text) (x : WorkItem) → lookup k m ≡ some x → x.id ≡ k

visible_items-IsKeyed :
    (visible : Map WorkItem) (items : List WorkItem)
    → IsKeyed visible
    → IsKeyed (visible_items visible items)
unfolding visible_items
visible_items-IsKeyed visible [] h = h
visible_items-IsKeyed visible (item ∷ items) h =
    visible_items-IsKeyed (insert item.id item visible) items
      (λ k x e. ground (arith, lookup-insert item.id k item visible, text_eq_iff item.id k, h k x))

-- The entries of the ids are still those of the copy.
abbrev IsCurrent : SchedulerState → Map RunningEntry → List Text → Type 0
IsCurrent s clone ids = All (λ id. lookup id s.running ≡ lookup id clone) ids

IsCurrent-keys : (s : SchedulerState) (ids : List Text) → IsCurrent s s.running ids
IsCurrent-keys s [] = tt
IsCurrent-keys s (id ∷ ids) = (refl, IsCurrent-keys s ids)

IsCurrent-frame :
    (s t : SchedulerState) (clone : Map RunningEntry) (id : Text) (ids : List Text)
    → ((j : Text) → text_eq j id ≡ false → lookup j t.running ≡ lookup j s.running)
    → contains_host ids id ≡ false
    → IsCurrent s clone ids
    → IsCurrent t clone ids
unfolding contains_host
IsCurrent-frame s t clone id [] frame fresh h = tt
IsCurrent-frame s t clone id (j ∷ ids) frame fresh h =
    (frame j (ground arith) ∙ h.0, IsCurrent-frame s t clone id ids frame (ground arith) h.1)

module _ {W : Type 0} (d : Deps W) where
  stop_stalled-Inv :
      (s : SchedulerState) (w : W) (now : ℤ) (id : Text) (entry : RunningEntry)
      → Inv s
      → Inv (stop_stalled d s w now id entry).0
  unfolding stop_stalled
  stop_stalled-Inv s w now id entry v =
      schedule_failure_retry-Inv d (record s { running = delete id s.running }) _ id
        entry.item.identifier (next_failure_attempt entry.attempt) _ entry.worker_host
        entry.workspace_path (rw (lookup-delete, text_eq_refl)) (drop_running-Inv s id v)

  check_stalled-Inv :
      (s : SchedulerState) (w : W) (now : ℤ) (id : Text) (e : Option RunningEntry)
      → Inv s
      → Inv (check_stalled d s w now id e).0
  unfolding check_stalled
  check_stalled-Inv s w now id none v = v
  check_stalled-Inv s w now id (some entry) v =
      elim (Bool-cases (leb_ℤ (idle_time now entry) s.stall_timeout)) [
        | inl recent ↦ rw recent v
        | inr stalled ↦ rw stalled (stop_stalled-Inv s w now id entry v)
      ]

  stalled_loop-Inv :
      (s : SchedulerState) (w : W) (now : ℤ) (clone : Map RunningEntry) (ids : List Text)
      → Inv s
      → Inv (stalled_loop d s w now clone ids).0
  unfolding stalled_loop
  stalled_loop-Inv s w now clone [] v = v
  stalled_loop-Inv s w now clone (id ∷ ids) v =
      let r = check_stalled d s w now id (lookup id clone) in
      stalled_loop-Inv r.0 r.1 now clone ids (check_stalled-Inv s w now id (lookup id clone) v)

  -- reconcileStalled keeps the invariant.
  pub reconcile_stalled-Inv : (s : SchedulerState) (w : W) → Inv s → Inv (reconcile_stalled d s w).0
  unfolding reconcile_stalled
  reconcile_stalled-Inv s w v = elim (Bool-cases (leb_ℤ s.stall_timeout (pos 0))) [
    | inl off ↦ rw off v
    | inr on ↦ rw on (
        let order = d.range (keys s.running) (d.now w).1 in
        stalled_loop-Inv s order.1 (d.now w).0 s.running order.0 v)
  ]

  invalidate_run-Inv :
      (s : SchedulerState) (w : W) (entry : RunningEntry) (cleanup : Bool)
      → Inv s
      → Inv (invalidate_run d s w entry cleanup).0
  unfolding invalidate_run
  invalidate_run-Inv s w entry cleanup v =
      let id = entry.item.id in
      drop_retry-Inv _ id (
        drop_claim-Inv (record s { running = delete id s.running }) id
          (rw (lookup-delete, text_eq_refl)) (drop_running-Inv s id v))

  module _ (s : SchedulerState) (w : W) (id : Text) (entry : RunningEntry)
      (found : lookup id s.running ≡ some entry) (v : Inv s) where
    reconcile_entry-Inv :
        (seen : Option WorkItem)
        → ((x : WorkItem) → seen ≡ some x → x.id ≡ id)
        → Inv (reconcile_entry d s w id entry seen).0
    unfolding reconcile_entry
    reconcile_entry-Inv none same = invalidate_run-Inv s w entry false v
    reconcile_entry-Inv (some item) same = ground (
      arith,
      invalidate_run-Inv s w entry true v,
      invalidate_run-Inv s w entry false v,
      put_running-Inv s id entry (record entry { item = item }) found (same item refl) v,
    )

    reconcile_entry-frame :
        (seen : Option WorkItem) (j : Text)
        → text_eq j id ≡ false
        → lookup j (reconcile_entry d s w id entry seen).0.running ≡ lookup j s.running
    unfolding reconcile_entry invalidate_run
    reconcile_entry-frame none j other = ground (
      arith,
      (running-keyed s id v entry found).0,
      lookup-delete entry.item.id j s.running,
      text_eq_iff entry.item.id j,
      text_eq_iff j id,
    )
    reconcile_entry-frame (some item) j other = ground (
      arith,
      (running-keyed s id v entry found).0,
      lookup-delete entry.item.id j s.running,
      lookup-insert id j (record entry { item = item }) s.running,
      text_eq_iff entry.item.id j,
      text_eq_iff id j,
      text_eq_iff j id,
    )

  module _ (s : SchedulerState) (w : W) (visible : Map WorkItem) (id : Text)
      (keyed : IsKeyed visible) (v : Inv s) where
    check_visible-Inv :
        (e : Option RunningEntry)
        → lookup id s.running ≡ e
        → Inv (check_visible d s w visible id e).0
    unfolding check_visible
    check_visible-Inv none found = v
    check_visible-Inv (some entry) found =
        reconcile_entry-Inv s w id entry found v (lookup id visible) (keyed id)

    check_visible-frame :
        (e : Option RunningEntry)
        → lookup id s.running ≡ e
        → (j : Text) → text_eq j id ≡ false
        → lookup j (check_visible d s w visible id e).0.running ≡ lookup j s.running
    unfolding check_visible
    check_visible-frame none found j other = refl
    check_visible-frame (some entry) found j other =
        reconcile_entry-frame s w id entry found v (lookup id visible) j other

  visible_loop-Inv :
      (s : SchedulerState) (w : W) (visible : Map WorkItem) (clone : Map RunningEntry)
      (ids : List Text)
      → IsKeyed visible
      → IsDistinct ids
      → IsCurrent s clone ids
      → Inv s
      → Inv (visible_loop d s w visible clone ids).0
  unfolding visible_loop
  visible_loop-Inv s w visible clone [] keyed distinct current v = v
  visible_loop-Inv s w visible clone (id ∷ ids) keyed distinct current v =
      let r = check_visible d s w visible id (lookup id clone) in
      visible_loop-Inv r.0 r.1 visible clone ids keyed distinct.1
        (IsCurrent-frame s r.0 clone id ids
          (check_visible-frame s w visible id keyed v (lookup id clone) current.0) distinct.0
          current.1)
        (check_visible-Inv s w visible id keyed v (lookup id clone) current.0)

  module _ (sound : IsSound d) where
    reconcile_refreshed-Inv :
        (s : SchedulerState) (r : Fallible (List WorkItem) Text × W)
        → Inv s
        → Inv (reconcile_refreshed d s r).0
    unfolding reconcile_refreshed
    reconcile_refreshed-Inv s (err e, w) v = v
    reconcile_refreshed-Inv s (ok items, w) v =
        visible_loop-Inv s _ _ s.running _
          (visible_items-IsKeyed [] items (λ k x e. unfold lookup in cc))
          (sound.ranges (keys s.running) w) (IsCurrent-keys s _) v

    reconcile_ids-Inv :
        (s : SchedulerState) (w : W) (ids : List Text)
        (refresh : List Text → W → Fallible (List WorkItem) Text × W)
        → Inv s
        → Inv (reconcile_ids d s w ids refresh).0
    unfolding reconcile_ids
    reconcile_ids-Inv s w [] refresh v = v
    reconcile_ids-Inv s w (id ∷ ids) refresh v = reconcile_refreshed-Inv s _ v

    -- reconcileRunning keeps the invariant.
    pub reconcile_running-Inv :
        (s : SchedulerState) (w : W) → Inv s → Inv (reconcile_running d s w).0
    unfolding reconcile_running
    reconcile_running-Inv s w v =
        elim d.refresh_items
          as (λ o.
            Inv
              (elim o as (λ x. SchedulerState × W) [
                | none ↦ (s, w)
                | some refresh ↦ reconcile_ids d s w (keys s.running) refresh
              ]).0) [ none ↦ v | some refresh ↦ reconcile_ids-Inv s w (keys s.running) refresh v ]
