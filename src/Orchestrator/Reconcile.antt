-- ===== src/Orchestrator/Reconcile.antt =====
-- internal/orchestrator/state.go: stopping the runs that stalled or whose item is no longer active.
-- Go ranges over a copy of the running map: the loops take the order of its keys from the world.
use go_symphony.Prelude.{
  ◌+◌, ◌-◌, ◌%◌, Bool, true, false, not, Option, none, some, List, [], ◌∷◌, ◌++◌, ltb,
  if◌then◌else◌, Fallible, ok, err,
}
use go_symphony.Prelude.Int.{ℤ, pos, negsuc, leb_ℤ, half_word, saturate64, ◌-ℤ◌}
use go_symphony.Prelude.Text.{Text, codes}
use go_symphony.Prelude.Map.{Map, lookup, insert, delete, keys}
use go_symphony.Domain.{WorkItem}
use go_symphony.Orchestrator.State.{Deps, RunningEntry, SchedulerState}
use go_symphony.Orchestrator.Candidates.{is_active, is_terminal, not_routable}
use go_symphony.Orchestrator.Backoff.{next_failure_attempt}
use go_symphony.Orchestrator.Dispatch.{schedule_failure_retry}
use go_symphony.Orchestrator.Retry.{stop_with_intent}

-- `now.Sub(lastActivity)`
unfoldable pub idle_time : ℤ → RunningEntry → ℤ
unfolding saturate64 ◌-ℤ◌
idle_time now entry =
    let last : ℤ = elim entry.last_event_at [ none ↦ entry.started_at | some at ↦ at ] in
    saturate64 (now -ℤ last)

-- Round(time.Millisecond) of a duration that is not negative: halves go up, up to the largest int64.
unfoldable pub round_millisecond : ℤ → ℤ
round_millisecond (negsuc n) = negsuc n
round_millisecond (pos n) =
    let rest = n % 1000000 in
    let up = n - rest + 1000000 in
    if ltb (rest + rest) 1000000
    then pos (n - rest)
    else if ltb up half_word
    then pos up
    else pos (half_word - 1)

-- the map `visible`
unfoldable pub visible_items : Map WorkItem → List WorkItem → Map WorkItem
visible_items visible [] = visible
visible_items visible (item ∷ items) = visible_items (insert item.id item visible) items

module _ {W : Type 0} (d : Deps W) where
  -- one round for a run that stalled
  unfoldable pub stop_stalled : SchedulerState → W → ℤ → Text → RunningEntry → SchedulerState × W
  unfolding stop_with_intent schedule_failure_retry round_millisecond idle_time
  stop_stalled s w now item_id entry =
      let duration = round_millisecond (idle_time now entry) in
      let w' = stop_with_intent d w item_id entry.item.identifier entry.handle false in
      schedule_failure_retry d (record s { running = delete item_id s.running }) w' item_id
        entry.item.identifier (next_failure_attempt entry.attempt)
        (codes "stalled for " ++ (d.duration_text duration ++ codes " without worker activity"))
        entry.worker_host entry.workspace_path

  unfoldable pub check_stalled :
      SchedulerState → W → ℤ → Text → Option RunningEntry → SchedulerState × W
  unfolding stop_stalled
  check_stalled s w now item_id none = (s, w)
  check_stalled s w now item_id (some entry) =
      if leb_ℤ (idle_time now entry) s.stall_timeout
      then (s, w)
      else stop_stalled s w now item_id entry

  unfoldable pub stalled_loop :
      SchedulerState → W → ℤ → Map RunningEntry → List Text → SchedulerState × W
  unfolding check_stalled
  stalled_loop s w now clone [] = (s, w)
  stalled_loop s w now clone (item_id ∷ ids) =
      let r = check_stalled s w now item_id (lookup item_id clone) in
      stalled_loop r.0 r.1 now clone ids

  unfoldable pub reconcile_stalled : SchedulerState → W → SchedulerState × W
  unfolding stalled_loop
  reconcile_stalled s w =
      if leb_ℤ s.stall_timeout (pos 0)
      then (s, w)
      else let (now, w1) = d.now w in
        let (order, w2) = d.range (keys s.running) w1 in stalled_loop s w2 now s.running order

  unfoldable pub invalidate_run : SchedulerState → W → RunningEntry → Bool → SchedulerState × W
  unfolding stop_with_intent
  invalidate_run s w entry cleanup = (
    record s {
      running = delete entry.item.id s.running;
      claimed = delete entry.item.id s.claimed;
      retrying = delete entry.item.id s.retrying;
    },
    stop_with_intent d w entry.item.id entry.item.identifier entry.handle cleanup,
  )

  -- the body of the loop over the running entries
  unfoldable pub reconcile_entry :
      SchedulerState → W → Text → RunningEntry → Option WorkItem → SchedulerState × W
  unfolding invalidate_run
  reconcile_entry s w item_id entry none = invalidate_run s w entry false
  reconcile_entry s w item_id entry (some item) =
      if is_terminal s item.state
      then invalidate_run s w entry true
      else if not (is_active s item.state)
      then invalidate_run s w entry false
      else if not_routable item
      then invalidate_run s w entry false
      else (record s { running = insert item_id (record entry { item = item }) s.running }, w)

  unfoldable pub check_visible :
      SchedulerState → W → Map WorkItem → Text → Option RunningEntry → SchedulerState × W
  unfolding reconcile_entry
  check_visible s w visible item_id none = (s, w)
  check_visible s w visible item_id (some entry) =
      reconcile_entry s w item_id entry (lookup item_id visible)

  unfoldable pub visible_loop :
      SchedulerState → W → Map WorkItem → Map RunningEntry → List Text → SchedulerState × W
  unfolding check_visible
  visible_loop s w visible clone [] = (s, w)
  visible_loop s w visible clone (item_id ∷ ids) =
      let r = check_visible s w visible item_id (lookup item_id clone) in
      visible_loop r.0 r.1 visible clone ids

  unfoldable pub reconcile_refreshed :
      SchedulerState → Fallible (List WorkItem) Text × W → SchedulerState × W
  unfolding visible_items visible_loop
  reconcile_refreshed s (err e, w) = (s, w)
  reconcile_refreshed s (ok items, w) =
      let (order, w') = d.range (keys s.running) w in
      visible_loop s w' (visible_items [] items) s.running order

  unfoldable pub reconcile_ids :
      SchedulerState
      → W
      → List Text
      → (List Text → W → Fallible (List WorkItem) Text × W)
      → SchedulerState × W
  unfolding reconcile_refreshed
  reconcile_ids s w [] refresh = (s, w)
  reconcile_ids s w (id ∷ ids) refresh =
      let (order, w') = d.range (id ∷ ids) w in reconcile_refreshed s (refresh order w')

  unfoldable pub reconcile_running : SchedulerState → W → SchedulerState × W
  unfolding reconcile_ids
  reconcile_running s w = elim d.refresh_items [
    | none ↦ (s, w)
    | some refresh ↦ reconcile_ids s w (keys s.running) refresh
  ]
