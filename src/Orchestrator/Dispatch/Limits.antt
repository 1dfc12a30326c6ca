-- ===== src/Orchestrator/Dispatch/Limits.antt =====
-- The limits of processCandidates in internal/orchestrator/state.go, and what a failed start leaves.
use go_symphony.Prelude.{
  ℕ, ◌+◌, ◌≤◌, ◌≡◌, refl, ◌∙◌, inl, inr, Bool, true, false, Option, none, some, [], arith,
  if◌then◌else◌, Fallible, ok, err, Bool-cases,
}
use go_symphony.Prelude.Int.{ℤ, pos, ltb_ℤ, ◌≤ℤ◌}
use go_symphony.Prelude.Text.{Text, text_eq, text_eq_iff}
use go_symphony.Prelude.Map.{lookup, insert, count_by-insert_new}
use go_symphony.Domain.{WorkItem}
use go_symphony.Orchestrator.State.{
  Deps, SchedulerState, RunningEntry, StartRunResult, normalize_state,
}
use go_symphony.Orchestrator.Candidates.{
  reached, in_state, state_limit, running_count_for_state, should_dispatch,
}
use go_symphony.Orchestrator.Dispatch.{
  schedule_failure_retry, record_run, admit_host, finish_start, start_item, dispatch_item,
  revalidate_candidate, dispatch_revalidated, process_candidate,
}

-- A positive limit on the runs of a state is kept.
abbrev pub IsWithin : SchedulerState → Text → Type 0
IsWithin s state =
    ltb_ℤ (pos 0) (state_limit s state) ≡ true
    → pos (running_count_for_state s state) ≤ℤ state_limit s state

-- Starting an item adds its entry and nothing else to the running map; a refusal adds none. The
-- limits stay.
pub record Outcome (s t : SchedulerState) (item : WorkItem) (started : Bool) : Type 0 where
  pub limits : t.state_limits ≡ s.state_limits
  pub refused : started ≡ false → (t.running ≡ s.running) × (t.claimed ≡ s.claimed)
  pub added :
      started ≡ true
      → (e : RunningEntry) × (e.item ≡ item) × (t.running ≡ insert item.id e s.running)

module _ {W : Type 0} (d : Deps W) (s : SchedulerState) where
  finish_start-Outcome :
      (item : WorkItem) (attempt : ℕ) (host : Text) (r : Fallible StartRunResult Text × W)
      → let f = finish_start d s item attempt host r in Outcome s f.1 item f.0
  unfolding finish_start record_run schedule_failure_retry
  finish_start-Outcome item attempt host (ok result, w) = record {
    limits = refl;
    refused = λ e. cc;
    added = λ e. (_, refl, refl);
  }
  finish_start-Outcome item attempt host (err x, w) = record {
    limits = refl;
    refused = λ e. (refl, refl);
    added = λ e. cc;
  }

  start_item-Outcome :
      (item : WorkItem) (attempt : ℕ) (r : (Text × Bool) × W)
      → let f = start_item d s item attempt r in Outcome s f.1 item f.0
  unfolding start_item
  start_item-Outcome item attempt ((host, false), w) = record {
    limits = refl;
    refused = λ e. (refl, refl);
    added = λ e. cc;
  }
  start_item-Outcome item attempt ((host, true), w) = finish_start-Outcome item attempt host _

  pub dispatch_item-Outcome :
      (w : W) (item : WorkItem) (attempt : ℕ) (preferred : Text)
      → let f = dispatch_item d s w item attempt preferred in Outcome s f.1 item f.0
  unfolding dispatch_item
  dispatch_item-Outcome w item attempt preferred =
      start_item-Outcome item attempt (admit_host d s preferred w)

pub started-count :
    (s t : SchedulerState) (item : WorkItem) (e : RunningEntry) (state : Text)
    → lookup item.id s.running ≡ none
    → e.item ≡ item
    → t.running ≡ insert item.id e s.running
    → running_count_for_state t state ≡ (
        if text_eq (normalize_state item.state) (normalize_state state)
        then running_count_for_state s state + 1
        else running_count_for_state s state)
unfolding running_count_for_state in_state
started-count s t item e state idle is_item added =
    rw added
      (count_by-insert_new (in_state (normalize_state state)) item.id e s.running idle ∙ rw is_item)

pub same-state_limit :
    (s t : SchedulerState) (state : Text)
    → t.state_limits ≡ s.state_limits
    → state_limit t state ≡ state_limit s state
unfolding state_limit
same-state_limit s t state same = rw same

same-count :
    (s t : SchedulerState) (state : Text)
    → t.running ≡ s.running
    → running_count_for_state t state ≡ running_count_for_state s state
unfolding running_count_for_state
same-count s t state same = rw same

-- What the guard of a dispatch says about the item's own state.
pub should_dispatch-room :
    (s : SchedulerState) (item : WorkItem)
    → should_dispatch s item ≡ true
    → (reached (state_limit s item.state) (running_count_for_state s item.state) ≡ false)
      × (lookup item.id s.running ≡ none)
unfolding should_dispatch
should_dispatch-room s item h = ground arith

limit_of_state :
    (s : SchedulerState) (a b : Text)
    → normalize_state a ≡ normalize_state b
    → (state_limit s a ≡ state_limit s b)
      × (running_count_for_state s a ≡ running_count_for_state s b)
unfolding state_limit running_count_for_state
limit_of_state s a b same = (rw (same, state_limit), rw (same, running_count_for_state))

one_more :
    (limit : ℤ) (n m : ℕ)
    → reached limit n ≡ false
    → ltb_ℤ (pos 0) limit ≡ true
    → m ≤ n + 1
    → pos m ≤ℤ limit
one_more limit n m room positive h = ground arith

module _ {W : Type 0} (d : Deps W) (s : SchedulerState) (w : W) (item : WorkItem) where
  -- A refreshed item that is the listed one, in the same state.
  abbrev pub IsSteady : Option WorkItem → Type 0
  IsSteady none = Unit
  IsSteady (some x) = (x.id ≡ item.id) × (normalize_state x.state ≡ normalize_state item.state)

  dispatch_revalidated-IsWithin :
      (r : Option WorkItem × W) (state : Text)
      → should_dispatch s item ≡ true
      → IsSteady r.0
      → IsWithin s state
      → IsWithin (dispatch_revalidated d s r).0 state
  unfolding dispatch_revalidated
  dispatch_revalidated-IsWithin (none, w') state go steady h = h
  dispatch_revalidated-IsWithin (some x, w') state go steady h =
      let f = dispatch_item d s w' x 0 [] in
      let out = dispatch_item-Outcome d s w' x 0 [] in
      let room = should_dispatch-room s item go in
      let own = limit_of_state s x.state item.state steady.1 in
      elim (Bool-cases f.0) [
        | inl started ↦
            let e = out.added started in
            let count = started-count s f.1 x e.0 state (rw steady.0 room.1) e.1 e.2 in
            let limit = same-state_limit s f.1 state out.limits in
            elim (Bool-cases (text_eq (normalize_state x.state) (normalize_state state))) [
              | inl same ↦
                  let here =
                    limit_of_state s x.state state
                      ((text_eq_iff (normalize_state x.state) (normalize_state state)).0 same) in
                  λ positive.
                    rw (limit, count)
                      (one_more (state_limit s state) (running_count_for_state s state) _
                        (ground arith) (rw limit at positive) (ground arith))
              | inr other ↦
                  λ positive. let old = h (rw limit at positive) in rw (limit, count, other) old
            ]
        | inr refused ↦
            rw
              (
                same-state_limit s f.1 state out.limits,
                same-count s f.1 state (out.refused refused).0,
              )
              h
      ]

  -- One round of processCandidates keeps every state within its positive limit, where the refresh
  -- returns the listed item in the state that the list showed.
  pub process_candidate-IsWithin :
      (state : Text)
      → IsSteady (revalidate_candidate d s w item.id).0
      → IsWithin s state
      → IsWithin (process_candidate d s w item).0 state
  unfolding process_candidate
  process_candidate-IsWithin state steady h = elim (Bool-cases (should_dispatch s item)) [
    | inl go ↦
        rw go (dispatch_revalidated-IsWithin (revalidate_candidate d s w item.id) state go steady h)
    | inr skipped ↦ rw skipped h
  ]
