-- ===== src/Worker/Run/Reconciled.antt =====
-- A worker of internal/cli/runtime.go and the scheduler of internal/orchestrator/state.go judge an item
-- alike.
use go_symphony.Prelude.{
  ◌≡◌, refl, ap, ◌∙◌, inl, inr, Bool, true, false, not, ◌||◌, some, List, [], ◌∷◌, arith,
  if◌then◌else◌, Bool-cases,
}
use go_symphony.Prelude.Text.{Text, text_eq, text_eq_iff, trim_space, to_lower, is_empty, is_blank}
use go_symphony.Prelude.Map.{Map, lookup, insert, has, lookup-insert}
use go_symphony.Domain.{WorkItem}
use go_symphony.Config.Settings.{Settings}
use go_symphony.Orchestrator.State.{
  Deps, RunningEntry, SchedulerState, normalize_state, add_states, normalize_state_set,
}
use go_symphony.Orchestrator.Candidates.{is_active, is_terminal, not_routable}
use go_symphony.Orchestrator.Reconcile.{reconcile_entry, invalidate_run}
use go_symphony.Worker.Prompt.{state_in}
use go_symphony.Worker.Run.{is_continued}

has-insert : (k j : Text) (m : Map (Unit {0})) → has j (insert k tt m) ≡ (text_eq k j || has j m)
has-insert k j m = ground (arith, lookup-insert k j tt m)

map_lower-nonempty : (s : Text) → is_empty s ≡ false → is_empty (to_lower s) ≡ false
unfolding to_lower
map_lower-nonempty [] h = h
map_lower-nonempty (c ∷ s) h = refl

normalize_state-nonempty : (s : Text) → is_blank s ≡ false → is_empty (normalize_state s) ≡ false
unfolding normalize_state is_blank
normalize_state-nonempty s h = map_lower-nonempty (trim_space s) h

has-add_states :
    (s : Text) (out : Map (Unit {0})) (values : List Text)
    → is_blank s ≡ false
    → has (normalize_state s) (add_states out values)
      ≡ (has (normalize_state s) out || state_in s values)
unfolding add_states state_in
has-add_states s out [] h = ground arith
has-add_states s out (v ∷ vs) h = elim (Bool-cases (is_empty (normalize_state v))) [
  | inl e ↦
      let other : text_eq (normalize_state v) (normalize_state s) ≡ true
          → is_empty (normalize_state s) ≡ true =
        λ q. rw ((text_eq_iff (normalize_state v) (normalize_state s)).0 q) at e in
      rw (e, add_states)
        (ground (arith, has-add_states s out vs h, other, normalize_state-nonempty s h))
  | inr e ↦
      rw (e, add_states)
        (ground (
          arith,
          has-add_states s (insert (normalize_state v) tt out) vs h,
          has-insert (normalize_state v) (normalize_state s) out,
        ))
]

same_branches :
    {A : Type 0} (terminal active off : Bool) (stop : Bool → A) (keep : A)
    → (if terminal
        then stop true
        else if not active
        then stop false
        else if off
        then stop false
        else keep)
      ≡ (if (if off then false else if not active || terminal then false else true)
          then keep
          else stop terminal)
same_branches true true true stop keep = refl
same_branches true true false stop keep = refl
same_branches true false true stop keep = refl
same_branches true false false stop keep = refl
same_branches false true true stop keep = refl
same_branches false true false stop keep = refl
same_branches false false true stop keep = refl
same_branches false false false stop keep = refl

-- A worker goes on with an item that it refreshed exactly if the scheduler that was started with the same
-- settings keeps its run when it reconciles the item; otherwise the scheduler stops the run, and its
-- workspace goes if the state is terminal. The item's state is not blank.
pub is_continued-reconciled :
    {W : Type 0} (d : Deps W) (s : SchedulerState) (w : W) (id : Text) (entry : RunningEntry)
    (settings : Settings) (item : WorkItem)
    → s.active_states ≡ normalize_state_set settings.provider.active_states
    → s.terminal_states ≡ normalize_state_set settings.provider.terminal_states
    → is_blank item.state ≡ false
    → reconcile_entry d s w id entry (some item) ≡ (
        if is_continued settings item
        then (record s { running = insert id (record entry { item = item }) s.running }, w)
        else invalidate_run d s w entry (is_terminal s item.state))
unfolding reconcile_entry is_continued is_active is_terminal normalize_state_set lookup
is_continued-reconciled d s w id entry settings item active terminal h =
    let a : is_active s item.state ≡ state_in item.state settings.provider.active_states =
      ap (λ m. has (normalize_state item.state) m) active
      ∙ has-add_states item.state [] settings.provider.active_states h in
    let t : is_terminal s item.state ≡ state_in item.state settings.provider.terminal_states =
      ap (λ m. has (normalize_state item.state) m) terminal
      ∙ has-add_states item.state [] settings.provider.terminal_states h in
    rw⁻¹ (a, t)
      (same_branches (is_terminal s item.state) (is_active s item.state) (not_routable item)
        (λ b. invalidate_run d s w entry b) _)
