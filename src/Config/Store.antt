-- ===== src/Config/Store.antt =====
-- internal/config/store.go: the last workflow that loaded, read again when its file changes. The mutex
-- makes each reload one step, the assignment of a path another one; a tick is a call of `tick`.
-- `parse_settings` is any reading of the settings out of a workflow.
pub mod Laws
pub mod Reach
use go_symphony.Prelude.{
  ℕ, Bool, true, false, not, ◌&&◌, ◌||◌, ◌==◌, Option, none, some, [], if◌then◌else◌, Fallible, ok,
  err,
}
use go_symphony.Prelude.Int.{ℤ, leb_ℤ}
use go_symphony.Prelude.Text.{Text, text_eq}
use go_symphony.Json.{Value}
use go_symphony.Config.Settings.{Settings}
use go_symphony.Config.Workflow.{
  Workflow, LoadError, missing_workflow_file, other_error, parse, resolved_workflow_path,
}

pub record FileInfo : Type 0 where
  pub mod_time : ℤ
  pub size : ℤ

pub record FileOps (W : Type 0) : Type 0 where
  pub read_file : Text → W → Fallible Text Text × W
  pub stat_file : Text → W → Fallible FileInfo Text × W
  pub hash : Text → ℕ

pub record WorkflowStamp : Type 0 where
  pub mod_time : ℤ
  pub size : ℤ
  pub hash : ℕ

pub record StoreSnapshot : Type 0 where
  pub loaded_path : Text
  pub workflow : Workflow
  pub settings : Settings
  pub stamp : WorkflowStamp

pub record Store : Type 0 where
  pub desired_path : Text
  pub snapshot : StoreSnapshot
  pub closed : Bool

abbrev same_int : ℤ → ℤ → Bool
same_int a b = leb_ℤ a b && leb_ℤ b a

-- `currentStamp == s.snapshot.stamp`
unfoldable pub same_stamp : WorkflowStamp → WorkflowStamp → Bool
same_stamp a b = same_int a.mod_time b.mod_time && (same_int a.size b.size && a.hash == b.hash)

-- Close; a second one does nothing either.
unfoldable pub close_store : Store → Store
close_store s = record s { closed = true }

module _ {W : Type 0} (ops : FileOps W) (decode_yaml : Text → Fallible Value Text)
    (parse_settings : Workflow → Fallible Settings LoadError) where
  abbrev stamp_of : Text → FileInfo → WorkflowStamp
  stamp_of content stat = record {
    mod_time = stat.mod_time;
    size = stat.size;
    hash = ops.hash content;
  }

  unfoldable pub parse_state :
      Text → Text → FileInfo → Fallible (Workflow × WorkflowStamp) LoadError
  unfolding parse
  parse_state path content stat = elim (parse decode_yaml content path) [
    | err e ↦ err e
    | ok workflow ↦ ok (workflow, stamp_of content stat)
  ]

  unfoldable pub load_state : Text → W → Fallible (Workflow × WorkflowStamp) LoadError × W
  unfolding parse_state
  load_state path w =
      let (content, w1) = ops.read_file path w in
      elim content [
        | err e ↦ (err (missing_workflow_file path e), w1)
        | ok text ↦
            let (stat, w2) = ops.stat_file path w1 in
            elim stat [
              | err e ↦ (err (other_error e), w2)
              | ok info ↦ (parse_state path text info, w2)
            ]
      ]

  unfoldable pub settle_snapshot :
      Text → Fallible (Workflow × WorkflowStamp) LoadError → Fallible StoreSnapshot LoadError
  settle_snapshot path (err e) = err e
  settle_snapshot path (ok (workflow, stamp)) = elim (parse_settings workflow) [
    | err e ↦ err e
    | ok settings ↦
        ok (record { loaded_path = path; workflow = workflow; settings = settings; stamp = stamp })
  ]

  unfoldable pub load_snapshot : Text → W → Fallible StoreSnapshot LoadError × W
  unfolding load_state settle_snapshot
  load_snapshot path w = let (state, w1) = load_state path w in (settle_snapshot path state, w1)

  unfoldable pub current_stamp : Text → W → Fallible WorkflowStamp Text × W
  current_stamp path w =
      let (content, w1) = ops.read_file path w in
      elim content [
        | err e ↦ (err e, w1)
        | ok text ↦
            let (stat, w2) = ops.stat_file path w1 in
            elim stat [ err e ↦ (err e, w2) | ok info ↦ (ok (stamp_of text info), w2) ]
      ]

  unfoldable pub take_snapshot :
      Store → Fallible StoreSnapshot LoadError × W → (Option LoadError × Store) × W
  take_snapshot s (err e, w) = ((some e, s), w)
  take_snapshot s (ok snapshot, w) = ((none, record s { snapshot = snapshot }), w)

  -- Whether the file's stamp is that of the snapshot.
  unfoldable pub is_unchanged : Store → Fallible WorkflowStamp Text → Bool
  unfolding same_stamp
  is_unchanged s (err e) = false
  is_unchanged s (ok stamp) = same_stamp stamp s.snapshot.stamp

  unfoldable pub reload_locked : Bool → Store → W → (Option LoadError × Store) × W
  unfolding take_snapshot load_snapshot current_stamp is_unchanged
  reload_locked force s w =
      if force || not (text_eq s.desired_path s.snapshot.loaded_path)
      then take_snapshot s (load_snapshot s.desired_path w)
      else let (stamp, w1) = current_stamp s.desired_path w in
        if is_unchanged s stamp
        then ((none, s), w1)
        else take_snapshot s (load_snapshot s.desired_path w1)

  -- Current and CurrentSettings: a failed reload is not reported, and the snapshot is read under the lock
  -- again. `between` is what others do to the store after the reload.
  unfoldable pub current : (Store × W → Store × W) → Store → W → Workflow × (Store × W)
  unfolding reload_locked
  current between s w =
      let (r, w') = reload_locked false s w in
      let x = between (r.1, w') in (x.0.snapshot.workflow, x)

  unfoldable pub current_settings : (Store × W → Store × W) → Store → W → Settings × (Store × W)
  unfolding reload_locked
  current_settings between s w =
      let (r, w') = reload_locked false s w in
      let x = between (r.1, w') in (x.0.snapshot.settings, x)

  unfoldable pub force_reload : Store → W → (Option LoadError × Store) × W
  unfolding reload_locked
  force_reload s w = reload_locked true s w

  -- The first half of SetWorkflowPath: the path is resolved, and assigned under the lock.
  unfoldable pub set_desired_path : Fallible Text Text → Text → Store → Option LoadError × Store
  unfolding resolved_workflow_path
  set_desired_path getwd path s = elim (resolved_workflow_path getwd path) [
    | err e ↦ (some (other_error e), s)
    | ok resolved ↦ (none, record s { desired_path = resolved })
  ]

  unfoldable reload_after :
      (Store × W → Store × W) → Option LoadError × Store → W → (Option LoadError × Store) × W
  unfolding reload_locked
  reload_after between (some e, s) w = ((some e, s), w)
  reload_after between (none, s) w = let (s1, w1) = between (s, w) in reload_locked true s1 w1

  -- SetWorkflowPath holds the lock twice. `between` is what others do to the store in between: a tick, a
  -- call, another path.
  unfoldable pub set_workflow_path :
      (Store × W → Store × W)
      → Fallible Text Text
      → Text
      → Store
      → W
      → (Option LoadError × Store) × W
  unfolding set_desired_path reload_after
  set_workflow_path between getwd path s w = reload_after between (set_desired_path getwd path s) w

  unfoldable pub clear_workflow_path :
      (Store × W → Store × W) → Fallible Text Text → Store → W → (Option LoadError × Store) × W
  unfolding set_workflow_path
  clear_workflow_path between getwd s w = set_workflow_path between getwd [] s w

  unfoldable pub open_store :
      Text → Fallible StoreSnapshot LoadError × W → Fallible Store LoadError × W
  open_store path (err e, w) = (err e, w)
  open_store path (ok snapshot, w) =
      (ok (record { desired_path = path; snapshot = snapshot; closed = false }), w)

  unfoldable pub new_store : Fallible Text Text → Text → W → Fallible Store LoadError × W
  unfolding resolved_workflow_path open_store load_snapshot
  new_store getwd path w = elim (resolved_workflow_path getwd path) [
    | err e ↦ (err (other_error e), w)
    | ok resolved ↦ open_store resolved (load_snapshot resolved w)
  ]

  -- One round of run: a closed store takes no tick.
  unfoldable pub tick : Store → W → Store × W
  unfolding reload_locked
  tick s w = if s.closed then (s, w) else let (r, w') = reload_locked false s w in (r.1, w')
