-- ===== src/Config/Store/Reach.antt =====
-- What stays true of a store of internal/config/store.go whatever happens to it.
use go_symphony.Prelude.{◌≡◌, ◌⊎◌, Bool, Fallible}
use go_symphony.Prelude.Text.{Text}
use go_symphony.Json.{Value}
use go_symphony.Config.Settings.{Settings}
use go_symphony.Config.Workflow.{Workflow, LoadError}
use go_symphony.Config.Store.{FileOps, Store, reload_locked, set_desired_path, tick, close_store}
use go_symphony.Config.Store.Laws.{IsReadFrom}

module _ {W : Type 0} (ops : FileOps W) (decode_yaml : Text → Fallible Value Text)
    (parse_settings : Workflow → Fallible Settings LoadError) where
  -- What may happen to a store: its calls, the ticks of its clock, and anything outside.
  pub data Step : Store × W → Store × W → Type 0 where
    reloads :
        (force : Bool) (s : Store) (w : W)
        → Step
            (s, w)
            (
              (reload_locked ops decode_yaml parse_settings force s w).0.1,
              (reload_locked ops decode_yaml parse_settings force s w).1,
            )
    sets_path :
        (getwd : Fallible Text Text) (path : Text) (s : Store) (w : W)
        → Step (s, w) ((set_desired_path ops decode_yaml parse_settings getwd path s).1, w)
    ticks : (s : Store) (w : W) → Step (s, w) (tick ops decode_yaml parse_settings s w)
    closes : (s : Store) (w : W) → Step (s, w) (close_store s, w)
    outside : (s : Store) (v w : W) → Step (s, v) (s, w)

  pub data Reaches : Store × W → Store × W → Type 0 where
    here : (x : Store × W) → Reaches x x
    then_step : (x y z : Store × W) → Reaches x y → Step y z → Reaches x z

  -- The step leaves the snapshot alone, or reads it.
  abbrev Refreshes : Store × W → Store × W → Type 0
  Refreshes x y =
      (y.0.snapshot ≡ x.0.snapshot) ⊎ IsReadFrom ops decode_yaml parse_settings x.0 x.1 y.0.snapshot

  -- The snapshot of `y` is that of the start, or was read at a point on the way.
  abbrev pub IsReadOnTheWay : Store × W → Store × W → Type 0
  IsReadOnTheWay x y =
      (y.0.snapshot ≡ x.0.snapshot)
      ⊎ ((z : Store × W) × (Reaches x z
            × (Reaches z y × IsReadFrom ops decode_yaml parse_settings z.0 z.1 y.0.snapshot)))
