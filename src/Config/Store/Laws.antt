-- ===== src/Config/Store/Laws.antt =====
-- What internal/config/store.go keeps while its file changes.
use go_symphony.Prelude.{
  ◌≡◌, ◌≢◌, ◌⊎◌, refl, sym, ap, ◌∙◌, inl, inr, Bool, true, false, not, ◌||◌, Option, none, arith,
  Fallible, ok, err, Bool-cases, Fallible-cases,
}
use go_symphony.Prelude.Text.{Text, text_eq, text_eq_iff}
use go_symphony.Json.{Value}
use go_symphony.Config.Settings.{Settings}
use go_symphony.Config.Workflow.{Workflow, LoadError, parse}
use go_symphony.Config.Store.{
  FileOps, FileInfo, StoreSnapshot, WorkflowStamp, Store, parse_state, load_state, settle_snapshot,
  load_snapshot, take_snapshot, current_stamp, is_unchanged, reload_locked,
}

pub ok_value : {A : Type 0} {x y : A} → ◌≡◌ {A = Fallible A LoadError} (ok x) (ok y) → x ≡ y
ok_value h = cc

ok_pair :
    {A B : Type 0} {x x' : A} {y y' : B}
    → ◌≡◌ {A = Fallible (A × B) LoadError} (ok (x, y)) (ok (x', y'))
    → x ≡ x'
ok_pair h = cc

module _ {W : Type 0} (ops : FileOps W) (decode_yaml : Text → Fallible Value Text)
    (parse_settings : Workflow → Fallible Settings LoadError) where
  -- In the world `v` the file at the loaded path was read, then its times: the workflow is what its
  -- content parses to, the settings are those of the workflow, and the stamp is that of the file.
  abbrev pub IsReadAt : W → StoreSnapshot → Type 0
  IsReadAt v p =
      (content : Text) × (info : FileInfo) × (((ops.read_file p.loaded_path v).0 ≡ ok content)
        × (((ops.stat_file p.loaded_path (ops.read_file p.loaded_path v).1).0 ≡ ok info)
            × ((parse decode_yaml content p.loaded_path ≡ ok p.workflow)
                × ((parse_settings p.workflow ≡ ok p.settings)
                    × (p.stamp ≡ record {
                      mod_time = info.mod_time;
                      size = info.size;
                      hash = ops.hash content;
                    })))))

  load_state-read :
      (path : Text) (w : W) (x : Workflow) (stamp : WorkflowStamp)
      → (load_state ops decode_yaml parse_settings path w).0 ≡ ok (x, stamp)
      → (content : Text) × (info : FileInfo) × (((ops.read_file path w).0 ≡ ok content)
          × (((ops.stat_file path (ops.read_file path w).1).0 ≡ ok info)
              × ((parse decode_yaml content path ≡ ok x)
                  × (stamp ≡ record {
                    mod_time = info.mod_time;
                    size = info.size;
                    hash = ops.hash content;
                  }))))
  unfolding load_state parse_state
  load_state-read path w x stamp h = elim (Fallible-cases (ops.read_file path w).0) [
    | inr (e, f) ↦ ground arith
    | inl (content, f) ↦ elim (Fallible-cases (ops.stat_file path (ops.read_file path w).1).0) [
      | inr (e, g) ↦ ground arith
      | inl (info, g) ↦ elim (Fallible-cases (parse decode_yaml content path)) [
        | inr (e, k) ↦ ground arith
        | inl (y, k) ↦
            let same = ok_value (rw (k, parse_state) at (rw (f, g, load_state) at h)) in
            (content, info, (f, (g, (k ∙ ap ok (ap (λ r. r.0) same), sym (ap (λ r. r.1) same)))))
      ]
    ]
  ]

  pub load_snapshot-IsReadAt :
      (path : Text) (w : W) (p : StoreSnapshot)
      → (load_snapshot ops decode_yaml parse_settings path w).0 ≡ ok p
      → IsReadAt w p × (p.loaded_path ≡ path)
  unfolding load_snapshot settle_snapshot
  load_snapshot-IsReadAt path w p h =
      elim (Fallible-cases (load_state ops decode_yaml parse_settings path w).0) [
        | inr (e, f) ↦ ground arith
        | inl ((x, stamp), f) ↦ elim (Fallible-cases (parse_settings x)) [
          | inr (e, g) ↦ ground arith
          | inl (settings, g) ↦
              let (content, info, (is_read, (has_info, (parses, stamped)))) =
                load_state-read path w x stamp f in
              rw⁻¹ (ok_value (rw (g, settle_snapshot) at (rw (f, load_snapshot) at h)))
                ((content, info, (is_read, (has_info, (parses, (g, stamped))))), refl)
        ]
      ]

  -- What a reload leaves behind: the store as it was and an error, or a snapshot of the desired path.
  abbrev pub Settles : Store → (Option LoadError × Store) × W → Type 0
  Settles s r =
      ((r.0.0 ≢ none) × (r.0.1 ≡ s))
      ⊎ ((r.0.0 ≡ none)
          × ((r.0.1.snapshot.loaded_path ≡ s.desired_path) × (r.0.1.desired_path ≡ s.desired_path)))

  -- A snapshot that a reload from (s, w) read: at the path then desired, at once or after a look at the
  -- stamp of the file.
  abbrev pub IsReadFrom : Store → W → StoreSnapshot → Type 0
  IsReadFrom s w p =
      (v : W) × (((v ≡ w) ⊎ (v ≡ (current_stamp ops decode_yaml parse_settings s.desired_path w).1))
        × (IsReadAt v p × (p.loaded_path ≡ s.desired_path)))

  abbrev SettlesRead : Store → W → (Option LoadError × Store) × W → Type 0
  SettlesRead s w r = Settles s r × ((r.0.1.snapshot ≡ s.snapshot) ⊎ IsReadFrom s w r.0.1.snapshot)

  take_snapshot-Settles :
      (s : Store) (w v : W) (r : Fallible StoreSnapshot LoadError × W)
      → (v ≡ w) ⊎ (v ≡ (current_stamp ops decode_yaml parse_settings s.desired_path w).1)
      → ((p : StoreSnapshot) → r.0 ≡ ok p → IsReadAt v p × (p.loaded_path ≡ s.desired_path))
      → SettlesRead s w (take_snapshot ops decode_yaml parse_settings s r)
  unfolding take_snapshot
  take_snapshot-Settles s w v (err e, u) at loaded = (inl (ground arith, refl), inl refl)
  take_snapshot-Settles s w v (ok p, u) at loaded =
      (inr (refl, ((loaded p refl).1, refl)), inr (v, (at, loaded p refl)))

  nothing_to_do :
      (force : Bool) (s : Store) (w u : W)
      → (force || not (text_eq s.desired_path s.snapshot.loaded_path)) ≡ false
      → SettlesRead s w ((none, s), u)
  nothing_to_do force s w u h =
      let same : text_eq s.desired_path s.snapshot.loaded_path ≡ true = ground arith in
      (
        inr (refl, (sym ((text_eq_iff s.desired_path s.snapshot.loaded_path).0 same), refl)),
        inl refl,
      )

  pub reload_locked-SettlesRead :
      (force : Bool) (s : Store) (w : W)
      → SettlesRead s w (reload_locked ops decode_yaml parse_settings force s w)
  unfolding reload_locked
  reload_locked-SettlesRead force s w =
      let load =
        λ (v : W)
            (at : (v ≡ w)
              ⊎ (v ≡ (current_stamp ops decode_yaml parse_settings s.desired_path w).1)).
          take_snapshot-Settles s w v
            (load_snapshot ops decode_yaml parse_settings s.desired_path v) at
            (load_snapshot-IsReadAt s.desired_path v) in
      elim (Bool-cases (force || not (text_eq s.desired_path s.snapshot.loaded_path))) [
        | inl e ↦ rw (e, reload_locked) (load w (inl refl))
        | inr e ↦
            let stamp = (current_stamp ops decode_yaml parse_settings s.desired_path w) in
            elim (Bool-cases (is_unchanged ops decode_yaml parse_settings s stamp.0)) [
              | inl f ↦ rw (e, f, reload_locked) (nothing_to_do force s w stamp.1 e)
              | inr f ↦ rw (e, f, reload_locked) (load stamp.1 (inr refl))
            ]
      ]

  -- Every reload, forced or not, either reports an error and leaves the store as it was, or reports none
  -- and leaves a snapshot of the desired path.
  pub reload_locked-Settles :
      (force : Bool) (s : Store) (w : W)
      → Settles s (reload_locked ops decode_yaml parse_settings force s w)
  reload_locked-Settles force s w = (reload_locked-SettlesRead force s w).0
