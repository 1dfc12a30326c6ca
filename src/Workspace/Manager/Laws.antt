-- ===== src/Workspace/Manager/Laws.antt =====
-- What validateLocalPath, Remove and parseRemoteEnsureWorkspaceOutput of
-- internal/workspace/manager.go keep to.
use go_symphony.Workspace.Records.{Manager, WorkspaceError, HookPolicy, hook_timeout}
use mathlib.Core.Path.{subst}
use go_symphony.Prelude.{
  ℕ, ◌≡◌, ◌≢◌, refl, Option, none, some, [], ◌++◌, arith, Fallible, ok, err, Bool-cases, inl, inr,
  ◌⊎◌,
}
use go_symphony.Prelude.Text.{Text}
use go_symphony.Runner.Command.{CommandRequest}
use go_symphony.Workspace.Paths.{
  Segments, Lstat, absolute, show_path, canonicalize_path, is_within_root, path_eq,
}
use go_symphony.Workspace.Paths.Laws.{
  IsCanonical, canonicalize_path-IsCanonical, is_within_root-append, path_eq-append,
}
use go_symphony.Workspace.Manager.Transport.{
  Machine, Stat, directory, other_file, no_file, stat_failed, remove_workspace, run_in_workspace,
}
use go_symphony.Workspace.Manager.{
  place, validate_local_path, run_hook, remove_accepted, remove_local, remove, before_remove_policy,
}

Stat-cases :
    (s : Stat)
    → ((s ≡ directory) ⊎ (s ≡ other_file)) ⊎ ((s ≡ no_file) ⊎ ((e : Text) × (s ≡ stat_failed e)))
Stat-cases directory = inl (inl refl)
Stat-cases other_file = inl (inr refl)
Stat-cases no_file = inr (inl refl)
Stat-cases (stat_failed e) = inr (inr (e, refl))

answer-cases :
    {A E : Type 0} (r : Option (Fallible A E))
    → (r ≡ none) ⊎ (((a : A) × (r ≡ some (ok a))) ⊎ ((e : E) × (r ≡ some (err e))))
answer-cases none = inl refl
answer-cases (some (ok a)) = inr (inl (a, refl))
answer-cases (some (err e)) = inr (inr (e, refl))

-- A path with something below the root that it starts with, and no symbolic link on its way.
abbrev pub IsInside : (Segments → Lstat) → Segments → Text → Type 0
IsInside lstat root p =
    (below : Segments) × ((below ≢ [])
      × (p ≡ show_path (root ++ below))
      × IsCanonical lstat (root ++ below))

place-IsInside :
    (lstat : Segments → Lstat) (w root expanded expanded_root : Segments) (p : Text)
    → IsCanonical lstat w
    → place w root expanded expanded_root ≡ ok p
    → IsInside lstat root p
unfolding place
place-IsInside lstat w root expanded expanded_root p c h = elim (Bool-cases (path_eq w root)) [
  | inl e ↦ ground arith
  | inr e ↦ elim (Bool-cases (is_within_root w root)) [
    | inl i ↦
        let (below, same) = is_within_root-append w root i in
        (
          below,
          (
            path_eq-append w root below e same,
            ground arith,
            subst (λ q. IsCanonical lstat q) same c,
          ),
        )
    | inr i ↦ ground arith
  ]
]

pub validate_local_path-IsInside :
    (fuel : ℕ) (lstat : Segments → Lstat) (cwd : Segments) (root path p : Text)
    → validate_local_path fuel lstat cwd root path ≡ some (ok p)
    → (top : Segments) × ((canonicalize_path fuel lstat (absolute cwd root) ≡ some (ok top))
        × IsInside lstat top p)
unfolding validate_local_path
validate_local_path-IsInside fuel lstat cwd root path p h =
    elim (answer-cases (canonicalize_path fuel lstat (absolute cwd path))) [
      | inl e ↦ ground arith
      | inr (inr (x, e)) ↦ ground arith
      | inr (inl (w, e)) ↦ elim (answer-cases (canonicalize_path fuel lstat (absolute cwd root))) [
        | inl f ↦ ground arith
        | inr (inr (x, f)) ↦ ground arith
        | inr (inl (top, f)) ↦ (
          top,
          (
            f,
            place-IsInside lstat w top (absolute cwd path) (absolute cwd root) p
                (canonicalize_path-IsCanonical fuel lstat (absolute cwd path) w e) (ground arith),
          ),
        )
      ]
    ]

module _ {W : Type 0} (o : Machine W) (m : Manager) (P : W → Type 0) where
  run_hook-preserves :
      ((request : CommandRequest) (w : W) → P w → P (o.run_command request w).1)
      → (path host : Text) (policy : HookPolicy) (w : W) → P w
      → P (run_hook o m path host policy w).1
  unfolding run_hook run_in_workspace
  run_hook-preserves commands path host policy w p = ground (
    arith,
    commands
        (record {
          host = host;
          dir = path;
          command = policy.command;
          timeout = hook_timeout m.hooks;
        })
        w p,
  )

  remove_local-preserves :
      ((request : CommandRequest) (w : W) → P w → P (o.run_command request w).1)
      → {path : Text} → ((w : W) → P w → P (o.remove_all path w).1)
      → (w : W) → P w
      → P (remove_local o m path w).1
  unfolding remove_local remove_accepted remove_workspace
  remove_local-preserves commands {path} removals w p =
      let after = (run_hook o m path [] (before_remove_policy o m) w).1 in
      elim (Stat-cases (o.stat path w)) [
        | inl (inl e) ↦
            rw (e, remove_local)
              (removals after (run_hook-preserves commands path [] (before_remove_policy o m) w p))
        | inl (inr e) ↦ rw (e, remove_local) (removals w p)
        | inr (inl e) ↦ rw (e, remove_local) p
        | inr (inr (x, e)) ↦ rw (e, remove_local) p
      ]

  -- Whatever holds of the machine, is kept by every command and is kept by the removal of what lies
  -- strictly below the canonical root, is kept by Remove of any local path, whatever it answers: aside
  -- from the hooks, nothing but such paths is removed.
  pub remove-preserves :
      ((request : CommandRequest) (w : W) → P w → P (o.run_command request w).1)
      → (fuel : ℕ)
      → ((v : W) (top : Segments) (p : Text) (w : W)
          → canonicalize_path fuel (λ q. o.lstat q v) (absolute o.cwd m.root) ≡ some (ok top)
          → IsInside (λ q. o.lstat q v) top p
          → P w
          → P (o.remove_all p w).1)
      → (path : Text) (w : W) (r : Option WorkspaceError × W) → P w
      → remove o m fuel path [] w ≡ some r
      → P r.1
  unfolding remove
  remove-preserves commands fuel removals path w r p h =
      elim (answer-cases (validate_local_path fuel (λ q. o.lstat q w) o.cwd m.root path)) [
        | inl e ↦ ground arith
        | inr (inr (x, e)) ↦ ground arith
        | inr (inl (q, e)) ↦
            let (top, (same, inside)) =
              validate_local_path-IsInside fuel (λ q. o.lstat q w) o.cwd m.root path q e in
            ground
              (arith, remove_local-preserves commands (λ v. removals w top q v same inside) w p)
      ]
