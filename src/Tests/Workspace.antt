-- ===== src/Tests/Workspace.antt =====
-- Paths, symbolic links and the manager on concrete inputs.
use go_symphony.Workspace.Records.{Manager, new_manager}
use mathlib.Core.List.{append-nil, append_assoc}
use go_symphony.Prelude.{
  ◌<◌, ◌≡◌, ◌≢◌, refl, sym, ap, ◌∙◌, All, true, false, none, some, List, [], ◌∷◌, ◌++◌, arith, ok,
}
use go_symphony.Prelude.Int.{pos}
use go_symphony.Prelude.Text.{Text, codes, text_eq, is_blank}
use go_symphony.Workspace.Paths.{
  join_path, safe_identifier, Segments, Lstat, plain, symlink, walk, arrived, followed, absolute,
  is_within_root, show_path, canonicalize_path, path_eq,
}
use go_symphony.Workspace.Paths.Laws.{canonicalize_path_loops}
use go_symphony.Workspace.Manager.{
  path_for_identifier, validate_remote_path, validate_local_path, remove,
}
use go_symphony.Workspace.Manager.Laws.{IsInside, remove-preserves}
use go_symphony.Workspace.Manager.Transport.{
  Machine, directory, remove_workspace, run_in_workspace, parse_remote_ensure_output,
}
use go_symphony.Workspace.Manager.Transport.Laws.{
  parse_remote_ensure_output_lem, ensure_output, is_one_line,
}
use go_symphony.Tests.Scheduler.{some_settings}

-- Only "/loop" is a symbolic link, to itself; whatever else is asked for is a directory.
abbrev disk : Segments → Lstat
disk [] = plain
disk (x ∷ xs) = elim (text_eq x (codes "loop")) [
  | true ↦ symlink (ok (codes "/loop"))
  | false ↦ plain
]

abbrev tame : Segments → Lstat
tame path = plain

-- The paths that were removed.
abbrev machine : Machine (List Text)
machine = record {
  cwd = codes "home" ∷ [];
  lstat = λ p w. tame p;
  stat = λ p w. directory;
  mkdir_all = λ p w. (none, w);
  remove_all = λ p w. (none, p ∷ w);
  run_command = λ request w. (ok (record { output = []; status = pos 0 }), w);
  error_text = λ e. [];
  status_text = λ n. [];
}

abbrev below_root : Text
below_root = codes "/w/ABC-1"

abbrev manager : Manager
manager = new_manager some_settings

removed : remove machine manager 1 below_root [] [] ≡ some (none, below_root ∷ [])
unfolding remove new_manager validate_local_path absolute text_eq canonicalize_path path_eq is_blank
    is_within_root show_path remove_workspace run_in_workspace
removed = refl

-- The root was not removed.
abbrev HasRoot : List Text → Type 0
HasRoot log = All (λ p. text_eq p (codes "/w") ≡ false) log

root_path :
    (top : Segments)
    → canonicalize_path 1 tame (absolute (codes "home" ∷ []) manager.root) ≡ some (ok top)
    → top ≡ codes "w" ∷ []
unfolding canonicalize_path absolute new_manager text_eq
root_path top h = cc

below_is_not_root :
    (below : Segments) → below ≢ [] → text_eq (show_path (codes "w" ∷ below)) (codes "/w") ≡ false
unfolding show_path text_eq
below_is_not_root [] h = ground arith
below_is_not_root (x ∷ xs) h = refl

inside_keeps_root :
    (v : List Text) (top : Segments) (p : Text) (log : List Text)
    → canonicalize_path 1 tame (absolute (codes "home" ∷ []) manager.root) ≡ some (ok top)
    → IsInside tame top p
    → HasRoot log
    → HasRoot (p ∷ log)
inside_keeps_root v top p log h (below, rest) kept =
    (rw (rest.1, root_path top h) (below_is_not_root below rest.0), kept)

remove-preserves_example : HasRoot (below_root ∷ [])
remove-preserves_example =
    remove-preserves machine manager HasRoot (λ request w p. p) 1 inside_keeps_root below_root []
      (none, below_root ∷ []) tt removed

tame_arrives :
    (current : Segments) (segments : List Text)
    → walk tame current segments ≡ arrived (current ++ segments)
unfolding walk
tame_arrives current [] = ap arrived (sym (append-nil current))
tame_arrives current (x ∷ xs) =
    tame_arrives (current ++ x ∷ []) xs ∙ ap arrived (append_assoc current (x ∷ []) xs)

no_links : (p q : Segments) → walk tame [] p ≡ followed q → 0 < 0
no_links p q h = cc (tame_arrives [] p, h)

loop_loops : walk disk [] (codes "loop" ∷ []) ≡ followed (codes "loop" ∷ [])
unfolding walk text_eq
loop_loops = refl

canonicalize_path_loops_example : canonicalize_path 1000 disk (codes "loop" ∷ []) ≡ none
canonicalize_path_loops_example = canonicalize_path_loops disk (codes "loop" ∷ []) loop_loops 1000

one_line : is_one_line below_root ≡ true
unfolding is_one_line
one_line = refl

not_blank : is_blank below_root ≡ false
unfolding is_blank
not_blank = refl

parse_remote_ensure_output_lem_example :
    parse_remote_ensure_output (ensure_output true below_root) ≡ ok (below_root, true)
parse_remote_ensure_output_lem_example =
    parse_remote_ensure_output_lem true below_root one_line not_blank

-- On a worker host the identifier ".." names the directory above the root.
remote_escape :
    path_for_identifier machine manager 1 (codes "..") (codes "host") [] ≡ some (ok (codes "/"))
unfolding path_for_identifier new_manager text_eq is_blank join_path safe_identifier
    validate_remote_path
remote_escape = refl
