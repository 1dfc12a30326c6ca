-- ===== src/Tests/World.antt =====
-- A world in which the scheduler runs: a clock that counts calls, a tracker with a fixed list, runs
-- that start at once.
use mathlib.Core.Path.{subst}
use mathlib.Core.Option.{some-injective}
use go_symphony.Prelude.{
  ℕ, ◌+◌, ◌*◌, ◌≡◌, true, none, some, List, [], ◌∷◌, Fallible, ok, err, All, filter_by, arith,
  if◌then◌else◌,
}
use go_symphony.Prelude.Int.{pos}
use go_symphony.Prelude.Text.{Text, codes, text_eq_iff}
use go_symphony.Domain.{WorkItem}
use go_symphony.Runner.HostSelection.{contains_host}
use go_symphony.Orchestrator.State.{Deps, StartRunResult}
use go_symphony.Orchestrator.Dispatch.{no_item}
use go_symphony.Orchestrator.Invariant.Dispatch.{IsSound, IsDistinct, AllAmong}

unfoldable pub distinct : List Text → List Text
unfolding contains_host
distinct [] = []
distinct (x ∷ xs) = let rest = distinct xs in if contains_host rest x then rest else x ∷ rest

distinct-IsDistinct : (xs : List Text) → IsDistinct (distinct xs)
unfolding distinct
distinct-IsDistinct [] = tt
distinct-IsDistinct (x ∷ xs) = ground (arith, distinct-IsDistinct xs)

distinct-covers :
    (xs : List Text) (k : Text) → contains_host xs k ≡ true → contains_host (distinct xs) k ≡ true
unfolding distinct contains_host
distinct-covers [] k h = cc
distinct-covers (x ∷ xs) k h = ground (arith, distinct-covers xs k, text_eq_iff x k)

All-filter_by :
    (ids : List Text) (items : List WorkItem)
    → All (λ i. contains_host ids i.id ≡ true) (filter_by (λ i. contains_host ids i.id) items)
unfolding filter_by
All-filter_by ids [] = tt
All-filter_by ids (x ∷ xs) = ground (arith, All-filter_by ids xs)

abbrev pub todo_item : WorkItem
todo_item = record no_item {
  id = codes "1";
  identifier = codes "ABC-1";
  title = codes "First";
  state = codes "Todo";
}

abbrev pub other_item : WorkItem
other_item = record no_item {
  id = codes "2";
  identifier = codes "ABC-2";
  title = codes "Second";
  state = codes "In Progress";
  priority = some (pos 1);
}

abbrev pub board : List WorkItem
board = todo_item ∷ other_item ∷ []

abbrev pub started_run : StartRunResult
started_run = record {
  handle = some 7;
  worker_host = [];
  workspace_path = codes "/w";
  session_id = codes "s";
}

abbrev pub sunny : Deps ℕ
sunny = record {
  now = λ w. (pos (w * 1000000000), w + 1);
  range = λ ks w. (distinct ks, w);
  duration_text = λ t. codes "a while";
  list_candidates = some (λ w. (ok board, w));
  refresh_items = some (λ ids w. (ok (filter_by (λ i. contains_host ids i.id) board), w));
  start_run = some (λ request w. (ok started_run, w));
  stop_run = some (λ request w. (none, w));
  host_selection = none;
  admit_run = none;
}

-- The same world, in which no run starts.
abbrev pub broken : Deps ℕ
broken = record sunny { start_run = some (λ request w. (err (codes "no runner"), w)) }

sunny_refreshes :
    (refresh : List Text → ℕ → Fallible (List WorkItem) Text × ℕ)
    → sunny.refresh_items ≡ some refresh
    → (ids : List Text) (w : ℕ) → AllAmong ids (refresh ids w).0
sunny_refreshes refresh given ids w =
    subst (λ (g : List Text → ℕ → Fallible (List WorkItem) Text × ℕ). AllAmong ids (g ids w).0)
      (some-injective _ _ given) (All-filter_by ids board)

pub sunny-IsSound : IsSound sunny
sunny-IsSound = record {
  refreshes = sunny_refreshes;
  ranges = λ ks w. distinct-IsDistinct ks;
  covers = λ ks w k h. distinct-covers ks k h;
}
