-- ===== src/Runner/HostSelection.antt =====
-- internal/runner/host_selection.go: which SSH host takes the next run. A load's `running` is a
-- count, so it is not negative.
pub mod Laws
use go_symphony.Prelude.{
  ℕ, ◌+◌, Bool, true, false, not, ◌&&◌, Option, none, some, List, [], ◌∷◌, ltb, leb, if◌then◌else◌,
}
use go_symphony.Prelude.Int.{ℤ, pos, ltb_ℤ}
use go_symphony.Prelude.Text.{Text, text_eq, trim_space, is_empty}
use go_symphony.Prelude.Map.{Map, lookup, insert}

pub record HostLoad : Type 0 where
  pub host : Text
  pub running : ℕ

pub record HostSelection : Type 0 where
  pub hosts : List Text
  pub max_per_host : Option ℤ

unfoldable pub has_capacity : HostSelection → ℕ → Bool
has_capacity s running = elim s.max_per_host [
  | none ↦ true
  | some limit ↦ ltb_ℤ (pos running) limit
]

unfoldable pub normalize_hosts : List Text → List Text
normalize_hosts [] = []
normalize_hosts (host ∷ hosts) =
    let trimmed = trim_space host in
    let rest = normalize_hosts hosts in if is_empty trimmed then rest else trimmed ∷ rest

-- `counts[host]`, zero for a missing key
unfoldable pub load_of : Text → Map ℕ → ℕ
load_of host counts = elim (lookup host counts) [ none ↦ 0 | some n ↦ n ]

unfoldable pub add_counts : Map ℕ → List HostLoad → Map ℕ
unfolding load_of
add_counts counts [] = counts
add_counts counts (load ∷ loads) =
    let host = trim_space load.host in
    add_counts
      (if is_empty host
        then counts
        else if leb load.running 0
        then counts
        else insert host (load_of host counts + load.running) counts)
      loads

unfoldable pub host_counts : List HostLoad → Map ℕ
unfolding add_counts
host_counts loads = add_counts [] loads

unfoldable pub contains_host : List Text → Text → Bool
contains_host [] host = false
contains_host (candidate ∷ hosts) host =
    let rest = contains_host hosts host in if text_eq candidate host then true else rest

-- the loop that looks for the least loaded host
unfoldable pub best_host : HostSelection → Map ℕ → List Text → Text → ℕ → Text
best_host s counts [] best best_load = best
best_host s counts (host ∷ hosts) best best_load =
    let load = load_of host counts in
    let skip = best_host s counts hosts best best_load in
    let take = best_host s counts hosts host load in
    if not (has_capacity s load)
    then skip
    else if is_empty best
    then take
    else if ltb load best_load
    then take
    else skip

unfoldable pub accept_best : Text → Text × Bool
accept_best best = if is_empty best then ([], false) else (best, true)

unfoldable pub select_from : HostSelection → List Text → Map ℕ → Text → Text × Bool
unfolding has_capacity load_of contains_host best_host accept_best
select_from s [] counts preferred = ([], true)
select_from s (h ∷ hs) counts preferred =
    if not (is_empty preferred)
      && (contains_host (h ∷ hs) preferred && has_capacity s (load_of preferred counts))
    then (preferred, true)
    else accept_best (best_host s counts (h ∷ hs) [] 0)

unfoldable pub select : HostSelection → Text → List HostLoad → Text × Bool
unfolding normalize_hosts host_counts select_from
select s preferred loads =
    select_from s (normalize_hosts s.hosts) (host_counts loads) (trim_space preferred)
