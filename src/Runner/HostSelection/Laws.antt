-- ===== src/Runner/HostSelection/Laws.antt =====
-- Select of internal/runner/host_selection.go.
use go_symphony.Prelude.{ℕ, ◌≤◌, ◌≡◌, refl, ◌⊎◌, inl, Bool, true, false, List, [], ◌∷◌, arith, All}
use go_symphony.Prelude.Text.{Text, trim_space, is_empty, text_eq_iff}
use go_symphony.Prelude.Map.{Map}
use go_symphony.Runner.HostSelection.{
  HostLoad, HostSelection, has_capacity, normalize_hosts, load_of, host_counts, contains_host,
  best_host, accept_best, select_from, select,
}

-- A host of the list that has room.
abbrev pub IsFree : HostSelection → Map ℕ → List Text → Text → Type 0
IsFree s counts hosts h =
    (contains_host hosts h ≡ true) × (has_capacity s (load_of h counts) ≡ true)

-- No host of the list with room has a load below the bound.
abbrev pub IsLeast : HostSelection → Map ℕ → ℕ → List Text → Type 0
IsLeast s counts bound hosts =
    All (λ h. has_capacity s (load_of h counts) ≡ true → bound ≤ load_of h counts) hosts

-- No host of the list has room.
abbrev pub IsFull : HostSelection → Map ℕ → List Text → Type 0
IsFull s counts hosts = All (λ h. has_capacity s (load_of h counts) ≡ false) hosts

abbrev AllNonempty : List Text → Type 0
AllNonempty hosts = All (λ h. is_empty h ≡ false) hosts

module _ (s : HostSelection) (counts : Map ℕ) where
  -- From a candidate on, the loop's host is free and carries the least load.
  best_host-found :
      (hosts : List Text) (best : Text) (n : ℕ)
      → AllNonempty hosts
      → is_empty best ≡ false
      → n ≡ load_of best counts
      → let r = best_host s counts hosts best n in
        (is_empty r ≡ false) × (load_of r counts ≤ n) × IsLeast s counts (load_of r counts) hosts
  unfolding best_host
  best_host-found [] best n ne e h = ground arith
  best_host-found (x ∷ xs) best n ne e h = ground (
    arith,
    best_host-found xs best n ne.1 e h,
    best_host-found xs x (load_of x counts) ne.1 ne.0 refl,
  )

  -- Either the loop's host is the one it started with, or it is free.
  best_host-IsFree :
      (hosts : List Text) (best : Text) (n : ℕ)
      → let r = best_host s counts hosts best n in (r ≡ best) ⊎ IsFree s counts hosts r
  unfolding best_host contains_host
  best_host-IsFree [] best n = inl refl
  best_host-IsFree (x ∷ xs) best n = ground (
    arith,
    best_host-IsFree xs best n,
    best_host-IsFree xs x (load_of x counts),
    text_eq_iff x (best_host s counts xs x (load_of x counts)),
    text_eq_iff x x,
  )

  -- With no candidate yet, the loop ends without one only if every host is full.
  best_host-start :
      (hosts : List Text)
      → AllNonempty hosts
      → let r = best_host s counts hosts [] 0 in
        ((r ≡ []) × IsFull s counts hosts)
        ⊎ ((is_empty r ≡ false) × IsLeast s counts (load_of r counts) hosts)
  unfolding best_host
  best_host-start [] ne = inl (refl, tt)
  best_host-start (x ∷ xs) ne =
      ground
        (arith, best_host-start xs ne.1, best_host-found xs x (load_of x counts) ne.1 ne.0 refl)

normalize_hosts-nonempty : (hosts : List Text) → AllNonempty (normalize_hosts hosts)
unfolding normalize_hosts
normalize_hosts-nonempty [] = tt
normalize_hosts-nonempty (h ∷ hs) = ground (arith, normalize_hosts-nonempty hs)

-- What a selection owes its caller, in four cases: local, preferred, least loaded, refused.
abbrev pub Selects : HostSelection → List Text → Map ℕ → Text → Text × Bool → Type 0
Selects s hosts counts preferred r =
    ((hosts ≡ []) × (r ≡ ([], true)))
    ⊎ ((r ≡ (preferred, true)) × (is_empty preferred ≡ false) × IsFree s counts hosts preferred)
    ⊎ ((r.1 ≡ true)
        × IsFree s counts hosts r.0
        × IsLeast s counts (load_of r.0 counts) hosts
        × (is_empty preferred ≡ false → ¬ IsFree s counts hosts preferred))
    ⊎ ((r ≡ ([], false)) × IsFull s counts hosts)

select_from-Selects :
    (s : HostSelection) (hosts : List Text) (counts : Map ℕ) (preferred : Text)
    → AllNonempty hosts
    → Selects s hosts counts preferred (select_from s hosts counts preferred)
unfolding select_from accept_best
select_from-Selects s [] counts preferred ne = ground arith
select_from-Selects s (h ∷ hs) counts preferred ne =
    ground (arith, best_host-start s counts (h ∷ hs) ne, best_host-IsFree s counts (h ∷ hs) [] 0)

-- Whatever the configured hosts, the loads and the preferred host are: with no usable host the run is
-- local; a preferred host that is configured and has room is kept; else a host with room is taken
-- that carries the least load of those with room; and a run is refused only when every host is full.
pub select-Selects :
    (s : HostSelection) (preferred : Text) (loads : List HostLoad)
    → Selects s
        (normalize_hosts s.hosts)
        (host_counts loads)
        (trim_space preferred)
        (select s preferred loads)
unfolding select
select-Selects s preferred loads =
    select_from-Selects s (normalize_hosts s.hosts) (host_counts loads) (trim_space preferred)
      (normalize_hosts-nonempty s.hosts)
