-- ===== src/Orchestrator/Invariant/Fits.antt =====
-- The claimed, running and retrying maps at one item, and the limit on concurrent runs.
use go_symphony.Prelude.{ℕ, ◌+◌, ◌≤◌, ◌≡◌, true, false, Option, none, some, length, arith, is_some}
use go_symphony.Prelude.Int.{ℤ, pos, ◌≤ℤ◌, ltb_ℤ}
use go_symphony.Prelude.Text.{Text, text_eq_iff}
use go_symphony.Prelude.Map.{
  lookup, has, insert, delete, map_laws, length-insert-le, length-insert_old, length-delete-le,
}
use go_symphony.Domain.{WorkItem}
use go_symphony.Orchestrator.State.{
  Deps, ClaimedEntry, RunningEntry, RetryEntry, SchedulerState, StartRunResult,
}
use go_symphony.Orchestrator.Candidates.{reached}
use go_symphony.Orchestrator.Dispatch.{schedule_failure_retry, record_run}

-- A running item is claimed and waits for no retry; each entry names its own item; a retry's attempt
-- is at least 1.
abbrev pub EntriesFit :
    Text → Option ClaimedEntry → Option RunningEntry → Option RetryEntry → Type 0
EntriesFit k claim (some e) (some r) = ⊥
EntriesFit k claim (some e) none = (e.item.id ≡ k) × (is_some claim ≡ true)
EntriesFit k claim none (some r) = (r.item_id ≡ k) × (1 ≤ r.attempt)
EntriesFit k claim none none = Unit

abbrev pub Fits : SchedulerState → Text → Type 0
Fits s k = EntriesFit k (lookup k s.claimed) (lookup k s.running) (lookup k s.retrying)

-- A positive limit on concurrent runs is kept.
abbrev pub IsBounded : SchedulerState → Type 0
IsBounded s = ltb_ℤ (pos 0) s.max_concurrent ≡ true → pos (length s.running) ≤ℤ s.max_concurrent

pub record Inv (s : SchedulerState) : Type 0 where
  pub fits : (k : Text) → Fits s k
  pub bounded : IsBounded s

below_limit :
    (limit : ℤ) (n m : ℕ)
    → m ≤ n + 1
    → reached limit n ≡ false
    → ltb_ℤ (pos 0) limit ≡ true
    → pos m ≤ℤ limit
below_limit limit n m h room positive = ground arith

module _ {W : Type 0} (d : Deps W) (s : SchedulerState) (w : W) where
  pub record_run-Fits :
      (item : WorkItem) (attempt : ℕ) (host : Text) (result : StartRunResult) (k : Text)
      → Fits s k
      → Fits (record_run d s w item attempt host result).0 k
  unfolding record_run
  record_run-Fits item attempt host result k h =
      simp map_laws (ground (arith, text_eq_iff item.id k))

  pub schedule_failure_retry-Fits :
      (item_id identifier : Text) (attempt : ℕ) (last_error host path : Text) (k : Text)
      → lookup item_id s.running ≡ none
      → Fits s k
      → Fits (schedule_failure_retry d s w item_id identifier attempt last_error host path).0 k
  unfolding schedule_failure_retry
  schedule_failure_retry-Fits item_id identifier attempt last_error host path k idle h =
      simp map_laws (ground (arith, text_eq_iff item_id k))

  pub record_run-IsBounded :
      (item : WorkItem) (attempt : ℕ) (host : Text) (result : StartRunResult)
      → reached s.max_concurrent (length s.running) ≡ false
      → IsBounded (record_run d s w item attempt host result).0
  unfolding record_run
  record_run-IsBounded item attempt host result room =
      below_limit s.max_concurrent (length s.running) _ (length-insert-le item.id _ s.running) room

  pub record_run-Inv :
      (item : WorkItem) (attempt : ℕ) (host : Text) (result : StartRunResult)
      → reached s.max_concurrent (length s.running) ≡ false
      → Inv s
      → Inv (record_run d s w item attempt host result).0
  record_run-Inv item attempt host result room v = record {
    fits = λ k. record_run-Fits item attempt host result k (v.fits k);
    bounded = record_run-IsBounded item attempt host result room;
  }

  -- A retry may be scheduled for an item that is not running.
  pub schedule_failure_retry-Inv :
      (item_id identifier : Text) (attempt : ℕ) (last_error host path : Text)
      → lookup item_id s.running ≡ none
      → Inv s
      → Inv (schedule_failure_retry d s w item_id identifier attempt last_error host path).0
  schedule_failure_retry-Inv item_id identifier attempt last_error host path idle v = record {
    fits = λ k.
        schedule_failure_retry-Fits item_id identifier attempt last_error host path k idle
          (v.fits k);
    bounded = unfold schedule_failure_retry in v.bounded;
  }

module _ (s : SchedulerState) where
  -- A running entry may be replaced by one for the same item.
  pub put_running-Inv :
      (id : Text) (e e' : RunningEntry)
      → lookup id s.running ≡ some e
      → e'.item.id ≡ id
      → Inv s
      → Inv (record s { running = insert id e' s.running })
  put_running-Inv id e e' found same v = record {
    fits = λ k. let h = v.fits k in simp map_laws (ground (arith, text_eq_iff id k));
    bounded = rw (length-insert_old id e' s.running (ground arith)) v.bounded;
  }

  -- A run may end at any time.
  pub drop_running-Inv : (id : Text) → Inv s → Inv (record s { running = delete id s.running })
  drop_running-Inv id v = record {
    fits = λ k. let h = v.fits k in simp map_laws (ground (arith, text_eq_iff id k));
    bounded = λ p. omega (arith, v.bounded p, length-delete-le id s.running);
  }

  -- A claim may be given up where nothing runs.
  pub drop_claim-Inv :
      (id : Text)
      → lookup id s.running ≡ none
      → Inv s
      → Inv (record s { claimed = delete id s.claimed })
  drop_claim-Inv id idle v = record {
    fits = λ k. let h = v.fits k in simp map_laws (ground (arith, text_eq_iff id k));
    bounded = v.bounded;
  }

  pub drop_retry-Inv : (id : Text) → Inv s → Inv (record s { retrying = delete id s.retrying })
  drop_retry-Inv id v = record {
    fits = λ k. let h = v.fits k in simp map_laws (ground (arith, text_eq_iff id k));
    bounded = v.bounded;
  }

-- The invariant speaks of the three maps and the limit only.
abbrev pub SameMaps : SchedulerState → SchedulerState → Type 0
SameMaps s t =
    (t.claimed ≡ s.claimed)
    × (t.running ≡ s.running)
    × (t.retrying ≡ s.retrying)
    × (t.max_concurrent ≡ s.max_concurrent)

pub SameMaps-Inv : {s t : SchedulerState} → SameMaps s t → Inv s → Inv t
SameMaps-Inv {s} {t} (c, r, q, m) v = record {
  fits = λ k. rw (c, r, q) (v.fits k);
  bounded = rw (r, m) v.bounded;
}

module _ (s : SchedulerState) (k : Text) (v : Inv s) where
  -- A running entry is stored under its item's id, is claimed and waits for no retry.
  pub running-keyed :
      (e : RunningEntry)
      → lookup k s.running ≡ some e
      → (e.item.id ≡ k) × (has k s.claimed ≡ true) × (lookup k s.retrying ≡ none)
  running-keyed e found = let h = v.fits k in ground arith

  -- A retry waits for an item that is not running.
  pub retrying-idle :
      (r : RetryEntry)
      → lookup k s.retrying ≡ some r
      → (lookup k s.running ≡ none) × (r.item_id ≡ k) × (1 ≤ r.attempt)
  retrying-idle r found = let h = v.fits k in ground arith
