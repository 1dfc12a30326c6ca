-- ===== src/Orchestrator/Service/Sync.antt =====
-- syncRetryTimersLocked of internal/orchestrator/service.go arms every retry.
use go_symphony.Prelude.{
  ◌≡◌, refl, ◌∙◌, ◌⊎◌, inl, inr, Bool, true, false, Option, none, some, List, [], ◌∷◌, arith,
  Bool-cases, Option-cases,
}
use go_symphony.Prelude.Int.{ℤ}
use go_symphony.Prelude.Text.{Text, text_eq, text_eq_iff}
use go_symphony.Prelude.Map.{Map, lookup, keys, lookup-insert}
use go_symphony.Runner.HostSelection.{contains_host}
use go_symphony.Orchestrator.State.{Deps, RetryEntry}
use go_symphony.Orchestrator.Invariant.Dispatch.{IsSound}
use go_symphony.Orchestrator.Service.{
  Callback, ScheduledRetry, Service, is_current, drop_stale, drop_stale_loop, has_timer, arm_retry,
  arm_loop, sync_retry_timers, new_timer, retry_delay, retry_tick,
}
use go_symphony.Orchestrator.Service.Pending.{
  has_callback, has_callback-without, is_retry_tick, RetriesFit, RetriesFit-drop, RetriesFit-arm,
  retry_other,
}

-- The retry timers fit, and the call `c` is pending or not, as `b` says.
abbrev pub Holds : Callback → Bool → Service → Type 0
Holds c b s = RetriesFit s.retry_timers s.pending × (has_callback c s.pending ≡ b)

-- The retry of the item, if one waits, has a timer with its nonce.
abbrev pub IsArmed : Service → Text → Type 0
IsArmed s k =
    (e : RetryEntry)
    → lookup k s.state.retrying ≡ some e
    → has_timer (lookup k s.retry_timers) e ≡ true

module _ (c : Callback) (poll : is_retry_tick c ≡ false) (b : Bool) where
  drop_stale-Holds :
      (s : Service) (id : Text) (e : Option ScheduledRetry)
      → lookup id s.retry_timers ≡ e
      → Holds c b s
      → Holds c b (drop_stale s id e)
  unfolding drop_stale
  drop_stale-Holds s id none found h = h
  drop_stale-Holds s id (some old) found h =
      elim (Bool-cases (is_current old (lookup id s.state.retrying))) [
        | inl current ↦ rw current h
        | inr stale ↦ rw stale (
          RetriesFit-drop s.retry_timers s.pending h.0 id old found,
          has_callback-without c old.timer s.pending
                (retry_other old.timer.callback c id old.nonce (h.0 id old found).0 poll)
              ∙ h.1,
        )
      ]

  drop_stale_loop-Holds :
      (s : Service) (ids : List Text) → Holds c b s → Holds c b (drop_stale_loop s ids)
  unfolding drop_stale_loop
  drop_stale_loop-Holds s [] h = h
  drop_stale_loop-Holds s (id ∷ ids) h =
      let e = lookup id s.retry_timers in
      drop_stale_loop-Holds (drop_stale s id e) ids (drop_stale-Holds s id e refl h)

  arm_retry-Holds :
      (s : Service) (now : ℤ) (id : Text) (e : Option RetryEntry)
      → Holds c b s
      → Holds c b (arm_retry s now id e)
  unfolding arm_retry has_callback
  arm_retry-Holds s now id none h = h
  arm_retry-Holds s now id (some e) h = elim (Bool-cases (has_timer (lookup id s.retry_timers) e)) [
    | inl armed ↦ rw armed h
    | inr bare ↦ rw bare (
      RetriesFit-arm s.retry_timers s.pending h.0 id _ refl,
      ground (arith, h.1, retry_other (retry_tick id e.nonce) c id e.nonce refl poll),
    )
  ]

  arm_loop-Holds :
      (s : Service) (now : ℤ) (ids : List Text) → Holds c b s → Holds c b (arm_loop s now ids)
  unfolding arm_loop
  arm_loop-Holds s now [] h = h
  arm_loop-Holds s now (id ∷ ids) h =
      let e = lookup id s.state.retrying in
      arm_loop-Holds (arm_retry s now id e) now ids (arm_retry-Holds s now id e h)

  -- The retry timers keep fitting, and a poll's call stays pending, or not, as it was.
  pub sync_retry_timers-Holds :
      {W : Type 0} (d : Deps W) (s : Service) (w : W)
      → Holds c b s
      → Holds c b (sync_retry_timers d s w).0
  unfolding sync_retry_timers
  sync_retry_timers-Holds d s w h =
      let scheduled = d.range (keys s.retry_timers) w in
      let s1 = drop_stale_loop s scheduled.0 in
      let n = d.now scheduled.1 in
      let due = d.range (keys s1.state.retrying) n.1 in
      arm_loop-Holds s1 n.0 due.0 (drop_stale_loop-Holds s scheduled.0 h)

arm_retry-IsArmed :
    (s : Service) (now : ℤ) (id : Text) (x : Option RetryEntry)
    → lookup id s.state.retrying ≡ x
    → IsArmed (arm_retry s now id x) id
unfolding arm_retry has_timer
arm_retry-IsArmed s now id none h e found = cc
arm_retry-IsArmed s now id (some x) h e found = ground (
  arith,
  lookup-insert id id
      (record { nonce = x.nonce; timer = new_timer s (retry_delay x now) (retry_tick id x.nonce) })
      s.retry_timers,
  text_eq_iff id id,
)

arm_retry-keeps :
    (s : Service) (now : ℤ) (id k : Text) (x : Option RetryEntry)
    → lookup id s.state.retrying ≡ x
    → IsArmed s k
    → IsArmed (arm_retry s now id x) k
unfolding arm_retry has_timer
arm_retry-keeps s now id k none h armed e found = armed e found
arm_retry-keeps s now id k (some x) h armed e found = ground (
  arith,
  armed e,
  lookup-insert id k
      (record { nonce = x.nonce; timer = new_timer s (retry_delay x now) (retry_tick id x.nonce) })
      s.retry_timers,
  text_eq_iff id k,
)

arm_loop-IsArmed :
    (s : Service) (now : ℤ) (ids : List Text) (k : Text)
    → (contains_host ids k ≡ true) ⊎ IsArmed s k
    → IsArmed (arm_loop s now ids) k
unfolding arm_loop contains_host
arm_loop-IsArmed s now [] k (inl h) = cc
arm_loop-IsArmed s now [] k (inr h) = h
arm_loop-IsArmed s now (id ∷ ids) k (inr h) =
    let x = lookup id s.state.retrying in
    arm_loop-IsArmed (arm_retry s now id x) now ids k (inr (arm_retry-keeps s now id k x refl h))
arm_loop-IsArmed s now (id ∷ ids) k (inl h) =
    let x = lookup id s.state.retrying in
    arm_loop-IsArmed (arm_retry s now id x) now ids k (elim (Bool-cases (text_eq id k)) [
      | inl same ↦ inr (rw (← (text_eq_iff id k).0 same) (arm_retry-IsArmed s now id x refl))
      | inr other ↦ inl (ground arith)
    ])

-- A key of a map is among its keys.
contains_host-keys :
    {V : Type 0} (m : Map V) (k : Text) {v : V}
    → lookup k m ≡ some v
    → contains_host (keys m) k ≡ true
unfolding contains_host lookup
contains_host-keys [] k h = cc
contains_host-keys ((j, x) ∷ m) k {v} h = ground (arith, contains_host-keys m k {v = v})

-- Afterwards every waiting retry has a timer with its own nonce.
pub sync_retry_timers-IsArmed :
    {W : Type 0} (d : Deps W) (sound : IsSound d) (s : Service) (w : W) (k : Text)
    → IsArmed (sync_retry_timers d s w).0 k
unfolding sync_retry_timers
sync_retry_timers-IsArmed d sound s w k =
    let scheduled = d.range (keys s.retry_timers) w in
    let s1 = drop_stale_loop s scheduled.0 in
    let n = d.now scheduled.1 in
    let due = d.range (keys s1.state.retrying) n.1 in
    elim (Option-cases (lookup k s1.state.retrying)) [
      | inl absent ↦ arm_loop-IsArmed s1 n.0 due.0 k (inr (λ e found. cc))
      | inr (e, found) ↦ arm_loop-IsArmed s1 n.0 due.0 k (
          inl (
            sound.covers (keys s1.state.retrying) n.1 k
              (contains_host-keys s1.state.retrying k found)))
    ]
