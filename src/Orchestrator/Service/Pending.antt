-- ===== src/Orchestrator/Service/Pending.antt =====
-- internal/orchestrator/service.go: the pending timers, and the retry timers among them.
use go_symphony.Prelude.{
  ℕ, ◌≡◌, refl, ◌∙◌, inl, inr, Bool, true, false, ◌||◌, ◌==◌, Option, none, some, List, [], ◌∷◌,
  arith, Bool-cases,
}
use go_symphony.Prelude.Text.{Text, text_eq, text_eq_iff}
use go_symphony.Prelude.Map.{Map, lookup, insert, delete, lookup-insert, lookup-delete}
use go_symphony.Orchestrator.Service.{
  Callback, poll_tick, poll_cycle, retry_tick, Timer, ScheduledRetry, same_callback, same_timer,
  without_timer,
}

-- A timer with that call is pending.
unfoldable pub has_callback : Callback → List Timer → Bool
has_callback c [] = false
has_callback c (t ∷ ts) = same_callback t.callback c || has_callback c ts

pub same_callback_refl : (c : Callback) → same_callback c c ≡ true
unfolding same_callback
same_callback_refl (poll_tick n) = ground arith
same_callback_refl (poll_cycle n) = ground arith
same_callback_refl (retry_tick k n) = ground (arith, text_eq_iff k k)

pub same_callback_sound : (a b : Callback) → same_callback a b ≡ true → a ≡ b
unfolding same_callback
same_callback_sound (poll_tick m) (poll_tick n) h = ground arith
same_callback_sound (poll_cycle m) (poll_cycle n) h = ground arith
same_callback_sound (retry_tick j m) (retry_tick k n) h = ground (arith, text_eq_iff j k)
same_callback_sound _ _ h = cc

-- Stopping a timer with another call leaves the call pending.
pub has_callback-without :
    (c : Callback) (t : Timer) (ts : List Timer)
    → same_callback t.callback c ≡ false
    → has_callback c (without_timer t ts) ≡ has_callback c ts
unfolding has_callback without_timer same_timer
has_callback-without c t [] h = refl
has_callback-without c t (u ∷ us) h =
    ground (arith, has_callback-without c t us h, same_callback_sound t.callback u.callback)

abbrev pub is_retry_tick : Callback → Bool
is_retry_tick (retry_tick k n) = true
is_retry_tick _ = false

-- The timer is set for a poll, if it is set.
abbrev pub IsPollTimer : Option Timer → Type 0
IsPollTimer none = Unit
IsPollTimer (some t) = is_retry_tick t.callback ≡ false

-- Each retry timer of the map makes the retry's own call, and is pending.
abbrev pub RetriesFit : Map ScheduledRetry → List Timer → Type 0
RetriesFit m ts =
    (k : Text) (sr : ScheduledRetry)
    → lookup k m ≡ some sr
    → (sr.timer.callback ≡ retry_tick k sr.nonce) × (has_callback (retry_tick k sr.nonce) ts ≡ true)

other_callback :
    (a : Callback) (k : Text) (n : ℕ)
    → is_retry_tick a ≡ false
    → same_callback a (retry_tick k n) ≡ false
unfolding same_callback
other_callback (poll_tick m) k n h = refl
other_callback (poll_cycle m) k n h = refl
other_callback (retry_tick j m) k n h = cc

other_retry :
    (a : Callback) (j k : Text) (m n : ℕ)
    → a ≡ retry_tick j m
    → text_eq j k ≡ false
    → same_callback a (retry_tick k n) ≡ false
unfolding same_callback
other_retry a j k m n e h = rw e (ground arith)

pub retry_other :
    (a c : Callback) (j : Text) (m : ℕ)
    → a ≡ retry_tick j m
    → is_retry_tick c ≡ false
    → same_callback a c ≡ false
unfolding same_callback
retry_other a (poll_tick n) j m e h = rw e
retry_other a (poll_cycle n) j m e h = rw e
retry_other a (retry_tick k n) j m e h = cc

module _ (m : Map ScheduledRetry) (ts : List Timer) (fit : RetriesFit m ts) where
  pub RetriesFit-more : (t : Timer) → RetriesFit m (t ∷ ts)
  unfolding has_callback
  RetriesFit-more t k sr e = let h = fit k sr e in ground arith

  pub RetriesFit-stop :
      (t : Timer) → is_retry_tick t.callback ≡ false → RetriesFit m (without_timer t ts)
  RetriesFit-stop t other k sr e =
      let h = fit k sr e in
      (
        h.0,
        has_callback-without (retry_tick k sr.nonce) t ts
              (other_callback t.callback k sr.nonce other)
            ∙ h.1,
      )

  pub RetriesFit-drop :
      (id : Text) (old : ScheduledRetry)
      → lookup id m ≡ some old
      → RetriesFit (delete id m) (without_timer old.timer ts)
  RetriesFit-drop id old found k sr e = elim (Bool-cases (text_eq id k)) [
    | inl same ↦ absurd (ground (arith, lookup-delete id k m))
    | inr other ↦
        let h = fit k sr (ground (arith, lookup-delete id k m)) in
        (
          h.0,
          has_callback-without (retry_tick k sr.nonce) old.timer ts
                (other_retry old.timer.callback id k old.nonce sr.nonce (fit id old found).0 other)
              ∙ h.1,
        )
  ]

  -- The entry may also be dropped with its timer already gone.
  pub RetriesFit-fired :
      (id : Text) (t : Timer) (n : ℕ)
      → t.callback ≡ retry_tick id n
      → RetriesFit (delete id m) (without_timer t ts)
  RetriesFit-fired id t n call k sr e = elim (Bool-cases (text_eq id k)) [
    | inl same ↦ absurd (ground (arith, lookup-delete id k m))
    | inr other ↦
        let h = fit k sr (ground (arith, lookup-delete id k m)) in
        (
          h.0,
          has_callback-without (retry_tick k sr.nonce) t ts
                (other_retry t.callback id k n sr.nonce call other)
              ∙ h.1,
        )
  ]

  pub RetriesFit-arm :
      (id : Text) (new : ScheduledRetry)
      → new.timer.callback ≡ retry_tick id new.nonce
      → RetriesFit (insert id new m) (new.timer ∷ ts)
  unfolding has_callback
  RetriesFit-arm id new call k sr e = elim (Bool-cases (text_eq id k)) [
    | inl same ↦ ground (
      arith,
      lookup-insert id k new m,
      text_eq_iff id k,
      same_callback_refl (retry_tick id new.nonce),
    )
    | inr other ↦ let h = fit k sr (ground (arith, lookup-insert id k new m)) in ground arith
  ]

  -- A call with another nonce than the map's may go.
  pub RetriesFit-stale :
      (id : Text) (t : Timer) (n : ℕ)
      → t.callback ≡ retry_tick id n
      → ((sr : ScheduledRetry) → lookup id m ≡ some sr → (sr.nonce == n) ≡ false)
      → RetriesFit m (without_timer t ts)
  unfolding same_callback
  RetriesFit-stale id t n call stale k sr e =
      let h = fit k sr e in
      (
        h.0,
        has_callback-without (retry_tick k sr.nonce) t ts (elim (Bool-cases (text_eq id k)) [
          | inl same ↦
              let same_id = (text_eq_iff id k).0 same in
              let differs = stale sr (rw same_id e) in rw call (ground arith)
          | inr other ↦ rw call (ground arith)
        ])
            ∙ h.1,
      )
