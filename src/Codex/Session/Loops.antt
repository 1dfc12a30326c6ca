-- ===== src/Codex/Session/Loops.antt =====
-- The reading loops of internal/codex/session.go, whatever a round does.
use go_symphony.Prelude.{
  ℕ, zero, suc, ◌<◌, ◌≡◌, ◌≢◌, refl, ap, ◌⊎◌, inl, inr, arith, Fallible, ok, err,
}
use go_symphony.Codex.Types.{SessionError, still_waiting}
use go_symphony.Codex.Session.{Step, again, done, loop_until, and_then}

Step-cases :
    {A : Type 0} (r : Step A) → (r ≡ again) ⊎ ((x : Fallible A SessionError) × (r ≡ done x))
Step-cases again = inl refl
Step-cases (done x) = inr (x, refl)

-- What every round keeps, the loop keeps.
pub loop_until-keeps :
    {W A : Type 0} (P : W → Type 0) (step : W → Step A × W)
    → ((w : W) → P w → P (step w).1)
    → (fuel : ℕ) (w : W) → P w
    → P (loop_until step fuel w).1
unfolding loop_until
loop_until-keeps P step keeps zero w p = p
loop_until-keeps P step keeps (suc fuel) w p = elim (Step-cases (step w).0) [
  | inl e ↦ rw (e, loop_until) (loop_until-keeps P step keeps fuel (step w).1 (keeps w p))
  | inr (x, e) ↦ rw (e, loop_until) (keeps w p)
]

-- `v` is reached from `w` by rounds that each went on.
pub data Rounds {W A : Type 0} (step : W → Step A × W) : W → W → Type 0 where
  at_once : (w : W) → Rounds step w w
  round : (w v : W) → (step w).0 ≡ again → Rounds step (step w).1 v → Rounds step w v

-- A loop that ends with something else than a lack of fuel has a last round, which ended so and which the
-- rounds before it lead to.
pub loop_until-done :
    {W A : Type 0} (step : W → Step A × W) (fuel : ℕ) (w : W) (x : Fallible A SessionError)
    → (loop_until step fuel w).0 ≡ x
    → x ≢ err still_waiting
    → (v : W) × (Rounds step w v
        × (((step v).0 ≡ done x) × ((loop_until step fuel w).1 ≡ (step v).1)))
unfolding loop_until
loop_until-done step zero w x h n = ground arith
loop_until-done step (suc fuel) w x h n = elim (Step-cases (step w).0) [
  | inl e ↦
      let (v, (rounds, (ends, last))) =
        loop_until-done step fuel (step w).1 x (rw (e, loop_until) at h) n in
      (v, (round w v e rounds, (ends, rw (e, loop_until) last)))
  | inr (y, e) ↦ (w, (at_once w, (ground arith, rw (e, loop_until) refl)))
]

-- Rounds that lower a measure, or end, end on fuel above the measure.
pub loop_until-ends :
    {W A : Type 0} (left : W → ℕ) (step : W → Step A × W)
    → ((w : W) → (step w).0 ≡ again → left (step w).1 < left w)
    → ((w : W) → (step w).0 ≢ done (err still_waiting))
    → (fuel : ℕ) (w : W) → left w < fuel
    → (loop_until step fuel w).0 ≢ err still_waiting
unfolding loop_until
loop_until-ends left step falls ends zero w h = ground arith
loop_until-ends left step falls ends (suc fuel) w h = elim (Step-cases (step w).0) [
  | inl e ↦
      rw (e, loop_until)
        (loop_until-ends left step falls ends fuel (step w).1 (omega (arith, falls w e)))
  | inr (y, e) ↦ λ k. ground (arith, ends w)
]

module _ {W A B : Type 0} where
  pub and_then-keeps :
      (P : W → Type 0) (r : Fallible A SessionError × W)
      (rest : A → W → Fallible B SessionError × W)
      → P r.1
      → ((a : A) (w : W) → P w → P (rest a w).1)
      → P (and_then r rest).1
  unfolding and_then
  and_then-keeps P (ok a, w) rest p keeps = keeps a w p
  and_then-keeps P (err e, w) rest p keeps = p

  pub and_then-ok :
      (r : Fallible A SessionError × W) (rest : A → W → Fallible B SessionError × W) (b : B)
      → (and_then r rest).0 ≡ ok b
      → (a : A) × ((r.0 ≡ ok a) × ((rest a r.1).0 ≡ ok b))
  unfolding and_then
  and_then-ok (ok a, w) rest b h = (a, (refl, h))
  and_then-ok (err e, w) rest b h = cc

  pub and_then-same :
      (r : Fallible A SessionError × W) (rest : A → W → Fallible B SessionError × W) (a : A)
      → r.0 ≡ ok a
      → and_then r rest ≡ rest a r.1
  unfolding and_then
  and_then-same (ok b, w) rest a h = ap (λ x. rest x w) (ok_injective b a h)
    where
      ok_injective : (x y : A) → ◌≡◌ {A = Fallible A SessionError} (ok x) (ok y) → x ≡ y
      ok_injective x y h = cc
  and_then-same (err e, w) rest a h = cc

  -- Parts that do not lack fuel, one after the other.
  pub and_then-ends :
      (r : Fallible A SessionError × W) (rest : A → W → Fallible B SessionError × W)
      → r.0 ≢ err still_waiting
      → ((a : A) → r.0 ≡ ok a → (rest a r.1).0 ≢ err still_waiting)
      → (and_then r rest).0 ≢ err still_waiting
  unfolding and_then
  and_then-ends (ok a, w) rest h k = k a refl
  and_then-ends (err e, w) rest h k = λ n. h (ground arith)
