-- ===== src/Orchestrator/Snapshot/Order.antt =====
-- The comparisons by which snapshot of internal/orchestrator/state.go sorts.
use go_symphony.Prelude.{◌≡◌, Bool, true, false, not, ◌||◌, arith, if◌then◌else◌}
use go_symphony.Prelude.Int.{ℤ, ltb_ℤ}
use go_symphony.Prelude.Text.{
  Text, text_eq, text_lt, text_eq_iff, text_lt_asymm, text_le_trans, text_lt_connex,
}
use go_symphony.Domain
use go_symphony.Domain.{ActiveRun}
use go_symphony.Orchestrator.Snapshot.{run_less, retry_less}

-- The comparison by a first text, then a second one.
abbrev pair_less : Text → Text → Bool → Text → Text → Bool
pair_less n i rest m j =
    if not (text_eq n m) then text_lt n m else if not (text_eq i j) then text_lt i j else rest

pair_less_asymm :
    (n i m j : Text) (r q : Bool)
    → (r ≡ true → q ≡ false)
    → pair_less n i r m j ≡ true
    → pair_less m j q n i ≡ false
pair_less_asymm n i m j r q back h = ground (
  arith,
  text_eq_iff n m,
  text_eq_iff m n,
  text_eq_iff i j,
  text_eq_iff j i,
  text_lt_asymm n m,
  text_lt_asymm i j,
)

-- "Not after", by the first text, then the second, is transitive.
pair_le_trans :
    (n i m j l k : Text) (r q p : Bool)
    → (r ≡ false → q ≡ false → p ≡ false)
    → pair_less m j r n i ≡ false
    → pair_less l k q m j ≡ false
    → pair_less l k p n i ≡ false
pair_le_trans n i m j l k r q p chain h g = ground (
  arith,
  text_eq_iff m n,
  text_eq_iff l m,
  text_eq_iff l n,
  text_eq_iff j i,
  text_eq_iff k j,
  text_eq_iff k i,
  text_le_trans n m l,
  text_le_trans i j k,
  text_lt_connex n m,
  text_lt_connex m l,
  text_lt_connex i j,
  text_lt_connex j k,
  text_lt_asymm n m,
  text_lt_asymm m l,
  text_lt_asymm n l,
)

pub run_less_asymm : (a b : ActiveRun) → run_less a b ≡ true → run_less b a ≡ false
unfolding run_less
run_less_asymm a b h =
    pair_less_asymm a.item_identifier a.item_id b.item_identifier b.item_id
      (ltb_ℤ a.started_at b.started_at) (ltb_ℤ b.started_at a.started_at) (λ e. ground arith) h

pub run_le_trans :
    (a b c : ActiveRun) → run_less b a ≡ false → run_less c b ≡ false → run_less c a ≡ false
unfolding run_less
run_le_trans a b c h k =
    pair_le_trans a.item_identifier a.item_id b.item_identifier b.item_id c.item_identifier
      c.item_id (ltb_ℤ b.started_at a.started_at) (ltb_ℤ c.started_at b.started_at)
      (ltb_ℤ c.started_at a.started_at) (λ e f. ground arith) h k

-- Comparisons of due times: before any names.
abbrev due_less : ℤ → ℤ → Bool → Bool
due_less t u rest = if ltb_ℤ t u || ltb_ℤ u t then ltb_ℤ t u else rest

due_less_asymm :
    (t u : ℤ) (r q : Bool) → (r ≡ true → q ≡ false) → due_less t u r ≡ true → due_less u t q ≡ false
due_less_asymm t u r q back h = ground arith

due_le_trans :
    (t u v : ℤ) (r q p : Bool)
    → (r ≡ false → q ≡ false → p ≡ false)
    → due_less u t r ≡ false
    → due_less v u q ≡ false
    → due_less v t p ≡ false
due_le_trans t u v r q p chain h k = ground arith

pub retry_less_asymm : (a b : Domain.RetryEntry) → retry_less a b ≡ true → retry_less b a ≡ false
unfolding retry_less
retry_less_asymm a b h =
    due_less_asymm a.due_at b.due_at _ _
      (λ e. ground (
        arith,
        text_eq_iff a.item_identifier b.item_identifier,
        text_eq_iff b.item_identifier a.item_identifier,
        text_lt_asymm a.item_identifier b.item_identifier,
        text_lt_asymm a.item_id b.item_id,
      ))
      h

abbrev names_less : Domain.RetryEntry → Domain.RetryEntry → Bool
names_less a b =
    if not (text_eq a.item_identifier b.item_identifier)
    then text_lt a.item_identifier b.item_identifier
    else text_lt a.item_id b.item_id

names_le_trans :
    (a b c : Domain.RetryEntry)
    → names_less b a ≡ false
    → names_less c b ≡ false
    → names_less c a ≡ false
names_le_trans a b c h k = ground (
  arith,
  text_eq_iff b.item_identifier a.item_identifier,
  text_eq_iff c.item_identifier b.item_identifier,
  text_eq_iff c.item_identifier a.item_identifier,
  text_le_trans a.item_identifier b.item_identifier c.item_identifier,
  text_lt_connex a.item_identifier b.item_identifier,
  text_lt_connex b.item_identifier c.item_identifier,
  text_le_trans a.item_id b.item_id c.item_id,
)

pub retry_le_trans :
    (a b c : Domain.RetryEntry)
    → retry_less b a ≡ false
    → retry_less c b ≡ false
    → retry_less c a ≡ false
unfolding retry_less
retry_le_trans a b c h k =
    due_le_trans a.due_at b.due_at c.due_at (names_less b a) (names_less c b) (names_less c a)
      (names_le_trans a b c) h k
