-- ===== src/Orchestrator/Candidates/Order.antt =====
-- sortCandidates of internal/orchestrator/state.go puts the candidates in order and loses none.
use mathlib.Core.List.{Perm}
use go_symphony.Prelude.{
  ℕ, ◌<◌, ◌≡◌, refl, ◌⊎◌, inl, inr, Bool, true, false, not, ◌&&◌, ◌||◌, ◌==◌, none, some, List, [],
  ◌∷◌, arith, ltb, if◌then◌else◌, Option-cases,
}
use go_symphony.Prelude.Sorting.{
  sort_by-IsSortedBy, sort_by-perm, IsOrderedBy, IsSortedBy-IsOrderedBy,
}
use go_symphony.Prelude.Int.{ℤ, pos, pos_part, ltb_ℤ, leb_ℤ}
use go_symphony.Prelude.Text.{Text, text_lt, text_lt_asymm, text_le_trans, is_blank}
use go_symphony.Domain.{WorkItem}
use go_symphony.Orchestrator.State.{first_non_empty}
use go_symphony.Orchestrator.Candidates.{
  candidate_less, sort_candidates, priority_rank, created_at_key,
}

-- What a candidate is sorted by.
abbrev name_key : WorkItem → Text
name_key a = first_non_empty (a.identifier ∷ a.id ∷ [])

-- The comparison on the three keys: priority, time, name.
abbrev key_less : ℕ → ℤ → Text → ℕ → ℤ → Text → Bool
key_less p t n q u m =
    if not (p == q) then ltb p q else if ltb_ℤ t u || ltb_ℤ u t then ltb_ℤ t u else text_lt n m

key_less_asymm :
    (p q : ℕ) (t u : ℤ) (n m : Text) → key_less p t n q u m ≡ true → key_less q u m p t n ≡ false
key_less_asymm p q t u n m h = ground (arith, text_lt_asymm n m)

key_le_trans :
    (p q r : ℕ) (t u v : ℤ) (n m l : Text)
    → key_less q u m p t n ≡ false
    → key_less r v l q u m ≡ false
    → key_less r v l p t n ≡ false
key_le_trans p q r t u v n m l h k = ground (arith, text_le_trans n m l)

candidate_less_asymm : (a b : WorkItem) → candidate_less a b ≡ true → candidate_less b a ≡ false
unfolding candidate_less
candidate_less_asymm a b h =
    key_less_asymm (priority_rank a.priority) (priority_rank b.priority) (created_at_key a)
      (created_at_key b) (name_key a) (name_key b) h

candidate_le_trans :
    (a b c : WorkItem)
    → candidate_less b a ≡ false
    → candidate_less c b ≡ false
    → candidate_less c a ≡ false
unfolding candidate_less
candidate_le_trans a b c h k =
    key_le_trans (priority_rank a.priority) (priority_rank b.priority) (priority_rank c.priority)
      (created_at_key a) (created_at_key b) (created_at_key c) (name_key a) (name_key b)
      (name_key c) h k

-- Priorities 1 to 4 come first, in this order; every other priority, and none, comes after them.
abbrev pub urgency : WorkItem → ℕ
urgency a = elim a.priority [
  | none ↦ 5
  | some p ↦ if leb_ℤ (pos 1) p && leb_ℤ p (pos 4) then pos_part p else 5
]

-- The time of creation; an item without one is as young as one of the year 9999.
abbrev pub birth : WorkItem → ℤ
birth a = elim a.created_at [ none ↦ pos 315506361600000000000 | some t ↦ t ]

-- The identifier, and the id of an item whose identifier is blank.
abbrev pub shown_name : WorkItem → Text
shown_name a = if is_blank a.identifier then (if is_blank a.id then [] else a.id) else a.identifier

-- `a` may stand before `b`: it is more urgent; or as urgent, and older; or as urgent and as old, and its
-- name is not after that of `b`.
abbrev pub InOrder : WorkItem → WorkItem → Type 0
InOrder a b =
    (urgency a < urgency b)
    ⊎ ((urgency a ≡ urgency b)
        × ((ltb_ℤ (birth a) (birth b) ≡ true)
            ⊎ ((leb_ℤ (birth a) (birth b) ≡ true)
                × ((leb_ℤ (birth b) (birth a) ≡ true)
                    × (text_lt (shown_name b) (shown_name a) ≡ false)))))

priority_rank-urgency : (a : WorkItem) → priority_rank a.priority ≡ urgency a
unfolding priority_rank
priority_rank-urgency a = elim (Option-cases a.priority) [
  | inl e ↦ ground arith
  | inr (p, e) ↦ ground arith
]

created_at_key-birth : (a : WorkItem) → created_at_key a ≡ birth a
unfolding created_at_key
created_at_key-birth a = refl

name_key-shown_name : (a : WorkItem) → name_key a ≡ shown_name a
unfolding first_non_empty
name_key-shown_name a = ground arith

key_less-or :
    (p q : ℕ) (t u : ℤ) (n m : Text)
    → key_less p t n q u m ≡ false
    → (q < p)
      ⊎ ((q ≡ p)
          × ((ltb_ℤ u t ≡ true)
              ⊎ ((leb_ℤ u t ≡ true) × ((leb_ℤ t u ≡ true) × (text_lt n m ≡ false)))))
key_less-or p q t u n m h = ground arith

candidate_less-InOrder : (a b : WorkItem) → candidate_less b a ≡ false → InOrder a b
unfolding candidate_less
candidate_less-InOrder a b h =
    key_less-or (urgency b) (urgency a) (birth b) (birth a) (shown_name b) (shown_name a) (
      rw
        (
          priority_rank-urgency a,
          priority_rank-urgency b,
          created_at_key-birth a,
          created_at_key-birth b,
          name_key-shown_name a,
          name_key-shown_name b,
        )
        at h)

-- The candidates are tried by priority (1 to 4, then all others), then by age (those without a time of
-- creation as of the year 9999), then by identifier (the id if that is blank): each one may stand
-- before all later ones in that order, and they are the candidates that were listed.
pub sort_candidates_lem :
    (xs : List WorkItem) → IsOrderedBy InOrder (sort_candidates xs) × Perm (sort_candidates xs) xs
unfolding sort_candidates
sort_candidates_lem xs = (
  IsSortedBy-IsOrderedBy candidate_less InOrder candidate_less-InOrder _
      (sort_by-IsSortedBy candidate_less candidate_less_asymm candidate_le_trans xs),
  sort_by-perm candidate_less xs,
)
