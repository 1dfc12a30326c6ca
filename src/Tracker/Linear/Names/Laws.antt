-- ===== src/Tracker/Linear/Names/Laws.antt =====
-- What internal/trackers/linear/reader.go asks for by names and ids.
use go_symphony.Prelude.{
  ℕ, zero, suc, ◌+◌, ◌≤◌, ◌≡◌, refl, inl, inr, Bool, true, false, not, ◌&&◌, ◌||◌, List, [], ◌∷◌,
  ◌++◌, arith, if◌then◌else◌, Bool-cases, length, take, drop, All,
}
use go_symphony.Prelude.Text.{Text, text_eq, text_eq_iff, trim_space, is_empty}
use go_symphony.Prelude.Map.{Map, lookup, insert, has, lookup-insert}
use go_symphony.Tracker.Linear.Names.{
  normalize_from, normalize_ids, batches_from, batches, page_size,
}

-- How often a name occurs in a list.
abbrev pub count_of : Text → List Text → ℕ
count_of y [] = 0
count_of y (x ∷ xs) = (if text_eq x y then 1 else 0) + count_of y xs

-- Whether one of the values is the name, with spaces around it.
abbrev pub is_asked : Text → List Text → Bool
is_asked y [] = false
is_asked y (v ∷ vs) = text_eq (trim_space v) y || is_asked y vs

has-insert :
    (y name : Text) (seen : Map (Unit {0}))
    → has y (insert name tt seen) ≡ (text_eq name y || has y seen)
has-insert y name seen = ground (arith, lookup-insert name y tt seen)

count-normalize_from :
    (y : Text) (seen : Map (Unit {0})) (values : List Text)
    → count_of y (normalize_from seen values)
      ≡ (if not (is_empty y || has y seen) && is_asked y values then 1 else 0)
unfolding normalize_from
count-normalize_from y seen [] = ground arith
count-normalize_from y seen (v ∷ vs) =
    elim (Bool-cases (is_empty (trim_space v) || has (trim_space v) seen)) [
      | inl e ↦
          let skipped : text_eq (trim_space v) y ≡ true → (is_empty y || has y seen) ≡ true =
            λ q. rw ((text_eq_iff (trim_space v) y).0 q) at e in
          rw (e, normalize_from) (ground (arith, count-normalize_from y seen vs, skipped))
      | inr e ↦
          let fresh : text_eq (trim_space v) y ≡ true → (is_empty y || has y seen) ≡ false =
            λ q. rw ((text_eq_iff (trim_space v) y).0 q) at e in
          rw (e, normalize_from)
            (ground (
              arith,
              count-normalize_from y (insert (trim_space v) tt seen) vs,
              has-insert y (trim_space v) seen,
              fresh,
            ))
    ]

-- The ids that a refresh asks for are the given ones, trimmed, each once however often it is given, and
-- none that is blank.
pub count-normalize_ids :
    (y : Text) (values : List Text)
    → count_of y (normalize_ids values) ≡ (if not (is_empty y) && is_asked y values then 1 else 0)
unfolding normalize_ids lookup
count-normalize_ids y values = ground (arith, count-normalize_from y [] values)

-- The batches, one after the other.
abbrev pub joined : List (List Text) → List Text
joined [] = []
joined (b ∷ bs) = b ++ joined bs

take-drop : (n : ℕ) (xs : List Text) → take n xs ++ drop n xs ≡ xs
take-drop zero xs = refl
take-drop (suc n) [] = refl
take-drop (suc n) (x ∷ xs) = rw (take-drop n xs) refl

length-take : (n : ℕ) (xs : List Text) → length (take n xs) ≤ n
length-take zero xs = omega arith
length-take (suc n) [] = omega arith
length-take (suc n) (x ∷ xs) = omega (arith, length-take n xs)

length-drop : (n : ℕ) (xs : List Text) → length (drop n xs) ≤ length xs
length-drop zero xs = omega arith
length-drop (suc n) [] = omega arith
length-drop (suc n) (x ∷ xs) = omega (arith, length-drop n xs)

joined-batches_from :
    (fuel : ℕ) (ids : List Text) → length ids ≤ fuel → joined (batches_from fuel ids) ≡ ids
unfolding batches_from
joined-batches_from zero [] h = refl
joined-batches_from zero (id ∷ ids) h = ground arith
joined-batches_from (suc fuel) [] h = refl
joined-batches_from (suc fuel) (id ∷ ids) h =
    rw (joined-batches_from fuel (drop page_size (id ∷ ids)) (omega (arith, h, length-drop 49 ids)))
      (take-drop page_size (id ∷ ids))

abbrev pub IsBatch : List Text → Type 0
IsBatch b = (1 ≤ length b) × (length b ≤ page_size)

IsBatch-batches_from : (fuel : ℕ) (ids : List Text) → All IsBatch (batches_from fuel ids)
unfolding batches_from
IsBatch-batches_from zero ids = tt
IsBatch-batches_from (suc fuel) [] = tt
IsBatch-batches_from (suc fuel) (id ∷ ids) = (
  (omega arith, length-take page_size (id ∷ ids)),
  IsBatch-batches_from fuel (drop page_size (id ∷ ids)),
)

-- The batches of a refresh hold every id once more in its order, and no batch is empty or longer than
-- a page.
pub batches_lem : (ids : List Text) → (joined (batches ids) ≡ ids) × All IsBatch (batches ids)
unfolding batches
batches_lem ids =
    (joined-batches_from (length ids) ids (omega arith), IsBatch-batches_from (length ids) ids)
