-- ===== src/Prelude/Sorting.antt =====
-- sort.Slice and sort.SliceStable by a strict order, as insertion sort: a stable sort, which is one of
-- the orders that an unstable sort may give.
use mathlib.Core.List.{List, [], ◌∷◌, Perm}
use mathlib.Core.List.Perm
use mathlib.Core.Path.{◌≡◌}
use mathlib.Core.Bool.{Bool, true, false}
use mathlib.Core.Logic.{inl, inr}
use go_symphony.Prelude.Tests.{if◌then◌else◌, Bool-cases}
use go_symphony.Prelude.Lists.{All}

module _ {A : Type 0} (less : A → A → Bool) where
  -- Behind the elements that are not after it.
  unfoldable pub insert_by : A → List A → List A
  insert_by x [] = x ∷ []
  insert_by x (y ∷ ys) = let rest = insert_by x ys in if less y x then y ∷ rest else x ∷ y ∷ ys

  unfoldable pub sort_by : List A → List A
  unfolding insert_by
  sort_by [] = []
  sort_by (x ∷ xs) = insert_by x (sort_by xs)

  -- No later element comes before an earlier one.
  abbrev pub IsSortedBy : List A → Type 0
  IsSortedBy [] = Unit
  IsSortedBy (x ∷ xs) = All (λ y. less y x ≡ false) xs × IsSortedBy xs

  insert_by-perm : (x : A) (xs : List A) → Perm (insert_by x xs) (x ∷ xs)
  unfolding insert_by
  insert_by-perm x [] = Perm.refl (x ∷ [])
  insert_by-perm x (y ∷ ys) = elim (Bool-cases (less y x)) [
    | inl before ↦ rw before (Perm.trans (Perm.cons y (insert_by-perm x ys)) (Perm.swap x y ys))
    | inr after ↦ rw after (Perm.refl (x ∷ y ∷ ys))
  ]

  pub sort_by-perm : (xs : List A) → Perm (sort_by xs) xs
  unfolding sort_by
  sort_by-perm [] = Perm.refl []
  sort_by-perm (x ∷ xs) = Perm.trans (insert_by-perm x (sort_by xs)) (Perm.cons x (sort_by-perm xs))

  All-insert_by : (P : A → Type 0) (x : A) (xs : List A) → P x → All P xs → All P (insert_by x xs)
  unfolding insert_by
  All-insert_by P x [] h hs = (h, tt)
  All-insert_by P x (y ∷ ys) h hs = elim (Bool-cases (less y x)) [
    | inl before ↦ rw before (hs.0, All-insert_by P x ys h hs.1)
    | inr after ↦ rw after (h, hs)
  ]

  pub All-sort_by : (P : A → Type 0) (xs : List A) → All P xs → All P (sort_by xs)
  unfolding sort_by
  All-sort_by P [] h = tt
  All-sort_by P (x ∷ xs) h = All-insert_by P x (sort_by xs) h.0 (All-sort_by P xs h.1)

  module _ (asymm : (x y : A) → less x y ≡ true → less y x ≡ false)
      (trans : (x y z : A) → less y x ≡ false → less z y ≡ false → less z x ≡ false) where
    All-not_before :
        (x y : A) (ys : List A)
        → less y x ≡ false
        → All (λ z. less z y ≡ false) ys
        → All (λ z. less z x ≡ false) ys
    All-not_before x y [] h hs = tt
    All-not_before x y (z ∷ zs) h hs = (trans x y z h hs.0, All-not_before x y zs h hs.1)

    insert_by-IsSortedBy : (x : A) (xs : List A) → IsSortedBy xs → IsSortedBy (insert_by x xs)
    unfolding insert_by
    insert_by-IsSortedBy x [] h = (tt, tt)
    insert_by-IsSortedBy x (y ∷ ys) h = elim (Bool-cases (less y x)) [
      | inl before ↦ rw before (
        All-insert_by (λ z. less z y ≡ false) x ys (asymm y x before) h.0,
        insert_by-IsSortedBy x ys h.1,
      )
      | inr after ↦ rw after ((after, All-not_before x y ys after h.0), h)
    ]

    pub sort_by-IsSortedBy : (xs : List A) → IsSortedBy (sort_by xs)
    unfolding sort_by
    sort_by-IsSortedBy [] = tt
    sort_by-IsSortedBy (x ∷ xs) = insert_by-IsSortedBy x (sort_by xs) (sort_by-IsSortedBy xs)

module _ {A : Type 0} where
  weaken-All : {P Q : A → Type 0} → ((x : A) → P x → Q x) → (xs : List A) → All P xs → All Q xs
  weaken-All f [] h = tt
  weaken-All f (x ∷ xs) h = (f x h.0, weaken-All f xs h.1)

  -- Each element is related to all that follow it.
  abbrev pub IsOrderedBy : (A → A → Type 0) → List A → Type 0
  IsOrderedBy R [] = Unit
  IsOrderedBy R (x ∷ xs) = All (R x) xs × IsOrderedBy R xs

  pub IsSortedBy-IsOrderedBy :
      (less : A → A → Bool) (R : A → A → Type 0)
      → ((a b : A) → less b a ≡ false → R a b)
      → (xs : List A) → IsSortedBy less xs
      → IsOrderedBy R xs
  IsSortedBy-IsOrderedBy less R f [] h = tt
  IsSortedBy-IsOrderedBy less R f (x ∷ xs) h =
      (weaken-All (f x) xs h.0, IsSortedBy-IsOrderedBy less R f xs h.1)
