-- ===== src/Workspace/Paths/Laws.antt =====
-- canonicalizePath and isWithinRoot of internal/workspace/manager.go.
use mathlib.Core.List.{append_assoc, append-nil}
use go_symphony.Prelude.{
  ℕ, zero, suc, ◌≡◌, ◌≢◌, refl, true, false, none, some, List, [], ◌∷◌, ◌++◌, arith, Fallible, ok,
  err, Bool-cases, inl, inr, ◌⊎◌,
}
use go_symphony.Prelude.Text.{Text, text_eq, text_eq_iff, text_eq_refl}
use go_symphony.Workspace.Paths.{
  Segments, Lstat, plain, missing, symlink, unreadable, WalkEnd, arrived, followed, stuck, follow,
  walk, canonicalize_path, strip_common, ups, relative_path, stays_inside, is_within_root, path_eq,
}

-- How the loop ends, with the equation that says so.
WalkEnd-cases :
    (e : WalkEnd)
    → ((p : Segments) × (e ≡ arrived p))
      ⊎ (((p : Segments) × (e ≡ followed p)) ⊎ ((t : Text) × (e ≡ stuck t)))
WalkEnd-cases (arrived p) = inl (p, refl)
WalkEnd-cases (followed p) = inr (inl (p, refl))
WalkEnd-cases (stuck t) = inr (inr (t, refl))

Lstat-cases :
    (s : Lstat)
    → ((s ≡ plain) ⊎ (s ≡ missing))
      ⊎ (((t : Fallible Text Text) × (s ≡ symlink t)) ⊎ ((t : Text) × (s ≡ unreadable t)))
Lstat-cases plain = inl (inl refl)
Lstat-cases missing = inl (inr refl)
Lstat-cases (symlink t) = inr (inl (t, refl))
Lstat-cases (unreadable t) = inr (inr (t, refl))

follow_never_arrives :
    (current : Segments) (rest : List Text) (t : Fallible Text Text) (p : Segments)
    → follow current rest t ≢ arrived p
unfolding follow
follow_never_arrives current rest (ok t) p h = cc
follow_never_arrives current rest (err t) p h = cc

-- A loop that arrives has changed nothing of the path.
walk-arrived :
    (lstat : Segments → Lstat) (current : Segments) (segments : List Text) (p : Segments)
    → walk lstat current segments ≡ arrived p
    → p ≡ current ++ segments
unfolding walk
walk-arrived lstat current [] p h = ground (arith, append-nil current)
walk-arrived lstat current (x ∷ xs) p h = elim (Lstat-cases (lstat (current ++ x ∷ []))) [
  | inl (inl e) ↦
      ground (arith, walk-arrived lstat (current ++ x ∷ []) xs p, append_assoc current (x ∷ []) xs)
  | inl (inr e) ↦ ground arith
  | inr (inl (t, e)) ↦ ground (arith, follow_never_arrives current xs t p)
  | inr (inr (t, e)) ↦ ground arith
]

-- No prefix of the path is a symbolic link, up to the first that does not exist.
abbrev pub IsCanonical : (Segments → Lstat) → Segments → Type 0
IsCanonical lstat p = walk lstat [] p ≡ arrived p

pub canonicalize_path-IsCanonical :
    (fuel : ℕ) (lstat : Segments → Lstat) (path p : Segments)
    → canonicalize_path fuel lstat path ≡ some (ok p)
    → IsCanonical lstat p
unfolding canonicalize_path
canonicalize_path-IsCanonical zero lstat path p h = cc
canonicalize_path-IsCanonical (suc fuel) lstat path p h =
    elim (WalkEnd-cases (walk lstat [] path)) [
      | inl (q, e) ↦ ground (arith, walk-arrived lstat [] path q e)
      | inr (inl (q, e)) ↦ ground (arith, canonicalize_path-IsCanonical fuel lstat q p)
      | inr (inr (t, e)) ↦ ground arith
    ]

-- When the first symbolic link of a path leads back to the path, canonicalizePath never returns: no
-- fuel is enough.
pub canonicalize_path_loops :
    (lstat : Segments → Lstat) (path : Segments)
    → walk lstat [] path ≡ followed path
    → (fuel : ℕ) → canonicalize_path fuel lstat path ≡ none
unfolding canonicalize_path
canonicalize_path_loops lstat path h zero = refl
canonicalize_path_loops lstat path h (suc fuel) =
    rw (h, canonicalize_path) (canonicalize_path_loops lstat path h fuel)

pub is_within_root-append :
    (path root : Segments)
    → is_within_root path root ≡ true
    → (below : Segments) × (path ≡ root ++ below)
unfolding is_within_root relative_path stays_inside strip_common ups text_eq
is_within_root-append path [] h = (path, refl)
is_within_root-append [] (r ∷ root) h = ground arith
is_within_root-append (p ∷ path) (r ∷ root) h = elim (Bool-cases (text_eq r p)) [
  | inl e ↦ ground (arith, is_within_root-append path root, text_eq_iff r p)
  | inr e ↦ ground arith
]

pub path_eq_refl : (p : Segments) → path_eq p p ≡ true
unfolding path_eq
path_eq_refl [] = refl
path_eq_refl (x ∷ xs) = rw (text_eq_refl x) (path_eq_refl xs)

-- A path that continues the root and is not the root continues it by something.
pub path_eq-append :
    (path root below : Segments) → path_eq path root ≡ false → path ≡ root ++ below → below ≢ []
path_eq-append path root [] h e = λ k. ground (arith, append-nil root, path_eq_refl root)
path_eq-append path root (x ∷ xs) h e = λ k. cc
