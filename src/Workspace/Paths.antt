-- ===== src/Workspace/Paths.antt =====
-- The paths of internal/workspace/manager.go and what it uses of Go's path/filepath on Unix. An
-- absolute path in its shortest form is the list of its segments.
pub mod Laws
use go_symphony.Prelude.{
  ℕ, zero, suc, Bool, true, false, not, ◌&&◌, ◌||◌, Option, none, some, List, [], ◌∷◌, ◌++◌, leb,
  ◌==◌, if◌then◌else◌, Fallible, ok, err,
}
use go_symphony.Prelude.Text.{Text, codes, text_eq, is_empty, is_blank}

abbrev pub Segments : Type 0
Segments = List Text

unfoldable pub push_char : ℕ → List Text → List Text
push_char c [] = (c ∷ []) ∷ []
push_char c (x ∷ xs) = (c ∷ x) ∷ xs

-- strings.Split(path, "/")
unfoldable pub split_slash : Text → List Text
unfolding push_char
split_slash [] = [] ∷ []
split_slash (c ∷ s) = let rest = split_slash s in if c == b'/' then [] ∷ rest else push_char c rest

-- filepath.IsAbs
unfoldable pub is_absolute : Text → Bool
is_absolute [] = false
is_absolute (c ∷ s) = c == b'/'

unfoldable pub drop_last : Segments → Segments
drop_last [] = []
drop_last (x ∷ []) = []
drop_last (x ∷ y ∷ rest) = x ∷ drop_last (y ∷ rest)

-- No segment is left that ".." would remove.
unfoldable pub ends_up : Segments → Bool
ends_up [] = true
ends_up (x ∷ []) = text_eq x (codes "..")
ends_up (x ∷ y ∷ rest) = ends_up (y ∷ rest)

unfoldable pub clean_step : Bool → Segments → Text → Segments
unfolding drop_last ends_up
clean_step rooted base segment =
    if is_empty segment || text_eq segment (codes ".")
    then base
    else if text_eq segment (codes "..")
    then (if not rooted && ends_up base then base ++ segment ∷ [] else drop_last base)
    else base ++ segment ∷ []

-- The segments after a path that is clean already.
unfoldable pub resolve : Bool → Segments → List Text → Segments
unfolding clean_step
resolve rooted base [] = base
resolve rooted base (segment ∷ segments) = resolve rooted (clean_step rooted base segment) segments

unfoldable pub join_segments : Segments → Text
join_segments [] = []
join_segments (x ∷ []) = x
join_segments (x ∷ y ∷ rest) = x ++ codes "/" ++ join_segments (y ∷ rest)

unfoldable pub show_path : Segments → Text
unfolding join_segments
show_path path = codes "/" ++ join_segments path

-- filepath.Clean
unfoldable pub clean : Text → Text
unfolding is_absolute resolve split_slash show_path
clean path =
    let segments = resolve (is_absolute path) [] (split_slash path) in
    if is_absolute path
    then show_path segments
    else if is_empty (join_segments segments)
    then codes "."
    else join_segments segments

-- filepath.Join of two elements
unfoldable pub join_path : Text → Text → Text
unfolding clean
join_path dir name =
    if is_empty dir
    then (if is_empty name then [] else clean name)
    else if is_empty name
    then clean dir
    else clean (dir ++ codes "/" ++ name)

-- filepath.Abs, cleaned, in the working directory `cwd`.
unfoldable pub absolute : Segments → Text → Segments
unfolding is_absolute resolve split_slash
absolute cwd path = resolve true (if is_absolute path then [] else cwd) (split_slash path)

unfoldable pub safe_rune : ℕ → ℕ
safe_rune r =
    if r == b'.'
      || r == b'_'
      || r == b'-'
      || (leb b'a' r && leb r b'z')
      || (leb b'A' r && leb r b'Z')
      || (leb b'0' r && leb r b'9')
    then r
    else b'_'

unfoldable pub safe_runes : Text → Text
unfolding safe_rune
safe_runes [] = []
safe_runes (r ∷ rs) = safe_rune r ∷ safe_runes rs

unfoldable pub safe_identifier : Text → Text
unfolding safe_runes
safe_identifier identifier =
    if is_blank identifier
    then codes "issue"
    else if is_empty (safe_runes identifier)
    then codes "issue"
    else safe_runes identifier

-- os.Lstat, with os.Readlink for a symbolic link.
pub data Lstat : Type 0 where
  plain missing : Lstat
  symlink : (target : Fallible Text Text) → Lstat
  unreadable : (text : Text) → Lstat

-- How canonicalizePath's loop over the segments ends: at a path, in a call for the target of a
-- symbolic link, or with an error.
pub data WalkEnd : Type 0 where
  arrived : (path : Segments) → WalkEnd
  followed : (path : Segments) → WalkEnd
  stuck : (text : Text) → WalkEnd

unfoldable pub follow : Segments → List Text → Fallible Text Text → WalkEnd
unfolding is_absolute resolve split_slash
follow current rest (err e) = stuck e
follow current rest (ok target) =
    followed
      (resolve true (if is_absolute target then [] else current) (split_slash target ++ rest))

unfoldable pub walk : (Segments → Lstat) → Segments → List Text → WalkEnd
unfolding follow
walk lstat current [] = arrived current
walk lstat current (segment ∷ rest) = elim (lstat (current ++ segment ∷ [])) [
  | plain ↦ walk lstat (current ++ segment ∷ []) rest
  | missing ↦ arrived (current ++ segment ∷ rest)
  | symlink target ↦ follow current rest target
  | unreadable e ↦ stuck e
]

-- The recursion of canonicalizePath on fuel: none is a call that is still running.
unfoldable pub canonicalize_path :
    ℕ → (Segments → Lstat) → Segments → Option (Fallible Segments Text)
unfolding walk
canonicalize_path zero lstat path = none
canonicalize_path (suc fuel) lstat path = elim (walk lstat [] path) [
  | arrived p ↦ some (ok p)
  | followed p ↦ canonicalize_path fuel lstat p
  | stuck e ↦ some (err e)
]

-- What is left of both paths behind their common start.
unfoldable pub strip_common : Segments → Segments → Segments × Segments
strip_common [] path = ([], path)
strip_common (r ∷ root) [] = (r ∷ root, [])
strip_common (r ∷ root) (p ∷ path) =
    let rest = strip_common root path in if text_eq r p then rest else (r ∷ root, p ∷ path)

unfoldable pub ups : Segments → Segments → Segments
ups [] path = path
ups (r ∷ root) path = codes ".." ∷ ups root path

-- filepath.Rel of two absolute paths, by its segments: none for ".".
unfoldable pub relative_path : Segments → Segments → Segments
unfolding strip_common ups
relative_path root path = let (above, below) = strip_common root path in ups above below

unfoldable pub stays_inside : Segments → Bool
stays_inside [] = true
stays_inside (segment ∷ segments) = not (text_eq segment (codes ".."))

unfoldable pub is_within_root : Segments → Segments → Bool
unfolding relative_path stays_inside
is_within_root path root = stays_inside (relative_path root path)

unfoldable pub path_eq : Segments → Segments → Bool
path_eq [] [] = true
path_eq [] (y ∷ ys) = false
path_eq (x ∷ xs) [] = false
path_eq (x ∷ xs) (y ∷ ys) = text_eq x y && path_eq xs ys
