-- ===== src/Config/Workflow/Laws.antt =====
-- What internal/config/workflow.go takes for the front matter of a file.
use go_symphony.Prelude.{◌≡◌, ◌≢◌, refl, false, List, [], ◌∷◌, ◌++◌, arith, All}
use go_symphony.Prelude.Text.{Text, text_eq}
use go_symphony.Config.Workflow.{
  join_lines, replace_crlf, replace_cr, split_newlines, split_lines, until_marker,
  split_front_matter, marker,
}

-- A line without a line feed or a carriage return.
abbrev pub IsLine : Text → Type 0
IsLine l = All (λ c. (c ≢ 10) × (c ≢ 13)) l

abbrev IsPlain : Text → Type 0
IsPlain s = All (λ c. c ≢ 13) s

IsPlain-append : (xs ys : Text) → IsLine xs → IsPlain ys → IsPlain (xs ++ ys)
IsPlain-append [] ys h k = k
IsPlain-append (x ∷ xs) ys h k = (h.0.1, IsPlain-append xs ys h.1 k)

IsPlain-line : (l : Text) → IsLine l → IsPlain l
IsPlain-line [] h = tt
IsPlain-line (c ∷ l) h = (h.0.1, IsPlain-line l h.1)

IsPlain-join_lines : (ls : List Text) → All IsLine ls → IsPlain (join_lines ls)
unfolding join_lines
IsPlain-join_lines [] h = tt
IsPlain-join_lines (l ∷ []) h = IsPlain-line l h.0
IsPlain-join_lines (l ∷ k ∷ ls) h =
    IsPlain-append l _ h.0 (ground arith, IsPlain-join_lines (k ∷ ls) h.1)

replace_crlf-plain : (s : Text) → IsPlain s → replace_crlf s ≡ s
unfolding replace_crlf
replace_crlf-plain [] h = refl
replace_crlf-plain (c ∷ []) h = refl
replace_crlf-plain (c ∷ d ∷ s) h = ground (arith, h.0, replace_crlf-plain (d ∷ s) h.1)

replace_cr-plain : (s : Text) → IsPlain s → replace_cr s ≡ s
unfolding replace_cr
replace_cr-plain [] h = refl
replace_cr-plain (c ∷ s) h = ground (arith, h.0, replace_cr-plain s h.1)

split_newlines-last : (l : Text) → IsLine l → split_newlines l ≡ l ∷ []
unfolding split_newlines
split_newlines-last [] h = refl
split_newlines-last (c ∷ l) h = rw (split_newlines-last l h.1) (ground (arith, h.0.0))

split_newlines-line :
    (l s : Text) → IsLine l → split_newlines (l ++ (10 ∷ s)) ≡ l ∷ split_newlines s
unfolding split_newlines
split_newlines-line [] s h = refl
split_newlines-line (c ∷ l) s h = rw (split_newlines-line l s h.1) (ground (arith, h.0.0))

split_newlines-join_lines :
    (l : Text) (ls : List Text)
    → All IsLine (l ∷ ls)
    → split_newlines (join_lines (l ∷ ls)) ≡ l ∷ ls
unfolding join_lines
split_newlines-join_lines l [] h = split_newlines-last l h.0
split_newlines-join_lines l (k ∷ ls) h =
    rw (split_newlines-line l (join_lines (k ∷ ls)) h.0, split_newlines-join_lines k ls h.1) refl

split_lines-join_lines :
    (l : Text) (ls : List Text) → All IsLine (l ∷ ls) → split_lines (join_lines (l ∷ ls)) ≡ l ∷ ls
unfolding split_lines
split_lines-join_lines l ls h =
    let plain = IsPlain-join_lines (l ∷ ls) h in
    rw
      (replace_crlf-plain (join_lines (l ∷ ls)) plain, replace_cr-plain (join_lines (l ∷ ls)) plain)
      (split_newlines-join_lines l ls h)

until_marker_lem :
    (front prompt : List Text)
    → All (λ l. text_eq l marker ≡ false) front
    → until_marker (front ++ (marker ∷ prompt)) ≡ (front, prompt)
unfolding until_marker text_eq
until_marker_lem [] prompt h = refl
until_marker_lem (l ∷ front) prompt h = rw (h.0, until_marker_lem front prompt h.1) refl

-- A file whose lines are `---`, the front matter, `---` and the prompt is read as that front matter and
-- that prompt, if no line of the front matter is `---` and no line holds a line break.
pub front_matter_round_trip :
    (front prompt : List Text)
    → All IsLine (marker ∷ (front ++ (marker ∷ prompt)))
    → All (λ l. text_eq l marker ≡ false) front
    → split_front_matter (split_lines (join_lines (marker ∷ (front ++ (marker ∷ prompt)))))
      ≡ (front, prompt)
unfolding split_front_matter text_eq
front_matter_round_trip front prompt h k =
    rw (split_lines-join_lines marker (front ++ (marker ∷ prompt)) h)
      (until_marker_lem front prompt k)
