-- ===== src/Worker/Prompt/Laws.antt =====
-- The prompts of internal/cli/runtime.go.
use mathlib.Core.List.{append_assoc}
use go_symphony.Prelude.{
  ℕ, zero, suc, ◌≤◌, ◌≡◌, sym, refl, ap, ◌∙◌, ◌⊎◌, inl, inr, true, ◌==◌, ==_iff, Option, none, some,
  [], ◌∷◌, ◌++◌, arith, if◌then◌else◌, Bool-cases, Option-cases, length, length-append, drop,
  &&-left, &&-right,
}
use go_symphony.Prelude.Text.{Text, is_empty}
use go_symphony.Codex.Answers.{has_prefix}
use go_symphony.Worker.Prompt.{
  cut_at, if_marker, else_marker, endif_marker, render_issue_description_conditional,
}

has_prefix-drop : (s p : Text) → has_prefix s p ≡ true → s ≡ p ++ drop (length p) s
unfolding has_prefix
has_prefix-drop s [] h = refl
has_prefix-drop [] (p ∷ ps) h = ground arith
has_prefix-drop (c ∷ s) (p ∷ ps) h =
    rw ((==_iff c p).0 (&&-left (c == p) (has_prefix s ps) h))
      (ap (λ t. p ∷ t) (has_prefix-drop s ps (&&-right (c == p) (has_prefix s ps) h)))

none-some : {A : Type 0} {x : A} → ◌≡◌ {A = Option A} none (some x) → ⊥
none-some h = ground arith

some_value : {A : Type 0} {x y : A} → some x ≡ some y → x ≡ y
some_value h = cc

abbrev IsCut : Text → Text → Text × Text → Type 0
IsCut marker s parts = s ≡ parts.0 ++ (marker ++ parts.1)

-- A text that is cut at a marker is its two parts with the marker between them.
cut_at-IsCut :
    (marker s : Text) (parts : Text × Text) → cut_at marker s ≡ some parts → IsCut marker s parts
unfolding cut_at
cut_at-IsCut [] [] parts h = rw⁻¹ (some_value h) refl
cut_at-IsCut (m ∷ marker) [] parts h = ground arith
cut_at-IsCut marker (c ∷ s) parts h = elim (Bool-cases (has_prefix (c ∷ s) marker)) [
  | inl e ↦ rw⁻¹ (some_value (rw (e, cut_at) at h)) (has_prefix-drop (c ∷ s) marker e)
  | inr e ↦ elim (Option-cases (cut_at marker s)) [
    | inl f ↦ elim (none-some (rw (e, f, cut_at) at h)) [ ]
    | inr (rest, f) ↦
        rw⁻¹ (some_value (rw (e, f, cut_at) at h)) (ap (λ t. c ∷ t) (cut_at-IsCut marker s rest f))
  ]
]

joined :
    (template : Text) (start chosen other : Text × Text)
    → IsCut if_marker template start
    → IsCut else_marker start.1 chosen
    → IsCut endif_marker chosen.1 other
    → template
      ≡ start.0
        ++ (if_marker ++ (chosen.0 ++ (else_marker ++ (other.0 ++ (endif_marker ++ other.1)))))
joined template start chosen other h j k =
    h ∙ ap (λ t. start.0 ++ (if_marker ++ t)) (j ∙ ap (λ t. chosen.0 ++ (else_marker ++ t)) k)

-- The template with one conditional on the description, and what becomes of it.
abbrev pub IsChosen : Text → Text → Text → Type 0
IsChosen template description result =
    (before : Text) × (chosen : Text) × (other : Text) × (after : Text) × ((template
        ≡ before ++ (if_marker ++ (chosen ++ (else_marker ++ (other ++ (endif_marker ++ after))))))
      × (result ≡ before ++ ((if is_empty description then other else chosen) ++ after)))

-- The template has the three markers, in this order, with any text around and between them.
abbrev pub HasConditional : Text → Type 0
HasConditional template =
    (before : Text) × (chosen : Text) × (other : Text) × (after : Text) × (template
      ≡ before ++ (if_marker ++ (chosen ++ (else_marker ++ (other ++ (endif_marker ++ after))))))

has_prefix-append : (p s : Text) → has_prefix (p ++ s) p ≡ true
unfolding has_prefix
has_prefix-append [] s = ground arith
has_prefix-append (c ∷ p) s = ground (arith, has_prefix-append p s)

drop-append : (n : ℕ) (p s : Text) → n ≤ length p → drop n (p ++ s) ≡ drop n p ++ s
drop-append zero p s h = refl
drop-append (suc n) [] s h = elim (suc_le_zero n h) [ ]
  where
    suc_le_zero : (n : ℕ) → suc n ≤ 0 → ⊥
    suc_le_zero n h = omega arith
drop-append (suc n) (c ∷ p) s h = drop-append n p s (omega arith)

-- A marker that occurs is found, there or before.
cut_at-append :
    (m : ℕ) (marker before rest : Text)
    → (parts : Text × Text) × ((cut_at (m ∷ marker) (before ++ ((m ∷ marker) ++ rest)) ≡ some parts)
        × ((t : Text) × (parts.1 ≡ t ++ rest)))
unfolding cut_at
cut_at-append m marker [] rest = (
  ([], drop (length (m ∷ marker)) ((m ∷ marker) ++ rest)),
  (
    rw (has_prefix-append (m ∷ marker) rest, cut_at) refl,
    (
      drop (length (m ∷ marker)) (m ∷ marker),
      drop-append (length (m ∷ marker)) (m ∷ marker) rest (omega arith),
    ),
  ),
)
cut_at-append m marker (b ∷ bs) rest =
    let s = bs ++ ((m ∷ marker) ++ rest) in
    elim (Bool-cases (has_prefix (b ∷ s) (m ∷ marker))) [
      | inl e ↦ (
        ([], drop (length (m ∷ marker)) (b ∷ s)),
        (
          rw (e, cut_at) refl,
          (
            drop (length (m ∷ marker)) ((b ∷ bs) ++ (m ∷ marker)),
            ap (drop (length (m ∷ marker))) (sym (append_assoc (b ∷ bs) (m ∷ marker) rest))
                ∙ drop-append (length (m ∷ marker)) ((b ∷ bs) ++ (m ∷ marker)) rest
                    (ground (arith, length-append bs (m ∷ marker))),
          ),
        ),
      )
      | inr e ↦
          let (parts, (found, ends)) = cut_at-append m marker bs rest in
          ((b ∷ parts.0, parts.1), (rw (e, found, cut_at) refl, ends))
    ]

-- The same for any text that is of that form.
cut_at-found :
    (m : ℕ) (marker s before rest : Text)
    → s ≡ before ++ ((m ∷ marker) ++ rest)
    → (parts : Text × Text) × ((cut_at (m ∷ marker) s ≡ some parts)
        × ((t : Text) × (parts.1 ≡ t ++ rest)))
cut_at-found m marker s before rest h = rw h (cut_at-append m marker before rest)

next_marker :
    (s t chosen marker rest : Text)
    → s ≡ t ++ (chosen ++ (marker ++ rest))
    → s ≡ (t ++ chosen) ++ (marker ++ rest)
next_marker s t chosen marker rest h = h ∙ sym (append_assoc t chosen (marker ++ rest))

HasConditional-cut_at :
    (template : Text)
    → HasConditional template
    → (start : Text × Text) × (chosen : Text × Text) × (other : Text × Text) × ((cut_at if_marker
            template
          ≡ some start)
        × ((cut_at else_marker start.1 ≡ some chosen)
            × (cut_at endif_marker chosen.1 ≡ some other)))
HasConditional-cut_at template (before, chosen, other, after, h) =
    let (start, (found, (t, ends))) = cut_at-found _ _ template before _ h in
    let (middle, (found', (u, ends'))) =
      cut_at-found _ _ start.1 (t ++ chosen) _ (next_marker start.1 t chosen else_marker _ ends) in
    let (end, (found'', _)) =
      cut_at-found _ _ middle.1 (u ++ other) _
        (next_marker middle.1 u other endif_marker _ ends') in
    (start, middle, end, (found, (found', found'')))

no_else :
    (template : Text) (start : Text × Text)
    → HasConditional template
    → cut_at if_marker template ≡ some start
    → cut_at else_marker start.1 ≡ none
    → ⊥
no_else template start has e f =
    let (start', chosen', other', (p, (q, r))) = HasConditional-cut_at template has in
    none-some (sym f ∙ ap (λ x. cut_at else_marker x.1) (some_value (sym e ∙ p)) ∙ q)

no_endif :
    (template : Text) (start chosen : Text × Text)
    → HasConditional template
    → cut_at if_marker template ≡ some start
    → cut_at else_marker start.1 ≡ some chosen
    → cut_at endif_marker chosen.1 ≡ none
    → ⊥
no_endif template start chosen has e f g =
    let (start', chosen', other', (p, (q, r))) = HasConditional-cut_at template has in
    let same = some_value (sym f ∙ ap (λ x. cut_at else_marker x.1) (some_value (sym e ∙ p)) ∙ q) in
    none-some (sym g ∙ ap (λ x. cut_at endif_marker x.1) same ∙ r)

-- In a template that has the markers in order, a conditional on the description is replaced by its first
-- part where there is a description and by its second part where there is none, and the text around it
-- stays; any other template stays as it is.
pub render_issue_description_conditional_lem :
    (template description : Text)
    → (¬ HasConditional template
        × (render_issue_description_conditional template description ≡ template))
      ⊎ IsChosen template description (render_issue_description_conditional template description)
unfolding render_issue_description_conditional
render_issue_description_conditional_lem template description =
    elim (Option-cases (cut_at if_marker template)) [
      | inl e ↦ inl (
        λ has. none-some (sym e ∙ (HasConditional-cut_at template has).3.0),
        rw (e, render_issue_description_conditional) refl,
      )
      | inr (start, e) ↦ elim (Option-cases (cut_at else_marker start.1)) [
        | inl f ↦ inl (
          λ has. no_else template start has e f,
          rw (e, f, render_issue_description_conditional) refl,
        )
        | inr (chosen, f) ↦ elim (Option-cases (cut_at endif_marker chosen.1)) [
          | inl g ↦ inl (
            λ has. no_endif template start chosen has e f g,
            rw (e, f, g, render_issue_description_conditional) refl,
          )
          | inr (other, g) ↦ inr (
            start.0,
            chosen.0,
            other.0,
            other.1,
            (
              joined template start chosen other (cut_at-IsCut if_marker template start e)
                  (cut_at-IsCut else_marker start.1 chosen f)
                  (cut_at-IsCut endif_marker chosen.1 other g),
              rw (e, f, g, render_issue_description_conditional) refl,
            ),
          )
        ]
      ]
    ]
