-- ===== src/Codex/Answers/Laws.antt =====
-- Which option an approval takes, and which questions get an answer, in internal/codex/session.go.
use go_symphony.Prelude.{
  ◌≡◌, refl, ◌⊎◌, inl, inr, Bool, true, false, ◌&&◌, ◌||◌, some, List, [], ◌∷◌, arith, All,
  Bool-cases, &&-right,
}
use go_symphony.Prelude.Text.{Text, codes, text_eq, text_eq_iff, text_eq_refl, is_empty}
use go_symphony.Prelude.Map.{Map, has, insert, lookup-insert}
use go_symphony.Json.{Value, Fields, index, slice_or_nil}
use go_symphony.Codex.Payload.{string_value}
use go_symphony.Codex.Answers.{
  label_of, is_approving, option_label, approval_option_label, answer_all,
}

module _ (sprint : Value → Text) where
  -- The text is the label of one of the options.
  unfoldable pub offers : List Value → Text → Bool
  offers [] label = false
  offers (option ∷ options) label = text_eq (label_of sprint option) label || offers options label

  -- One of the two exact labels, or a label that begins with "approve" or "allow".
  abbrev pub IsConsent : Text → Type 0
  IsConsent label =
      (label ≡ codes "Approve this Session")
      ⊎ (label ≡ codes "Approve Once")
      ⊎ (is_approving sprint label ≡ true)

  abbrev Taken : List Value → Text → Text → Type 0
  Taken options fallback r = IsConsent r × ((r ≡ fallback) ⊎ (offers options r ≡ true))

  Taken-own :
      (x : Value) (xs : List Value) (fallback : Text)
      → IsConsent (label_of sprint x)
      → Taken (x ∷ xs) fallback (label_of sprint x)
  unfolding offers
  Taken-own x xs fallback h = (h, inr (rw text_eq_refl refl))

  Taken-later :
      (x : Value) (xs : List Value) (fallback r : Text)
      → Taken xs fallback r
      → Taken (x ∷ xs) fallback r
  unfolding offers
  Taken-later x xs fallback r (h, inl e) = (h, inl e)
  Taken-later x xs fallback r (h, inr e) = (h, inr (ground arith))

  -- The first approving label is remembered, and offered by the option that it came from.
  Taken-remembered :
      (x : Value) (xs : List Value) (fallback r : Text)
      → Taken xs (label_of sprint x) r
      → Taken (x ∷ xs) fallback r
  unfolding offers
  Taken-remembered x xs fallback r (h, inl e) = (h, inr (rw (e, text_eq_refl) refl))
  Taken-remembered x xs fallback r (h, inr e) = (h, inr (ground arith))

  option_label-Taken :
      (options : List Value) (fallback : Text)
      → (is_empty fallback ≡ false → IsConsent fallback)
      → is_empty (option_label sprint fallback options) ≡ false
      → Taken options fallback (option_label sprint fallback options)
  unfolding option_label
  option_label-Taken [] fallback h k = (h k, inl refl)
  option_label-Taken (x ∷ xs) fallback h k =
      let label = label_of sprint x in
      elim (Bool-cases (text_eq label (codes "Approve this Session"))) [
        | inl e ↦
            rw (e, option_label)
              (Taken-own x xs fallback
                (inl ((text_eq_iff label (codes "Approve this Session")).0 e)))
        | inr e ↦ elim (Bool-cases (text_eq label (codes "Approve Once"))) [
          | inl f ↦
              rw (e, f, option_label)
                (Taken-own x xs fallback
                  (inr (inl ((text_eq_iff label (codes "Approve Once")).0 f))))
          | inr f ↦ elim (Bool-cases (is_empty fallback && is_approving sprint label)) [
            | inl g ↦
                rw (e, f, g, option_label)
                  (Taken-remembered x xs fallback (option_label sprint label xs) (
                    option_label-Taken xs label (λ n. inr (inr (&&-right _ _ g)))
                      (rw (e, f, g, option_label) at k)))
            | inr g ↦
                rw (e, f, g, option_label)
                  (Taken-later x xs fallback (option_label sprint fallback xs)
                    (option_label-Taken xs fallback h (rw (e, f, g, option_label) at k)))
          ]
        ]
      ]

  -- A question is consented to only with the label of one of its own options, which is one of the two
  -- exact labels or begins with "approve" or "allow".
  pub approval_option_label-IsConsent :
      (question : Fields)
      → let label = approval_option_label sprint question in
        is_empty label ≡ false
        → IsConsent label × (offers (slice_or_nil (index question (codes "options"))) label ≡ true)
  unfolding approval_option_label
  approval_option_label-IsConsent question h =
      let options = slice_or_nil (index question (codes "options")) in
      let (consent, source) = option_label-Taken options [] (λ e. cc) h in (consent, ground arith)

  -- Every question of the list has an answer under its id.
  abbrev pub AllAnswered : Map Text → List Fields → Type 0
  AllAnswered answers questions =
      All (λ q. has (string_value sprint (index q (codes "id"))) answers ≡ true) questions

  answer_all-keeps :
      (answer : Fields → Text) (questions : List Fields) (answers m : Map Text) (id : Text)
      → has id answers ≡ true
      → answer_all sprint answer answers questions ≡ some m
      → has id m ≡ true
  unfolding answer_all
  answer_all-keeps answer [] answers m id h e = ground arith
  answer_all-keeps answer (q ∷ qs) answers m id h e =
      let own = string_value sprint (index q (codes "id")) in
      ground (
        arith,
        answer_all-keeps answer qs (insert own (answer q) answers) m id,
        lookup-insert own id (answer q) answers,
      )

  answer_all-AllAnswered :
      (answer : Fields → Text) (questions : List Fields) (answers m : Map Text)
      → answer_all sprint answer answers questions ≡ some m
      → AllAnswered m questions
  unfolding answer_all
  answer_all-AllAnswered answer [] answers m e = tt
  answer_all-AllAnswered answer (q ∷ qs) answers m e =
      let own = string_value sprint (index q (codes "id")) in
      ground (
        arith,
        answer_all-AllAnswered answer qs (insert own (answer q) answers) m,
        answer_all-keeps answer qs (insert own (answer q) answers) m own,
        lookup-insert own own (answer q) answers,
        text_eq_iff own own,
      )
