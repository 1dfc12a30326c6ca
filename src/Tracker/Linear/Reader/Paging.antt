-- ===== src/Tracker/Linear/Reader/Paging.antt =====
-- The pages that internal/trackers/linear/reader.go reads.
use go_symphony.Prelude.{
  ℕ, zero, suc, ◌≡◌, ◌↔◌, refl, ap, ◌∙◌, inl, inr, Bool, true, false, Option, List, [], ◌∷◌, ◌++◌,
  arith, Fallible, ok, err, Bool-cases,
}
use go_symphony.Prelude.Text.{Text, is_blank}
use go_symphony.Prelude.Int.{ℤ}
use go_symphony.Domain.{WorkItem}
use go_symphony.Config.Settings.{ProviderSettings}
use go_symphony.Json
use go_symphony.Json.{Value}
use go_symphony.Tracker.Linear.Issue.{ReaderError, AssigneeFilter, PageInfo}
use go_symphony.Tracker.Linear.Reader.{Client, Query, bind_result, read_page, list_by_states_page}

append_assoc : {A : Type 0} (xs ys zs : List A) → (xs ++ ys) ++ zs ≡ xs ++ (ys ++ zs)
append_assoc [] ys zs = refl
append_assoc (x ∷ xs) ys zs = rw (append_assoc xs ys zs) refl

append_nil : {A : Type 0} (xs : List A) → xs ++ [] ≡ xs
append_nil [] = refl
append_nil (x ∷ xs) = rw (append_nil xs) refl

items_same :
    {xs ys : List WorkItem}
    → ◌≡◌ {A = Fallible (List WorkItem) ReaderError} (ok xs) (ok ys)
    → ys ≡ xs
items_same h = cc

pub ok_value : {A : Type 0} {x y : A} → ◌≡◌ {A = Fallible A ReaderError} (ok x) (ok y) → x ≡ y
ok_value h = cc

lost :
    {e : ReaderError} {ys : List WorkItem}
    → ◌≡◌ {A = Fallible (List WorkItem) ReaderError} (err e) (ok ys)
    → ⊥
lost h = ground arith

pub bind_result-ok :
    {W A B : Type 0} (r : Fallible A ReaderError × W) (rest : A → W → Fallible B ReaderError × W)
    (b : B)
    → (bind_result r rest).0 ≡ ok b
    → (a : A) × ((r.0 ≡ ok a) × ((rest a r.1).0 ≡ ok b))
unfolding bind_result
bind_result-ok (ok a, w) rest b h = (a, (refl, h))
bind_result-ok (err e, w) rest b h = ground arith

bind_result-of :
    {W A B : Type 0} (r : Fallible A ReaderError × W) (rest : A → W → Fallible B ReaderError × W)
    (a : A)
    → r.0 ≡ ok a
    → bind_result r rest ≡ rest a r.1
unfolding bind_result
bind_result-of (ok x, w) rest a h = rw (ok_value h) refl
bind_result-of (err e, w) rest a h = ground arith

module _ {W : Type 0} (client : Client W) (parse_time : Text → Option ℤ)
    (settings : ProviderSettings) (query : Query) (states : List Text)
    (filter : Option AssigneeFilter) (set_routable : Bool) where
  -- A chain of pages from a cursor on: each is read with the cursor that the one before it gave, and the
  -- last one says that there is no other.
  pub data Pages : Value → W → List WorkItem → Type 0 where
    last :
        (after : Value) (w : W) (found : List WorkItem) (page : PageInfo)
        → (read_page client parse_time settings query states filter set_routable after w).0
          ≡ ok (found, page)
        → page.has_next ≡ false
        → Pages after w found
    more :
        (after : Value) (w : W) (found : List WorkItem) (page : PageInfo) (others : List WorkItem)
        → (read_page client parse_time settings query states filter set_routable after w).0
          ≡ ok (found, page)
        → page.has_next ≡ true
        → is_blank page.end_cursor ≡ false
        → Pages
            (Json.text page.end_cursor)
            (read_page client parse_time settings query states filter set_routable after w).1
            others
        → Pages after w (found ++ others)

  pub list_by_states_page-Pages :
      (fuel : ℕ) (found : List WorkItem) (after : Value) (w : W) (items : List WorkItem)
      → (list_by_states_page client parse_time settings fuel query states filter set_routable found
          after w).0
        ≡ ok items
      → (rest : List WorkItem) × (Pages after w rest × (items ≡ found ++ rest))
  unfolding list_by_states_page
  list_by_states_page-Pages zero found after w items h = ground arith
  list_by_states_page-Pages (suc fuel) found after w items h =
      let (page, (read, next)) = bind_result-ok _ _ items h in
      elim (Bool-cases page.1.has_next) [
        | inr e ↦ (page.0, (last after w page.0 page.1 read e, items_same (rw e at next)))
        | inl e ↦ elim (Bool-cases (is_blank page.1.end_cursor)) [
          | inl f ↦ elim (lost (rw (e, f) at next)) [ ]
          | inr f ↦
              let (others, (pages, same)) =
                list_by_states_page-Pages fuel (found ++ page.0) (Json.text page.1.end_cursor)
                  (read_page client parse_time settings query states filter set_routable after w).1
                  items (rw (e, f) at next) in
              (
                page.0 ++ others,
                (
                  more after w page.0 page.1 others read e f pages,
                  same ∙ append_assoc found page.0 others,
                ),
              )
        ]
      ]

  Pages-list_by_states_page :
      (after : Value) (w : W) (rest : List WorkItem)
      → Pages after w rest
      → (found : List WorkItem)
      → (fuel : ℕ) × ((list_by_states_page client parse_time settings fuel query states filter
            set_routable found after w).0
          ≡ ok (found ++ rest))
  unfolding list_by_states_page
  Pages-list_by_states_page after w rest (last _ _ _ page read e) found =
      (1, ap (λ r. r.0) (bind_result-of _ _ _ read) ∙ rw e refl)
  Pages-list_by_states_page after w rest (more _ _ here page others read e f pages) found =
      let (fuel, same) = Pages-list_by_states_page _ _ others pages (found ++ here) in
      (
        suc fuel,
        ap (λ r. r.0) (bind_result-of _ _ _ read)
            ∙ rw (e, f) (same ∙ ap ok (append_assoc found here others)),
      )

  -- The items that the loop over the pages returns, on some fuel, are exactly those of a chain of pages
  -- that begins at its cursor and ends with a page that has no next one, in the order of the pages.
  pub list_by_states_page_lem :
      (after : Value) (w : W) (items : List WorkItem)
      → ((fuel : ℕ) × ((list_by_states_page client parse_time settings fuel query states filter
              set_routable [] after w).0
            ≡ ok items))
        ↔ Pages after w items
  list_by_states_page_lem after w items = (
    λ run.
        let (rest, (pages, same)) = list_by_states_page-Pages run.0 [] after w items run.1 in
        rw same pages,
    λ pages. Pages-list_by_states_page after w items pages [],
  )
