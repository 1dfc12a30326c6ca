-- ===== src/Tracker/Memory/Laws.antt =====
-- What internal/trackers/memory/reader.go answers.
use go_symphony.Prelude.{
  ◌≡◌, refl, sym, ◌∙◌, Bool, true, false, not, ◌&&◌, ◌||◌, Option, none, some, List, [], ◌∷◌, arith,
  if◌then◌else◌, is_some, filter_by, Bool-cases, inl, inr,
}
use go_symphony.Prelude.Text.{Text, text_eq, is_empty}
use go_symphony.Prelude.Map.{Map, lookup, insert, has, lookup-insert}
use go_symphony.Domain.{WorkItem}
use go_symphony.Tracker.Memory.{
  memory_normalize_state, wanted_states, with_states, list_by_states, index_items, pick,
  refresh_by_ids,
}

-- The state names that are not blank, in their normal form, have `name` among them.
unfoldable pub asks_for : List Text → Text → Bool
asks_for [] name = false
asks_for (state ∷ states) name = text_eq (memory_normalize_state state) name || asks_for states name

blank_asks_nothing :
    (own name : Text) (a b : Bool)
    → is_empty own ≡ true
    → (a || (not (is_empty name) && b)) ≡ (a || (not (is_empty name) && (text_eq own name || b)))
unfolding text_eq
blank_asks_nothing [] [] a b h = refl
blank_asks_nothing [] (c ∷ s) a b h = refl
blank_asks_nothing (d ∷ t) name a b h = cc

asks_own :
    (own name : Text) (found : Option (Unit {0})) (b : Bool)
    → is_empty own ≡ false
    → (is_some (if text_eq own name then some tt else found) || (not (is_empty name) && b))
      ≡ (is_some found || (not (is_empty name) && (text_eq own name || b)))
unfolding text_eq
asks_own [] name found b h = cc
asks_own (d ∷ t) [] found b h = refl
asks_own (d ∷ t) (c ∷ s) found b h = ground arith

wanted_states-has :
    (names : Map (Unit {0})) (states : List Text) (name : Text)
    → has name (wanted_states names states)
      ≡ (has name names || (not (is_empty name) && asks_for states name))
unfolding wanted_states asks_for
wanted_states-has names [] name = ground arith
wanted_states-has names (state ∷ states) name =
    let own = memory_normalize_state state in
    elim (Bool-cases (is_empty own)) [
      | inl e ↦
          rw (e, wanted_states)
            (wanted_states-has names states name
              ∙ blank_asks_nothing own name (has name names) (asks_for states name) e)
      | inr e ↦
          rw (e, wanted_states)
            (wanted_states-has (insert own tt names) states name
              ∙ rw lookup-insert (asks_own own name (lookup name names) (asks_for states name) e))
    ]

filter_by-false : (items : List WorkItem) → filter_by (λ item. false) items ≡ []
unfolding filter_by
filter_by-false [] = refl
filter_by-false (item ∷ items) = filter_by-false items

filter_by-ext :
    (p q : WorkItem → Bool) (items : List WorkItem)
    → ((item : WorkItem) → p item ≡ q item)
    → filter_by p items ≡ filter_by q items
unfolding filter_by
filter_by-ext p q [] h = refl
filter_by-ext p q (item ∷ items) h = ground (arith, h item, filter_by-ext p q items h)

with_states-filter_by :
    (names : Map (Unit {0})) (items : List WorkItem)
    → with_states names items
      ≡ filter_by (λ item. has (memory_normalize_state item.state) names) items
unfolding with_states lookup
with_states-filter_by [] items = sym (filter_by-false items)
with_states-filter_by (name ∷ names) items = refl

-- The items whose state, trimmed and in lower case, is not blank and is that of one of the asked
-- states, in the tracker's order: blank names ask for nothing.
pub list_by_states_lem :
    (items : List WorkItem) (states : List Text)
    → list_by_states items states
      ≡ filter_by
          (λ item.
            let name = memory_normalize_state item.state in
            not (is_empty name) && asks_for states name)
          items
unfolding list_by_states lookup
list_by_states_lem items states =
    with_states-filter_by (wanted_states [] states) items
    ∙ filter_by-ext (λ item. has (memory_normalize_state item.state) (wanted_states [] states))
        (λ item.
          let name = memory_normalize_state item.state in
          not (is_empty name) && asks_for states name)
        items (λ item. wanted_states-has [] states (memory_normalize_state item.state))

-- The last item of the list with that id.
unfoldable pub last_with_id : Text → List WorkItem → Option WorkItem → Option WorkItem
last_with_id id [] found = found
last_with_id id (item ∷ items) found =
    last_with_id id items (if text_eq item.id id then some item else found)

index_items-lookup :
    (index : Map WorkItem) (items : List WorkItem) (id : Text)
    → lookup id (index_items index items) ≡ last_with_id id items (lookup id index)
unfolding index_items last_with_id
index_items-lookup index [] id = refl
index_items-lookup index (item ∷ items) id =
    index_items-lookup (insert item.id item index) items id ∙ rw lookup-insert

-- What a refresh answers: for each asked id, in order, the last item of that id, when there is one.
unfoldable pub refreshed : List WorkItem → List Text → List WorkItem
refreshed items [] = []
refreshed items (id ∷ ids) =
    let rest = refreshed items ids in
    elim (last_with_id id items none) [ none ↦ rest | some item ↦ item ∷ rest ]

pick-refreshed :
    (items : List WorkItem) (ids : List Text)
    → pick (index_items [] items) ids ≡ refreshed items ids
unfolding pick refreshed lookup
pick-refreshed items [] = refl
pick-refreshed items (id ∷ ids) =
    ground (arith, index_items-lookup [] items id, pick-refreshed items ids)

-- A refresh answers, for each asked id in its order, the last item of that id, and nothing for an id
-- that no item has.
pub refresh_by_ids_lem :
    (items : List WorkItem) (ids : List Text) → refresh_by_ids items ids ≡ refreshed items ids
unfolding refresh_by_ids
refresh_by_ids_lem items ids = pick-refreshed items ids
