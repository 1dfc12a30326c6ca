-- ===== src/Json.antt =====
-- Decoded JSON, Go's `any` after encoding/json: null, booleans, numbers, texts, lists and maps. The
-- codec itself is the standard library's. Of a number the program reads what fmt.Sprint prints, its
-- conversion to int64, and whether it is written as an integer.
use go_symphony.Prelude.{Bool, Option, none, some, List, [], ◌∷◌, if◌then◌else◌}
use go_symphony.Prelude.Int.{ℤ}
use go_symphony.Prelude.Text.{Text, text_eq}

pub record Number : Type 0 where
  pub text : Text
  pub truncated : ℤ
  pub is_integer : Bool

mutual
  pub data Value : Type 0 where
    null : Value
    boolean : Bool → Value
    number : Number → Value
    text : Text → Value
    array : Items → Value
    object : Fields → Value

  pub data Items : Type 0 where
    nil : Items
    cons : Value → Items → Items

  pub data Fields : Type 0 where
    end : Fields
    field : Text → Value → Fields → Fields

-- `m[key]`, none where `m` has no such key.
unfoldable pub get : Text → Fields → Option Value
get key end = none
get key (field k v rest) = if text_eq k key then some v else get key rest

-- `m[key]` where a missing key is nil.
unfoldable pub index : Fields → Text → Value
unfolding get
index m key = elim (get key m) [ none ↦ null | some v ↦ v ]

-- `value.(map[string]any)`
unfoldable pub as_map : Value → Option Fields
as_map (object m) = some m
as_map null = none
as_map (boolean b) = none
as_map (number n) = none
as_map (text s) = none
as_map (array xs) = none

-- The map, or nil, whose lookups find nothing.
unfoldable pub map_or_nil : Value → Fields
unfolding as_map
map_or_nil v = elim (as_map v) [ none ↦ end | some m ↦ m ]

unfoldable pub items_list : Items → List Value
items_list nil = []
items_list (cons v rest) = v ∷ items_list rest

-- `value.([]any)`
unfoldable pub as_slice : Value → Option (List Value)
unfolding items_list
as_slice (array xs) = some (items_list xs)
as_slice null = none
as_slice (boolean b) = none
as_slice (number n) = none
as_slice (text s) = none
as_slice (object m) = none

unfoldable pub slice_or_nil : Value → List Value
unfolding as_slice
slice_or_nil v = elim (as_slice v) [ none ↦ [] | some vs ↦ vs ]

-- `value.(string)`
unfoldable pub as_text : Value → Option Text
as_text (text s) = some s
as_text null = none
as_text (boolean b) = none
as_text (number n) = none
as_text (array xs) = none
as_text (object m) = none

-- A literal map and a literal slice.
abbrev pub fields : List (Text × Value) → Fields
fields [] = end
fields ((k, v) ∷ rest) = field k v (fields rest)

abbrev pub items : List Value → Items
items [] = nil
items (v ∷ rest) = cons v (items rest)
