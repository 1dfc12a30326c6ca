-- ===== src/Codex/Payload.antt =====
-- internal/codex/session.go: what is read out of a message. `sprint` is fmt.Sprint of a list or a map.
use go_symphony.Prelude.{Bool, false, not, Option, none, some, List, [], ◌∷◌, ◌++◌, if◌then◌else◌}
use go_symphony.Prelude.Int.{ℤ, pos}
use go_symphony.Prelude.Text.{Text, codes, text_eq, trim_space, to_lower, is_empty}
use go_symphony.Prelude.Decimal.{int_text}
use go_symphony.Json
use go_symphony.Json.{Value, Fields, end, get, index, as_map, as_text, map_or_nil}
use go_symphony.Codex.Types.{TokenUsage}

-- firstPresent of two keys
unfoldable pub first_present : Fields → Text → Text → Value
first_present m one other = elim (get one m) [ some v ↦ v | none ↦ index m other ]

unfoldable pub follow_keys : Value → List Text → Option Value
follow_keys v [] = some v
follow_keys v (key ∷ keys) = elim (as_map v) [
  | none ↦ none
  | some m ↦ follow_keys (index m key) keys
]

module _ (sprint : Value → Text) where
  -- fmt.Sprint
  unfoldable pub sprint_value : Value → Text
  sprint_value Json.null = codes "<nil>"
  sprint_value (Json.boolean b) = if b then codes "true" else codes "false"
  sprint_value (Json.number n) = n.text
  sprint_value (Json.text s) = s
  sprint_value (Json.array xs) = sprint (Json.array xs)
  sprint_value (Json.object m) = sprint (Json.object m)

  unfoldable pub string_value : Value → Text
  unfolding sprint_value
  string_value Json.null = []
  string_value (Json.boolean b) = sprint_value (Json.boolean b)
  string_value (Json.number n) = sprint_value (Json.number n)
  string_value (Json.text s) = s
  string_value (Json.array xs) = sprint_value (Json.array xs)
  string_value (Json.object m) = sprint_value (Json.object m)

  -- A decoded number is a float64, which is printed as an int64.
  unfoldable pub id_string : Value → Text
  unfolding sprint_value int_text
  id_string Json.null = sprint_value Json.null
  id_string (Json.boolean b) = sprint_value (Json.boolean b)
  id_string (Json.number n) = int_text n.truncated
  id_string (Json.text s) = s
  id_string (Json.array xs) = sprint_value (Json.array xs)
  id_string (Json.object m) = sprint_value (Json.object m)

  -- sameID, where what is wanted is an int.
  unfoldable pub same_id : Value → ℤ → Bool
  unfolding id_string
  same_id got want = text_eq (id_string got) (int_text want)

  unfoldable pub nested_string : Fields → List Text → Text
  unfolding follow_keys string_value
  nested_string payload keys = elim (follow_keys (Json.object payload) keys) [
    | none ↦ []
    | some v ↦ string_value v
  ]

  unfoldable pub tool_map_name : Value → Text
  unfolding string_value first_present
  tool_map_name v = elim (as_map v) [
    | none ↦ []
    | some tool ↦ string_value (first_present tool (codes "name") (codes "toolName"))
  ]

  unfoldable pub tool_call_name : Fields → Text
  unfolding string_value tool_map_name
  tool_call_name payload =
      let params = map_or_nil (index payload (codes "params")) in
      if not (is_empty (string_value (index params (codes "tool"))))
      then string_value (index params (codes "tool"))
      else if not (is_empty (string_value (index params (codes "name"))))
      then string_value (index params (codes "name"))
      else if not (is_empty (string_value (index params (codes "toolName"))))
      then string_value (index params (codes "toolName"))
      else tool_map_name (index params (codes "tool"))

  unfoldable pub method_of : Fields → Text
  unfolding string_value
  method_of payload = string_value (index payload (codes "method"))

  -- The message of the "error" of a response: [code] message, where it is a map with a message.
  unfoldable pub error_message : Value → Text
  unfolding string_value sprint_value
  error_message e = elim (as_map e) [
    | none ↦ sprint_value e
    | some m ↦
        let message = string_value (index m (codes "message")) in
        let code = string_value (index m (codes "code")) in
        if is_empty message
        then sprint_value e
        else if is_empty code
        then message
        else codes "[" ++ (code ++ (codes "] " ++ message))
  ]

unfoldable pub int_value : Value → ℤ
int_value Json.null = pos 0
int_value (Json.boolean b) = pos 0
int_value (Json.number n) = n.truncated
int_value (Json.text s) = pos 0
int_value (Json.array xs) = pos 0
int_value (Json.object m) = pos 0

unfoldable pub usage_from_payload : Fields → TokenUsage
unfolding int_value first_present
usage_from_payload payload =
    let params = map_or_nil (index payload (codes "params")) in
    let usage = map_or_nil (index params (codes "usage")) in
    record {
      input_tokens = int_value (first_present usage (codes "input_tokens") (codes "inputTokens"));
      output_tokens =
          int_value (first_present usage (codes "output_tokens") (codes "outputTokens"));
      total_tokens = int_value (first_present usage (codes "total_tokens") (codes "totalTokens"));
    }

-- A map or a text, of "arguments" or else of "args"; else an empty map.
unfoldable pub tool_call_arguments : Fields → Value
tool_call_arguments payload =
    let params = map_or_nil (index payload (codes "params")) in
    let arguments = index params (codes "arguments") in
    let args = index params (codes "args") in
    elim (as_map arguments) [
      | some m ↦ Json.object m
      | none ↦ elim (as_text arguments) [
        | some s ↦ Json.text s
        | none ↦ elim (as_map args) [
          | some m ↦ Json.object m
          | none ↦ elim (as_text args) [ some s ↦ Json.text s | none ↦ Json.object end ]
        ]
      ]
    ]

-- strings.EqualFold with "never"
unfoldable pub is_never_approval_policy : Value → Bool
is_never_approval_policy policy = elim (as_text policy) [
  | none ↦ false
  | some s ↦ text_eq (to_lower (trim_space s)) (codes "never")
]
