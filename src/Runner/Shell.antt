-- ===== src/Runner/Shell.antt =====
-- shellQuote of internal/runner/execution_host.go, beside the part of sh's word reading that it
-- relies on.
use mathlib.Core.Option as Option
use go_symphony.Prelude.{
  ℕ, ◌≡◌, refl, Bool, true, false, not, ◌&&◌, ◌||◌, Option, none, some, [], ◌∷◌, ◌++◌, arith, leb,
  ◌==◌, if◌then◌else◌, Bool-cases, &&-left, &&-right, inl, inr,
}
use go_symphony.Prelude.Text.{Text, codes, is_empty}

unfoldable pub safe_shell_rune : ℕ → Bool
safe_shell_rune r =
    r == b'/'
    || r == b'.'
    || r == b'_'
    || r == b'-'
    || (leb b'0' r && leb r b'9')
    || (leb b'A' r && leb r b'Z')
    || (leb b'a' r && leb r b'z')

-- `strings.IndexFunc(value, unsafeShellRune) == -1`
unfoldable pub all_safe : Text → Bool
unfolding safe_shell_rune
all_safe [] = true
all_safe (r ∷ rs) = safe_shell_rune r && all_safe rs

-- strings.ReplaceAll(value, "'", `'\''`)
unfoldable pub escape_quotes : Text → Text
escape_quotes [] = []
escape_quotes (r ∷ rs) =
    let rest = escape_quotes rs in if r == 39 then 39 ∷ 92 ∷ 39 ∷ 39 ∷ rest else r ∷ rest

unfoldable pub shell_quote : Text → Text
unfolding all_safe escape_quotes
shell_quote value =
    if is_empty value
    then codes "''"
    else if all_safe value
    then value
    else 39 ∷ escape_quotes value ++ 39 ∷ []

-- Where sh stands in a word: outside quotes, between single quotes, after a backslash.
pub data Mode : Type 0 where
  bare quoted escaped : Mode

-- The characters that stand for themselves outside quotes, wherever in a word they are.
unfoldable pub is_plain : ℕ → Bool
is_plain c = not (
    leb c 32
    || c == b'!'
    || c == b'"'
    || c == b'#'
    || c == b'$'
    || c == b'%'
    || c == b'&'
    || c == 39
    || c == b'('
    || c == b')'
    || c == b'*'
    || c == b';'
    || c == b'<'
    || c == b'='
    || c == b'>'
    || c == b'?'
    || c == b'['
    || c == 92
    || c == b']'
    || c == b'^'
    || c == b'`'
    || c == b'{'
    || c == b'|'
    || c == b'}'
    || c == b'~')

-- One character: the mode after it, and what it adds to the word.
unfoldable pub read_char : Mode → ℕ → Option (Mode × Text)
read_char bare c =
    if c == 39
    then some (quoted, [])
    else if c == 92
    then some (escaped, [])
    else if is_plain c
    then some (bare, c ∷ [])
    else none
read_char quoted c = if c == 39 then some (bare, []) else some (quoted, c ∷ [])
read_char escaped c = if c == 10 then some (bare, []) else some (bare, c ∷ [])

-- What sh reads as one literal word: none when it would expand, split or wait for more.
unfoldable pub read_word : Mode → Text → Option Text
read_word m [] = elim m [ bare ↦ some [] | quoted ↦ none | escaped ↦ none ]
read_word m (c ∷ s) = elim (read_char m c) [
  | none ↦ none
  | some (m', out) ↦ Option.map (λ word. out ++ word) (read_word m' s)
]

-- The literal word that a shell takes a text for.
unfoldable pub shell_word : Text → Option Text
unfolding read_word
shell_word s = if is_empty s then none else read_word bare s

safe_shell_rune-is_plain : (c : ℕ) → safe_shell_rune c ≡ true → is_plain c ≡ true
unfolding safe_shell_rune is_plain
safe_shell_rune-is_plain c h = ground arith

is_plain-unquoted : (c : ℕ) → is_plain c ≡ true → ((c == 39) ≡ false) × ((c == 92) ≡ false)
unfolding is_plain
is_plain-unquoted c h = ground arith

read_char-is_plain : (c : ℕ) → is_plain c ≡ true → read_char bare c ≡ some (bare, c ∷ [])
unfolding read_char
read_char-is_plain c h = let (k, l) = is_plain-unquoted c h in rw (k, l, h)

read_word-all_safe : (s : Text) → all_safe s ≡ true → read_word bare s ≡ some s
unfolding all_safe read_word
read_word-all_safe [] h = refl
read_word-all_safe (c ∷ s) h =
    let k = &&-left (safe_shell_rune c) (all_safe s) h in
    let l = &&-right (safe_shell_rune c) (all_safe s) h in
    rw (read_char-is_plain c (safe_shell_rune-is_plain c k), read_word, read_word-all_safe s l)

read_word-escape_quotes : (s : Text) → read_word quoted (escape_quotes s ++ 39 ∷ []) ≡ some s
unfolding read_word read_char escape_quotes
read_word-escape_quotes [] = refl
read_word-escape_quotes (c ∷ s) = ground (arith, read_word-escape_quotes s)

-- Whatever the text, sh reads its quoted form as one literal word, and that word is the text.
pub shell_word-shell_quote : (value : Text) → shell_word (shell_quote value) ≡ some value
unfolding shell_word shell_quote read_word read_char
shell_word-shell_quote [] = refl
shell_word-shell_quote (c ∷ s) = elim (Bool-cases (all_safe (c ∷ s))) [
  | inl e ↦ rw (e, read_word-all_safe (c ∷ s) e)
  | inr e ↦ rw (e, read_word-escape_quotes (c ∷ s))
]
