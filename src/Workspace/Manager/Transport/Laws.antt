-- ===== src/Workspace/Manager/Transport/Laws.antt =====
-- quoteShell and parseRemoteEnsureWorkspaceOutput of internal/workspace/manager.go.
use go_symphony.Prelude.{
  ℕ, ◌≡◌, refl, ap, ◌∙◌, Bool, true, false, [], ◌∷◌, ◌++◌, arith, ◌==◌, if◌then◌else◌, ok,
}
use go_symphony.Prelude.Text.{Text, text_eq, is_blank}
use go_symphony.Runner.Command.{split_first}
use go_symphony.Workspace.Manager.Transport.{
  strip_prefix, split_lines, parse_payload, parse_lines, parse_remote_ensure_output,
  remote_workspace_marker,
}

-- No code point of the text is a line feed.
unfoldable pub is_one_line : Text → Bool
is_one_line [] = true
is_one_line (c ∷ s) = let rest = is_one_line s in if c == 10 then false else rest

split_lines-one_line : (s : Text) → is_one_line s ≡ true → split_lines (s ++ 10 ∷ []) ≡ s ∷ [] ∷ []
unfolding split_lines is_one_line
split_lines-one_line [] h = refl
split_lines-one_line (c ∷ s) h = ground (arith, split_lines-one_line s)

-- The flag that the remote script prints: whether it made the directory.
abbrev pub created_flag : Bool → ℕ
created_flag true = b'1'
created_flag false = b'0'

-- What the remote script prints for a directory: the marker, the flag, the path, a line feed.
abbrev pub ensure_output : Bool → Text → Text
ensure_output created path =
    (remote_workspace_marker ++ created_flag created ∷ b':' ∷ path) ++ 10 ∷ []

parse_payload-flag :
    (created : Bool) (path : Text)
    → is_blank path ≡ false
    → parse_payload (created_flag created ∷ b':' ∷ path) ≡ ok (path, created)
unfolding parse_payload split_first text_eq
parse_payload-flag true path h = rw h refl
parse_payload-flag false path h = rw h refl

-- The line of the remote script is read back: the path, when it is not blank and has no line feed,
-- and whether the directory was made.
pub parse_remote_ensure_output_lem :
    (created : Bool) (path : Text)
    → is_one_line path ≡ true
    → is_blank path ≡ false
    → parse_remote_ensure_output (ensure_output created path) ≡ ok (path, created)
unfolding parse_remote_ensure_output parse_lines strip_prefix is_one_line
parse_remote_ensure_output_lem true path h k =
    ap parse_lines (split_lines-one_line (remote_workspace_marker ++ b'1' ∷ b':' ∷ path) h)
    ∙ parse_payload-flag true path k
parse_remote_ensure_output_lem false path h k =
    ap parse_lines (split_lines-one_line (remote_workspace_marker ++ b'0' ∷ b':' ∷ path) h)
    ∙ parse_payload-flag false path k
