-- ===== src/Tests/Runner.antt =====
-- Host selection, quoting and worker hosts on concrete inputs.
use go_symphony.Prelude.{◌≡◌, some, List, [], ◌∷◌}
use go_symphony.Prelude.Int.{pos}
use go_symphony.Prelude.Text.{codes, trim_space}
use go_symphony.Runner.HostSelection.{HostSelection, HostLoad, normalize_hosts, host_counts, select}
use go_symphony.Runner.HostSelection.Laws.{select-Selects, Selects}
use go_symphony.Runner.Shell.{shell_quote, shell_word, shell_word-shell_quote}
use go_symphony.Runner.Command.{split_host_port, count_char, has_bracket, is_port}
use go_symphony.Runner.Command.Split.{user_part, split_host_port-colon, split_host_port-bracket}
use go_symphony.Prelude.{◌≢◌, ◌++◌, none, refl, arith, ltb, if◌then◌else◌}

abbrev two_hosts : HostSelection
two_hosts = record { hosts = codes "a" ∷ codes " b " ∷ []; max_per_host = some (pos 1) }

abbrev one_load : List HostLoad
one_load = record { host = codes "a"; running = 1 } ∷ []

select-Selects_example :
    Selects two_hosts
      (normalize_hosts two_hosts.hosts)
      (host_counts one_load)
      (trim_space (codes "a"))
      (select two_hosts (codes "a") one_load)
select-Selects_example = select-Selects two_hosts (codes "a") one_load

shell_word-shell_quote_example :
    shell_word (shell_quote (codes "it's $HOME")) ≡ some (codes "it's $HOME")
shell_word-shell_quote_example = shell_word-shell_quote (codes "it's $HOME")

six_address : codes "::1" ≢ []
six_address = ground arith

split_host_port-colon_example :
    split_host_port (user_part (some (codes "me")) ++ (codes "::1" ++ b':' ∷ codes "2222")) ≡ (
      if ltb 0 (count_char b':' (codes "::1"))
      then (user_part (some (codes "me")) ++ (codes "::1" ++ b':' ∷ codes "2222"), [])
      else (user_part (some (codes "me")) ++ codes "::1", codes "2222"))
unfolding count_char has_bracket is_port
split_host_port-colon_example =
    split_host_port-colon (some (codes "me")) (codes "::1") (codes "2222") six_address refl refl
      refl

split_host_port-bracket_example :
    split_host_port (user_part none ++ (b'[' ∷ (codes "::1" ++ b']' ∷ b':' ∷ codes "2222")))
    ≡ (user_part none ++ (b'[' ∷ (codes "::1" ++ codes "]")), codes "2222")
unfolding count_char is_port
split_host_port-bracket_example =
    split_host_port-bracket none (codes "::1") (codes "2222") refl refl refl
