-- ===== src/Runner/Command.antt =====
-- internal/runner/execution_host.go: a command is run by sh, here or through ssh on a worker host.
use go_symphony.Prelude.{
  ℕ, suc, ◌+◌, ◌≡◌, refl, ap, ◌⊎◌, inl, inr, Bool, true, false, ◌&&◌, ◌||◌, Option, none, some,
  List, [], ◌∷◌, ◌++◌, arith, ltb, leb, ◌==◌, if◌then◌else◌, Fallible, ok, err, Option-cases,
  Bool-cases,
}
use go_symphony.Prelude.Int.{ℤ, pos, ltb_ℤ}
use go_symphony.Prelude.Text.{Text, codes, trim_space, is_empty, is_blank}
use go_symphony.Runner.Shell.{shell_quote}
pub mod Split

pub record CommandRequest : Type 0 where
  pub host : Text
  pub dir : Text
  pub command : Text
  pub timeout : ℤ

pub record CommandResult : Type 0 where
  pub output : Text
  pub status : ℤ

-- What a finished process gives: its error is nil, an ExitError or another error.
pub data ProcessError : Type 0 where
  no_error : ProcessError
  exit_error : (status : ℤ) → ProcessError
  start_error : (text : Text) → ProcessError

-- The two errors of a context, or the error of a process that did not start.
pub data RunError : Type 0 where
  deadline_exceeded canceled : RunError
  not_started : (text : Text) → RunError

pub record ProcessEnd : Type 0 where
  pub output : Text
  pub error : ProcessError
  pub ctx_error : Option RunError

-- The process starter and the environment, which the executor is built with. The starter takes
-- the context's timeout too, which is none when the request has none.
pub record CommandExecutor (W : Type 0) : Type 0 where
  pub start : Option ℤ → Text → List Text → Text → W → ProcessEnd × W
  pub lookup_env : Option (Text → Option Text)

-- Text before the last `c` and after it: strings.LastIndex and the two slices.
unfoldable pub split_last : ℕ → Text → Option (Text × Text)
split_last c [] = none
split_last c (x ∷ xs) = elim (split_last c xs) [
  | none ↦ if x == c then some ([], xs) else none
  | some (before, after) ↦ some (x ∷ before, after)
]

-- The same at the first `c`.
unfoldable pub split_first : ℕ → Text → Option (Text × Text)
split_first c [] = none
split_first c (x ∷ xs) =
    let rest = split_first c xs in
    if x == c
    then some ([], xs)
    else elim rest [ none ↦ none | some (before, after) ↦ some (x ∷ before, after) ]

-- strings.Count of one character
unfoldable pub count_char : ℕ → Text → ℕ
count_char c [] = 0
count_char c (x ∷ xs) = let rest = count_char c xs in if x == c then suc rest else rest

unfoldable pub all_digits : Text → Bool
all_digits [] = true
all_digits (r ∷ rs) = leb b'0' r && leb r b'9' && all_digits rs

unfoldable pub is_port : Text → Bool
unfolding all_digits
is_port [] = false
is_port (r ∷ rs) = all_digits (r ∷ rs)

-- What stands before the last "@", with it, and the destination after it.
unfoldable pub split_user : Text → Text × Text
unfolding split_last
split_user host = elim (split_last b'@' host) [
  | none ↦ ([], host)
  | some (user, destination) ↦ (user ++ codes "@", destination)
]

-- The destination starts with "[": `after` is what follows its first "]".
unfoldable pub after_bracket : Text → Text → Text → Text → Text × Text
unfolding is_port
after_bracket host prefix address [] = (host, [])
after_bracket host prefix address (c ∷ port) =
    if c == b':' && is_port port then (prefix ++ address ++ codes "]", port) else (host, [])

unfoldable pub split_bracket : Text → Text → Text → Text × Text
unfolding split_first after_bracket
split_bracket host prefix destination = elim (split_first b']' destination) [
  | none ↦ (host, [])
  | some (address, after) ↦ after_bracket host prefix address after
]

unfoldable pub split_plain : Text → Text → Text → Text × Text
unfolding split_last count_char is_port
split_plain host prefix destination = elim (split_last b':' destination) [
  | none ↦ (host, [])
  | some (name, port) ↦
      if is_empty name || is_empty port
      then (host, [])
      else if ltb 1 (count_char b':' destination)
      then (host, [])
      else if is_port port
      then (prefix ++ name, port)
      else (host, [])
]

unfoldable pub has_bracket : Text → Bool
has_bracket [] = false
has_bracket (c ∷ s) = c == b'['

unfoldable pub split_host_port : Text → Text × Text
unfolding split_user split_bracket split_plain has_bracket
split_host_port host =
    let (prefix, destination) = split_user host in
    if has_bracket destination
    then split_bracket host prefix destination
    else split_plain host prefix destination

-- `-F` and the file that SYMPHONY_SSH_CONFIG names, when it names one.
unfoldable pub config_args : Option (Text → Option Text) → List Text
config_args none = []
config_args (some lookup_env) = elim (lookup_env (codes "SYMPHONY_SSH_CONFIG")) [
  | none ↦ []
  | some path ↦ if is_blank path then [] else codes "-F" ∷ path ∷ []
]

unfoldable pub remote_command : Text → Text → Text
remote_command dir command =
    if is_blank dir then command else codes "cd " ++ shell_quote dir ++ codes " && " ++ command

unfoldable pub build_ssh_args : Text → Text → Text → Option (Text → Option Text) → List Text
unfolding config_args split_host_port remote_command
build_ssh_args host dir command lookup_env =
    let (target, port) = split_host_port (trim_space host) in
    (codes "-T" ∷ config_args lookup_env)
    ++ (if is_empty port then [] else codes "-p" ∷ port ∷ [])
    ++ target ∷ (codes "bash -lc " ++ shell_quote (remote_command dir command)) ∷ []

unfoldable pub finish_command : ProcessEnd → Fallible CommandResult RunError
finish_command e = elim e.ctx_error [
  | some x ↦ err x
  | none ↦ elim e.error [
    | no_error ↦ ok (record { output = e.output; status = pos 0 })
    | exit_error status ↦ ok (record { output = e.output; status = status })
    | start_error text ↦ err (not_started text)
  ]
]

-- CommandExecutor.RunCommand
unfoldable pub run_command :
    {W : Type 0} → CommandExecutor W → CommandRequest → W → Fallible CommandResult RunError × W
unfolding build_ssh_args finish_command
run_command e req w =
    let timeout = if ltb_ℤ (pos 0) req.timeout then some req.timeout else none in
    let (ended, w') =
      if is_blank req.host
      then e.start timeout (codes "sh") (codes "-lc" ∷ req.command ∷ []) req.dir w
      else e.start timeout (codes "ssh") (build_ssh_args req.host req.dir req.command e.lookup_env)
          [] w in
    (finish_command ended, w')
