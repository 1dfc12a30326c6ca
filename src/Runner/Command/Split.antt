-- ===== src/Runner/Command/Split.antt =====
-- What splitHostPort of internal/runner/execution_host.go makes of a host with a port.
use mathlib.Core.List.{append_assoc}
use go_symphony.Prelude.{
  ℕ, ◌+◌, ◌≡◌, ◌≢◌, refl, ◌∙◌, true, false, Option, none, some, [], ◌∷◌, ◌++◌, arith, ltb,
  if◌then◌else◌,
}
use go_symphony.Prelude.Text.{Text, codes, is_empty}
use go_symphony.Runner.Command.{
  split_last, split_first, is_port, all_digits, split_user, after_bracket, split_bracket,
  split_plain, split_host_port, has_bracket, count_char,
}

split_last-none : (c : ℕ) (s : Text) → count_char c s ≡ 0 → split_last c s ≡ none
unfolding split_last count_char
split_last-none c [] h = refl
split_last-none c (x ∷ xs) h = ground (arith, split_last-none c xs)

split_last-append :
    (c : ℕ) (s t : Text) → split_last c t ≡ none → split_last c (s ++ c ∷ t) ≡ some (s, t)
unfolding split_last
split_last-append c [] t h = ground arith
split_last-append c (x ∷ s) t h = ground (arith, split_last-append c s t h)

split_first-append :
    (c : ℕ) (s t : Text) → count_char c s ≡ 0 → split_first c (s ++ c ∷ t) ≡ some (s, t)
unfolding split_first count_char
split_first-append c [] t h = ground arith
split_first-append c (x ∷ s) t h = ground (arith, split_first-append c s t)

count_char-append : (c : ℕ) (s t : Text) → count_char c (s ++ t) ≡ count_char c s + count_char c t
unfolding count_char
count_char-append c [] t = ground arith
count_char-append c (x ∷ s) t = ground (arith, count_char-append c s t)

all_digits-count_char :
    (c : ℕ) (s : Text) → ltb b'9' c ≡ true → all_digits s ≡ true → count_char c s ≡ 0
unfolding all_digits count_char
all_digits-count_char c [] h k = refl
all_digits-count_char c (x ∷ s) h k = ground (arith, all_digits-count_char c s h)

is_port-count_char : (c : ℕ) (s : Text) → ltb b'9' c ≡ true → is_port s ≡ true → count_char c s ≡ 0
unfolding is_port
is_port-count_char c [] h k = cc
is_port-count_char c (x ∷ s) h k = all_digits-count_char c (x ∷ s) h k

-- The user, with the "@", when the host names one.
abbrev pub user_part : Option Text → Text
user_part none = []
user_part (some user) = user ++ codes "@"

split_user_lem :
    (user : Option Text) (destination : Text)
    → count_char b'@' destination ≡ 0
    → split_user (user_part user ++ destination) ≡ (user_part user, destination)
unfolding split_user
split_user_lem none destination h = rw (split_last-none b'@' destination h) refl
split_user_lem (some user) destination h =
    rw
      (
        append_assoc user (codes "@") destination,
        split_last-append b'@' user destination (split_last-none b'@' destination h),
        split_user,
      )
      refl

count_char-colon :
    (name port : Text)
    → is_port port ≡ true
    → ltb 1 (count_char b':' (name ++ b':' ∷ port)) ≡ ltb 0 (count_char b':' name)
unfolding count_char
count_char-colon name port h =
    ground (arith, count_char-append b':' name (b':' ∷ port), is_port-count_char b':' port refl h)

is_port-nonempty : (port : Text) → is_port port ≡ true → is_empty port ≡ false
unfolding is_port
is_port-nonempty [] h = cc
is_port-nonempty (c ∷ port) h = refl

nonempty : (name : Text) → name ≢ [] → is_empty name ≡ false
nonempty [] h = elim (h refl) [ ]
nonempty (c ∷ name) h = refl

split_plain_lem :
    (host prefix name port : Text)
    → name ≢ []
    → is_port port ≡ true
    → split_plain host prefix (name ++ b':' ∷ port)
      ≡ (if ltb 0 (count_char b':' name) then (host, []) else (prefix ++ name, port))
unfolding split_plain
split_plain_lem host prefix name port h k =
    rw
      (
        split_last-append b':' name port
            (split_last-none b':' port (is_port-count_char b':' port refl k)),
        split_plain,
      )
      (ground (arith, count_char-colon name port k, is_port-nonempty port k, nonempty name h))

split_bracket_lem :
    (host prefix address port : Text)
    → count_char b']' address ≡ 0
    → is_port port ≡ true
    → split_bracket host prefix (address ++ b']' ∷ b':' ∷ port)
      ≡ (prefix ++ (address ++ codes "]"), port)
unfolding split_bracket after_bracket
split_bracket_lem host prefix address port h k =
    rw (split_first-append b']' address (b':' ∷ port) h, split_bracket)
      (ground (arith, k, append_assoc prefix address (codes "]")))

has_bracket-append : (name rest : Text) → name ≢ [] → has_bracket (name ++ rest) ≡ has_bracket name
unfolding has_bracket
has_bracket-append [] rest h = elim (h refl) [ ]
has_bracket-append (c ∷ name) rest h = refl

no_at :
    (name port : Text)
    → count_char b'@' name ≡ 0
    → is_port port ≡ true
    → count_char b'@' (name ++ b':' ∷ port) ≡ 0
unfolding count_char
no_at name port h k =
    ground (arith, count_char-append b'@' name (b':' ∷ port), is_port-count_char b'@' port refl k)

has_bracket_lem : (s : Text) → has_bracket (b'[' ∷ s) ≡ true
unfolding has_bracket
has_bracket_lem s = refl

bracketed_lem :
    (host prefix destination : Text)
    → split_user host ≡ (prefix, destination)
    → has_bracket destination ≡ true
    → split_host_port host ≡ split_bracket host prefix destination
unfolding split_host_port
bracketed_lem host prefix destination e h = rw (e, h, split_host_port) refl

bracket_no_at :
    (address port : Text)
    → count_char b'@' address ≡ 0
    → is_port port ≡ true
    → count_char b'@' (b'[' ∷ (address ++ b']' ∷ b':' ∷ port)) ≡ 0
unfolding count_char
bracket_no_at address port h k = ground (
  arith,
  count_char-append b'@' address (b']' ∷ b':' ∷ port),
  is_port-count_char b'@' port refl k,
)

bracket_closed :
    (address : Text) → count_char b']' address ≡ 0 → count_char b']' (b'[' ∷ address) ≡ 0
unfolding count_char
bracket_closed address h = ground arith

-- A port of digits after a host's name is split off, and the user stays with the name; but a name that
-- itself has a colon, as an IPv6 address has, is left whole with what follows it. Here a name is not
-- empty, has no "@" and does not start with "[".
pub split_host_port-colon :
    (user : Option Text) (name port : Text)
    → name ≢ []
    → count_char b'@' name ≡ 0
    → has_bracket name ≡ false
    → is_port port ≡ true
    → split_host_port (user_part user ++ (name ++ b':' ∷ port)) ≡ (
        if ltb 0 (count_char b':' name)
        then (user_part user ++ (name ++ b':' ∷ port), [])
        else (user_part user ++ name, port))
unfolding split_host_port
split_host_port-colon user name port some_name no_user plain digits =
    rw
      (
        split_user_lem user (name ++ b':' ∷ port) (no_at name port no_user digits),
        has_bracket-append name (b':' ∷ port) some_name ∙ plain,
        split_host_port,
      )
      (split_plain_lem (user_part user ++ (name ++ b':' ∷ port)) (user_part user) name port
        some_name digits)

-- A port of digits after an address in brackets is split off too. Here the address has no "]" and no "@".
pub split_host_port-bracket :
    (user : Option Text) (address port : Text)
    → count_char b']' address ≡ 0
    → count_char b'@' address ≡ 0
    → is_port port ≡ true
    → split_host_port (user_part user ++ (b'[' ∷ (address ++ b']' ∷ b':' ∷ port)))
      ≡ (user_part user ++ (b'[' ∷ (address ++ codes "]")), port)
split_host_port-bracket user address port closed no_user digits =
    let no_at_all : count_char b'@' (b'[' ∷ (address ++ b']' ∷ b':' ∷ port)) ≡ 0 =
      bracket_no_at address port no_user digits in
    bracketed_lem _ (user_part user) (b'[' ∷ (address ++ b']' ∷ b':' ∷ port))
      (split_user_lem user (b'[' ∷ (address ++ b']' ∷ b':' ∷ port)) no_at_all)
      (has_bracket_lem (address ++ b']' ∷ b':' ∷ port))
    ∙ split_bracket_lem _ (user_part user) (b'[' ∷ address) port (bracket_closed address closed)
        digits
