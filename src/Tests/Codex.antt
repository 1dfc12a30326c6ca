-- ===== src/Tests/Codex.antt =====
-- Sessions with an agent that sends a fixed list of messages.
use go_symphony.Prelude.{
  ℕ, zero, suc, ◌≤◌, ◌<◌, ◌≡◌, ◌≢◌, refl, ◌⊎◌, Bool, true, false, Option, none, some, List, [], ◌∷◌,
  arith, Fallible, ok, err, All,
}
use go_symphony.Prelude.Int.{pos}
use go_symphony.Prelude.Text.{Text, codes, to_lower, trim_space, text_eq, is_blank}
use go_symphony.Json
use go_symphony.Json.{Value, Fields, end, fields}
use go_symphony.Workspace.Paths.{Segments}
use go_symphony.Codex.Types.{
  Session, SessionConfig, unsupported, TurnRequest, TurnResult, transport, completed, still_waiting,
}
use go_symphony.Codex.Session.{Peer, and_then, ReadFailure, ReadEnd, line, broken}
use go_symphony.Codex.Payload.{is_never_approval_policy}
use go_symphony.Codex.Session.Keeps.{Kept}
use go_symphony.Codex.Session.Turns.{run_turn}
use go_symphony.Codex.Session.Start.{SessionOptions, start_session}
use go_symphony.Codex.Session.Ends.{Drains, run_turn-ends}
use go_symphony.Codex.Session.Consent.{IsUndecided, run_turn-IsUndecided}
use go_symphony.Codex.Session.Outcome.{run_turn-Tells, IsTold}
use go_symphony.Codex.Session.Failures.{start_session-IsOpened, start_session-closes}
use go_symphony.Codex.Messages.{turn_start_request, turn_start_id}
use go_symphony.Codex.Session.{write, await_response}
use go_symphony.Codex.Session.Failures.{IsOpened}
use go_symphony.Codex.Directory.Laws.{IsBelow}
use go_symphony.Workspace.Paths.{absolute, show_path}
use go_symphony.Codex.Types.{normalize_config}

-- The lines that are left to read, and the messages that were sent.
record World : Type 0 where
  left : ℕ
  sent : List Fields
  closed : Bool

abbrev gone : ReadFailure
gone = record {
  of_context = false;
  parent_error = none;
  deadline_passed = false;
  reason = codes "EOF";
}

abbrev nth : List Fields → ℕ → Option Fields
nth [] n = none
nth (m ∷ ms) zero = some m
nth (m ∷ ms) (suc n) = nth ms n

abbrev read_next : ℕ → World → ReadEnd × World
read_next zero w = (broken gone, w)
read_next (suc n) w = (line (n ∷ []), record w { left = n })

-- The agent of a list of messages, whose last one it sends first: a line is a message's place.
abbrev agent : List Fields → Peer World
agent messages = record {
  sprint = λ v. [];
  decode = λ raw. elim raw [ [] ↦ none | n ∷ rest ↦ nth messages n ];
  start_scope = λ t w. w;
  read_line = λ w. read_next w.left w;
  write_json = λ m w. (none, record w { sent = m ∷ w.sent });
  close_transport = λ w. (none, record w { closed = true });
  handle_tool = λ c w. (err unsupported, w);
  emit = λ e w. w;
}

abbrev number : ℕ → Value
number n = Json.number (record { text = []; truncated = pos n; is_integer = true })

abbrev response : ℕ → Text → Fields
response id key = fields (
    (codes "id", number id)
    ∷ (
      codes "result",
      Json.object
          (fields ((key, Json.object (fields ((codes "id", Json.text (codes "x")) ∷ []))) ∷ [])),
    )
    ∷ [])

abbrev call : Text → Fields
call method = fields ((codes "method", Json.text method) ∷ [])

abbrev config : Text → SessionConfig
config policy = record {
  command = codes "codex";
  workspace_root = codes "/r";
  approval_policy = Json.text policy;
  thread_sandbox = [];
  turn_sandbox_policy = none;
  dynamic_tools = [];
  read_timeout = pos 1;
  turn_timeout = pos 1;
}

abbrev session : Session
session = record {
  cfg = config (codes "on-request");
  workspace_path = codes "/r/a";
  non_interactive = true;
  turn_sandbox_policy = none;
  thread_id = codes "x";
  closed = false;
}

abbrev request : TurnRequest
request = record { prompt = codes "go"; title = codes "a" }

abbrev world : ℕ → World
world n = record { left = n; sent = []; closed = false }

abbrev asking : Peer World
asking = agent (call (codes "item/fileChange/requestApproval") ∷ response 3 (codes "turn") ∷ [])

abbrev finishing : Peer World
finishing = agent (call (codes "turn/completed") ∷ response 3 (codes "turn") ∷ [])

asking_keeps : Kept asking IsUndecided (λ w. All IsUndecided w.sent)
asking_keeps = record {
  scopes = λ t w p. p;
  tools = λ c w p. p;
  emits = λ e w p. p;
  writes = λ m w a p. (a, p);
}

read_next-sent :
    (P : List Fields → Type 0) (n : ℕ) (w : World) → P w.sent → P (read_next n w).1.sent
read_next-sent P zero w p = p
read_next-sent P (suc n) w p = p

run_turn-IsUndecided_example : All IsUndecided (run_turn asking session 3 request (world 2)).1.sent
unfolding is_never_approval_policy to_lower trim_space text_eq Json.as_text
run_turn-IsUndecided_example =
    run_turn-IsUndecided asking session (λ w. All IsUndecided w.sent) refl asking_keeps
      (λ w p. read_next-sent (All IsUndecided) w.left w p) 3 request (world 2) tt

read_next-left : (n : ℕ) (w : World) → w.left ≡ n → (read_next n w).1.left ≤ w.left
read_next-left zero w e = omega arith
read_next-left (suc n) w e = omega (arith, e)

read_next-line :
    (n : ℕ) (w : World) (raw : Text)
    → w.left ≡ n
    → (read_next n w).0 ≡ line raw
    → (read_next n w).1.left < w.left
read_next-line zero w raw e h = ground arith
read_next-line (suc n) w raw e h = omega (arith, e)

finishing-Drains : Drains finishing (λ w. w.left)
finishing-Drains = record {
  others = λ n. record {
    scopes = λ t w p. p;
    tools = λ c w p. p;
    emits = λ e w p. p;
    writes = λ m w a p. p;
  };
  reads = λ w. read_next-left w.left w refl;
  lines = λ w raw h. read_next-line w.left w raw refl h;
}

run_turn-ends_example : (run_turn finishing session 3 request (world 2)).0 ≢ err still_waiting
run_turn-ends_example =
    run_turn-ends finishing session (λ w. w.left) finishing-Drains 3 request (world 2) (omega arith)

abbrev finished : TurnResult
finished = record {
  status = completed;
  turn_id = codes "x";
  usage = record { input_tokens = pos 0; output_tokens = pos 0; total_tokens = pos 0 };
}

turn_finishes : (run_turn finishing session 3 request (world 2)).0 ≡ ok finished
unfolding run_turn and_then text_eq Json.index Json.as_map Json.map_or_nil
turn_finishes = refl

run_turn-Tells_example :
    (finished.turn_id ≢ [])
    × IsTold finishing session
        (await_response finishing session 3 turn_start_id
          (write finishing session (turn_start_request session request) (world 2)).1).1
        (run_turn finishing session 3 request (world 2)).1
        finished
run_turn-Tells_example = run_turn-Tells finishing session 3 request (world 2) finished turn_finishes

abbrev options : Text → SessionOptions
options path = record {
  config = config (codes "never");
  workspace_path = path;
  non_interactive = true;
  turn_sandbox_policy = none;
}

abbrev starting : Peer World
starting = agent (response 2 (codes "thread") ∷ response 1 (codes "thread") ∷ [])

abbrev open_always : Text → Text → World → Option Text × World
open_always command path w = (none, w)

abbrev resolve : Segments → Fallible Segments Text
resolve p = ok p

abbrev started : Session
started = record {
  cfg = config (codes "never");
  workspace_path = codes "/r/a";
  non_interactive = true;
  turn_sandbox_policy = none;
  thread_id = codes "x";
  closed = false;
}

session_starts :
    (start_session starting resolve [] open_always 3 (options (codes "/r/a")) (world 2)).0
    ≡ ok started
unfolding start_session is_blank text_eq and_then Json.index Json.as_map show_path
session_starts = refl

start_session-IsOpened_example :
    (p : Text) × (root : Segments) × ((resolve
          (absolute [] (normalize_config (options (codes "/r/a")).config).workspace_root)
        ≡ ok root)
      × (IsBelow root p × IsOpened p started))
start_session-IsOpened_example =
    start_session-IsOpened starting resolve [] open_always 3 (options (codes "/r/a")) (world 2)
      started session_starts

session_fails :
    (start_session starting resolve [] open_always 3 (options (codes "/r/a")) (world 1)).0
    ≡ err (transport (codes "EOF"))
unfolding start_session is_blank text_eq and_then Json.index Json.as_map show_path
session_fails = refl

start_session-closes_example :
    ((start_session starting resolve [] open_always 3 (options (codes "/r/a")) (world 1)).1
      ≡ world 1)
    ⊎ ((p : Text) × (((t : Text) × ((none ≡ some t) × (transport (codes "EOF") ≡ transport t)))
          ⊎ ((v : World) × ((start_session starting resolve [] open_always 3
                  (options (codes "/r/a"))
                  (world 1)).1
                ≡ (starting.close_transport v).1))))
start_session-closes_example =
    start_session-closes starting resolve [] open_always 3 (options (codes "/r/a")) (world 1)
      (transport (codes "EOF")) session_fails
