-- ===== src/Lib.antt =====
-- The scheduler of Symphony, the workspaces that its runs use, and what stands around them.
--
-- Symphony polls an issue tracker, starts an agent run for each issue that is due, follows the
-- events of the runs, retries those that fail and stops those whose issue has moved on. Each issue
-- has a workspace directory, on this machine or on a worker host that is reached by ssh.
--
-- The parts and the files that model them. A file keeps the names of the code in snake case.
-- - Prelude: numbers, Booleans, lists; Prelude/Text has Go's strings as lists of code points,
--   Prelude/LowerCase the lower case of Unicode, Prelude/Map maps as association lists, Prelude/Int the int and time.Duration with the
--   wrap-around written out.
-- - Domain: internal/domain/types.go. Config/Settings: the records of internal/config/settings.go;
--   Config/Validation: its validateSettings.
-- - Orchestrator: internal/orchestrator. State, Candidates, Backoff, Dispatch, Events, Polling,
--   Retry and Reconcile are the methods of schedulerState (state.go); the tracker, the runs and the
--   clock are the record Deps over a world W, which every call takes and returns. A loop over a Go
--   map runs over an order that Deps chooses. Service is service.go: its mutex makes each method one
--   step, timers are values, and Service/Runs has the runs of a service: any sequence of requests,
--   reports of runs and timers that fire, late ones included. Invariant is about the maps of the
--   state, method by method, and Service/Scheduler about whole runs; Service/Alive, Pending, Sync
--   and Liveness are about the timers that a service has armed.
-- - Runner: internal/runner. HostSelection is host_selection.go; Shell and Command are
--   execution_host.go, with the starter of processes and the environment as parameters.
-- - Workspace: internal/workspace/manager.go. Paths has the paths, as lists of segments, and what is
--   used of path/filepath; Records its data, Manager the manager's operations, Manager/Transport what they do
--   through the executor and the file system, which are the record Machine over a world.
-- - Orchestrator/Snapshot is the snapshot of the state, Orchestrator/Public is public.go.
-- - Tracker: internal/tracker, internal/trackers/memory, and in Linear
--   internal/trackers/linear/reader.go: Issue reads the answers, Names has the names that are asked
--   for, Reader the three reads over a client.
-- - Json: decoded JSON, Go's any. Codex: internal/codex/session.go. Types has its data, Payload what
--   is read out of a message, Answers what is answered unasked, Directory where a session may work,
--   Messages what it sends; Session has the calls over a Peer, which is the transport, the tool
--   handler and the event sink, Session/Turns is RunTurn, Session/Start is StartSession and Close.
--   Session/Keeps says what a session keeps of its peer's world, and the other proofs apply it.
-- - Config/Workflow and Config/Store: internal/config/workflow.go and store.go. SetWorkflowPath holds the
--   store's lock twice: set_desired_path is the first time, a forced reload the second, and in
--   Config/Store/Reach they are two steps, between which others may come.
-- - Worker: the runs of internal/cli/runtime.go. Prompt has the prompts, Events what a run tells of
--   itself, Run the loop over its turns and the calls of the session, the tracker and the workspace.
-- - Tests: the theorems at concrete inputs.
--
-- Assumptions. Deps is sound when a refresh returns only items that it was asked for, and the order
-- of a loop names each key, and names it once; Tests/World has such a Deps. Theorems on nonces ask
-- that the 64-bit counter has not wrapped around.
--
-- Fuel. canonicalizePath has no bound of its own; canonicalize_path takes fuel and answers none when
-- it runs out: a call that is still running.
-- The reading loops of a session take fuel, one for each line, and end with still_waiting when it
-- runs out: fuel above the number of lines that the peer has still to send is enough. The pages of
-- Linear take fuel, one for each page, and end with still_paging: any chain of pages that ends has
-- enough. Every other loop is structural.
--
-- Not modelled: contexts, but for what a read of a line says of them, log lines, the text of errors,
-- the defaults and the environment of the settings, the child process of a session, the HTTP client
-- of Linear, the Linear tools of a session, the handles of runs, which goroutines share, the dashboards,
-- HTTP and the command line: input and output, and text for people.
mod Prelude
pub mod Json
pub mod Domain
pub mod Config
pub mod Runner
pub mod Orchestrator
pub mod Tracker
pub mod Workspace
pub mod Codex
pub mod Worker
mod Tests
