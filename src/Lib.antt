-- ===== src/Lib.antt =====
-- omp-lazy keeps the durable state of two workflows, start-work and the ULW loop, in a directory
-- of the repository that it works on, and decides at each idle moment of a session whether the
-- agent is told to go on. This library models the part of the program that computes on that
-- state, in TypeScript under src/, and proves what makes it correct.
--
-- The parts, and how they interact. A command or an idle moment makes an event
-- (src/state/domain.ts). `commit` (src/state/transaction-store.ts) takes a lock, reads the index
-- and the event log, upgrades the event to the index's version (src/state/persisted-event.ts),
-- and calls `prepareTransition` (src/state/state-transition.ts), which checks the event against
-- the index and the run and computes the next run: control commands by
-- src/workflows/workflow-control.ts, the cycles and failures of a loop by
-- src/workflows/ulw-loop-contract.ts, receipts, attempts and ends by
-- src/state/runtime-progress-transition.ts with src/state/receipt-authority.ts. Then it writes
-- the event, the run and the index, in this order; src/state/recovery.ts completes a transaction
-- that stopped between them. The lock is a file (src/state/repo-lock.ts). The ledger of accepted
-- and rejected worker results (src/contracts/worker-acceptance-ledger.ts) gives the receipts
-- that bind a run, and completes the members of a team (src/workflows/teammode-contract.ts). The
-- coordinator (src/continuation/continuation-coordinator.ts) reads a snapshot of the same state
-- and decides on the next event.
--
-- The files. Each component is one module, with child modules for its proofs.
-- Prelude: Boolean tests, lists, options, and a result type with do blocks.
-- State.Domain: the records of src/state/domain.ts. A field that may be null or undefined is an
--   Option; the part that differs between schema versions is a data type (RunVersion,
--   EventVersion, IndexVersion); `kind` and `workflow` are the constructors of the mutation and
--   the payload.
-- State.Receipts: matchesRun, currentAcceptance, startCompletionAcceptanceIds and
--   exhaustedTaskId over the ledgers' lists.
-- State.Progress: reduceRuntimeProgress and the reducers that it calls.
-- State.Index: validateActiveIndex, resolveActiveRun, and the status hint that the index shows.
-- State.Texts: how a decoder trims the texts of a run, an index and an event; State.Texts.Forms:
--   what it then demands of them. State.Codec: what else decodeRun, decodeActiveIndex and
--   decodeStateEvent demand beyond the shape, and what they return.
-- State.Events: readAll over the files of the log, with the sort by sequence and the test for
--   gaps.
-- State.Transition: controlRun, deriveIndex and prepareTransition.
-- State.Store: readIndex, readRun and commit. A Disk is the index file, the event files and the
--   run files; Interruptions says what the clock, the lock, the path guards and the crash hook
--   answer on the way, so a theorem over all of them covers every way to stop between the
--   writes.
-- State.Recovery: inspectRecovery and repairState.
-- State.Lock: the lock file of src/state/repo-lock.ts with its release and the loop of
--   tryAcquire, and clearConfirmedStaleLock. State.Lock.Contention: attempts at one lock as a
--   step relation, where a process may die between any two accesses of the file; a confirmed
--   clear may come at any time, but the runs of the theorems (Steps) have them one at a time and
--   for dead owners (IsCareful), which the source leaves to their callers.
-- Workflow.Control: reduceWorkflowControl; Workflow.StartWork and Workflow.UlwLoop: the two
--   contracts; Workflow.Escalation: the routes of src/workflows/escalation-policy.ts.
-- Continuation.Coordinator: decideContinuation; Continuation.Event: the event that
--   src/continuation/durable-continuation.ts makes of a decision; Continuation.Budget: the
--   counter of src/continuation/continuation-budget.ts and its use in handleSessionStop;
--   Continuation.Fence: src/continuation/deadline-fence.ts.
-- Contracts: src/contracts/quality-score.ts, src/contracts/retrieval-budget.ts, the tiers of
--   src/contracts/task-packet.ts (TaskPacket) and the packets (PacketCompiler); LedgerSchema,
--   AcceptanceLedger and Rejections: the ledgers of src/contracts/worker-acceptance-ledger.ts,
--   with the log of src/contracts/worker-acceptance-wal.ts.
-- Workflow.TeamDomain, Workflow.TeamRoster and Workflow.Teammode: the states, the operations and
--   the file of src/workflows/teammode-domain.ts, teammode-contract.ts and
--   teammode-state-store.ts; Workflow.RiskClassifier: src/workflows/risk-classifier.ts.
-- Scenarios: concrete runs, events, directories, locks, ledgers, teams and packets.
--
-- Bounds and fuel. Counters are natural numbers, as their schemas demand (safe integers from 0).
-- The loops of the source run over lists and are structural recursion, but for the wait of
-- tryAcquire, which is on fuel: each turn sleeps for a millisecond at least, so fuel beyond the
-- time to wait is enough. The bounds are the source's: five cycles, three identical failures,
-- two attempts without progress, eight continuations of a turn, three rejections, a log of a
-- thousand lines, and the tiers' budgets.
--
-- What is outside. `JSON.stringify`, the test that a path lies inside a root, the lengths of a
-- text, the functions on paths, and what git answers are parameters (Host, Root, LedgerHost,
-- TextHost, PacketHost, WorktreeHost, and the section of Contracts.RetrievalBudget). The host of
-- the store has two texts of an event, one as the log gives it and one as it was submitted,
-- because `JSON.stringify` follows the order of an object's keys. The trimming of a text and the
-- forms of identifiers, hashes and timestamps in a run, an index and an event are a Texts. JSON
-- parsing, the format of other texts, file names and input and output are not modelled, nor are
-- the migration, the commands, the gates, the observers, activation and the registration with
-- the host. A write is done or not done, since the source renames a complete temporary file; the
-- receipts of a run do not change between a commit and its repair.
mod Prelude
pub mod State
pub mod Workflow
pub mod Continuation
pub mod Contracts
mod Scenarios
