-- ===== src/State/Store.antt =====
-- src/state/transaction-store.ts and persisted-event.ts: the files of the state directory and the
-- transaction that appends an event, replaces the run and replaces the index, in this order. What
-- the world answers on the way (clock, lock, path containment, input and output, crash points) is
-- an argument, so that a theorem over all answers is one over all interruptions.
use omp_lazy.Prelude.{
  ℕ, String, Bool, true, false, not, List, [], ◌∷◌, ◌++◌, Option, none, some, ◌==◌, string_eq,
  nat_eq, if◌then◌else◌, find, get_or,
}
use omp_lazy.Prelude.Result.{Result, ok, err}
use omp_lazy.State.Domain.{
  Run, RunVersion, StateMutation, EventVersion, Expected, StateEvent, WorkflowKind, IndexVersion,
  ActiveIndex,
}
use omp_lazy.State.Receipts.{ReceiptAuthority}
use omp_lazy.State.Codec.{Root, DecodeError, decode_run, decode_active_index}
use omp_lazy.State.Events.{read_all, highest}
use omp_lazy.State.Transition.{
  TransitionErrorCode, PreparedTransition, prepare_transition, is_task_scoped,
}

abbrev bind_run : Run → Run
bind_run run = record run { version = RunVersion.v2 none none }

abbrev upgrade_run : RunVersion → Run → Run
upgrade_run RunVersion.v1 run = bind_run run
upgrade_run (RunVersion.v2 packet_hash expected_head) run = run

abbrev upgrade_mutation : StateMutation → StateMutation
upgrade_mutation (StateMutation.run_created run) =
    StateMutation.run_created (upgrade_run run.version run)
upgrade_mutation mutation = mutation

-- The kinds that a version 1 event is given the task generation 1 for: not `workflow_steered`.
abbrev legacy_generation : StateMutation → Option ℕ
legacy_generation (StateMutation.workflow_steered criteria annotation) = none
legacy_generation mutation = if is_task_scoped mutation then some 1 else none

abbrev upgrade_event : EventVersion → StateEvent → StateEvent
upgrade_event (EventVersion.v2 scope) event = event
upgrade_event EventVersion.v1 event = record event {
  version = EventVersion.v2 (record {
    expected_head = none;
    task_generation = legacy_generation event.mutation;
    legacy_head_unbound = false;
  });
  mutation = upgrade_mutation event.mutation;
}

abbrev for_index : IndexVersion → StateEvent → StateEvent
for_index IndexVersion.v1 event = event
for_index (IndexVersion.v2 migration_revision) event = upgrade_event event.version event

unfoldable pub persisted_event_for_index : ActiveIndex → StateEvent → StateEvent
persisted_event_for_index index event = for_index index.version event

-- An event without its identifier, sequence and time.
pub record SemanticEvent : Type 0 where
  pub version : EventVersion
  pub run_id : String
  pub workflow : WorkflowKind
  pub expected : Expected
  pub mutation : StateMutation

abbrev pub semantic_part : StateEvent → SemanticEvent
semantic_part event = record {
  version = event.version;
  run_id = event.run_id;
  workflow = event.workflow;
  expected = event.expected;
  mutation = event.mutation;
}

-- The state directory.
pub record Disk : Type 0 where
  pub index : Option ActiveIndex
  pub events : List StateEvent
  pub runs : String → Option Run

-- What the store uses from outside this component: the root, the receipt ledgers of a run, and the
-- texts of `eventSemantics`. `JSON.stringify` writes the keys of an object in its own order. That of
-- an event read from the log is its schema's; that of a submitted event is its caller's, so that its
-- text is another function.
pub record Host : Type 0 where
  pub root : Root
  pub receipts : Run → ReceiptAuthority
  pub logged_text : SemanticEvent → String
  pub submitted_text : SemanticEvent → String

abbrev pub no_index : ActiveIndex
no_index = record { version = IndexVersion.v1; revision = 0; entries = [] }

unfoldable pub read_index : Host → Disk → Result DecodeError ActiveIndex
read_index host disk = decode_active_index host.root.texts (get_or disk.index no_index)

abbrev as_some {ℓ κ} : {E : Type ℓ} {A : Type κ} → Result E A → Result E (Option A)
as_some (ok a) = ok (some a)
as_some (err e) = err e

abbrev decoded_run : Root → Option Run → Result DecodeError (Option Run)
decoded_run root none = ok none
decoded_run root (some run) = as_some (decode_run root run)

unfoldable pub read_run : Host → Disk → String → Result DecodeError (Option Run)
read_run host disk run_id = decoded_run host.root (disk.runs run_id)

abbrev pub append_event : StateEvent → Disk → Disk
append_event event disk = record disk { events = disk.events ++ event ∷ [] }

abbrev pub write_run : Run → Disk → Disk
write_run run disk = record disk {
  runs = λ id. if id == run.run_id then some run else disk.runs id;
}

abbrev pub write_index : ActiveIndex → Disk → Disk
write_index index disk = record disk { index = some index }

pub data TransactionErrorCode : Type 0 where
  transition : TransitionErrorCode → TransactionErrorCode
  lock_timeout deadline_expired state_diverged : TransactionErrorCode
  state_root_escaped state_root_unreadable idempotency_conflict : TransactionErrorCode

pub data CommitStatus : Type 0 where
  committed replayed : CommitStatus

-- How a call ends; an exception has no value.
pub data Outcome : Type 0 where
  success : CommitStatus → Run → ActiveIndex → Outcome
  failure : TransactionErrorCode → Outcome
  thrown : Outcome

-- What happens to one of the three writes: the crash hook before it throws, the deadline has
-- passed, the write throws before it publishes, or it is done.
pub data WriteFate : Type 0 where
  crashed expired broken done : WriteFate

pub record Interruptions : Type 0 where
  pub valid_at_start : Bool
  pub escaped : Option TransactionErrorCode
  pub locked : Bool
  pub valid_at_lock : Bool
  pub before_event : WriteFate
  pub after_event : WriteFate
  pub after_run : WriteFate
  pub crash_after_index : Bool

abbrev pub calm : Interruptions
calm = record {
  valid_at_start = true;
  escaped = none;
  locked = true;
  valid_at_lock = true;
  before_event = done;
  after_event = done;
  after_run = done;
  crash_after_index = false;
}

-- One write under its fate: the rest of the transaction runs if it is done.
abbrev pub guarded_write : WriteFate → Disk → Disk → (Disk → Disk × Outcome) → Disk × Outcome
guarded_write crashed old new rest = (old, thrown)
guarded_write expired old new rest = (old, failure deadline_expired)
guarded_write broken old new rest = (old, thrown)
guarded_write done old new rest = rest new

-- The three writes, from `options.crash?.("before_event")` on.
unfoldable pub publish : Interruptions → StateEvent → PreparedTransition → Disk → Disk × Outcome
publish w event prepared d0 =
    let d1 = append_event event d0 in
    let d2 = write_run prepared.run d1 in
    let d3 = write_index prepared.index d2 in
    guarded_write w.before_event d0 d1 λ d. guarded_write w.after_event d d2 λ e.
      guarded_write w.after_run e d3 λ f.
        if w.crash_after_index
        then (f, thrown)
        else (f, success committed prepared.run prepared.index)

abbrev pub is_receipt_bound : StateMutation → Bool
is_receipt_bound (StateMutation.criterion_settled m) = true
is_receipt_bound (StateMutation.task_evidence_accepted t a) = true
is_receipt_bound (StateMutation.workflow_terminal s ids t) = true
is_receipt_bound _ = false

-- `receiptBound && current !== null ? await readReceiptAuthority(current) : null`
abbrev authority_if : Host → Bool → Option Run → Option ReceiptAuthority
authority_if host true (some run) = some (host.receipts run)
authority_if host _ _ = none

unfoldable pub authority_for : Host → StateMutation → Option Run → Option ReceiptAuthority
authority_for host mutation current = authority_if host (is_receipt_bound mutation) current

-- A thrown `StateDecodeError` or `EventStoreError` ends the call.
abbrev or_throw {ℓ κ} :
    {E : Type ℓ} {A : Type κ} → Disk → Result E A → (A → Disk × Outcome) → Disk × Outcome
or_throw disk (ok a) k = k a
or_throw disk (err e) k = (disk, thrown)

unfoldable pub find_event : String → List StateEvent → Option StateEvent
find_event event_id events = find (λ e. e.event_id == event_id) events

module _ (host : Host) where
  abbrev replay_result : Disk → ActiveIndex → Option Run → Disk × Outcome
  replay_result disk index none = (disk, failure state_diverged)
  replay_result disk index (some run) = (disk, success replayed run index)

  -- An event with the same identifier is in the log.
  unfoldable pub commit_replay : StateEvent → StateEvent → ActiveIndex → Disk → Disk × Outcome
  commit_replay replay event index disk =
      if host.logged_text (semantic_part replay) == host.submitted_text (semantic_part event)
      then or_throw disk (read_run host disk event.run_id) (replay_result disk index)
      else (disk, failure idempotency_conflict)

  abbrev publish_if :
      Interruptions
      → StateEvent
      → Disk
      → Result TransitionErrorCode PreparedTransition
      → Disk × Outcome
  publish_if w event disk (err code) = (disk, failure (transition code))
  publish_if w event disk (ok prepared) = publish w event prepared disk

  unfoldable pub commit_new : Interruptions → StateEvent → ActiveIndex → Disk → Disk × Outcome
  commit_new w event index disk =
      let persisted = persisted_event_for_index index event in
      or_throw disk (read_run host disk event.run_id) λ current.
        publish_if w persisted disk (
          prepare_transition index current persisted
            (authority_for host persisted.mutation current))

  abbrev commit_found :
      Interruptions
      → StateEvent
      → ActiveIndex
      → List StateEvent
      → Disk
      → Option StateEvent
      → Disk × Outcome
  commit_found w event index events disk (some replay) = commit_replay replay event index disk
  commit_found w event index events disk none =
      if highest events == index.revision
      then commit_new w event index disk
      else (disk, failure state_diverged)

  -- The transaction under the lock.
  unfoldable pub commit_locked : Interruptions → StateEvent → Disk → Disk × Outcome
  commit_locked w event disk = or_throw disk (read_index host disk) λ index.
      or_throw disk (read_all host.root.texts disk.events)
        λ events. commit_found w event index events disk (find_event event.event_id events)

  unfoldable pub commit : Interruptions → StateEvent → Disk → Disk × Outcome
  commit w event disk =
      if not w.valid_at_start then (disk, failure deadline_expired) else elim w.escaped [
        | some code ↦ (disk, failure code)
        | none ↦
            if w.locked
            then commit_locked w event disk
            else if w.valid_at_lock
            then (disk, failure lock_timeout)
            else (disk, failure deadline_expired)
      ]
