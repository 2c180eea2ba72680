-- ===== src/State/Recovery.antt =====
-- src/state/recovery.ts: the repair of a transaction that was interrupted behind its event.
pub mod Pending
pub mod Repairs
pub mod Atomicity
pub mod Replay
pub mod Inspection
use omp_lazy.Prelude.{
  List, ℕ, ◌+◌, Bool, true, false, not, ◌&&◌, ◌||◌, Option, none, some, ◌==◌, nat_eq, string_eq,
  ltb, if◌then◌else◌, get_last?,
}
use omp_lazy.Prelude.Result.{Result, ok, err}
use omp_lazy.State.Domain.{Run, workflow, StateEvent, ActiveIndex}
use omp_lazy.State.Index.{same_workflow}
use omp_lazy.State.Codec.{DecodeError}
use omp_lazy.State.Events.{EventStoreError, read_all, highest}
use omp_lazy.State.Transition.{
  TransitionErrorCode, index_revision_conflict, PreparedTransition, prepare_transition,
  derive_index,
}
use omp_lazy.State.Store.{
  Host, Disk, WriteFate, crashed, expired, broken, done, read_index, read_run, write_run,
  write_index, authority_for, TransactionErrorCode,
}

pub data RecoveryInspection : Type 0 where
  healthy : (revision : ℕ) → RecoveryInspection
  repairable : (event_sequence : ℕ) → RecoveryInspection
  multiple_events_ahead index_ahead corrupt : RecoveryInspection

abbrev inspect_revisions : ℕ → ℕ → RecoveryInspection
inspect_revisions top revision =
    if top == revision
    then healthy revision
    else if top == revision + 1
    then repairable top
    else if ltb revision top
    then multiple_events_ahead
    else index_ahead

-- An unreadable log or index is corrupt.
abbrev inspect_events : ActiveIndex → Result EventStoreError (List StateEvent) → RecoveryInspection
inspect_events index (err e) = corrupt
inspect_events index (ok events) = inspect_revisions (highest events) index.revision

abbrev inspect_index : Host → Disk → Result DecodeError ActiveIndex → RecoveryInspection
inspect_index host disk (err e) = corrupt
inspect_index host disk (ok index) = inspect_events index (read_all host.root.texts disk.events)

unfoldable pub inspect_recovery : Host → Disk → RecoveryInspection
inspect_recovery host disk = inspect_index host disk (read_index host disk)

pub data RepairError : Type 0 where
  transition : TransitionErrorCode → RepairError
  outer : TransactionErrorCode → RepairError
  not_repairable run_conflict deadline_expired lock_timeout : RepairError

pub data Repair : Type 0 where
  repaired : Run → ActiveIndex → Repair
  refused : RepairError → Repair
  thrown : Repair

-- What the world answers to a repair.
pub record RepairAnswers : Type 0 where
  pub valid_at_start : Bool
  pub escaped : Option TransactionErrorCode
  pub locked : Bool
  pub run_fate : WriteFate
  pub index_fate : WriteFate

abbrev pub calm_repair : RepairAnswers
calm_repair = record {
  valid_at_start = true;
  escaped = none;
  locked = true;
  run_fate = done;
  index_fate = done;
}

abbrev pub repair_write : WriteFate → Disk → Disk → (Disk → Disk × Repair) → Disk × Repair
repair_write crashed old new rest = (old, thrown)
repair_write expired old new rest = (old, refused deadline_expired)
repair_write broken old new rest = (old, thrown)
repair_write done old new rest = rest new

-- A run that is on disk already is not written again.
abbrev pub run_target : Bool → Run → Disk → Disk
run_target published run disk = if published then disk else write_run run disk

-- A run on disk already leaves only the deadline to consult.
abbrev run_fate_if : Bool → WriteFate → WriteFate
run_fate_if true expired = expired
run_fate_if true _ = done
run_fate_if false fate = fate

unfoldable pub finish_repair : RepairAnswers → Bool → Run → ActiveIndex → Disk → Disk × Repair
finish_repair a published run index disk =
    repair_write (run_fate_if published a.run_fate) disk (run_target published run disk)
      λ d. repair_write a.index_fate d (write_index index d) λ e. (e, repaired run index)

abbrev repair_throw {ℓ κ} :
    {E : Type ℓ} {A : Type κ} → Disk → Result E A → (A → Disk × Repair) → Disk × Repair
repair_throw disk (ok a) k = k a
repair_throw disk (err e) k = (disk, thrown)

abbrev finish_prepared :
    RepairAnswers
    → StateEvent
    → ActiveIndex
    → Disk
    → Result TransitionErrorCode PreparedTransition
    → Disk × Repair
finish_prepared a event index disk (err code) = (disk, refused (transition code))
finish_prepared a event index disk (ok prepared) =
    finish_repair a false prepared.run (derive_index index prepared.run event.sequence) disk

-- The run's snapshot may be older than the event, or be the event's own.
unfoldable pub repair_run :
    Host → RepairAnswers → StateEvent → ActiveIndex → Disk → Option Run → Disk × Repair
repair_run host a event index disk none =
    finish_prepared a event index disk
      (prepare_transition index none event (authority_for host event.mutation none))
repair_run host a event index disk (some run) =
    if run.transaction_revision == event.sequence
    then if not (run.run_id == event.run_id) || not (same_workflow (workflow run) event.workflow)
      then (disk, refused run_conflict)
      else finish_repair a true run (derive_index index run event.sequence) disk
    else finish_prepared a event index disk
        (prepare_transition index (some run) event (authority_for host event.mutation (some run)))

unfoldable pub repair_event :
    Host → RepairAnswers → Option StateEvent → ActiveIndex → Disk → Disk × Repair
repair_event host a none index disk = (disk, refused not_repairable)
repair_event host a (some event) index disk =
    if not (event.sequence == index.revision + 1)
    then (disk, refused not_repairable)
    else if not (event.expected.index_revision == index.revision)
    then (disk, refused (transition index_revision_conflict))
    else repair_throw disk (read_run host disk event.run_id) (repair_run host a event index disk)

unfoldable pub repair_state : Host → RepairAnswers → Disk → Disk × Repair
repair_state host a disk =
    if not a.valid_at_start then (disk, refused deadline_expired) else elim a.escaped [
      | some code ↦ (disk, refused (outer code))
      | none ↦
          if not a.locked
          then (disk, refused lock_timeout)
          else repair_throw disk (read_index host disk) λ index.
            repair_throw disk (read_all host.root.texts disk.events)
              λ events. repair_event host a (get_last? events) index disk
    ]
