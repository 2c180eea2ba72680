-- ===== src/Contracts/AcceptanceLedger.antt =====
-- src/contracts/worker-acceptance-ledger.ts and worker-acceptance-wal.ts: the accepted results of
-- the workers of one run, a snapshot file and a write-ahead log. What the world answers during a
-- write (the deadline, a crash) is an argument.
pub mod Replay
pub mod Reading
pub mod Recovery
use omp_lazy.Prelude.{
  ℕ, zero, suc, ◌+◌, ◌-◌, String, Bool, true, false, ◌&&◌, ◌||◌, not, List, [], ◌∷◌, ◌++◌, Option,
  none, some, map, length, all, any, find, if◌then◌else◌, ltb, leb, ◌==◌, string_eq, nat_eq,
  option_eq, is_some, get_or, get_elem?,
}
use omp_lazy.Prelude.Result.{Result, ok, err, ◌>>=◌, ◌>>◌, stop_if}
use omp_lazy.State.Domain.{Run, RunVersion}
use omp_lazy.State.Receipts.{AcceptanceEvent}
use omp_lazy.Contracts.LedgerSchema.{
  LedgerVersion, same_version, Ledger, WalLine, LedgerFiles, LedgerError, not_applicable, no_paths,
  differ, cleanup_mismatch, one_of, acceptance_event_schema, task_fields, entry_schema, in_sequence,
  key_of, refine_ledger, ledger_schema, parse_ledger, v1, v2, malformed, wal_diverged,
  wal_too_large, deadline_expired, interrupted,
}

abbrev pub version_of : RunVersion → LedgerVersion
version_of RunVersion.v1 = v1
version_of (RunVersion.v2 packet_hash expected_head) = v2

-- `run?.schemaVersion === 2`
abbrev pub fresh_version : Option Run → LedgerVersion
fresh_version none = v1
fresh_version (some run) = version_of run.version

-- The snapshot, or an empty ledger of the run's version when there is none
abbrev pub read_snapshot : Option Run → String → Option Ledger → Result LedgerError Ledger
read_snapshot run run_id (some ledger) = parse_ledger ledger
read_snapshot run run_id none =
    ok (record { version = fresh_version run; run_id = run_id; ledger_revision = 0; entries = [] })

abbrev pub max_wal_entries : ℕ
max_wal_entries = 1000

abbrev pub max_wal_bytes : ℕ
max_wal_bytes = 4194304

-- `JSON.stringify` of an entry, the joined parts of a key, a number as text, and the size of a log
pub record LedgerHost : Type 0 where
  pub stringify : AcceptanceEvent → String
  pub join : List String → String
  pub show : ℕ → String
  pub byte_length : List WalLine → ℕ

-- What happens during an accept: whether the deadline is valid when the append starts, and whether
-- the two replacements complete.
pub record LedgerFaults : Type 0 where
  pub deadline_valid : Bool
  pub append_done : Bool
  pub replace_done : Bool

pub data AcceptAnswer : Type 0 where
  accepted replayed duplicate_receipt : AcceptAnswer

abbrev pub drop_task_fields : LedgerVersion → AcceptanceEvent → AcceptanceEvent
drop_task_fields v1 event = record event { task_id = none; role = none; semantic_attempt = none }
drop_task_fields v2 event = event

abbrev pub appended : Ledger → AcceptanceEvent → Ledger
appended ledger candidate = record ledger {
  ledger_revision = suc ledger.ledger_revision;
  entries = ledger.entries ++ candidate ∷ [];
}

module _ (host : LedgerHost) where
  abbrev pub same : AcceptanceEvent → AcceptanceEvent → Bool
  same left right = host.stringify left == host.stringify right

  abbrev pub fits_wal : List WalLine → Bool
  fits_wal lines = leb (length lines) max_wal_entries && leb (host.byte_length lines) max_wal_bytes

  unfoldable pub read_acceptance_wal : List WalLine → Result LedgerError (List WalLine)
  read_acceptance_wal lines = if fits_wal lines then ok lines else err wal_too_large

  abbrev pub parse_line : LedgerVersion → WalLine → Bool
  parse_line version line =
      same_version line.schema_version version && entry_schema version line.event

  -- The event when it is new, nothing when it repeats the entry in its place
  abbrev pub replay_onto :
      Option AcceptanceEvent
      → List AcceptanceEvent
      → AcceptanceEvent
      → Result LedgerError (List AcceptanceEvent)
  replay_onto none entries event = ok (entries ++ event ∷ [])
  replay_onto (some existing) entries event =
      if same existing event then ok entries else err wal_diverged

  unfoldable pub replay_line :
      LedgerVersion → List AcceptanceEvent → WalLine → Result LedgerError (List AcceptanceEvent)
  replay_line version entries line = do
    stop_if (not (parse_line version line)) malformed
    replay_onto (get_elem? entries (line.event.sequence - 1)) entries line.event

  -- The loop over the log
  unfoldable pub replay_wal :
      LedgerVersion
      → List AcceptanceEvent
      → List WalLine
      → Result LedgerError (List AcceptanceEvent)
  replay_wal version entries [] = ok entries
  replay_wal version entries (line ∷ lines) =
      replay_line version entries line >>= λ merged. replay_wal version merged lines

  -- `#readAcceptance`
  unfoldable pub read_acceptance : Option Run → String → LedgerFiles → Result LedgerError Ledger
  read_acceptance run run_id files = do
    snapshot ← read_snapshot run run_id files.snapshot
    lines ← read_acceptance_wal files.wal
    entries ← replay_wal snapshot.version snapshot.entries lines
    parse_ledger (record snapshot { ledger_revision = length entries; entries = entries })

  unfoldable pub idempotency_key : AcceptanceEvent → String
  idempotency_key event =
      host.join
        (event.run_id ∷ host.show event.attempt ∷ event.actual_agent_id ∷ event.artifact_hash ∷ [])

  -- The entry that an accept would append; the sequence, key and receipt's hash of `event` are
  -- replaced.
  unfoldable pub candidate_of : Ledger → String → AcceptanceEvent → AcceptanceEvent
  candidate_of ledger receipt_hash event = record (drop_task_fields ledger.version event) {
    sequence = suc ledger.ledger_revision;
    idempotency_key = idempotency_key event;
    receipt_hash = receipt_hash;
  }

  abbrev pub replay_answer : AcceptanceEvent → AcceptanceEvent → AcceptAnswer
  replay_answer existing candidate =
      if same existing (record candidate { sequence = existing.sequence })
      then replayed
      else duplicate_receipt

  -- `appendAcceptanceWal`, then `atomicReplace` of the snapshot
  unfoldable pub write_accepted :
      LedgerFaults → LedgerFiles → Ledger → WalLine → LedgerFiles × Result LedgerError AcceptAnswer
  write_accepted faults files updated line =
      let lines = files.wal ++ line ∷ [] in
      let with_line : LedgerFiles = record { snapshot = files.snapshot; wal = lines } in
      if not faults.deadline_valid
      then (files, err deadline_expired)
      else if not (fits_wal files.wal)
      then (files, err wal_too_large)
      else if not (fits_wal lines)
      then (files, err wal_too_large)
      else if not faults.append_done
      then (files, err interrupted)
      else if not faults.replace_done
      then (with_line, err interrupted)
      else (record { snapshot = some updated; wal = lines }, ok accepted)

  abbrev pub accept_new :
      LedgerFaults
      → LedgerFiles
      → Ledger
      → AcceptanceEvent
      → LedgerFiles × Result LedgerError AcceptAnswer
  accept_new faults files ledger candidate =
      let updated = appended ledger candidate in
      if ledger_schema updated
      then write_accepted faults files updated
          (record { schema_version = ledger.version; event = candidate })
      else (files, err malformed)

  abbrev pub accept_onto :
      LedgerFaults
      → LedgerFiles
      → Ledger
      → AcceptanceEvent
      → Option AcceptanceEvent
      → LedgerFiles × Result LedgerError AcceptAnswer
  accept_onto faults files ledger candidate none = accept_new faults files ledger candidate
  accept_onto faults files ledger candidate (some existing) =
      (files, ok (replay_answer existing candidate))

  abbrev pub accept_read :
      LedgerFaults
      → LedgerFiles
      → String
      → AcceptanceEvent
      → Result LedgerError Ledger
      → LedgerFiles × Result LedgerError AcceptAnswer
  accept_read faults files receipt_hash event (err code) = (files, err code)
  accept_read faults files receipt_hash event (ok ledger) =
      let candidate = candidate_of ledger receipt_hash event in
      if entry_schema ledger.version candidate
      then accept_onto faults files ledger candidate
          (find (λ e. e.idempotency_key == candidate.idempotency_key) ledger.entries)
      else (files, err malformed)

  unfoldable pub accept :
      Option Run
      → LedgerFaults
      → LedgerFiles
      → String
      → AcceptanceEvent
      → LedgerFiles × Result LedgerError AcceptAnswer
  accept run faults files receipt_hash event =
      accept_read faults files receipt_hash event (read_acceptance run event.run_id files)
