-- ===== src/Contracts/Rejections.antt =====
-- worker-acceptance-ledger.ts: the counted rejections of the workers of one run.
pub mod Keys
pub mod Updates
pub mod Counts
use omp_lazy.Prelude.{
  ℕ, suc, String, Bool, true, false, ◌&&◌, not, List, [], ◌∷◌, ◌++◌, Option, none, some, map, all,
  find, if◌then◌else◌, ltb, leb, ◌==◌, string_eq, nat_eq, is_some,
}
use omp_lazy.Prelude.Result.{Result, ok, err, ◌>>=◌, ◌>>◌, stop_if}
use omp_lazy.State.Domain.{Run}
use omp_lazy.State.Receipts.{RejectionStatus, retry_allowed, needs_parent_decision}
use omp_lazy.State.Codec.{no_duplicates}
use omp_lazy.Contracts.LedgerSchema.{LedgerVersion, v1, v2, LedgerError, malformed, interrupted}
use omp_lazy.Contracts.AcceptanceLedger.{LedgerHost, fresh_version}

-- The fields that version 2 adds
pub record TaskScope : Type 0 where
  pub task_id : String
  pub role : String
  pub semantic_attempt : ℕ

pub record RejectionScope : Type 0 where
  pub run_id : String
  pub attempt : ℕ
  pub run_revision : ℕ
  pub owner_epoch : ℕ
  pub task_generation : ℕ
  pub actual_agent_id : String
  pub task : Option TaskScope

pub record RejectionRow : Type 0 where
  pub scope : RejectionScope
  pub count : ℕ
  pub status : RejectionStatus

pub record RejectionLedger : Type 0 where
  pub version : LedgerVersion
  pub run_id : String
  pub entries : List RejectionRow

-- The task fields of an entry: none in version 1, all in version 2
abbrev pub task_schema : LedgerVersion → Option TaskScope → Bool
task_schema v1 task = not (is_some task)
task_schema v2 none = false
task_schema v2 (some task) = ltb 0 task.semantic_attempt

abbrev pub row_schema : LedgerVersion → RejectionRow → Bool
row_schema version row =
    ltb 0 row.scope.task_generation
    && leb 1 row.count
    && leb row.count 3
    && task_schema version row.scope.task

abbrev pub count_of : Option RejectionRow → ℕ
count_of none = 0
count_of (some row) = row.count

abbrev pub drop_task : LedgerVersion → RejectionScope → RejectionScope
drop_task v1 scope = record scope { task = none }
drop_task v2 scope = scope

abbrev pub status_at : ℕ → RejectionStatus
status_at count = if count == 3 then needs_parent_decision else retry_allowed

abbrev pub replacement_of : LedgerVersion → RejectionScope → ℕ → RejectionRow
replacement_of version scope count = record {
  scope = drop_task version scope;
  count = count;
  status = status_at count;
}

module _ (host : LedgerHost) where
  abbrev pub key_parts : LedgerVersion → RejectionScope → Option TaskScope → List String
  key_parts v2 scope (some task) =
      scope.run_id
      ∷ task.task_id
      ∷ host.show scope.task_generation
      ∷ task.role
      ∷ host.show task.semantic_attempt
      ∷ []
  key_parts _ scope _ = scope.run_id ∷ host.show scope.attempt ∷ []

  abbrev pub rejection_key : LedgerVersion → RejectionScope → String
  rejection_key version scope = host.join (key_parts version scope scope.task)

  abbrev pub row_key : LedgerVersion → RejectionRow → String
  row_key version row = rejection_key version row.scope

  abbrev pub refine_rejections : LedgerVersion → RejectionLedger → Bool
  refine_rejections v1 ledger = true
  refine_rejections v2 ledger =
      all (λ row. row.scope.run_id == ledger.run_id) ledger.entries
      && no_duplicates (map (row_key v2) ledger.entries)

  unfoldable pub rejection_ledger_schema : RejectionLedger → Bool
  rejection_ledger_schema ledger =
      all (row_schema ledger.version) ledger.entries && refine_rejections ledger.version ledger

  abbrev pub parse_rejections : RejectionLedger → Result LedgerError RejectionLedger
  parse_rejections ledger = if rejection_ledger_schema ledger then ok ledger else err malformed

  -- `#readRejections`
  abbrev pub read_rejections :
      Option Run → String → Option RejectionLedger → Result LedgerError RejectionLedger
  read_rejections run run_id (some ledger) = parse_rejections ledger
  read_rejections run run_id none =
      ok (record { version = fresh_version run; run_id = run_id; entries = [] })

  abbrev pub find_rejection : RejectionLedger → RejectionScope → Option RejectionRow
  find_rejection ledger scope =
      find (λ row. row_key ledger.version row == rejection_key ledger.version scope) ledger.entries

  unfoldable pub rejection_count :
      Option Run → Option RejectionLedger → RejectionScope → Result LedgerError ℕ
  rejection_count run file scope = read_rejections run scope.run_id file >>= λ ledger.
      ok (count_of (find_rejection ledger scope))

  -- The entries with the replacement, which is added when its key is new
  abbrev pub replaced :
      RejectionLedger → RejectionScope → RejectionRow → Option RejectionRow → List RejectionRow
  replaced ledger scope replacement none = ledger.entries ++ replacement ∷ []
  replaced ledger scope replacement (some existing) =
      map
        (λ row.
          if row_key ledger.version row == rejection_key ledger.version scope
          then replacement
          else row)
        ledger.entries

  -- `reject` on the ledger read, where `written` says that the replacement of the file completes
  abbrev pub reject_read :
      Bool
      → Option RejectionLedger
      → RejectionScope
      → RejectionLedger
      → Option RejectionLedger × Result LedgerError ℕ
  reject_read written file scope ledger =
      let existing = find_rejection ledger scope in
      let count = suc (count_of existing) in
      let replacement = replacement_of ledger.version scope count in
      let updated = record ledger { entries = replaced ledger scope replacement existing } in
      if count_of existing == 3
      then (file, ok 3)
      else if not (row_schema ledger.version replacement)
      then (file, err malformed)
      else if not (rejection_ledger_schema updated)
      then (file, err malformed)
      else if written
      then (some updated, ok count)
      else (file, err interrupted)

  abbrev pub reject_onto :
      Bool
      → Option RejectionLedger
      → RejectionScope
      → Result LedgerError RejectionLedger
      → Option RejectionLedger × Result LedgerError ℕ
  reject_onto written file scope (ok ledger) = reject_read written file scope ledger
  reject_onto written file scope (err code) = (file, err code)

  unfoldable pub reject :
      Option Run
      → Bool
      → Option RejectionLedger
      → RejectionScope
      → Option RejectionLedger × Result LedgerError ℕ
  reject run written file scope =
      reject_onto written file scope (read_rejections run scope.run_id file)
