-- ===== src/Contracts/LedgerSchema.antt =====
-- worker-acceptance-ledger.ts: the entries of an acceptance ledger, the ledger, and their schemas.
-- The shape of single texts is left out.
use omp_lazy.Prelude.{
  ℕ, suc, String, Bool, true, false, ◌&&◌, ◌||◌, not, List, [], ◌∷◌, Option, none, some, map,
  length, all, any, if◌then◌else◌, ltb, leb, ◌==◌, string_eq, nat_eq, option_eq, is_some, get_or,
}
use omp_lazy.Prelude.Result.{Result, ok, err}
use omp_lazy.State.Receipts.{AcceptanceEvent}
use omp_lazy.State.Codec.{no_duplicates}

pub data LedgerVersion : Type 0 where
  v1 v2 : LedgerVersion

abbrev pub same_version : LedgerVersion → LedgerVersion → Bool
same_version v1 v1 = true
same_version v2 v2 = true
same_version _ _ = false

pub record Ledger : Type 0 where
  pub version : LedgerVersion
  pub run_id : String
  pub ledger_revision : ℕ
  pub entries : List AcceptanceEvent

-- A line of the log; one of version 2 carries `schemaVersion`.
pub record WalLine : Type 0 where
  pub schema_version : LedgerVersion
  pub event : AcceptanceEvent

-- The two files of a run
pub record LedgerFiles : Type 0 where
  pub snapshot : Option Ledger
  pub wal : List WalLine

pub data LedgerError : Type 0 where
  malformed wal_diverged wal_too_large deadline_expired interrupted : LedgerError

-- The refinement of the clean-up fields
abbrev pub not_applicable : AcceptanceEvent → Bool
not_applicable event = event.cleanup_status == some "not_applicable"

abbrev pub no_paths : List String → Bool
no_paths [] = true
no_paths (p ∷ ps) = false

abbrev pub differ : Bool → Bool → Bool
differ true b = not b
differ false b = b

abbrev pub cleanup_mismatch : AcceptanceEvent → Bool
cleanup_mismatch event =
    differ (not_applicable event) (is_some event.cleanup_scenario_id)
    || not_applicable event && not (no_paths event.cleanup_receipt_paths)
    || event.cleanup_status == some "receipts" && no_paths event.cleanup_receipt_paths

abbrev pub one_of : List String → Option String → Bool
one_of names none = true
one_of names (some name) = any (λ n. n == name) names

unfoldable pub acceptance_event_schema : AcceptanceEvent → Bool
acceptance_event_schema event =
    ltb 0 event.sequence
    && ltb 0 event.task_generation
    && not (no_paths event.artifact_paths)
    && leb (length event.cleanup_receipt_paths) 32
    && one_of ("receipts" ∷ "not_applicable" ∷ []) event.cleanup_status
    && one_of ("accept_after_review" ∷ []) event.parent_decision
    && not (cleanup_mismatch event)

-- The fields that version 2 adds: all there, or, for a strict version 1 entry, none.
abbrev pub task_fields : LedgerVersion → AcceptanceEvent → Bool
task_fields v1 event =
    not (is_some event.task_id) && not (is_some event.role) && not (is_some event.semantic_attempt)
task_fields v2 event =
    is_some event.task_id && is_some event.role && ltb 0 (get_or event.semantic_attempt 0)

unfoldable pub entry_schema : LedgerVersion → AcceptanceEvent → Bool
entry_schema version event = acceptance_event_schema event && task_fields version event

-- `entry.sequence !== index + 1 || entry.runId !== ledger.runId`, from the index `n`
unfoldable pub in_sequence : String → ℕ → List AcceptanceEvent → Bool
in_sequence run_id n [] = true
in_sequence run_id n (e ∷ es) =
    e.sequence == suc n && e.run_id == run_id && in_sequence run_id (suc n) es

abbrev pub key_of : AcceptanceEvent → String
key_of event = event.idempotency_key

abbrev pub refine_ledger : LedgerVersion → Ledger → Bool
refine_ledger v1 ledger = true
refine_ledger v2 ledger =
    ledger.ledger_revision == length ledger.entries
    && in_sequence ledger.run_id 0 ledger.entries
    && no_duplicates (map key_of ledger.entries)

unfoldable pub ledger_schema : Ledger → Bool
ledger_schema ledger =
    all (entry_schema ledger.version) ledger.entries && refine_ledger ledger.version ledger

abbrev pub parse_ledger : Ledger → Result LedgerError Ledger
parse_ledger ledger = if ledger_schema ledger then ok ledger else err malformed
