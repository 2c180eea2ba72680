-- ===== src/State/Receipts.antt =====
-- src/state/receipt-authority.ts: which accepted and rejected worker receipts bind a run. The
-- ledgers are read from files; here they are the lists that the files hold.
use omp_lazy.Prelude.{
  ℕ, String, Bool, true, false, ◌&&◌, not, List, [], ◌∷◌, Option, none, some, ◌==◌, string_eq,
  nat_eq, option_eq, is_some, find_last, get_last?, null_if, ◌>>=◌, ◌>>◌,
}
use omp_lazy.State.Domain.{Run, RunVersion, StartWorkPayload}

-- `ScopedWorkerAcceptanceEvent`
pub record AcceptanceEvent : Type 0 where
  pub sequence : ℕ
  pub idempotency_key : String
  pub run_id : String
  pub attempt : ℕ
  pub run_revision : ℕ
  pub owner_session_id : String
  pub owner_epoch : ℕ
  pub task_generation : ℕ
  pub worker_role : String
  pub actual_agent_id : String
  pub actual_job_id : Option String
  pub capture_commit : String
  pub receipt_path : String
  pub receipt_hash : String
  pub artifact_hash : String
  pub artifact_paths : List String
  pub cleanup_receipt_paths : List String
  pub cleanup_status : Option String
  pub cleanup_scenario_id : Option String
  pub parent_decision : Option String
  pub task_id : Option String
  pub role : Option String
  pub semantic_attempt : Option ℕ

pub data RejectionStatus : Type 0 where
  retry_allowed needs_parent_decision : RejectionStatus

-- An entry of the version 2 rejection ledger.
pub record RejectionEntry : Type 0 where
  pub run_id : String
  pub attempt : ℕ
  pub run_revision : ℕ
  pub owner_epoch : ℕ
  pub task_generation : ℕ
  pub actual_agent_id : String
  pub count : ℕ
  pub status : RejectionStatus
  pub task_id : String
  pub role : String
  pub semantic_attempt : ℕ

pub record ReceiptAuthority : Type 0 where
  pub task_generation : ℕ
  pub accepted : List AcceptanceEvent
  pub rejected : List RejectionEntry

abbrev pub empty_receipt_authority : ReceiptAuthority
empty_receipt_authority = record { task_generation = 0; accepted = []; rejected = [] }

-- The head that a version 2 run is bound to.
abbrev pub bound_head : RunVersion → Option String
bound_head RunVersion.v1 = none
bound_head (RunVersion.v2 packet_hash expected_head) = expected_head

unfoldable pub matches_run : Run → AcceptanceEvent → Bool
matches_run run entry =
    is_some (bound_head run.version)
    && is_some entry.task_id
    && entry.owner_session_id == run.owner.session_id
    && entry.owner_epoch == run.owner.epoch
    && some entry.capture_commit == bound_head run.version

abbrev pub is_current : Run → ReceiptAuthority → String → AcceptanceEvent → Bool
is_current run authority task_id entry =
    matches_run run entry
    && entry.task_id == some task_id
    && entry.task_generation == authority.task_generation
    && entry.attempt == run.progress_revision

unfoldable pub current_acceptance : Run → ReceiptAuthority → String → Option AcceptanceEvent
current_acceptance run authority task_id = do
  null_if (authority.task_generation == 0)
  find_last (is_current run authority task_id) authority.accepted

abbrev pub accepts_task : Run → String → AcceptanceEvent → Bool
accepts_task run task_id entry = matches_run run entry && entry.task_id == some task_id

-- The keys selected for the tasks, or `null` if one of them has none.
unfoldable pub acceptance_ids : Run → List AcceptanceEvent → List String → Option (List String)
acceptance_ids run accepted [] = some []
acceptance_ids run accepted (t ∷ ts) = do
  entry ← find_last (accepts_task run t) accepted
  rest ← acceptance_ids run accepted ts
  some (entry.idempotency_key ∷ rest)

unfoldable pub start_completion_acceptance_ids :
    Run → StartWorkPayload → ReceiptAuthority → Option (List String)
start_completion_acceptance_ids run p authority = do
  final_task_id ← get_last? p.plan.task_ids
  _ ← current_acceptance run authority final_task_id
  acceptance_ids run authority.accepted p.plan.task_ids

abbrev pub needs_parent : RejectionStatus → Bool
needs_parent needs_parent_decision = true
needs_parent retry_allowed = false

abbrev pub is_exhausted : Run → ReceiptAuthority → RejectionEntry → Bool
is_exhausted run authority entry =
    entry.owner_epoch == run.owner.epoch
    && entry.task_generation == authority.task_generation
    && entry.count == 3
    && needs_parent entry.status
    && not (is_some (current_acceptance run authority entry.task_id))

unfoldable pub exhausted_task_id : Run → ReceiptAuthority → Option String
exhausted_task_id run authority = do
  null_if (authority.task_generation == 0)
  entry ← find_last (is_exhausted run authority) authority.rejected
  some entry.task_id
