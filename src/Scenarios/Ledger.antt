-- ===== src/Scenarios/Ledger.antt =====
-- The acceptance of a worker's result that stops after the log, and a rejection.
use omp_lazy.Prelude.{
  ◌≡◌, ◌≢◌, ◌⊎◌, refl, String, Option, true, false, List, none, some, [], ◌∷◌, if◌then◌else◌, ◌==◌,
  nat_eq, length,
}
use omp_lazy.Prelude.Result.{ok}
use omp_lazy.State.Domain.{Run, RunVersion, StartWorkStatus}
use omp_lazy.State.Receipts.{AcceptanceEvent}
use omp_lazy.Contracts.LedgerSchema.{LedgerVersion, Ledger, LedgerFiles, ledger_schema, in_sequence}
use omp_lazy.Contracts.AcceptanceLedger.{
  LedgerHost, LedgerFaults, accepted, replayed, read_acceptance, read_acceptance_wal, replay_wal,
  accept, candidate_of, appended,
}
use omp_lazy.Contracts.AcceptanceLedger.Recovery.{accept-atomic, accept-again}
use omp_lazy.Contracts.Rejections.{RejectionScope, RejectionLedger, reject}
use omp_lazy.Contracts.Rejections.Counts.{IsCounted, reject-IsCounted}
use omp_lazy.Scenarios.Records.{start_run}
use Prim.Native.String.{◌++◌}

abbrev run : Option Run
run = some (start_run (RunVersion.v2 none (some "head")) StartWorkStatus.active)

abbrev join : List String → String
join [] = ""
join (x ∷ xs) = (x ++ ",") ++ join xs

abbrev host : LedgerHost
host = record {
  stringify = λ e. (e.idempotency_key ++ ",") ++ e.receipt_hash;
  join = join;
  show = λ n. if n == 0 then "0" else "n";
  byte_length = λ lines. length lines;
}

abbrev pub event : AcceptanceEvent
event = record {
  sequence = 0;
  idempotency_key = "";
  run_id = "r1";
  attempt = 0;
  run_revision = 1;
  owner_session_id = "s1";
  owner_epoch = 1;
  task_generation = 1;
  worker_role = "omp-lazy-worker-low";
  actual_agent_id = "a1";
  actual_job_id = some "j1";
  capture_commit = "head";
  receipt_path = "receipt";
  receipt_hash = "";
  artifact_hash = "h1";
  artifact_paths = "artifact" ∷ [];
  cleanup_receipt_paths = "cleanup" ∷ [];
  cleanup_status = some "receipts";
  cleanup_scenario_id = none;
  parent_decision = none;
  task_id = some "t1";
  role = some "omp-lazy-worker-low";
  semantic_attempt = some 1;
}

abbrev no_files : LedgerFiles
no_files = record { snapshot = none; wal = [] }

abbrev no_entries : Ledger
no_entries = record { version = LedgerVersion.v2; run_id = "r1"; ledger_revision = 0; entries = [] }

-- The process dies after the append to the log.
abbrev dies : LedgerFaults
dies = record { deadline_valid = true; append_done = true; replace_done = false }

abbrev succeeds : LedgerFaults
succeeds = record { deadline_valid = true; append_done = true; replace_done = true }

read_no_entries : read_acceptance host run "r1" no_files ≡ ok no_entries
unfolding read_acceptance read_acceptance_wal replay_wal ledger_schema in_sequence
read_no_entries = refl

accept-atomic_example :
    let out = accept host run dies no_files "hash" event in
    ((read_acceptance host run "r1" out.0 ≡ ok no_entries) × (out.1 ≢ ok accepted))
    ⊎ (read_acceptance host run "r1" out.0
        ≡ ok (appended no_entries (candidate_of host no_entries "hash" event)))
accept-atomic_example =
    accept-atomic host run dies no_files "hash" event no_entries read_no_entries refl

accept-again_example :
    let out = accept host run dies no_files "hash" event in
    ((out.0 ≡ no_files) × (out.1 ≢ ok accepted))
    ⊎ (accept host run succeeds out.0 "hash" event ≡ (out.0, ok replayed))
accept-again_example =
    accept-again host run dies succeeds no_files "hash" event no_entries read_no_entries refl

abbrev scope : RejectionScope
scope = record {
  run_id = "r1";
  attempt = 0;
  run_revision = 1;
  owner_epoch = 1;
  task_generation = 1;
  actual_agent_id = "a1";
  task = some (record { task_id = "t1"; role = "omp-lazy-worker-low"; semantic_attempt = 1 });
}

abbrev other_scope : RejectionScope
other_scope = record scope {
  task = some (record { task_id = "t2"; role = "omp-lazy-worker-low"; semantic_attempt = 1 });
}

abbrev no_rejections : RejectionLedger
no_rejections = record { version = LedgerVersion.v2; run_id = "r1"; entries = [] }

reject-IsCounted_example :
    IsCounted host run none no_rejections scope other_scope refl refl 1
      (reject host run true none scope)
reject-IsCounted_example =
    reject-IsCounted host run none no_rejections scope other_scope refl refl refl refl
