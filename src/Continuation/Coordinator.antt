-- ===== src/Continuation/Coordinator.antt =====
-- src/continuation/continuation-coordinator.ts: what an idle edge of a session calls for.
pub mod Acceptance
pub mod Decisions
pub mod Commits
pub mod Bound
use omp_lazy.Prelude.{
  ℕ, ◌+◌, String, ◌++◌, Bool, true, false, not, ◌&&◌, ◌||◌, List, Option, none, some, ◌==◌,
  string_eq, nat_eq, option_eq, leb, find, or_else, get_or, map, null_if, ◌>>=◌, ◌>>◌,
  if◌then◌else◌,
}
use omp_lazy.Prelude.Result.{Result, ok, err, is_ok}
use omp_lazy.State.Domain.{
  Run, RunVersion, Payload, payload_kind, workflow, StartWorkPayload, UlwLoopPayload, Goal,
  GoalStatus, Criterion, WorkflowKind, ActiveIndex, ActiveIndexEntry, StateMutation, TerminalStatus,
  SettledCriterion, StateEvent, EventVersion, ScopedEvent, Expected,
}
use omp_lazy.State.Receipts.{
  ReceiptAuthority, AcceptanceEvent, empty_receipt_authority, bound_head, current_acceptance,
  exhausted_task_id, start_completion_acceptance_ids,
}
use omp_lazy.State.Index.{same_workflow, validate_active_index, hint_matches}
use omp_lazy.Workflow.Control.{PlanSnapshot}
use omp_lazy.Workflow.StartWork.{StartWorkBlock, complete, evaluate_start_work_continuation}
use omp_lazy.Workflow.UlwLoop.{UlwLoopBlock, evaluate_ulw_continuation, is_pass, has_id}

pub record PlanObservation : Type 0 where
  pub run_id : String
  pub snapshot : PlanSnapshot

pub record RunAuthority : Type 0 where
  pub run_id : String
  pub authority : ReceiptAuthority

-- No authorities are an empty list of them.
pub record ContinuationSnapshot : Type 0 where
  pub index : ActiveIndex
  pub runs : List Run
  pub plans : List PlanObservation
  pub authorities : List RunAuthority

-- `additionalContext`: its text is a fixed sentence with these identifiers in it.
pub data ContinuationContext : Type 0 where
  start_work_context : (next_task_id : String) → ContinuationContext
  ulw_loop_context : (goal_id : String) (criterion_id : Option String) → ContinuationContext

pub data ContinuationDecision : Type 0 where
  quiet : ContinuationDecision
  continue : Run → ContinuationContext → StateMutation → ContinuationDecision
  stuck : Run → StateMutation → ContinuationDecision
  settled : Run → (task_generation : ℕ) → StateMutation → ContinuationDecision

abbrev authority_found : Option RunAuthority → ReceiptAuthority
authority_found none = empty_receipt_authority
authority_found (some candidate) = candidate.authority

unfoldable pub authority_of : ContinuationSnapshot → Run → ReceiptAuthority
authority_of snapshot run =
    authority_found (find (λ c. c.run_id == run.run_id) snapshot.authorities)

abbrev pub has_reached_no_progress_bound : Run → Bool
has_reached_no_progress_bound run =
    run.continuation.progress_revision_seen == run.progress_revision
    && leb 2 run.continuation.no_progress_attempts

pub data ResolvedWorkflow : Type 0 where
  absent conflict : ResolvedWorkflow
  found : Run → ResolvedWorkflow

abbrev resolve_run : ActiveIndexEntry → Option Run → ResolvedWorkflow
resolve_run entry none = conflict
resolve_run entry (some run) =
    if not (same_workflow (workflow run) entry.workflow)
      || not (run.owner.session_id == entry.session_id)
      || not (run.owner.epoch == entry.owner_epoch)
      || not (run.revision == entry.run_revision)
      || not (run.transaction_revision == entry.transaction_revision)
      || not (hint_matches entry run)
    then conflict
    else found run

abbrev pub resolve_entry : List Run → Option ActiveIndexEntry → ResolvedWorkflow
resolve_entry runs none = absent
resolve_entry runs (some entry) = resolve_run entry (find (λ r. r.run_id == entry.run_id) runs)

unfoldable pub resolve_workflow : ContinuationSnapshot → WorkflowKind → String → ResolvedWorkflow
resolve_workflow snapshot kind session_id =
    resolve_entry snapshot.runs (
      find (λ e. same_workflow e.workflow kind && e.session_id == session_id)
        snapshot.index.entries)

-- The decision of a run that has something left to do.
abbrev pub next_attempt : String → Run → ContinuationContext → ContinuationDecision
next_attempt leaf_id run context =
    if has_reached_no_progress_bound run
    then stuck run (StateMutation.continuation_stuck leaf_id)
    else continue run context (StateMutation.continuation_attempted leaf_id run.progress_revision)

-- A run whose receipts for a task are used up has failed.
abbrev pub exhaustion : Run → ReceiptAuthority → Option ContinuationDecision
exhaustion run authority = do
  task_id ← exhausted_task_id run authority
  some (
      settled run authority.task_generation
        (StateMutation.workflow_terminal TerminalStatus.failed none (some task_id)))

abbrev pub completion :
    Run
    → StartWorkPayload
    → ReceiptAuthority
    → Result StartWorkBlock String
    → Option ContinuationDecision
completion run p authority (err complete) = do
  ids ← start_completion_acceptance_ids run p authority
  some (
      settled run authority.task_generation
        (StateMutation.workflow_terminal TerminalStatus.completed (some ids) none))
completion run p authority _ = none

abbrev task_accepted :
    String → Run → ReceiptAuthority → String → Option AcceptanceEvent → ContinuationDecision
task_accepted leaf_id run authority task_id (some accepted) =
    settled run authority.task_generation
      (StateMutation.task_evidence_accepted task_id accepted.idempotency_key)
task_accepted leaf_id run authority task_id none =
    next_attempt leaf_id run (start_work_context task_id)

abbrev pub next_task :
    String → Run → ReceiptAuthority → Result StartWorkBlock String → Option ContinuationDecision
next_task leaf_id run authority (err code) = none
next_task leaf_id run authority (ok task_id) =
    some (task_accepted leaf_id run authority task_id (current_acceptance run authority task_id))

-- What the start-work run calls for when its plan was observed; nothing leaves it to the loop.
abbrev pub start_observed :
    String
    → Run
    → StartWorkPayload
    → ReceiptAuthority
    → PlanObservation
    → Option ContinuationDecision
start_observed leaf_id run p authority observed =
    let eligibility = evaluate_start_work_continuation p observed.snapshot in
    or_else (completion run p authority eligibility)
      (or_else (exhaustion run authority) (next_task leaf_id run authority eligibility))

abbrev pub start_payload :
    String → ContinuationSnapshot → Run → Payload → Option ContinuationDecision
start_payload leaf_id snapshot run (Payload.ulw_loop p) = some quiet
start_payload leaf_id snapshot run (Payload.start_work p) =
    if run.continuation.last_processed_leaf_id == some leaf_id
    then some quiet
    else find (λ o. o.run_id == run.run_id) snapshot.plans
      >>= start_observed leaf_id run p (authority_of snapshot run)

abbrev pub decide_start :
    String → ContinuationSnapshot → ResolvedWorkflow → Option ContinuationDecision
decide_start leaf_id snapshot (found run) = start_payload leaf_id snapshot run run.payload
decide_start leaf_id snapshot _ = none

abbrev is_open : GoalStatus → Bool
is_open GoalStatus.pending = true
is_open GoalStatus.in_progress = true
is_open _ = false

abbrev pub settled_criterion : Goal → Criterion → AcceptanceEvent → SettledCriterion
settled_criterion goal criterion accepted = record {
  goal_id = goal.id;
  criterion_id = criterion.id;
  acceptance_id = some accepted.idempotency_key;
  evidence_ref = accepted.receipt_path;
  capture_revision = accepted.run_revision;
  capture_commit = accepted.capture_commit;
}

abbrev criterion_accepted :
    String
    → Run
    → ReceiptAuthority
    → Goal
    → Criterion
    → Option AcceptanceEvent
    → ContinuationDecision
criterion_accepted leaf_id run authority goal criterion (some accepted) =
    settled run authority.task_generation
      (StateMutation.criterion_settled (settled_criterion goal criterion accepted))
criterion_accepted leaf_id run authority goal criterion none =
    next_attempt leaf_id run (ulw_loop_context goal.id (some criterion.id))

abbrev pub next_criterion :
    String → Run → ReceiptAuthority → Goal → Option Criterion → ContinuationDecision
next_criterion leaf_id run authority goal none =
    next_attempt leaf_id run (ulw_loop_context goal.id none)
next_criterion leaf_id run authority goal (some criterion) =
    criterion_accepted leaf_id run authority goal criterion
      (current_acceptance run authority criterion.id)

abbrev pub loop_goal : String → Run → ReceiptAuthority → Option Goal → ContinuationDecision
loop_goal leaf_id run authority none = quiet
loop_goal leaf_id run authority (some goal) =
    if not (is_open goal.status)
    then quiet
    else next_criterion leaf_id run authority goal
        (find (λ c. not (is_pass c.status)) goal.criteria)

abbrev pub loop_eligible :
    String
    → Run
    → UlwLoopPayload
    → ReceiptAuthority
    → Result UlwLoopBlock String
    → ContinuationDecision
loop_eligible leaf_id run p authority (err code) = quiet
loop_eligible leaf_id run p authority (ok goal_id) =
    loop_goal leaf_id run authority (find (has_id goal_id) p.goals)

abbrev pub loop_payload : String → ContinuationSnapshot → Run → Payload → ContinuationDecision
loop_payload leaf_id snapshot run (Payload.start_work p) = quiet
loop_payload leaf_id snapshot run (Payload.ulw_loop p) =
    if run.continuation.last_processed_leaf_id == some leaf_id
    then quiet
    else get_or (exhaustion run (authority_of snapshot run))
        (loop_eligible leaf_id run p (authority_of snapshot run) (evaluate_ulw_continuation p))

abbrev pub decide_loop : String → ContinuationSnapshot → ResolvedWorkflow → ContinuationDecision
decide_loop leaf_id snapshot (found run) = loop_payload leaf_id snapshot run run.payload
decide_loop leaf_id snapshot _ = quiet

abbrev is_conflict : ResolvedWorkflow → Bool
is_conflict conflict = true
is_conflict _ = false

unfoldable pub decide_continuation :
    (session_id leaf_id : String) → ContinuationSnapshot → ContinuationDecision
decide_continuation session_id leaf_id snapshot =
    let start = resolve_workflow snapshot WorkflowKind.start_work session_id in
    let loop = resolve_workflow snapshot WorkflowKind.ulw_loop session_id in
    if not (is_ok (validate_active_index snapshot.index))
    then quiet
    else if is_conflict start || is_conflict loop
    then quiet
    else get_or (decide_start leaf_id snapshot start) (decide_loop leaf_id snapshot loop)
