-- ===== src/State/Progress.antt =====
-- src/state/runtime-progress-transition.ts
use omp_lazy.Prelude.{
  ℕ, ◌+◌, String, Bool, true, false, not, ◌&&◌, ◌||◌, List, Option, none, some, map, ◌==◌,
  string_eq, nat_eq, option_eq, if◌then◌else◌, ltb, all, find, null_if, ◌>>=◌, ◌>>◌,
}
use omp_lazy.State.Domain.{
  Run, Payload, UlwLoopPayload, StartWorkStatus, UlwLoopStatus, Goal, GoalStatus, Criterion,
  CriterionStatus, StateMutation, SettledCriterion, TerminalStatus, ScopedEvent, EventVersion,
}
use omp_lazy.State.Receipts.{
  ReceiptAuthority, AcceptanceEvent, current_acceptance, exhausted_task_id,
  start_completion_acceptance_ids,
}
use omp_lazy.Workflow.StartWork.{same_strings}
use omp_lazy.Workflow.UlwLoop.{is_pass, criteria_pass, has_id, criterion_has_id}

abbrev pub failed_payload : Payload → Payload
failed_payload (Payload.start_work p) =
    Payload.start_work (record p { status = StartWorkStatus.failed })
failed_payload (Payload.ulw_loop p) = Payload.ulw_loop (record p { status = UlwLoopStatus.failed })

abbrev pub stuck_payload : Payload → Payload
stuck_payload (Payload.start_work p) =
    Payload.start_work (record p { status = StartWorkStatus.stuck })
stuck_payload (Payload.ulw_loop p) = Payload.ulw_loop (record p { status = UlwLoopStatus.stuck })

-- `setRunStatus`, the new payload given
abbrev pub set_run_payload : Run → Payload → Run
set_run_payload run payload = record run { revision = run.revision + 1; payload = payload }

abbrev settles : SettledCriterion → ScopedEvent → AcceptanceEvent → Bool
settles m scope accepted =
    m.acceptance_id == some accepted.idempotency_key
    && some accepted.task_generation == scope.task_generation
    && accepted.run_revision == m.capture_revision
    && accepted.capture_commit == m.capture_commit

abbrev pub pass_criterion : SettledCriterion → Criterion → Criterion
pass_criterion m item =
    if criterion_has_id m.criterion_id item
    then record item {
      status = CriterionStatus.pass;
      evidence_ref = some m.evidence_ref;
      capture_revision = some m.capture_revision;
      capture_commit = some m.capture_commit;
    }
    else item

abbrev pub settle_goal : SettledCriterion → Goal → Goal
settle_goal m goal =
    let criteria = map (pass_criterion m) goal.criteria in
    if has_id m.goal_id goal
    then record goal {
      status = if all (λ c. is_pass c.status) criteria then GoalStatus.complete else goal.status;
      criteria = criteria;
    }
    else goal

abbrev pub settled_payload : UlwLoopPayload → List Goal → UlwLoopPayload
settled_payload p goals =
    let completed = all criteria_pass goals in
    record p {
      active_goal_id = if completed then none else p.active_goal_id;
      status = if completed then UlwLoopStatus.completed else p.status;
      goals = goals;
    }

-- The part of `settleCriterion` behind its checks on the event's version.
unfoldable pub settle_bound :
    Run → UlwLoopPayload → ScopedEvent → SettledCriterion → ReceiptAuthority → Option Run
settle_bound run p scope m authority = do
  accepted ← current_acceptance run authority m.criterion_id
  null_if (not (settles m scope accepted))
  goal ← find (has_id m.goal_id) p.goals
  criterion ← find (criterion_has_id m.criterion_id) goal.criteria
  null_if (is_pass criterion.status)
  some (record run {
    revision = run.revision + 1;
    progress_revision = run.progress_revision + 1;
    payload = Payload.ulw_loop (settled_payload p (map (settle_goal m) p.goals));
  })

unfoldable pub settle_criterion :
    Run → Payload → EventVersion → SettledCriterion → Option ReceiptAuthority → Option Run
settle_criterion run (Payload.start_work p) version m authority = none
settle_criterion run (Payload.ulw_loop p) EventVersion.v1 m authority = none
settle_criterion run (Payload.ulw_loop p) (EventVersion.v2 scope) m authority =
    if scope.legacy_head_unbound then some run else authority >>= settle_bound run p scope m

-- What a receipt-bound event needs: version 2, bound to its head, and an authority.
abbrev pub bound_scope :
    EventVersion → Option ReceiptAuthority → Option (ScopedEvent × ReceiptAuthority)
bound_scope EventVersion.v1 authority = none
bound_scope (EventVersion.v2 scope) none = none
bound_scope (EventVersion.v2 scope) (some authority) =
    if scope.legacy_head_unbound then none else some (scope, authority)

unfoldable pub accept_task_evidence :
    Run
    → Payload
    → EventVersion
    → (task_id acceptance_id : String) → Option ReceiptAuthority
    → Option Run
accept_task_evidence run (Payload.ulw_loop p) version task_id acceptance_id authority = none
accept_task_evidence run (Payload.start_work p) version task_id acceptance_id authority = do
  (scope, bound) ← bound_scope version authority
  accepted ← current_acceptance run bound task_id
  null_if (
      not (accepted.idempotency_key == acceptance_id)
      || not (some accepted.task_generation == scope.task_generation))
  some (record run { revision = run.revision + 1; progress_revision = run.progress_revision + 1 })

abbrev complete_run : Run → Payload → Option (List String) → ReceiptAuthority → Option Run
complete_run run (Payload.ulw_loop p) given authority = none
complete_run run (Payload.start_work p) given authority = do
  ids ← start_completion_acceptance_ids run p authority
  claimed ← given
  null_if (not (same_strings ids claimed))
  some (record run {
    revision = run.revision + 1;
    progress_revision = run.progress_revision + 1;
    payload = Payload.start_work (record p { status = StartWorkStatus.completed });
  })

abbrev fail_run : Run → Option String → ReceiptAuthority → Option Run
fail_run run task_id authority = do
  claimed ← task_id
  null_if (not (exhausted_task_id run authority == some claimed))
  some (set_run_payload run (failed_payload run.payload))

abbrev finish_run :
    Run → TerminalStatus → Option (List String) → Option String → ReceiptAuthority → Option Run
finish_run run TerminalStatus.failed acceptance_ids task_id authority =
    fail_run run task_id authority
finish_run run TerminalStatus.completed acceptance_ids task_id authority =
    complete_run run run.payload acceptance_ids authority

unfoldable pub terminal_run :
    Run
    → EventVersion
    → TerminalStatus
    → Option (List String)
    → Option String
    → Option ReceiptAuthority
    → Option Run
terminal_run run version status acceptance_ids task_id authority = do
  (scope, bound) ← bound_scope version authority
  null_if (not (scope.task_generation == some bound.task_generation))
  finish_run run status acceptance_ids task_id bound

unfoldable pub attempt_continuation : Run → (leaf_id : String) (progress_revision : ℕ) → Option Run
attempt_continuation run leaf_id progress_revision = do
  null_if (
      run.continuation.last_processed_leaf_id == some leaf_id
      || not (progress_revision == run.progress_revision))
  let changed = not (run.continuation.progress_revision_seen == run.progress_revision)
  some (record run {
    revision = run.revision + 1;
    continuation = record {
      last_processed_leaf_id = some leaf_id;
      progress_revision_seen = run.progress_revision;
      no_progress_attempts = if changed then 1 else run.continuation.no_progress_attempts + 1;
      stuck = false;
    };
  })

unfoldable pub stop_continuation : Run → (leaf_id : String) → Option Run
stop_continuation run leaf_id = do
  null_if (
      run.continuation.last_processed_leaf_id == some leaf_id
      || not (run.continuation.progress_revision_seen == run.progress_revision)
      || ltb run.continuation.no_progress_attempts 2)
  let stopped = set_run_payload run (stuck_payload run.payload)
  some (record stopped {
    continuation = record (stopped.continuation) {
      last_processed_leaf_id = some leaf_id;
      stuck = true;
    };
  })

-- The `switch` on the mutation's kind; the other kinds are `default`.
unfoldable pub reduce_runtime_progress :
    Run → EventVersion → Option ReceiptAuthority → StateMutation → Option Run
reduce_runtime_progress run version authority (StateMutation.criterion_settled m) =
    settle_criterion run run.payload version m authority
reduce_runtime_progress run version authority (StateMutation.task_evidence_accepted t a) =
    accept_task_evidence run run.payload version t a authority
reduce_runtime_progress run version authority (StateMutation.workflow_terminal s ids t) =
    terminal_run run version s ids t authority
reduce_runtime_progress run version authority (StateMutation.continuation_attempted leaf rev) =
    attempt_continuation run leaf rev
reduce_runtime_progress run version authority (StateMutation.continuation_stuck leaf) =
    stop_continuation run leaf
reduce_runtime_progress run version authority _ = none
