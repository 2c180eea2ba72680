-- ===== src/Scenarios/Records.antt =====
-- Runs, goals and plans of the scenarios, and the reducers on them.
use omp_lazy.Prelude.{◌≡◌, refl, ◌↔◌, String, true, false, List, [], ◌∷◌, none, some, not}
use omp_lazy.Prelude.Result.{ok, is_ok}
use omp_lazy.State.Domain.{
  Run, RunVersion, Payload, Plan, StartWorkStatus, UlwLoopPayload, UlwLoopStatus, Goal, GoalStatus,
  Criterion, CriterionStatus, workflow, WorkflowKind, ActiveIndex, IndexVersion, ActiveIndexEntry,
  IndexStatusHint, StateMutation, EventVersion,
}
use omp_lazy.State.Index.{validate_active_index, status_hint}
use omp_lazy.State.Codec.{run_schema}
use omp_lazy.State.Transition.{control_run, derive_index}
use omp_lazy.State.Transition.Indexing.{derive_index-valid, is_taken}
use omp_lazy.State.Transition.Schema.{control_run-schema}
use omp_lazy.Workflow.Control.{
  ControlCommand, ControlKind, reduce_workflow_control, reset_continuation,
}
use omp_lazy.Workflow.Control.Lifecycle.{
  phase, target, IsEntitled, IsEnabled, control-is_ok_iff, control-target,
}
use omp_lazy.Workflow.UlwLoop.{start_goal_cycle, record_criterion_failure}
use omp_lazy.Workflow.UlwLoop.Budgets.{start_goal_cycle-schema, record_criterion_failure-schema}

abbrev pub plan : Plan
plan = record {
  plan_id = "p1";
  canonical_path = "/work/plan.md";
  display_path = "plan.md";
  allowed_root = "/work";
  allowed_root_display = ".";
  task_fingerprint = "f1";
  task_ids = "T1" ∷ "T2" ∷ [];
}

-- A start-work run in the given status.
abbrev pub start_run : RunVersion → StartWorkStatus → Run
start_run version status = record {
  version = version;
  run_id = "r1";
  revision = 1;
  transaction_revision = 1;
  owner = record { session_id = "s1"; epoch = 1 };
  progress_revision = 0;
  continuation = record {
    last_processed_leaf_id = none;
    progress_revision_seen = 0;
    no_progress_attempts = 0;
    stuck = false;
  };
  created_at = "t1";
  updated_at = "t1";
  payload = Payload.start_work (record { status = status; plan = plan });
}

abbrev pub criterion : String → Criterion
criterion id = record {
  id = id;
  scenario = none;
  observable = none;
  evidence_logical_id = none;
  status = CriterionStatus.pending;
  identical_failure_fingerprint = none;
  identical_failure_count = 0;
  evidence_ref = none;
  capture_revision = none;
  capture_commit = none;
}

abbrev pub goal : String → GoalStatus → List Criterion → Goal
goal id status criteria = record { id = id; status = status; cycle_count = 0; criteria = criteria }

-- Two goals, of which the first is active.
abbrev pub loop : UlwLoopPayload
loop = record {
  objective = none;
  annotation = none;
  status = UlwLoopStatus.active;
  active_goal_id = some "g1";
  goals =
      goal "g1" GoalStatus.in_progress (criterion "c1" ∷ [])
      ∷ goal "g2" GoalStatus.pending (criterion "c2" ∷ [])
      ∷ [];
}

abbrev pub loop_run : Run
loop_run = record (start_run (RunVersion.v2 none (some "head")) StartWorkStatus.active) {
  run_id = "r2";
  payload = Payload.ulw_loop loop;
}

abbrev resume_command : ControlCommand
resume_command = record { kind = ControlKind.resume; session_id = "s1"; expected_epoch = 1 }

abbrev pub paused_run : Run
paused_run = start_run RunVersion.v1 StartWorkStatus.paused

-- The paused run, resumed.
abbrev pub resumed_run : Run
resumed_run = record (start_run RunVersion.v1 StartWorkStatus.active) { revision = 2 }

resumes : reduce_workflow_control paused_run resume_command ≡ ok resumed_run
unfolding reduce_workflow_control reset_continuation
resumes = refl

control-is_ok_iff_example : (is_ok (reduce_workflow_control paused_run resume_command) ≡ true) ↔ (
    IsEntitled paused_run resume_command
    × IsEnabled (workflow paused_run) ControlKind.resume (phase paused_run))
control-is_ok_iff_example = control-is_ok_iff paused_run resume_command

control-target_example :
    (phase resumed_run ≡ target ControlKind.resume) × (workflow resumed_run ≡ workflow paused_run)
control-target_example = control-target paused_run resume_command resumed_run resumes

-- The loop after a cycle of its first goal.
abbrev cycled_run : Run
cycled_run = record loop_run {
  revision = 2;
  payload = Payload.ulw_loop (record loop {
    goals =
        record (goal "g1" GoalStatus.in_progress (criterion "c1" ∷ [])) { cycle_count = 1 }
        ∷ goal "g2" GoalStatus.pending (criterion "c2" ∷ [])
        ∷ [];
  });
}

cycles : start_goal_cycle loop_run loop "g1" ≡ ok cycled_run
unfolding start_goal_cycle
cycles = refl

start_goal_cycle-schema_example : run_schema cycled_run ≡ true
start_goal_cycle-schema_example = start_goal_cycle-schema loop_run loop "g1" cycled_run refl cycles

-- The loop after a failure of its first criterion.
abbrev failed_run : Run
failed_run = record loop_run {
  revision = 2;
  payload = Payload.ulw_loop (record loop {
    goals =
        goal "g1" GoalStatus.in_progress (
          record (criterion "c1") {
            status = CriterionStatus.fail;
            identical_failure_fingerprint = some "x";
            identical_failure_count = 1;
          }
          ∷ [])
        ∷ goal "g2" GoalStatus.pending (criterion "c2" ∷ [])
        ∷ [];
  });
}

fails : record_criterion_failure loop_run loop "g1" "c1" "x" ≡ ok failed_run
unfolding record_criterion_failure
fails = refl

record_criterion_failure-schema_example : run_schema failed_run ≡ true
record_criterion_failure-schema_example =
    record_criterion_failure-schema loop_run loop "g1" "c1" "x" failed_run refl fails

failure_recorded :
    control_run loop_run EventVersion.v1 none
      (StateMutation.criterion_failure_recorded "g1" "c1" "x")
    ≡ some failed_run
unfolding control_run record_criterion_failure
failure_recorded = refl

control_run-schema_example : run_schema failed_run ≡ true
control_run-schema_example =
    control_run-schema loop_run EventVersion.v1 none
      (StateMutation.criterion_failure_recorded "g1" "c1" "x") failed_run refl refl refl
      failure_recorded

-- An index that names another run of the same session and workflow.
abbrev entry : String → ActiveIndexEntry
entry run_id = record {
  workflow = WorkflowKind.start_work;
  session_id = "s1";
  run_id = run_id;
  owner_epoch = 1;
  run_revision = 1;
  transaction_revision = 1;
  status_hint = IndexStatusHint.active;
}

abbrev one_entry : ActiveIndex
one_entry = record { version = IndexVersion.v1; revision = 1; entries = entry "other" ∷ [] }

one_entry-valid : is_ok (validate_active_index one_entry) ≡ true
unfolding validate_active_index
one_entry-valid = refl

derive_index-valid_example :
    is_ok (validate_active_index (derive_index one_entry resumed_run 2))
    ≡ not (is_taken one_entry resumed_run 2 (status_hint resumed_run))
derive_index-valid_example = derive_index-valid one_entry resumed_run 2 one_entry-valid
