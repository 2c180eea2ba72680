-- ===== src/Workflow/Control.antt =====
-- src/workflows/workflow-control.ts
pub mod Authority
pub mod Lifecycle
use omp_lazy.Prelude.{
  ℕ, ◌+◌, String, Bool, true, false, not, ◌&&◌, List, Option, none, some, ◌==◌, string_eq, nat_eq,
  if◌then◌else◌,
}
use omp_lazy.Prelude.Result.{Result, ok, err, stop_if, ◌>>◌}
use omp_lazy.State.Domain.{
  Run, Payload, StartWorkPayload, UlwLoopPayload, StartWorkStatus, UlwLoopStatus, Continuation,
}

-- `PlanSnapshot` of start-work-plan.ts
pub record PlanSnapshot : Type 0 where
  pub task_ids : List String
  pub remaining_task_ids : List String
  pub fingerprint : String

pub data ControlKind : Type 0 where
  pause resume cancel adopt : ControlKind
  reconcile_plan : PlanSnapshot → ControlKind

pub record ControlCommand : Type 0 where
  pub kind : ControlKind
  pub session_id : String
  pub expected_epoch : ℕ

pub data ControlError : Type 0 where
  owner_mismatch epoch_mismatch terminal invalid_transition : ControlError

abbrev pub is_adopt : ControlKind → Bool
is_adopt adopt = true
is_adopt _ = false

precheck : Run → ControlCommand → Option ControlError
precheck run command =
    if not (is_adopt command.kind) && not (run.owner.session_id == command.session_id)
    then some owner_mismatch
    else if run.owner.epoch == command.expected_epoch
    then none
    else some epoch_mismatch

unfoldable pub reset_continuation : Run → Continuation
reset_continuation run = record (run.continuation) {
  no_progress_attempts = 0;
  progress_revision_seen = run.progress_revision;
  stuck = false;
}

-- The statuses that `terminal` lists.
abbrev pub is_terminal_start : StartWorkStatus → Bool
is_terminal_start StartWorkStatus.completed = true
is_terminal_start StartWorkStatus.cancelled = true
is_terminal_start StartWorkStatus.failed = true
is_terminal_start StartWorkStatus.abandoned = true
is_terminal_start _ = false

abbrev pub is_terminal_ulw : UlwLoopStatus → Bool
is_terminal_ulw UlwLoopStatus.completed = true
is_terminal_ulw UlwLoopStatus.cancelled = true
is_terminal_ulw UlwLoopStatus.failed = true
is_terminal_ulw _ = false

abbrev is_active_start : StartWorkStatus → Bool
is_active_start StartWorkStatus.active = true
is_active_start _ = false

abbrev is_active_ulw : UlwLoopStatus → Bool
is_active_ulw UlwLoopStatus.active = true
is_active_ulw _ = false

-- `paused` or `stuck`
abbrev is_resumable_start : StartWorkStatus → Bool
is_resumable_start StartWorkStatus.paused = true
is_resumable_start StartWorkStatus.stuck = true
is_resumable_start _ = false

abbrev is_resumable_ulw : UlwLoopStatus → Bool
is_resumable_ulw UlwLoopStatus.paused = true
is_resumable_ulw UlwLoopStatus.stuck = true
is_resumable_ulw _ = false

-- The five statuses from which a run can be adopted.
abbrev is_adoptable_start : StartWorkStatus → Bool
is_adoptable_start StartWorkStatus.blocked = true
is_adoptable_start StartWorkStatus.needs_user_decision = true
is_adoptable_start StartWorkStatus.review_blocked = true
is_adoptable_start s = is_resumable_start s

abbrev is_adoptable_ulw : UlwLoopStatus → Bool
is_adoptable_ulw UlwLoopStatus.blocked = true
is_adoptable_ulw UlwLoopStatus.needs_user_decision = true
is_adoptable_ulw UlwLoopStatus.review_blocked = true
is_adoptable_ulw s = is_resumable_ulw s

module _ (run : Run) (session_id : String) where
  reduce_start : StartWorkPayload → ControlKind → Result ControlError Run
  reduce_start p pause =
      if is_active_start p.status
      then ok (record run {
        revision = run.revision + 1;
        payload = Payload.start_work (record p { status = StartWorkStatus.paused });
      })
      else err invalid_transition
  reduce_start p cancel =
      if is_terminal_start p.status
      then err terminal
      else ok (record run {
        revision = run.revision + 1;
        payload = Payload.start_work (record p { status = StartWorkStatus.cancelled });
      })
  reduce_start p resume = do
    stop_if (is_terminal_start p.status) terminal
    stop_if (not (is_resumable_start p.status)) invalid_transition
    ok (record run {
      revision = run.revision + 1;
      continuation = reset_continuation run;
      payload = Payload.start_work (record p { status = StartWorkStatus.active });
    })
  reduce_start p adopt = do
    stop_if (is_terminal_start p.status) terminal
    stop_if (not (is_adoptable_start p.status)) invalid_transition
    ok (record run {
      revision = run.revision + 1;
      owner = record { session_id = session_id; epoch = run.owner.epoch + 1 };
      continuation = reset_continuation run;
      payload = Payload.start_work (record p { status = StartWorkStatus.active });
    })
  reduce_start p (reconcile_plan plan) = do
    stop_if (is_terminal_start p.status) terminal
    ok (record run {
      revision = run.revision + 1;
      payload = Payload.start_work (record p {
        status = StartWorkStatus.active;
        plan = record (p.plan) { task_ids = plan.task_ids; task_fingerprint = plan.fingerprint };
      });
    })

  reduce_ulw : UlwLoopPayload → ControlKind → Result ControlError Run
  reduce_ulw p pause =
      if is_active_ulw p.status
      then ok (record run {
        revision = run.revision + 1;
        payload = Payload.ulw_loop (record p { status = UlwLoopStatus.paused });
      })
      else err invalid_transition
  reduce_ulw p cancel =
      if is_terminal_ulw p.status
      then err terminal
      else ok (record run {
        revision = run.revision + 1;
        payload = Payload.ulw_loop (record p { status = UlwLoopStatus.cancelled });
      })
  reduce_ulw p resume = do
    stop_if (is_terminal_ulw p.status) terminal
    stop_if (not (is_resumable_ulw p.status)) invalid_transition
    ok (record run {
      revision = run.revision + 1;
      continuation = reset_continuation run;
      payload = Payload.ulw_loop (record p { status = UlwLoopStatus.active });
    })
  reduce_ulw p adopt = do
    stop_if (is_terminal_ulw p.status) terminal
    stop_if (not (is_adoptable_ulw p.status)) invalid_transition
    ok (record run {
      revision = run.revision + 1;
      owner = record { session_id = session_id; epoch = run.owner.epoch + 1 };
      continuation = reset_continuation run;
      payload = Payload.ulw_loop (record p { status = UlwLoopStatus.active });
    })
  reduce_ulw p (reconcile_plan plan) = err invalid_transition

-- The `switch` on `run.workflow`.
reduce_payload : Run → Payload → ControlCommand → Result ControlError Run
unfolding reduce_start reduce_ulw reset_continuation
reduce_payload run (Payload.start_work p) command =
    reduce_start run command.session_id p command.kind
reduce_payload run (Payload.ulw_loop p) command = reduce_ulw run command.session_id p command.kind

unfoldable pub reduce_workflow_control : Run → ControlCommand → Result ControlError Run
unfolding precheck reduce_payload
reduce_workflow_control run command = elim (precheck run command) [
  | some conflict ↦ err conflict
  | none ↦ reduce_payload run run.payload command
]
