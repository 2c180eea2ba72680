-- ===== src/Workflow/Control/Lifecycle.antt =====
-- workflow-control.ts: the life of a run as a labelled graph, which both reducers implement.
use omp_lazy.Prelude.{◌≡◌, ◌≢◌, ◌↔◌, ◌⊎◌, false, true, arith, eq_iff}
use omp_lazy.Prelude.Result.{ok, is_ok}
use omp_lazy.State.Domain.{Run, Payload, StartWorkStatus, UlwLoopStatus, WorkflowKind, workflow}
use omp_lazy.Workflow.Control.{
  ControlCommand, ControlKind, pause, resume, cancel, adopt, reconcile_plan,
  reduce_workflow_control,
}

-- What the two status types have in common.
pub data Phase : Type 0 where
  live paused stuck held over : Phase

abbrev pub start_phase : StartWorkStatus → Phase
start_phase StartWorkStatus.active = live
start_phase StartWorkStatus.paused = paused
start_phase StartWorkStatus.stuck = stuck
start_phase StartWorkStatus.blocked = held
start_phase StartWorkStatus.needs_user_decision = held
start_phase StartWorkStatus.review_blocked = held
start_phase _ = over

abbrev pub ulw_phase : UlwLoopStatus → Phase
ulw_phase UlwLoopStatus.active = live
ulw_phase UlwLoopStatus.paused = paused
ulw_phase UlwLoopStatus.stuck = stuck
ulw_phase UlwLoopStatus.blocked = held
ulw_phase UlwLoopStatus.needs_user_decision = held
ulw_phase UlwLoopStatus.review_blocked = held
ulw_phase _ = over

abbrev pub payload_phase : Payload → Phase
payload_phase (Payload.start_work p) = start_phase p.status
payload_phase (Payload.ulw_loop p) = ulw_phase p.status

abbrev pub phase : Run → Phase
phase run = payload_phase run.payload

-- The phases from which a control command is accepted, by the workflow of the run.
abbrev pub IsEnabled : WorkflowKind → ControlKind → Phase → Type 0
IsEnabled w pause p = p ≡ live
IsEnabled w resume p = (p ≡ paused) ⊎ (p ≡ stuck)
IsEnabled w adopt p = (p ≡ paused) ⊎ (p ≡ stuck) ⊎ (p ≡ held)
IsEnabled w cancel p = p ≢ over
IsEnabled w (reconcile_plan plan) p = (w ≡ WorkflowKind.start_work) × (p ≢ over)

-- The phase that an accepted command leads to.
abbrev pub target : ControlKind → Phase
target pause = paused
target cancel = over
target _ = live

-- The command speaks for the run as its owner left it.
pub record IsEntitled (run : Run) (command : ControlCommand) : Type 0 where
  pub current : run.owner.epoch ≡ command.expected_epoch
  pub owned : (command.kind ≡ adopt) ⊎ (run.owner.session_id ≡ command.session_id)

-- A control command is accepted exactly when its epoch is the owner's, its session is the owner's
-- or it is an adoption, and the phase of the run is one that enables it.
pub control-is_ok_iff :
    (run : Run) (command : ControlCommand)
    → (is_ok (reduce_workflow_control run command) ≡ true)
      ↔ (IsEntitled run command × IsEnabled (workflow run) command.kind (phase run))
unfolding reduce_workflow_control
control-is_ok_iff run command = ground (arith, eq_iff run.owner.session_id command.session_id)

-- An accepted command leads to its phase (paused, over or live), and keeps the workflow.
pub control-target :
    (run : Run) (command : ControlCommand) (next : Run)
    → reduce_workflow_control run command ≡ ok next
    → (phase next ≡ target command.kind) × (workflow next ≡ workflow run)
unfolding reduce_workflow_control
control-target run command next e = ground arith

-- A run that is over refuses every command.
pub control_over :
    (run : Run) (command : ControlCommand)
    → phase run ≡ over
    → is_ok (reduce_workflow_control run command) ≡ false
control_over run command e = ground (arith, control-is_ok_iff run command)
