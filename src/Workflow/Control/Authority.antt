-- ===== src/Workflow/Control/Authority.antt =====
-- workflow-control.ts: who may control a run, and what a command changes beside the payload.
use omp_lazy.Prelude.{suc, ◌≡◌, ◌≢◌, if◌then◌else◌}
use omp_lazy.State.Domain.{Run}
use omp_lazy.Workflow.Control.{ControlCommand, adopt, is_adopt}

-- The effect of an accepted command on the envelope of a run.
pub record IsControlStep (run : Run) (command : ControlCommand) (next : Run) : Type 0 where
  pub current : run.owner.epoch ≡ command.expected_epoch
  pub owned : command.kind ≢ adopt → run.owner.session_id ≡ command.session_id
  pub revision : next.revision ≡ suc run.revision
  pub epoch :
      next.owner.epoch ≡ (if is_adopt command.kind then suc run.owner.epoch else run.owner.epoch)
  pub session :
      next.owner.session_id
      ≡ (if is_adopt command.kind then command.session_id else run.owner.session_id)
  pub run_id : next.run_id ≡ run.run_id
  pub version : next.version ≡ run.version
  pub transaction : next.transaction_revision ≡ run.transaction_revision
  pub progress : next.progress_revision ≡ run.progress_revision
