-- ===== src/State/Transition/Effects.antt =====
-- state-transition.ts: what a prepared transition has checked, and what it publishes.
use omp_lazy.Prelude.{suc, ◌≡◌, Option, arith, eq_iff}
use omp_lazy.Prelude.Result.{ok}
use omp_lazy.State.Domain.{Run, workflow, StateEvent, ActiveIndex}
use omp_lazy.State.Receipts.{ReceiptAuthority}
use omp_lazy.State.Transition.{PreparedTransition, derive_index, prepare_transition}

pub record IsPrepared (index : ActiveIndex) (event : StateEvent) (p : PreparedTransition)
    : Type 0 where
  pub sequence : event.sequence ≡ suc index.revision
  pub expected : event.expected.index_revision ≡ index.revision
  pub run_id : p.run.run_id ≡ event.run_id
  pub workflow_kind : workflow p.run ≡ event.workflow
  pub transaction : p.run.transaction_revision ≡ event.sequence
  pub revision : p.index.revision ≡ event.sequence
  pub derived : p.index ≡ derive_index index p.run event.sequence

-- A prepared transition was written against the index's revision; it publishes the event's run and
-- workflow, and stamps the run and the index with the event's sequence, the next after the index.
pub prepare_transition-IsPrepared :
    (index : ActiveIndex) (current : Option Run) (event : StateEvent)
    (authority : Option ReceiptAuthority) (p : PreparedTransition)
    → prepare_transition index current event authority ≡ ok p
    → IsPrepared index event p
unfolding prepare_transition derive_index
prepare_transition-IsPrepared index current event authority p e =
    ground (arith, eq_iff p.run.run_id event.run_id)
