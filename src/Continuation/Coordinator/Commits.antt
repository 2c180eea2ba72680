-- ===== src/Continuation/Coordinator/Commits.antt =====
-- continuation-coordinator.ts against state-transition.ts: what is decided can be committed.
use omp_lazy.Prelude.{
  ◌+◌, ◌≡◌, refl, String, true, false, ◌&&◌, Option, some, arith, string_eq, nat_eq, option_eq,
  is_some, Option-cases, inl, inr, beq_refl, all,
}
use omp_lazy.State.Domain.{
  workflow, Run, WorkflowKind, ActiveIndex, StateMutation, StateEvent, EventVersion,
}
use omp_lazy.State.Receipts.{ReceiptAuthority, bound_head}
use omp_lazy.State.Progress.{
  reduce_runtime_progress, attempt_continuation, stop_continuation, terminal_run,
  accept_task_evidence, settle_criterion, settle_bound,
}
use omp_lazy.Workflow.UlwLoop.{start_goal_cycle, record_criterion_failure}
use omp_lazy.State.Codec.{run_schema}
use omp_lazy.State.Transition.{
  control_run, is_task_scoped, steer_run, next_run, prepared_run, prepare_transition,
}
use omp_lazy.Workflow.Control.{reduce_workflow_control}
use omp_lazy.State.Index.{same_workflow}
use omp_lazy.Prelude.Result.{is_ok, ok}
use omp_lazy.Continuation.Coordinator.{
  ContinuationDecision, quiet, continue, stuck, settled, ContinuationSnapshot, authority_of,
  decide_continuation,
}
use omp_lazy.Continuation.Event.{event_version, Decided, decided, continuation_event}
use omp_lazy.Continuation.Coordinator.Decisions.{decide_continuation-accepted}
use omp_lazy.Continuation.Coordinator.Acceptance.{accepts, is_v1}

-- No mutation of a run changes its identity.
control_run-target :
    (run next : Run) (version : EventVersion) (a : Option ReceiptAuthority) (m : StateMutation)
    → control_run run version a m ≡ some next
    → (next.run_id ≡ run.run_id) × (workflow next ≡ workflow run)
unfolding control_run reduce_runtime_progress settle_criterion settle_bound accept_task_evidence
    terminal_run attempt_continuation stop_continuation steer_run reduce_workflow_control
    start_goal_cycle record_criterion_failure
control_run-target run next version a m e = ground arith

same_workflow_refl : (w : WorkflowKind) → same_workflow w w ≡ true
same_workflow_refl WorkflowKind.start_work = refl
same_workflow_refl WorkflowKind.ulw_loop = refl

next_run-ok :
    (index : ActiveIndex) (d : Decided) (event_id at : String) (a : ReceiptAuthority) (next : Run)
    → control_run d.run (event_version d.run.version d.task_generation) (some a) d.mutation
      ≡ some next
    → is_task_scoped d.mutation ≡ is_some d.task_generation
    → (is_v1 d.run.version && is_some d.task_generation) ≡ false
    → next_run d.run (continuation_event index d event_id at) (some a) ≡ ok next
unfolding next_run continuation_event
next_run-ok index d event_id at a next e t v = ground (
  arith,
  e,
  t,
  v,
  beq_refl d.run.revision,
  beq_refl d.run.owner.session_id,
  beq_refl d.run.owner.epoch,
  beq_refl (bound_head d.run.version),
)

prepared_run-next :
    (run next : Run) (event : StateEvent) (version : EventVersion) (a : Option ReceiptAuthority)
    (m : StateMutation)
    → control_run run version a m ≡ some next
    → prepared_run (some run) event a m ≡ next_run run event a
unfolding control_run prepared_run
prepared_run-next run next event version a m e = ground arith

prepare_transition-ok :
    (index : ActiveIndex) (d : Decided) (event_id at : String) (a : ReceiptAuthority) (next : Run)
    → control_run d.run (event_version d.run.version d.task_generation) (some a) d.mutation
      ≡ some next
    → next_run d.run (continuation_event index d event_id at) (some a) ≡ ok next
    → is_ok
        (prepare_transition index (some d.run) (continuation_event index d event_id at) (some a))
      ≡ true
unfolding prepare_transition continuation_event
prepare_transition-ok index d event_id at a next e n =
    let (same_id, same_kind) = control_run-target d.run next _ _ _ e in
    let event = continuation_event index d event_id at in
    let prepared = prepared_run-next d.run next event _ _ d.mutation e in
    ground (
      arith,
      prepared,
      n,
      same_id,
      same_kind,
      beq_refl d.run.run_id,
      beq_refl index.revision,
      beq_refl (index.revision + 1),
      same_workflow_refl (workflow d.run),
    )

taken :
    (f : Run → ReceiptAuthority) (decision : ContinuationDecision) (d : Decided)
    → accepts f decision ≡ true
    → decided decision ≡ some d
    → (is_v1 d.run.version && is_some d.task_generation) ≡ false
    → (is_some (
          control_run d.run
            (event_version d.run.version d.task_generation)
            (some (f d.run))
            d.mutation)
        ≡ true)
      × (is_task_scoped d.mutation ≡ is_some d.task_generation)
taken f quiet d h e v = absurd (ground arith)
taken f (continue run context m) d h e v = ground arith
taken f (stuck run m) d h e v = ground arith
taken f (settled run g m) d h e v = ground arith

-- If the runs of a snapshot satisfy the run schema, and the decision on it is not the settlement of
-- a version 1 run: the event made of the decision passes every check of the transition, with the
-- index, the run and the receipts of the snapshot, whether it continues, stops or settles.
pub decide_continuation-commits :
    (session_id leaf_id event_id at : String) (snapshot : ContinuationSnapshot) (d : Decided)
    → all run_schema snapshot.runs ≡ true
    → decided (decide_continuation session_id leaf_id snapshot) ≡ some d
    → (is_v1 d.run.version && is_some d.task_generation) ≡ false
    → is_ok (
        prepare_transition snapshot.index
          (some d.run)
          (continuation_event snapshot.index d event_id at)
          (some (authority_of snapshot d.run)))
      ≡ true
decide_continuation-commits session_id leaf_id event_id at snapshot d h e v =
    let accepted = decide_continuation-accepted leaf_id snapshot session_id h in
    let (reduces, scoped) = taken (authority_of snapshot) _ d accepted e v in
    elim (Option-cases (
      control_run d.run (event_version d.run.version d.task_generation)
        (some (authority_of snapshot d.run)) d.mutation)) [
          | inl none_next ↦ absurd (ground arith)
          | inr (next, e') ↦
              prepare_transition-ok snapshot.index d event_id at (authority_of snapshot d.run) next
                e'
                (next_run-ok snapshot.index d event_id at (authority_of snapshot d.run) next e'
                  scoped v)
        ]
