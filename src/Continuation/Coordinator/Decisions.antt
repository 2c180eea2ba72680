-- ===== src/Continuation/Coordinator/Decisions.antt =====
-- continuation-coordinator.ts against runtime-progress-transition.ts: every decision's mutation is
-- accepted.
use omp_lazy.Prelude.{
  ◌≡◌, refl, String, true, false, Option, none, some, arith, ◌==◌, string_eq, nat_eq, option_eq,
  find, or_else, get_or, ◌>>=◌, Bool-cases, Option-cases, inl, inr, all,
}
use omp_lazy.State.Domain.{
  Run, ActiveIndexEntry, WorkflowKind, Payload, StartWorkPayload, UlwLoopPayload,
}
use omp_lazy.State.Receipts.{ReceiptAuthority}
use omp_lazy.Workflow.UlwLoop.{UlwLoopBlock}
use omp_lazy.State.Codec.{goal_schema, payload_schema, run_schema}
use omp_lazy.Prelude.Result.{Result, ok, err}
use omp_lazy.Workflow.StartWork.{evaluate_start_work_continuation}
use omp_lazy.Continuation.Coordinator.{
  ContinuationDecision, exhaustion, completion, ContinuationSnapshot, PlanObservation, authority_of,
  start_observed, start_payload, loop_eligible, loop_payload, decide_start, decide_loop,
  ResolvedWorkflow, absent, conflict, found, resolve_workflow, resolve_entry, decide_continuation,
}
use omp_lazy.Continuation.Coordinator.Acceptance.{
  accepts, accepts_each, exhaustion-accepted, completion-accepted, next_task-accepted,
  loop_goal-accepted, find-all,
}

or_else-accepted :
    (f : Run → ReceiptAuthority) (x y : Option ContinuationDecision)
    → accepts_each f x ≡ true
    → accepts_each f y ≡ true
    → accepts_each f (or_else x y) ≡ true
or_else-accepted f none y hx hy = hy
or_else-accepted f (some d) y hx hy = hx

get_or-accepted :
    (f : Run → ReceiptAuthority) (x : Option ContinuationDecision) (d : ContinuationDecision)
    → accepts_each f x ≡ true
    → accepts f d ≡ true
    → accepts f (get_or x d) ≡ true
get_or-accepted f none d hx hd = hd
get_or-accepted f (some e) d hx hd = hx

module _ (leaf_id : String) (snapshot : ContinuationSnapshot) where
  abbrev f : Run → ReceiptAuthority
  f = authority_of snapshot

  start_observed-accepted :
      (run : Run) (p : StartWorkPayload) (o : Option PlanObservation)
      → run.payload ≡ Payload.start_work p
      → (run.continuation.last_processed_leaf_id == some leaf_id) ≡ false
      → accepts_each f (o >>= start_observed leaf_id run p (f run)) ≡ true
  start_observed-accepted run p none s h = refl
  start_observed-accepted run p (some o) s h =
      let r = evaluate_start_work_continuation p o.snapshot in
      or_else-accepted f (completion run p (f run) r) _ (completion-accepted f run p r s) (
        or_else-accepted f (exhaustion run (f run)) _ (exhaustion-accepted f run)
          (next_task-accepted f leaf_id run p r s h))

  start_payload-accepted :
      (run : Run) (payload : Payload)
      → run.payload ≡ payload
      → accepts_each f (start_payload leaf_id snapshot run payload) ≡ true
  start_payload-accepted run (Payload.ulw_loop p) s = refl
  start_payload-accepted run (Payload.start_work p) s =
      elim (Bool-cases (run.continuation.last_processed_leaf_id == some leaf_id)) [
        | inl seen ↦ rw seen refl
        | inr fresh ↦ rw fresh (start_observed-accepted run p _ s fresh)
      ]

  loop_eligible-accepted :
      (run : Run) (p : UlwLoopPayload) (r : Result UlwLoopBlock String)
      → run.payload ≡ Payload.ulw_loop p
      → (run.continuation.last_processed_leaf_id == some leaf_id) ≡ false
      → all goal_schema p.goals ≡ true
      → accepts f (loop_eligible leaf_id run p (f run) r) ≡ true
  loop_eligible-accepted run p (err code) s h d = refl
  loop_eligible-accepted run p (ok goal_id) s h d =
      loop_goal-accepted f leaf_id run p goal_id _ s h d refl

  loop_payload-accepted :
      (run : Run) (payload : Payload)
      → run.payload ≡ payload
      → payload_schema payload ≡ true
      → accepts f (loop_payload leaf_id snapshot run payload) ≡ true
  loop_payload-accepted run (Payload.start_work p) s d = refl
  loop_payload-accepted run (Payload.ulw_loop p) s d =
      elim (Bool-cases (run.continuation.last_processed_leaf_id == some leaf_id)) [
        | inl seen ↦ rw seen refl
        | inr fresh ↦
            let goals_fine : all goal_schema p.goals ≡ true = ground arith in
            rw fresh (
              get_or-accepted f (exhaustion run (f run)) _ (exhaustion-accepted f run)
                (loop_eligible-accepted run p _ s fresh goals_fine))
      ]

  decide_start-accepted :
      (r : ResolvedWorkflow) → accepts_each f (decide_start leaf_id snapshot r) ≡ true
  decide_start-accepted absent = refl
  decide_start-accepted conflict = refl
  decide_start-accepted (found run) = start_payload-accepted run run.payload refl

  decide_loop-accepted :
      (r : ResolvedWorkflow)
      → ((run : Run) → r ≡ found run → run_schema run ≡ true)
      → accepts f (decide_loop leaf_id snapshot r) ≡ true
  decide_loop-accepted absent d = refl
  decide_loop-accepted conflict d = refl
  decide_loop-accepted (found run) d = loop_payload-accepted run run.payload refl (d run refl)

  resolve_entry-schema :
      (o : Option ActiveIndexEntry) (run : Run)
      → all run_schema snapshot.runs ≡ true
      → resolve_entry snapshot.runs o ≡ found run
      → run_schema run ≡ true
  resolve_entry-schema none run d e = absurd (ground arith)
  resolve_entry-schema (some entry) run d e =
      elim (Option-cases (find (λ r. r.run_id == entry.run_id) snapshot.runs)) [
        | inl missing ↦ absurd (ground arith)
        | inr (r, there) ↦
            let fine =
              find-all {0} (λ r. r.run_id == entry.run_id) run_schema snapshot.runs r d there in
            ground (arith, fine)
      ]

  resolve_workflow-schema :
      (kind : WorkflowKind) (session_id : String) (run : Run)
      → all run_schema snapshot.runs ≡ true
      → resolve_workflow snapshot kind session_id ≡ found run
      → run_schema run ≡ true
  unfolding resolve_workflow
  resolve_workflow-schema kind session_id run d e = resolve_entry-schema _ run d e

  pub decide_continuation-accepted :
      (session_id : String)
      → all run_schema snapshot.runs ≡ true
      → accepts f (decide_continuation session_id leaf_id snapshot) ≡ true
  unfolding decide_continuation
  decide_continuation-accepted session_id d =
      let started = resolve_workflow snapshot WorkflowKind.start_work session_id in
      let looped = resolve_workflow snapshot WorkflowKind.ulw_loop session_id in
      let start = decide_start-accepted started in
      let loop =
        decide_loop-accepted looped
          (λ run e. resolve_workflow-schema WorkflowKind.ulw_loop session_id run d e) in
      let either =
        get_or-accepted f (decide_start leaf_id snapshot started)
          (decide_loop leaf_id snapshot looped) start loop in
      ground (arith, either)
