-- ===== src/State/Transition/Schema.antt =====
-- state-transition.ts against codec-schemas.ts: which mutations keep a run decodable.
use omp_lazy.Prelude.{ℕ, ◌≡◌, String, Bool, true, false, List, Option, some, none, arith, inl, inr}
use omp_lazy.Prelude.Result.{Result, ok, err, to_option, Result-cases}
use omp_lazy.State.Domain.{
  Run, Payload, UlwLoopPayload, StateMutation, Control, EventVersion, TerminalStatus,
}
use omp_lazy.State.Receipts.{ReceiptAuthority}
use omp_lazy.State.Codec.{payload_schema, run_schema, no_duplicates, mutation_schema}
use omp_lazy.State.Progress.{
  accept_task_evidence, terminal_run, attempt_continuation, stop_continuation,
  reduce_runtime_progress,
}
use omp_lazy.Workflow.Control.{
  PlanSnapshot, ControlKind, ControlCommand, reconcile_plan, reduce_workflow_control,
}
use omp_lazy.Workflow.UlwLoop.Budgets.{start_goal_cycle-schema, record_criterion_failure-schema}
use omp_lazy.State.Transition.{
  control_run, control_as, control_kind, reconcile_run, loop_run, is_legacy,
}

abbrev PlanSchema : ControlKind → Type 0
PlanSchema (reconcile_plan plan) = no_duplicates plan.task_ids ≡ true
PlanSchema _ = Unit

control-schema :
    (run : Run) (command : ControlCommand) (next : Run)
    → run_schema run ≡ true
    → PlanSchema command.kind
    → reduce_workflow_control run command ≡ ok next
    → run_schema next ≡ true
unfolding reduce_workflow_control
control-schema run command next h plan e = ground arith

control_kind-PlanSchema : (c : Control) → PlanSchema (control_kind c)
control_kind-PlanSchema Control.pause = tt
control_kind-PlanSchema Control.resume = tt
control_kind-PlanSchema Control.cancel = tt

-- The mutations that add criteria or close goals.
abbrev pub is_reshaping : StateMutation → Bool
is_reshaping (StateMutation.workflow_steered criteria annotation) = true
is_reshaping (StateMutation.criterion_settled m) = true
is_reshaping _ = false

accept-schema :
    (run : Run) (version : EventVersion) (t a : String) (authority : Option ReceiptAuthority)
    (next : Run)
    → run_schema run ≡ true
    → accept_task_evidence run run.payload version t a authority ≡ some next
    → run_schema next ≡ true
unfolding accept_task_evidence
accept-schema run version t a authority next h e = ground arith

terminal-schema :
    (run : Run) (version : EventVersion) (s : TerminalStatus) (ids : Option (List String))
    (t : Option String) (authority : Option ReceiptAuthority) (next : Run)
    → run_schema run ≡ true
    → terminal_run run version s ids t authority ≡ some next
    → run_schema next ≡ true
unfolding terminal_run
terminal-schema run version s ids t authority next h e = ground arith

attempt-schema :
    (run : Run) (leaf : String) (progress : ℕ) (next : Run)
    → run_schema run ≡ true
    → attempt_continuation run leaf progress ≡ some next
    → run_schema next ≡ true
unfolding attempt_continuation
attempt-schema run leaf progress next h e = ground arith

stop-schema :
    (run : Run) (leaf : String) (next : Run)
    → run_schema run ≡ true
    → stop_continuation run leaf ≡ some next
    → run_schema next ≡ true
unfolding stop_continuation
stop-schema run leaf next h e = ground arith

control_as-schema :
    (run : Run) (kind : ControlKind) (session_id : String) (next : Run)
    → run_schema run ≡ true
    → PlanSchema kind
    → control_as run kind session_id ≡ some next
    → run_schema next ≡ true
control_as-schema run kind session_id next h plan e =
    let command : ControlCommand = record {
      kind = kind;
      session_id = session_id;
      expected_epoch = run.owner.epoch;
    } in
    elim (Result-cases (reduce_workflow_control run command)) [
      | inl (r, found) ↦ control-schema run command next h plan (ground arith)
      | inr (code, found) ↦ absurd (ground arith)
    ]

reconcile-schema :
    (run : Run) (q : Payload) (plan : PlanSnapshot) (next : Run)
    → run_schema run ≡ true
    → no_duplicates plan.task_ids ≡ true
    → reconcile_run run q plan ≡ some next
    → run_schema next ≡ true
reconcile-schema run (Payload.ulw_loop p) plan next h d e = absurd (ground arith)
reconcile-schema run (Payload.start_work p) plan next h d e =
    control_as-schema run (reconcile_plan plan) run.owner.session_id next h d e

-- A loop mutation keeps the schema if its reducer does.
loop_run-schema :
    (legacy : Bool) (run : Run) (q : Payload) (f : UlwLoopPayload → Option Run) (next : Run)
    → run_schema run ≡ true
    → payload_schema q ≡ true
    → ((p : UlwLoopPayload)
        → payload_schema (Payload.ulw_loop p) ≡ true
        → f p ≡ some next
        → run_schema next ≡ true)
    → loop_run legacy run q f ≡ some next
    → run_schema next ≡ true
loop_run-schema true run q f next h k each e = ground arith
loop_run-schema false run (Payload.start_work p) f next h k each e = absurd (ground arith)
loop_run-schema false run (Payload.ulw_loop p) f next h k each e = each p k e

to_option-eq-some {ℓ κ} :
    {E : Type ℓ} {A : Type κ} (r : Result E A) {a : A} → to_option r ≡ some a → r ≡ ok a
to_option-eq-some (ok b) e = cc
to_option-eq-some (err c) e = cc

-- A mutation that its schema accepts, other than a steering or a settled criterion, takes a run
-- that satisfies the run schema to one that does: identifiers stay distinct, counters within
-- their bounds, and the active goal the one in progress.
pub control_run-schema :
    (run : Run) (version : EventVersion) (authority : Option ReceiptAuthority)
    (mutation : StateMutation) (next : Run)
    → is_reshaping mutation ≡ false
    → run_schema run ≡ true
    → mutation_schema mutation ≡ true
    → control_run run version authority mutation ≡ some next
    → run_schema next ≡ true
unfolding control_run reduce_runtime_progress
control_run-schema run version authority (StateMutation.run_created new) next q h m e = cc
control_run-schema run version authority (StateMutation.workflow_controlled c) next q h m e =
    control_as-schema run (control_kind c) run.owner.session_id next h (control_kind-PlanSchema c) e
control_run-schema run version authority (StateMutation.owner_adopted s) next q h m e =
    control_as-schema run ControlKind.adopt s next h tt e
control_run-schema run version authority (StateMutation.plan_reconciled ids none f) next q h m e =
    reconcile-schema run run.payload _ next h m e
control_run-schema run version authority (StateMutation.plan_reconciled ids (some r) f) next q h m
      e =
    reconcile-schema run run.payload _ next h (ground arith) e
control_run-schema run version authority (StateMutation.workflow_steered cs a) next q h m e = cc
control_run-schema run version authority (StateMutation.criterion_settled c) next q h m e = cc
control_run-schema run version authority (StateMutation.task_evidence_accepted t a) next q h m e =
    accept-schema run version t a authority next h e
control_run-schema run version authority (StateMutation.workflow_terminal s ids t) next q h m e =
    terminal-schema run version s ids t authority next h e
control_run-schema run version authority (StateMutation.continuation_attempted leaf p) next q h m
      e =
    attempt-schema run leaf p next h e
control_run-schema run version authority (StateMutation.continuation_stuck leaf) next q h m e =
    stop-schema run leaf next h e
control_run-schema run version authority (StateMutation.goal_cycle_started g) next q h m e =
    loop_run-schema (is_legacy version) run run.payload _ next h h
      (λ p k f. start_goal_cycle-schema run p g next k (to_option-eq-some _ f)) e
control_run-schema run version authority (StateMutation.criterion_failure_recorded g c f) next q h m
      e =
    loop_run-schema (is_legacy version) run run.payload _ next h h
      (λ p k made. record_criterion_failure-schema run p g c f next k (to_option-eq-some _ made)) e
