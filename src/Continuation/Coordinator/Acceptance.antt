-- ===== src/Continuation/Coordinator/Acceptance.antt =====
-- continuation-coordinator.ts against runtime-progress-transition.ts: what is decided is accepted.
use omp_lazy.Prelude.{
  ◌≡◌, refl, sym, subst, String, Bool, true, false, not, ◌&&◌, ◌||◌, List, [], ◌∷◌, Option, none,
  some, arith, eq_iff, ◌==◌, string_eq, nat_eq, option_eq, find, find_last, is_some, Option-cases,
  inl, inr, beq_refl, all, any, map,
}
use omp_lazy.State.Domain.{
  Run, RunVersion, Payload, StartWorkPayload, UlwLoopPayload, Goal, Criterion,
}
use omp_lazy.State.Receipts.{
  ReceiptAuthority, AcceptanceEvent, current_acceptance, exhausted_task_id,
  start_completion_acceptance_ids, is_current,
}
use omp_lazy.State.Progress.{
  reduce_runtime_progress, attempt_continuation, stop_continuation, terminal_run,
  accept_task_evidence, settle_criterion, settle_bound,
}
use omp_lazy.Workflow.UlwLoop.{is_pass, has_id, criterion_has_id}
use omp_lazy.State.Codec.{criterion_id, no_duplicates, goal_schema}
use omp_lazy.State.Transition.{control_run, is_task_scoped}
use omp_lazy.Prelude.Result.{Result, ok, err}
use omp_lazy.Workflow.StartWork.{
  same_strings, StartWorkBlock, complete, not_active, plan_identity_mismatch,
}
use omp_lazy.Continuation.Coordinator.{
  ContinuationDecision, has_reached_no_progress_bound, quiet, continue, stuck, settled,
  ContinuationContext, start_work_context, ulw_loop_context, next_attempt, exhaustion, completion,
  next_task, next_criterion, loop_goal,
}
use omp_lazy.Continuation.Event.{event_version}

abbrev pub is_v1 : RunVersion → Bool
is_v1 RunVersion.v1 = true
is_v1 (RunVersion.v2 packet_hash expected_head) = false

-- The mutation of a decision is accepted by the run that it is about, or the decision settles a
-- version 1 run; and only a settlement is scoped to a task.
abbrev pub accepts : (Run → ReceiptAuthority) → ContinuationDecision → Bool
accepts f quiet = true
accepts f (continue run context m) =
    not (has_reached_no_progress_bound run)
    && not (is_task_scoped m)
    && is_some (control_run run (event_version run.version none) (some (f run)) m)
accepts f (stuck run m) =
    not (is_task_scoped m)
    && is_some (control_run run (event_version run.version none) (some (f run)) m)
accepts f (settled run g m) =
    is_v1 run.version
    || is_task_scoped m
      && is_some (control_run run (event_version run.version (some g)) (some (f run)) m)

abbrev pub accepts_each : (Run → ReceiptAuthority) → Option ContinuationDecision → Bool
accepts_each f none = true
accepts_each f (some d) = accepts f d

pub next_attempt-accepted :
    (f : Run → ReceiptAuthority) (leaf_id : String) (run : Run) (context : ContinuationContext)
    → (run.continuation.last_processed_leaf_id == some leaf_id) ≡ false
    → accepts f (next_attempt leaf_id run context) ≡ true
unfolding control_run reduce_runtime_progress attempt_continuation stop_continuation
next_attempt-accepted f leaf_id run context h = ground (arith, beq_refl run.progress_revision)

pub exhaustion-accepted :
    (f : Run → ReceiptAuthority) (run : Run) → accepts_each f (exhaustion run (f run)) ≡ true
unfolding control_run reduce_runtime_progress terminal_run
exhaustion-accepted f run = elim (Option-cases (exhausted_task_id run (f run))) [
  | inl e ↦ rw e refl
  | inr (t, e) ↦ rw e (ground (arith, e, beq_refl t, beq_refl (f run).task_generation))
]

same_strings_refl : (xs : List String) → same_strings xs xs ≡ true
same_strings_refl [] = refl
same_strings_refl (x ∷ xs) = ground (arith, beq_refl x, same_strings_refl xs)

pub completion-accepted :
    (f : Run → ReceiptAuthority) (run : Run) (p : StartWorkPayload)
    (r : Result StartWorkBlock String)
    → run.payload ≡ Payload.start_work p
    → accepts_each f (completion run p (f run) r) ≡ true
unfolding control_run reduce_runtime_progress terminal_run
completion-accepted f run p (err complete) s =
    elim (Option-cases (start_completion_acceptance_ids run p (f run))) [
      | inl e ↦ rw e refl
      | inr (ids, e) ↦
          rw (e, s) (ground (arith, e, s, same_strings_refl ids, beq_refl (f run).task_generation))
    ]
completion-accepted f run p (err not_active) s = refl
completion-accepted f run p (err plan_identity_mismatch) s = refl
completion-accepted f run p (ok t) s = refl

module _ {ℓ} {A : Type ℓ} (test : A → Bool) where
  find_last-holds : (xs : List A) (x : A) → find_last test xs ≡ some x → test x ≡ true
  find_last-holds [] x e = absurd (ground arith)
  find_last-holds (y ∷ ys) x e = elim (Option-cases (find_last test ys)) [
    | inl none_last ↦ ground arith
    | inr (z, last) ↦ find_last-holds ys x (ground arith)
  ]

  find-holds : (xs : List A) (x : A) → find test xs ≡ some x → test x ≡ true
  find-holds [] x e = absurd (ground arith)
  find-holds (y ∷ ys) x e = ground (arith, find-holds ys x)

current_acceptance-generation :
    (run : Run) (a : ReceiptAuthority) (t : String) (accepted : AcceptanceEvent)
    → current_acceptance run a t ≡ some accepted
    → (accepted.task_generation == a.task_generation) ≡ true
unfolding current_acceptance
current_acceptance-generation run a t accepted e =
    ground (arith, find_last-holds {0} (is_current run a t) a.accepted accepted)

pub next_task-accepted :
    (f : Run → ReceiptAuthority) (leaf_id : String) (run : Run) (p : StartWorkPayload)
    (r : Result StartWorkBlock String)
    → run.payload ≡ Payload.start_work p
    → (run.continuation.last_processed_leaf_id == some leaf_id) ≡ false
    → accepts_each f (next_task leaf_id run (f run) r) ≡ true
unfolding control_run reduce_runtime_progress accept_task_evidence
next_task-accepted f leaf_id run p (err code) s h = refl
next_task-accepted f leaf_id run p (ok t) s h =
    elim (Option-cases (current_acceptance run (f run) t)) [
      | inl e ↦ rw e (next_attempt-accepted f leaf_id run (start_work_context t) h)
      | inr (accepted, e) ↦
          let same = current_acceptance-generation run (f run) t accepted e in
          rw (e, s) (ground (arith, e, s, same, beq_refl accepted.idempotency_key))
    ]

module _ {ℓ} {A : Type ℓ} (test keeps : A → Bool) where
  pub find-all :
      (xs : List A) (x : A) → all keeps xs ≡ true → find test xs ≡ some x → keeps x ≡ true
  find-all [] x h e = absurd (ground arith)
  find-all (y ∷ ys) x h e = ground (arith, find-all ys x)

module _ (test : Criterion → Bool) where
  find-fresh :
      (k : String) (cs : List Criterion) (c : Criterion)
      → any (λ y. y == k) (map criterion_id cs) ≡ false
      → find test cs ≡ some c
      → (c.id == k) ≡ false
  find-fresh k [] c n e = absurd (ground arith)
  find-fresh k (x ∷ xs) c n e = ground (arith, find-fresh k xs c)

  -- With distinct identifiers, a criterion that is found by a test is found by its identifier.
  find-by_id :
      (cs : List Criterion) (c : Criterion)
      → no_duplicates (map criterion_id cs) ≡ true
      → find test cs ≡ some c
      → find (criterion_has_id c.id) cs ≡ some c
  find-by_id [] c d e = absurd (ground arith)
  find-by_id (x ∷ xs) c d e =
      ground (arith, find-by_id xs c, find-fresh x.id xs c, eq_iff x.id c.id, eq_iff c.id x.id)

next_criterion-accepted :
    (f : Run → ReceiptAuthority) (leaf_id : String) (run : Run) (p : UlwLoopPayload) (goal : Goal)
    (r : Option Criterion)
    → run.payload ≡ Payload.ulw_loop p
    → (run.continuation.last_processed_leaf_id == some leaf_id) ≡ false
    → find (has_id goal.id) p.goals ≡ some goal
    → no_duplicates (map criterion_id goal.criteria) ≡ true
    → find (λ c. not (is_pass c.status)) goal.criteria ≡ r
    → accepts f (next_criterion leaf_id run (f run) goal r) ≡ true
unfolding control_run reduce_runtime_progress settle_criterion settle_bound
next_criterion-accepted f leaf_id run p goal none s h g d q =
    next_attempt-accepted f leaf_id run (ulw_loop_context goal.id none) h
next_criterion-accepted f leaf_id run p goal (some c) s h g d q =
    elim (Option-cases (current_acceptance run (f run) c.id)) [
      | inl e ↦ rw e (next_attempt-accepted f leaf_id run (ulw_loop_context goal.id (some c.id)) h)
      | inr (accepted, e) ↦
          let same = current_acceptance-generation run (f run) c.id accepted e in
          let by_id = find-by_id (λ c. not (is_pass c.status)) goal.criteria c d q in
          let open_still = find-holds {0} (λ c. not (is_pass c.status)) goal.criteria c q in
          rw (e, s)
            (ground (
              arith,
              e,
              s,
              same,
              g,
              by_id,
              open_still,
              beq_refl accepted.idempotency_key,
              beq_refl accepted.run_revision,
              beq_refl accepted.capture_commit,
            ))
    ]

pub loop_goal-accepted :
    (f : Run → ReceiptAuthority) (leaf_id : String) (run : Run) (p : UlwLoopPayload)
    (goal_id : String) (r : Option Goal)
    → run.payload ≡ Payload.ulw_loop p
    → (run.continuation.last_processed_leaf_id == some leaf_id) ≡ false
    → all goal_schema p.goals ≡ true
    → find (has_id goal_id) p.goals ≡ r
    → accepts f (loop_goal leaf_id run (f run) r) ≡ true
loop_goal-accepted f leaf_id run p goal_id none s h d g = refl
loop_goal-accepted f leaf_id run p goal_id (some goal) s h d g =
    let named : goal.id ≡ goal_id =
      (eq_iff _ _).0 (find-holds {0} (has_id goal_id) p.goals goal g) in
    let fine = find-all {0} (has_id goal_id) goal_schema p.goals goal d g in
    let distinct : no_duplicates (map criterion_id goal.criteria) ≡ true = ground (arith, fine) in
    let next =
      next_criterion-accepted f leaf_id run p goal _ s h
        (subst (λ k. find (has_id k) p.goals ≡ some goal) (sym named) g) distinct refl in
    ground (arith, next)
