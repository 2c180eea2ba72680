-- ===== src/Scenarios/Decisions.antt =====
-- What the coordinator decides, and the meters of a session and of a task.
use omp_lazy.Prelude.{
  ◌⊎◌, ℕ, zero, suc, ◌+◌, ◌++◌, Option, ◌≡◌, ◌≢◌, ◌-◌, ◌≤◌, refl, String, true, false, List, [],
  ◌∷◌, none, some, all, any, length,
}
use omp_lazy.Prelude.Result.{is_ok}
use omp_lazy.State.Domain.{
  Run, RunVersion, StartWorkStatus, WorkflowKind, IndexVersion, IndexStatusHint, StateMutation,
}
use omp_lazy.State.Receipts.{current_acceptance, exhausted_task_id, start_completion_acceptance_ids}
use omp_lazy.State.Index.{validate_active_index, hint_matches, status_hint}
use omp_lazy.State.Progress.{attempt_continuation}
use omp_lazy.State.Transition.{prepare_transition}
use omp_lazy.Workflow.StartWork.{evaluate_start_work_continuation}
use omp_lazy.Continuation.Coordinator.{
  ContinuationSnapshot, start_work_context, continue, decide_continuation, resolve_workflow,
  authority_of,
}
use omp_lazy.Continuation.Event.{Decided, decided, continuation_event}
use omp_lazy.Continuation.Coordinator.Commits.{decide_continuation-commits}
use omp_lazy.Continuation.Coordinator.Bound.{two_attempts-stop}
use omp_lazy.Continuation.Budget.{max_idle_continuations, Edge}
use omp_lazy.Continuation.Budget.Saturation.{
  emitted, spent, least, lost, emitted_le, emitted-saturates,
}
use omp_lazy.Contracts.TaskPacket.{fast, deep, tier_budgets}
use omp_lazy.Contracts.QualityScore.{
  QualityPredicate, outcome, scope_safety, evidence_cleanup, bounded_process, QualityScore,
  quality_score_schema, holds, predicates_schema, calculate_quality_score,
}
use omp_lazy.Contracts.QualityScore.Bounds.{calculate_quality_score-range}
use omp_lazy.Contracts.RetrievalBudget.{
  RetrievalResult, delivered, empty, create_retrieval_budget, retrieval_budget_schema,
}
use omp_lazy.Contracts.RetrievalBudget.Limits.{meter_all, meter_all-limits}
use omp_lazy.Workflow.Escalation.{
  FailureFingerprint, transport_transient, test_failure, initial_worker_route, same_role,
  tier_roles,
}
use omp_lazy.Workflow.Escalation.Attempts.{route_all, is_blocked, route_all-ends}
use omp_lazy.Scenarios.Records.{start_run}

abbrev active_run : Run
active_run = start_run (RunVersion.v2 none (some "head")) StartWorkStatus.active

-- The state with one run, the first task of whose plan is next.
abbrev snapshot_of : Run → ContinuationSnapshot
snapshot_of run = record {
  index = record {
    version = IndexVersion.v2 1;
    revision = 1;
    entries =
        record {
          workflow = WorkflowKind.start_work;
          session_id = "s1";
          run_id = "r1";
          owner_epoch = 1;
          run_revision = run.revision;
          transaction_revision = 1;
          status_hint = IndexStatusHint.active;
        }
        ∷ [];
  };
  runs = run ∷ [];
  plans =
      record {
        run_id = "r1";
        snapshot = record {
          task_ids = "T1" ∷ "T2" ∷ [];
          remaining_task_ids = "T1" ∷ "T2" ∷ [];
          fingerprint = "f1";
        };
      }
      ∷ [];
  authorities = [];
}

abbrev snapshot : ContinuationSnapshot
snapshot = snapshot_of active_run

abbrev decision : Decided
decision = record {
  run = active_run;
  mutation = StateMutation.continuation_attempted "leaf" 0;
  task_generation = none;
}

decides : decided (decide_continuation "s1" "leaf" snapshot) ≡ some decision
unfolding decide_continuation resolve_workflow validate_active_index hint_matches status_hint
    authority_of current_acceptance exhausted_task_id start_completion_acceptance_ids
    evaluate_start_work_continuation
decides = refl

decide_continuation-commits_example :
    is_ok (
      prepare_transition snapshot.index
        (some decision.run)
        (continuation_event snapshot.index decision "e1" "t1")
        (some (authority_of snapshot decision.run)))
    ≡ true
decide_continuation-commits_example =
    decide_continuation-commits "s1" "leaf" "e1" "t1" snapshot decision refl decides refl

-- The run behind one and behind two attempts.
abbrev attempted : ℕ → String → Run
attempted count leaf_id = record active_run {
  revision = suc count;
  continuation = record {
    last_processed_leaf_id = some leaf_id;
    progress_revision_seen = 0;
    no_progress_attempts = count;
    stuck = false;
  };
}

first_attempt : attempt_continuation active_run "leaf" 0 ≡ some (attempted 1 "leaf")
unfolding attempt_continuation
first_attempt = refl

second_attempt : attempt_continuation (attempted 1 "leaf") "twig" 0 ≡ some (attempted 2 "twig")
unfolding attempt_continuation
second_attempt = refl

two_attempts-stop_example :
    decide_continuation "s1" "stem" (snapshot_of (attempted 2 "twig"))
    ≢ continue
        (attempted 2 "twig")
        (start_work_context "T1")
        (StateMutation.continuation_attempted "stem" 0)
two_attempts-stop_example =
    two_attempts-stop active_run (attempted 1 "leaf") (attempted 2 "twig") "leaf" "twig" 0 0 "s1"
      "stem" (snapshot_of (attempted 2 "twig")) (start_work_context "T1")
      (StateMutation.continuation_attempted "stem" 0) first_attempt second_attempt refl

-- An idle edge on which nothing goes wrong, and one on which the write of the counter fails.
abbrev calm_edge : Edge
calm_edge = record { readable = true; in_time = true; written = true; delivered = true }

abbrev unkept_edge : Edge
unkept_edge = record calm_edge { written = false }

abbrev times : ℕ → List Edge → List Edge
times zero edges = []
times (suc n) edges = edges ++ times n edges

emitted-saturates_example :
    emitted "s1" "r1" 4 none (times 20 (calm_edge ∷ []))
    ≡ least (length (times 20 (calm_edge ∷ []))) (max_idle_continuations - spent "s1" "r1" 4 none)
emitted-saturates_example = emitted-saturates "s1" "r1" 4 none (times 20 (calm_edge ∷ [])) refl

emitted_le_example :
    emitted "s1" "r1" 4 none (times 10 (unkept_edge ∷ calm_edge ∷ []))
    ≤ (max_idle_continuations - spent "s1" "r1" 4 none)
      + lost (times 10 (unkept_edge ∷ calm_edge ∷ []))
emitted_le_example = emitted_le "s1" "r1" 4 none (times 10 (unkept_edge ∷ calm_edge ∷ [])) refl

abbrev failures : List FailureFingerprint
failures =
    transport_transient ∷ transport_transient ∷ test_failure ∷ test_failure ∷ test_failure
    ∷ test_failure ∷ []

route_all-ends_example :
    ((route_all (initial_worker_route deep) failures).semantic_attempt ≤ 3)
    × (any
          (same_role (route_all (initial_worker_route deep) failures).role)
          (tier_roles (route_all (initial_worker_route deep) failures).tier)
        ≡ true)
    × ((length failures ≤ 5)
        ⊎ (is_blocked (route_all (initial_worker_route deep) failures).status ≡ true))
route_all-ends_example = route_all-ends deep failures

-- A text of nine characters, each of one byte.
abbrev nine : String → ℕ
nine text = 9

abbrev results : List (Option RetrievalResult)
results = some (delivered "retrieved") ∷ some empty ∷ none ∷ some empty ∷ some empty ∷ []

meter_all-limits_example :
    ((meter_all nine nine (create_retrieval_budget fast) results).general_calls
      ≤ (tier_budgets fast).max_calls)
    × ((meter_all nine nine (create_retrieval_budget fast) results).retrieval_bytes
        ≤ (tier_budgets fast).max_retrieval_bytes)
    × (retrieval_budget_schema (meter_all nine nine (create_retrieval_budget fast) results) ≡ true)
meter_all-limits_example = meter_all-limits nine nine fast results

abbrev predicates : List QualityPredicate
predicates =
    record { id = outcome; passed = true; hard = true }
    ∷ record { id = scope_safety; passed = true; hard = true }
    ∷ record { id = evidence_cleanup; passed = false; hard = false }
    ∷ record { id = bounded_process; passed = true; hard = false }
    ∷ []

abbrev ninety : QualityScore
ninety = record { score = 90; hard_gate_passed = true }

scores : calculate_quality_score predicates ≡ some ninety
unfolding calculate_quality_score predicates_schema
scores = refl

calculate_quality_score-range_example :
    (quality_score_schema ninety ≡ true)
    × (ninety.hard_gate_passed ≡ all holds predicates)
    × ((ninety.hard_gate_passed ≡ false) ⊎ (80 ≤ ninety.score))
calculate_quality_score-range_example = calculate_quality_score-range predicates ninety scores
