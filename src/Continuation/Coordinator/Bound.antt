-- ===== src/Continuation/Coordinator/Bound.antt =====
-- continuation-coordinator.ts and runtime-progress-transition.ts: no third attempt without progress.
use omp_lazy.Prelude.{ℕ, ◌≡◌, ◌≢◌, String, true, some, arith, all, nat_beq_iff, subst}
use omp_lazy.State.Domain.{Run, StateMutation}
use omp_lazy.State.Codec.{run_schema}
use omp_lazy.State.Progress.{attempt_continuation}
use omp_lazy.Continuation.Coordinator.{
  ContinuationSnapshot, ContinuationContext, continue, has_reached_no_progress_bound, authority_of,
  decide_continuation,
}
use omp_lazy.Continuation.Coordinator.Acceptance.{accepts}
use omp_lazy.Continuation.Coordinator.Decisions.{decide_continuation-accepted}

two_attempts-bound :
    (run next last : Run) (leaf_1 leaf_2 : String) (progress_1 progress_2 : ℕ)
    → attempt_continuation run leaf_1 progress_1 ≡ some next
    → attempt_continuation next leaf_2 progress_2 ≡ some last
    → has_reached_no_progress_bound last ≡ true
unfolding attempt_continuation
two_attempts-bound run next last leaf_1 leaf_2 progress_1 progress_2 a b =
    ground (arith, nat_beq_iff run.progress_revision run.progress_revision)

-- When two attempts of a run were accepted one after the other, with no change between them, then
-- no snapshot whose runs satisfy the run schema makes the coordinator continue that run.
pub two_attempts-stop :
    (run next last : Run) (leaf_1 leaf_2 : String) (progress_1 progress_2 : ℕ)
    (session_id leaf_id : String) (snapshot : ContinuationSnapshot) (context : ContinuationContext)
    (m : StateMutation)
    → attempt_continuation run leaf_1 progress_1 ≡ some next
    → attempt_continuation next leaf_2 progress_2 ≡ some last
    → all run_schema snapshot.runs ≡ true
    → decide_continuation session_id leaf_id snapshot ≢ continue last context m
two_attempts-stop run next last leaf_1 leaf_2 progress_1 progress_2 session_id leaf_id snapshot
      context m a b h e =
    let bound = two_attempts-bound run next last leaf_1 leaf_2 progress_1 progress_2 a b in
    let accepted =
      subst (λ d. accepts (authority_of snapshot) d ≡ true) e
        (decide_continuation-accepted leaf_id snapshot session_id h) in
    ground (arith, bound, accepted)
