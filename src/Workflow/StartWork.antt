-- ===== src/Workflow/StartWork.antt =====
-- src/workflows/start-work-contract.ts: whether a start-work run has a next task.
use omp_lazy.Prelude.{String, Bool, true, false, not, ◌&&◌, ◌||◌, List, [], ◌∷◌, ◌==◌, string_eq}
use omp_lazy.Prelude.Result.{Result, ok, err, stop_if, ◌>>◌}
use omp_lazy.State.Domain.{StartWorkPayload, StartWorkStatus}
use omp_lazy.Workflow.Control.{PlanSnapshot}

pub data StartWorkBlock : Type 0 where
  not_active plan_identity_mismatch complete : StartWorkBlock

-- Equal length, and equal texts at each place.
abbrev pub same_strings : List String → List String → Bool
same_strings [] [] = true
same_strings (x ∷ xs) (y ∷ ys) = x == y && same_strings xs ys
same_strings _ _ = false

abbrev is_active : StartWorkStatus → Bool
is_active StartWorkStatus.active = true
is_active _ = false

abbrev first_task : List String → Result StartWorkBlock String
first_task [] = err complete
first_task (t ∷ ts) = ok t

unfoldable pub evaluate_start_work_continuation :
    StartWorkPayload → PlanSnapshot → Result StartWorkBlock String
evaluate_start_work_continuation p observed = do
  stop_if (not (is_active p.status)) not_active
  stop_if
      (not (p.plan.task_fingerprint == observed.fingerprint)
        || not (same_strings p.plan.task_ids observed.task_ids))
      plan_identity_mismatch
  first_task observed.remaining_task_ids
