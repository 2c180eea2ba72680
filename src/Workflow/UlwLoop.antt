-- ===== src/Workflow/UlwLoop.antt =====
-- src/workflows/ulw-loop-contract.ts: the budgets of a ULW loop.
pub mod Budgets
use omp_lazy.Prelude.{
  ℕ, ◌+◌, String, Bool, true, false, not, ◌&&◌, ◌||◌, List, some, map, ◌==◌, string_eq, option_eq,
  leb, if◌then◌else◌, all, any, find,
}
use omp_lazy.Prelude.Result.{Result, ok, stop_if, or_err, ◌>>◌, ◌>>=◌}
use omp_lazy.State.Domain.{
  Run, Payload, UlwLoopPayload, UlwLoopStatus, Goal, Criterion, CriterionStatus,
}

abbrev pub max_cycles : ℕ
max_cycles = 5

abbrev pub max_identical_failures : ℕ
max_identical_failures = 3

pub data UlwLoopBlock : Type 0 where
  not_active unmet_criteria no_active_goal budget_exhausted : UlwLoopBlock

abbrev pub is_pass : CriterionStatus → Bool
is_pass CriterionStatus.pass = true
is_pass _ = false

abbrev is_completed : UlwLoopStatus → Bool
is_completed UlwLoopStatus.completed = true
is_completed _ = false

abbrev is_active : UlwLoopStatus → Bool
is_active UlwLoopStatus.active = true
is_active _ = false

abbrev pub criteria_pass : Goal → Bool
criteria_pass goal = all (λ c. is_pass c.status) goal.criteria

abbrev pub has_id : String → Goal → Bool
has_id id goal = goal.id == id

abbrev pub criterion_has_id : String → Criterion → Bool
criterion_has_id id criterion = criterion.id == id

unfoldable pub evaluate_ulw_continuation : UlwLoopPayload → Result UlwLoopBlock String
evaluate_ulw_continuation p = do
  stop_if (is_completed p.status && not (all criteria_pass p.goals)) unmet_criteria
  stop_if (not (is_active p.status)) not_active
  goal ← or_err (find (λ g. some g.id == p.active_goal_id) p.goals) no_active_goal
  stop_if
      (leb max_cycles goal.cycle_count
        || any (λ c. leb max_identical_failures c.identical_failure_count) goal.criteria)
      budget_exhausted
  ok goal.id

pub data CycleError : Type 0 where
  cycle_limit goal_missing : CycleError

abbrev pub advance_cycle : String → Goal → Goal
advance_cycle goal_id goal =
    if has_id goal_id goal then record goal { cycle_count = goal.cycle_count + 1 } else goal

abbrev pub with_goals : Run → UlwLoopPayload → List Goal → Run
with_goals run p goals = record run {
  revision = run.revision + 1;
  payload = Payload.ulw_loop (record p { goals = goals });
}

unfoldable pub start_goal_cycle : Run → UlwLoopPayload → String → Result CycleError Run
start_goal_cycle run p goal_id = do
  goal ← or_err (find (has_id goal_id) p.goals) goal_missing
  stop_if (leb max_cycles goal.cycle_count) cycle_limit
  ok (with_goals run p (map (advance_cycle goal_id) p.goals))

pub data FailureError : Type 0 where
  identical_failure_limit goal_missing criterion_missing : FailureError

abbrev pub is_repeated : String → Criterion → Bool
is_repeated fingerprint c = c.identical_failure_fingerprint == some fingerprint

-- One failure on record for a criterion; `repeated` was read from the criterion first found.
abbrev pub fail_criterion : String → String → Bool → Criterion → Criterion
fail_criterion criterion_id fingerprint repeated c =
    if criterion_has_id criterion_id c
    then record c {
      status = CriterionStatus.fail;
      identical_failure_fingerprint = some fingerprint;
      identical_failure_count = if repeated then c.identical_failure_count + 1 else 1;
    }
    else c

abbrev pub replace_criteria : String → List Criterion → Goal → Goal
replace_criteria goal_id criteria goal =
    if has_id goal_id goal then record goal { criteria = criteria } else goal

unfoldable pub record_criterion_failure :
    Run → UlwLoopPayload → (goal_id criterion_id fingerprint : String) → Result FailureError Run
record_criterion_failure run p goal_id criterion_id fingerprint = do
  goal ← or_err (find (has_id goal_id) p.goals) goal_missing
  criterion ← or_err (find (criterion_has_id criterion_id) goal.criteria) criterion_missing
  let repeated = is_repeated fingerprint criterion
  stop_if (repeated && leb max_identical_failures criterion.identical_failure_count)
      identical_failure_limit
  let criteria = map (fail_criterion criterion_id fingerprint repeated) goal.criteria
  ok (with_goals run p (map (replace_criteria goal_id criteria) p.goals))
