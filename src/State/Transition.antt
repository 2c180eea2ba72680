-- ===== src/State/Transition.antt =====
-- src/state/state-transition.ts: one event against the index and the run that it names.
pub mod Effects
pub mod Indexing
pub mod Concurrency
pub mod Schema
pub mod Reshaping
use omp_lazy.Prelude.{
  ℕ, ◌+◌, String, Bool, true, false, not, ◌&&◌, ◌||◌, List, [], ◌∷◌, ◌++◌, Option, none, some, map,
  ◌==◌, string_eq, nat_eq, option_eq, if◌then◌else◌, is_some, get_or, any, filter,
}
use omp_lazy.Prelude.Result.{Result, ok, stop_if, or_err, to_option, ◌>>◌, ◌>>=◌}
use omp_lazy.State.Domain.{
  Run, Payload, UlwLoopPayload, Goal, Criterion, CriterionStatus, workflow, Control, StateMutation,
  SteeredCriterion, EventVersion, StateEvent, ActiveIndexEntry, ActiveIndex, IndexStatusHint,
}
use omp_lazy.State.Index.{same_workflow, status_hint}
use omp_lazy.State.Receipts.{ReceiptAuthority, bound_head}
use omp_lazy.State.Progress.{reduce_runtime_progress}
use omp_lazy.Workflow.Control.{PlanSnapshot, ControlKind, reduce_workflow_control}
use omp_lazy.Workflow.UlwLoop.{has_id, criterion_has_id, start_goal_cycle, record_criterion_failure}

pub data TransitionErrorCode : Type 0 where
  index_revision_conflict run_revision_conflict owner_conflict epoch_conflict : TransitionErrorCode
  stale_revision owner_mismatch owner_epoch_mismatch stale_head : TransitionErrorCode
  task_scope_mismatch invalid_mutation : TransitionErrorCode

abbrev pub control_kind : Control → ControlKind
control_kind Control.pause = ControlKind.pause
control_kind Control.resume = ControlKind.resume
control_kind Control.cancel = ControlKind.cancel

-- A command that quotes the run's own epoch.
abbrev pub control_as : Run → ControlKind → String → Option Run
control_as run kind session_id = to_option (
    reduce_workflow_control run
      (record { kind = kind; session_id = session_id; expected_epoch = run.owner.epoch }))

abbrev pub reconcile_run : Run → Payload → PlanSnapshot → Option Run
reconcile_run run (Payload.ulw_loop p) plan = none
reconcile_run run (Payload.start_work p) plan =
    control_as run (ControlKind.reconcile_plan plan) run.owner.session_id

-- A criterion as `workflow_steered` adds it.
abbrev pub steered : SteeredCriterion → Criterion
steered c = record {
  id = c.id;
  scenario = some c.scenario;
  observable = some c.observable;
  evidence_logical_id = some c.evidence_logical_id;
  status = CriterionStatus.pending;
  identical_failure_fingerprint = none;
  identical_failure_count = 0;
  evidence_ref = none;
  capture_revision = none;
  capture_commit = none;
}

abbrev pub add_criteria : String → List SteeredCriterion → Goal → Goal
add_criteria goal_id criteria goal =
    if has_id goal_id goal
    then record goal { criteria = goal.criteria ++ map steered criteria }
    else goal

abbrev pub has_criterion : List Goal → String → Bool
has_criterion goals id = any (λ g. any (criterion_has_id id) g.criteria) goals

abbrev keep_annotation : Option String → Option String → Option String
keep_annotation none old = old
keep_annotation (some new) old = some new

unfoldable pub steer_run : Run → Payload → List SteeredCriterion → Option String → Option Run
steer_run run (Payload.start_work p) criteria annotation = none
steer_run run (Payload.ulw_loop p) criteria annotation = elim p.active_goal_id [
  | none ↦ none
  | some goal_id ↦
      if any (λ c. has_criterion p.goals c.id) criteria
      then none
      else some (record run {
        revision = run.revision + 1;
        payload = Payload.ulw_loop (record p {
          annotation = keep_annotation annotation p.annotation;
          goals = map (add_criteria goal_id criteria) p.goals;
        });
      })
]

abbrev pub is_legacy : EventVersion → Bool
is_legacy EventVersion.v1 = false
is_legacy (EventVersion.v2 scope) = scope.legacy_head_unbound

-- A loop mutation, which an event that was migrated without a head leaves out.
abbrev pub loop_run : Bool → Run → Payload → (UlwLoopPayload → Option Run) → Option Run
loop_run true run payload f = some run
loop_run false run (Payload.start_work p) f = none
loop_run false run (Payload.ulw_loop p) f = f p

unfoldable pub control_run :
    Run → EventVersion → Option ReceiptAuthority → StateMutation → Option Run
control_run run version authority (StateMutation.run_created new) = none
control_run run version authority (StateMutation.workflow_controlled control) =
    control_as run (control_kind control) run.owner.session_id
control_run run version authority (StateMutation.owner_adopted session_id) =
    control_as run ControlKind.adopt session_id
control_run run version authority (StateMutation.plan_reconciled ids remaining fingerprint) =
    reconcile_run run run.payload (record {
      task_ids = ids;
      remaining_task_ids = get_or remaining ids;
      fingerprint = fingerprint;
    })
control_run run version authority (StateMutation.workflow_steered criteria annotation) =
    steer_run run run.payload criteria annotation
control_run run version authority (StateMutation.goal_cycle_started goal_id) =
    loop_run (is_legacy version) run run.payload λ p. to_option (start_goal_cycle run p goal_id)
control_run run version authority (StateMutation.criterion_failure_recorded goal criterion print) =
    loop_run (is_legacy version) run run.payload
      λ p. to_option (record_criterion_failure run p goal criterion print)
control_run run version authority mutation = reduce_runtime_progress run version authority mutation

abbrev pub is_entry_of : String → ActiveIndexEntry → Bool
is_entry_of run_id entry = entry.run_id == run_id

abbrev pub entry_of : Run → ℕ → IndexStatusHint → ActiveIndexEntry
entry_of run sequence hint = record {
  workflow = workflow run;
  session_id = run.owner.session_id;
  run_id = run.run_id;
  owner_epoch = run.owner.epoch;
  run_revision = run.revision;
  transaction_revision = sequence;
  status_hint = hint;
}

abbrev pub derived_entries :
    List ActiveIndexEntry → Run → ℕ → Option IndexStatusHint → List ActiveIndexEntry
derived_entries retained run sequence none = retained
derived_entries retained run sequence (some hint) = retained ++ entry_of run sequence hint ∷ []

unfoldable pub derive_index : ActiveIndex → Run → ℕ → ActiveIndex
derive_index index run sequence =
    let retained = filter (λ e. not (is_entry_of run.run_id e)) index.entries in
    record {
      version = index.version;
      revision = sequence;
      entries = derived_entries retained run sequence (status_hint run);
    }

-- Version 1 events and version 2 events name their conflicts differently.
abbrev pub by_version :
    EventVersion → TransitionErrorCode → TransitionErrorCode → TransitionErrorCode
by_version EventVersion.v1 old new = old
by_version (EventVersion.v2 scope) old new = new

abbrev pub is_task_scoped : StateMutation → Bool
is_task_scoped (StateMutation.plan_reconciled ids remaining fingerprint) = true
is_task_scoped (StateMutation.workflow_steered criteria annotation) = true
is_task_scoped (StateMutation.criterion_settled m) = true
is_task_scoped (StateMutation.task_evidence_accepted t a) = true
is_task_scoped (StateMutation.workflow_terminal s ids t) = true
is_task_scoped (StateMutation.goal_cycle_started g) = true
is_task_scoped (StateMutation.criterion_failure_recorded g c f) = true
is_task_scoped _ = false

abbrev same_bool : Bool → Bool → Bool
same_bool true b = b
same_bool false b = not b

abbrev pub check_scope : EventVersion → Run → StateMutation → Result TransitionErrorCode (Unit {0})
check_scope EventVersion.v1 current mutation = ok tt
check_scope (EventVersion.v2 scope) current mutation = do
  stop_if (is_some scope.expected_head && not (bound_head current.version == scope.expected_head))
      stale_head
  stop_if (not (same_bool (is_task_scoped mutation) (is_some scope.task_generation)))
      task_scope_mismatch

-- The checks of a mutation of an existing run.
unfoldable pub next_run :
    Run → StateEvent → Option ReceiptAuthority → Result TransitionErrorCode Run
next_run current event authority = do
  stop_if (not (some current.revision == event.expected.run_revision))
      (by_version event.version run_revision_conflict stale_revision)
  stop_if (not (some current.owner.session_id == event.expected.owner_session_id))
      (by_version event.version owner_conflict owner_mismatch)
  stop_if (not (some current.owner.epoch == event.expected.owner_epoch))
      (by_version event.version epoch_conflict owner_epoch_mismatch)
  check_scope event.version current event.mutation
  or_err (control_run current event.version authority event.mutation) invalid_mutation

-- The two ways to the next run: a creation, or a mutation of the current run.
unfoldable pub prepared_run :
    Option Run
    → StateEvent
    → Option ReceiptAuthority
    → StateMutation
    → Result TransitionErrorCode Run
prepared_run current event authority (StateMutation.run_created run) = do
  stop_if (is_some current || is_some event.expected.run_revision) run_revision_conflict
  stop_if (is_some event.expected.owner_session_id || is_some event.expected.owner_epoch)
      owner_conflict
  ok run
prepared_run current event authority mutation = do
  run ← or_err current run_revision_conflict
  next_run run event authority

pub record PreparedTransition : Type 0 where
  pub run : Run
  pub index : ActiveIndex

unfoldable pub prepare_transition :
    ActiveIndex
    → Option Run
    → StateEvent
    → Option ReceiptAuthority
    → Result TransitionErrorCode PreparedTransition
prepare_transition index current event authority = do
  stop_if (not (event.expected.index_revision == index.revision))
      (by_version event.version index_revision_conflict stale_revision)
  stop_if (not (event.sequence == index.revision + 1)) invalid_mutation
  next ← prepared_run current event authority event.mutation
  stop_if (not (next.run_id == event.run_id) || not (same_workflow (workflow next) event.workflow))
      invalid_mutation
  let published = record next { transaction_revision = event.sequence }
  ok (record { run = published; index = derive_index index published event.sequence })
