-- ===== src/State/Texts/Forms.antt =====
-- src/state/codec-schemas.ts: what the schemas demand of each text, once it is trimmed.
use omp_lazy.Prelude.{
  String, Bool, true, not, ◌&&◌, List, Option, none, some, all, ◌==◌, string_eq, leb,
}
use omp_lazy.State.Domain.{
  Run, RunVersion, Plan, Criterion, Goal, Payload, ActiveIndexEntry, ActiveIndex, SteeredCriterion,
  StateMutation, EventVersion, StateEvent,
}
use omp_lazy.State.Texts.{Texts}

-- `nonempty` of a trimmed text
abbrev given : String → Bool
given text = not (text == "")

abbrev holds_if : (String → Bool) → Option String → Bool
holds_if test none = true
holds_if test (some text) = test text

module _ (texts : Texts) where
  abbrev plan_texts : Plan → Bool
  plan_texts plan =
      texts.is_uuid plan.plan_id
      && given plan.canonical_path
      && given plan.display_path
      && given plan.allowed_root
      && given plan.allowed_root_display
      && texts.is_hash plan.task_fingerprint
      && all given plan.task_ids

  abbrev criterion_texts : Criterion → Bool
  criterion_texts c =
      given c.id
      && holds_if given c.scenario
      && holds_if given c.observable
      && holds_if given c.evidence_logical_id
      && holds_if given c.identical_failure_fingerprint
      && holds_if given c.evidence_ref
      && holds_if given c.capture_commit

  abbrev goal_texts : Goal → Bool
  goal_texts goal = given goal.id && all criterion_texts goal.criteria

  -- `z.string().max(512)`
  abbrev annotation_text : String → Bool
  annotation_text text = leb (texts.size text) 512

  abbrev payload_texts : Payload → Bool
  payload_texts (Payload.start_work p) = plan_texts p.plan
  payload_texts (Payload.ulw_loop p) =
      holds_if given p.objective
      && holds_if annotation_text p.annotation
      && holds_if given p.active_goal_id
      && all goal_texts p.goals

  abbrev version_texts : RunVersion → Bool
  version_texts RunVersion.v1 = true
  version_texts (RunVersion.v2 packet_hash expected_head) =
      holds_if texts.is_hash packet_hash && holds_if given expected_head

  abbrev pub run_texts : Run → Bool
  run_texts run =
      version_texts run.version
      && texts.is_uuid run.run_id
      && given run.owner.session_id
      && holds_if given run.continuation.last_processed_leaf_id
      && texts.is_timestamp run.created_at
      && texts.is_timestamp run.updated_at
      && payload_texts run.payload

  abbrev entry_texts : ActiveIndexEntry → Bool
  entry_texts entry = given entry.session_id && texts.is_uuid entry.run_id

  abbrev pub index_texts : ActiveIndex → Bool
  index_texts index = all entry_texts index.entries

  abbrev steered_texts : SteeredCriterion → Bool
  steered_texts c =
      given c.id && given c.scenario && given c.observable && given c.evidence_logical_id

  abbrev all_given_if : Option (List String) → Bool
  all_given_if none = true
  all_given_if (some values) = all given values

  abbrev mutation_texts : StateMutation → Bool
  mutation_texts (StateMutation.run_created run) = run_texts run
  mutation_texts (StateMutation.workflow_controlled control) = true
  mutation_texts (StateMutation.owner_adopted session_id) = given session_id
  mutation_texts (StateMutation.plan_reconciled ids remaining print) =
      all given ids && all_given_if remaining && texts.is_hash print
  mutation_texts (StateMutation.workflow_steered criteria annotation) =
      all steered_texts criteria && holds_if annotation_text annotation
  mutation_texts (StateMutation.criterion_settled m) =
      given m.goal_id
      && given m.criterion_id
      && holds_if given m.acceptance_id
      && given m.evidence_ref
      && given m.capture_commit
  mutation_texts (StateMutation.task_evidence_accepted task_id acceptance_id) =
      given task_id && given acceptance_id
  mutation_texts (StateMutation.workflow_terminal status ids task_id) =
      all_given_if ids && holds_if given task_id
  mutation_texts (StateMutation.continuation_attempted leaf_id progress_revision) = given leaf_id
  mutation_texts (StateMutation.continuation_stuck leaf_id) = given leaf_id
  mutation_texts (StateMutation.goal_cycle_started goal_id) = given goal_id
  mutation_texts (StateMutation.criterion_failure_recorded goal_id criterion_id fingerprint) =
      given goal_id && given criterion_id && given fingerprint

  abbrev event_version_texts : EventVersion → Bool
  event_version_texts EventVersion.v1 = true
  event_version_texts (EventVersion.v2 scope) = holds_if given scope.expected_head

  abbrev pub event_texts : StateEvent → Bool
  event_texts event =
      event_version_texts event.version
      && texts.is_uuid event.event_id
      && texts.is_uuid event.run_id
      && holds_if given event.expected.owner_session_id
      && mutation_texts event.mutation
      && texts.is_timestamp event.at
