-- ===== src/State/Texts.antt =====
-- src/state/codec-schemas.ts: the texts in a run, an index and an event. A decoder trims those of
-- `nonempty`, in the values that it returns too, and tests the form of each. What zod and the
-- regular expressions say of a single text is that of a Texts.
pub mod Forms
use omp_lazy.Prelude.{ℕ, String, Bool, List, Option, none, some, map}
use omp_lazy.State.Domain.{
  Run, RunVersion, Plan, Criterion, Goal, Payload, ActiveIndexEntry, ActiveIndex, SteeredCriterion,
  SettledCriterion, StateMutation, EventVersion, StateEvent,
}

-- `trim`, `UuidSchema`, `/^[0-9a-f]{64}$/`, `z.iso.datetime` and the length of a text
pub record Texts : Type 0 where
  pub trim : String → String
  pub is_uuid : String → Bool
  pub is_hash : String → Bool
  pub is_timestamp : String → Bool
  pub size : String → ℕ

module _ (texts : Texts) where
  abbrev trim_if : Option String → Option String
  trim_if none = none
  trim_if (some text) = some (texts.trim text)

  abbrev trim_list_if : Option (List String) → Option (List String)
  trim_list_if none = none
  trim_list_if (some values) = some (map texts.trim values)

  abbrev trim_plan : Plan → Plan
  trim_plan plan = record plan {
    canonical_path = texts.trim plan.canonical_path;
    display_path = texts.trim plan.display_path;
    allowed_root = texts.trim plan.allowed_root;
    allowed_root_display = texts.trim plan.allowed_root_display;
    task_ids = map texts.trim plan.task_ids;
  }

  abbrev trim_criterion : Criterion → Criterion
  trim_criterion c = record c {
    id = texts.trim c.id;
    scenario = trim_if c.scenario;
    observable = trim_if c.observable;
    evidence_logical_id = trim_if c.evidence_logical_id;
    identical_failure_fingerprint = trim_if c.identical_failure_fingerprint;
    evidence_ref = trim_if c.evidence_ref;
    capture_commit = trim_if c.capture_commit;
  }

  abbrev trim_goal : Goal → Goal
  trim_goal goal = record goal {
    id = texts.trim goal.id;
    criteria = map trim_criterion goal.criteria;
  }

  abbrev trim_payload : Payload → Payload
  trim_payload (Payload.start_work p) = Payload.start_work (record p { plan = trim_plan p.plan })
  trim_payload (Payload.ulw_loop p) = Payload.ulw_loop (record p {
    objective = trim_if p.objective;
    active_goal_id = trim_if p.active_goal_id;
    goals = map trim_goal p.goals;
  })

  abbrev trim_version : RunVersion → RunVersion
  trim_version RunVersion.v1 = RunVersion.v1
  trim_version (RunVersion.v2 packet_hash expected_head) =
      RunVersion.v2 packet_hash (trim_if expected_head)

  abbrev pub trim_run : Run → Run
  trim_run run = record run {
    version = trim_version run.version;
    owner = record { session_id = texts.trim run.owner.session_id; epoch = run.owner.epoch };
    continuation = record run.continuation {
      last_processed_leaf_id = trim_if run.continuation.last_processed_leaf_id;
    };
    payload = trim_payload run.payload;
  }

  abbrev trim_entry : ActiveIndexEntry → ActiveIndexEntry
  trim_entry entry = record entry { session_id = texts.trim entry.session_id }

  abbrev pub trim_index : ActiveIndex → ActiveIndex
  trim_index index = record index { entries = map trim_entry index.entries }

  abbrev trim_steered : SteeredCriterion → SteeredCriterion
  trim_steered c = record {
    id = texts.trim c.id;
    scenario = texts.trim c.scenario;
    observable = texts.trim c.observable;
    evidence_logical_id = texts.trim c.evidence_logical_id;
  }

  abbrev trim_settled : SettledCriterion → SettledCriterion
  trim_settled m = record {
    goal_id = texts.trim m.goal_id;
    criterion_id = texts.trim m.criterion_id;
    acceptance_id = trim_if m.acceptance_id;
    evidence_ref = texts.trim m.evidence_ref;
    capture_revision = m.capture_revision;
    capture_commit = texts.trim m.capture_commit;
  }

  abbrev pub trim_mutation : StateMutation → StateMutation
  trim_mutation (StateMutation.run_created run) = StateMutation.run_created (trim_run run)
  trim_mutation (StateMutation.workflow_controlled control) =
      StateMutation.workflow_controlled control
  trim_mutation (StateMutation.owner_adopted session_id) =
      StateMutation.owner_adopted (texts.trim session_id)
  trim_mutation (StateMutation.plan_reconciled ids remaining print) =
      StateMutation.plan_reconciled (map texts.trim ids) (trim_list_if remaining) print
  trim_mutation (StateMutation.workflow_steered criteria annotation) =
      StateMutation.workflow_steered (map trim_steered criteria) annotation
  trim_mutation (StateMutation.criterion_settled m) =
      StateMutation.criterion_settled (trim_settled m)
  trim_mutation (StateMutation.task_evidence_accepted task_id acceptance_id) =
      StateMutation.task_evidence_accepted (texts.trim task_id) (texts.trim acceptance_id)
  trim_mutation (StateMutation.workflow_terminal status ids task_id) =
      StateMutation.workflow_terminal status (trim_list_if ids) (trim_if task_id)
  trim_mutation (StateMutation.continuation_attempted leaf_id progress_revision) =
      StateMutation.continuation_attempted (texts.trim leaf_id) progress_revision
  trim_mutation (StateMutation.continuation_stuck leaf_id) =
      StateMutation.continuation_stuck (texts.trim leaf_id)
  trim_mutation (StateMutation.goal_cycle_started goal_id) =
      StateMutation.goal_cycle_started (texts.trim goal_id)
  trim_mutation (StateMutation.criterion_failure_recorded goal_id criterion_id fingerprint) =
      StateMutation.criterion_failure_recorded (texts.trim goal_id) (texts.trim criterion_id)
        (texts.trim fingerprint)

  abbrev trim_event_version : EventVersion → EventVersion
  trim_event_version EventVersion.v1 = EventVersion.v1
  trim_event_version (EventVersion.v2 scope) =
      EventVersion.v2 (record scope { expected_head = trim_if scope.expected_head })

  abbrev pub trim_event : StateEvent → StateEvent
  trim_event event = record event {
    version = trim_event_version event.version;
    expected = record event.expected { owner_session_id = trim_if event.expected.owner_session_id };
    mutation = trim_mutation event.mutation;
  }
