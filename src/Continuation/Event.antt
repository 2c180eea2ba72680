-- ===== src/Continuation/Event.antt =====
-- src/continuation/durable-continuation.ts: the event that `handle` makes of a decision.
use omp_lazy.Prelude.{ℕ, ◌+◌, String, false, Option, none, some, string_eq, nat_eq, option_eq}
use omp_lazy.State.Domain.{
  Run, RunVersion, workflow, ActiveIndex, StateMutation, StateEvent, EventVersion, ScopedEvent,
}
use omp_lazy.Continuation.Coordinator.{ContinuationDecision, quiet, continue, stuck, settled}

-- The run, the mutation and, for a settlement, the generation of a decision that is not quiet.
pub record Decided : Type 0 where
  pub run : Run
  pub mutation : StateMutation
  pub task_generation : Option ℕ

abbrev pub decided : ContinuationDecision → Option Decided
decided quiet = none
decided (continue run context mutation) =
    some (record { run = run; mutation = mutation; task_generation = none })
decided (stuck run mutation) =
    some (record { run = run; mutation = mutation; task_generation = none })
decided (settled run task_generation mutation) =
    some (record { run = run; mutation = mutation; task_generation = some task_generation })

-- A settlement names the head, the other decisions do not.
abbrev event_scope : Option ℕ → Option String → ScopedEvent
event_scope none expected_head = record {
  expected_head = none;
  task_generation = none;
  legacy_head_unbound = false;
}
event_scope (some task_generation) expected_head = record {
  expected_head = expected_head;
  task_generation = some task_generation;
  legacy_head_unbound = false;
}

abbrev pub event_version : RunVersion → Option ℕ → EventVersion
event_version RunVersion.v1 task_generation = EventVersion.v1
event_version (RunVersion.v2 packet_hash expected_head) task_generation =
    EventVersion.v2 (event_scope task_generation expected_head)

-- The event that `handle` commits, with the identifier and the time that it is given.
unfoldable pub continuation_event : ActiveIndex → Decided → (event_id at : String) → StateEvent
continuation_event index d event_id at = record {
  version = event_version d.run.version d.task_generation;
  event_id = event_id;
  sequence = index.revision + 1;
  run_id = d.run.run_id;
  workflow = workflow d.run;
  expected = record {
    index_revision = index.revision;
    run_revision = some d.run.revision;
    owner_session_id = some d.run.owner.session_id;
    owner_epoch = some d.run.owner.epoch;
  };
  mutation = d.mutation;
  at = at;
}
