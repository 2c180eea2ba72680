-- ===== src/Scenarios/Reshaped.antt =====
-- Loops that leave the run schema.
use omp_lazy.Prelude.{◌≡◌, refl, String, false, List, [], ◌∷◌, none, some}
use omp_lazy.State.Domain.{
  Run, Payload, GoalStatus, Criterion, CriterionStatus, ScopedEvent, SettledCriterion,
  SteeredCriterion,
}
use omp_lazy.State.Receipts.{ReceiptAuthority, AcceptanceEvent, current_acceptance, matches_run}
use omp_lazy.State.Progress.{settle_bound}
use omp_lazy.State.Codec.{run_schema}
use omp_lazy.State.Transition.{steer_run}
use omp_lazy.State.Transition.Reshaping.{settle_last-malformed, steer_repeated-malformed}
use omp_lazy.Scenarios.Records.{goal, criterion, loop, loop_run}

-- A worker's receipt for the criterion of the first goal.
abbrev pub accepted : String → AcceptanceEvent
accepted task_id = record {
  sequence = 1;
  idempotency_key = "k1";
  run_id = "r2";
  attempt = 0;
  run_revision = 1;
  owner_session_id = "s1";
  owner_epoch = 1;
  task_generation = 1;
  worker_role = "implementer";
  actual_agent_id = "a1";
  actual_job_id = none;
  capture_commit = "head";
  receipt_path = "receipt.json";
  receipt_hash = "h1";
  artifact_hash = "h2";
  artifact_paths = [];
  cleanup_receipt_paths = [];
  cleanup_status = none;
  cleanup_scenario_id = none;
  parent_decision = none;
  task_id = some task_id;
  role = none;
  semantic_attempt = none;
}

abbrev pub authority : String → ReceiptAuthority
authority task_id = record { task_generation = 1; accepted = accepted task_id ∷ []; rejected = [] }

abbrev scope : ScopedEvent
scope = record {
  expected_head = some "head";
  task_generation = some 1;
  legacy_head_unbound = false;
}

abbrev settlement : SettledCriterion
settlement = record {
  goal_id = "g1";
  criterion_id = "c1";
  acceptance_id = some "k1";
  evidence_ref = "receipt.json";
  capture_revision = 1;
  capture_commit = "head";
}

-- The loop whose active goal is complete while the other goal is open.
abbrev settled_run : Run
settled_run = record loop_run {
  revision = 2;
  progress_revision = 1;
  payload = Payload.ulw_loop (record loop {
    goals =
        goal "g1" GoalStatus.complete (
          record (criterion "c1") {
            status = CriterionStatus.pass;
            evidence_ref = some "receipt.json";
            capture_revision = some 1;
            capture_commit = some "head";
          }
          ∷ [])
        ∷ goal "g2" GoalStatus.pending (criterion "c2" ∷ [])
        ∷ [];
  });
}

settles : settle_bound loop_run loop scope settlement (authority "c1") ≡ some settled_run
unfolding settle_bound current_acceptance matches_run
settles = refl

settle_last-malformed_example : run_schema settled_run ≡ false
settle_last-malformed_example =
    settle_last-malformed loop_run loop scope settlement (authority "c1") settled_run refl refl
      settles ((λ h. refl), ((λ h. h), tt)) refl

abbrev repeated : List SteeredCriterion
repeated =
    record { id = "c3"; scenario = "x"; observable = "x"; evidence_logical_id = "e" }
    ∷ record { id = "c3"; scenario = "y"; observable = "y"; evidence_logical_id = "e" }
    ∷ []

abbrev new_criterion : String → Criterion
new_criterion text = record (criterion "c3") {
  scenario = some text;
  observable = some text;
  evidence_logical_id = some "e";
}

abbrev steered_run : Run
steered_run = record loop_run {
  revision = 2;
  payload = Payload.ulw_loop (record loop {
    goals =
        goal "g1" GoalStatus.in_progress
          (criterion "c1" ∷ new_criterion "x" ∷ new_criterion "y" ∷ [])
        ∷ goal "g2" GoalStatus.pending (criterion "c2" ∷ [])
        ∷ [];
  });
}

steers : steer_run loop_run (Payload.ulw_loop loop) repeated none ≡ some steered_run
unfolding steer_run
steers = refl

steer_repeated-malformed_example : run_schema steered_run ≡ false
steer_repeated-malformed_example =
    steer_repeated-malformed loop_run loop repeated none steered_run refl refl steers
