-- ===== src/State/Domain.antt =====
-- src/state/domain.ts: runs, the active index, mutations and events. Identifiers, hashes and
-- timestamps are texts; counters are natural numbers; `null` and `undefined` are `none`.
use omp_lazy.Prelude.{ℕ, String, Bool, List, Option}

pub data WorkflowKind : Type 0 where
  start_work ulw_loop : WorkflowKind

pub data IndexStatusHint : Type 0 where
  active paused stuck blocked : IndexStatusHint

pub record ActiveIndexEntry : Type 0 where
  pub workflow : WorkflowKind
  pub session_id : String
  pub run_id : String
  pub owner_epoch : ℕ
  pub run_revision : ℕ
  pub transaction_revision : ℕ
  pub status_hint : IndexStatusHint

-- The schema version of the index, with what only version 2 holds.
pub data IndexVersion : Type 0 where
  v1 : IndexVersion
  v2 : (migration_revision : ℕ) → IndexVersion

pub record ActiveIndex : Type 0 where
  pub version : IndexVersion
  pub revision : ℕ
  pub entries : List ActiveIndexEntry

pub data RunVersion : Type 0 where
  v1 : RunVersion
  v2 : (packet_hash expected_head : Option String) → RunVersion

pub data StartWorkStatus : Type 0 where
  active paused blocked needs_user_decision review_blocked stuck : StartWorkStatus
  completed cancelled failed abandoned : StartWorkStatus

pub record Plan : Type 0 where
  pub plan_id : String
  pub canonical_path : String
  pub display_path : String
  pub allowed_root : String
  pub allowed_root_display : String
  pub task_fingerprint : String
  pub task_ids : List String

pub record StartWorkPayload : Type 0 where
  pub status : StartWorkStatus
  pub plan : Plan

pub data CriterionStatus : Type 0 where
  pending pass fail blocked : CriterionStatus

pub record Criterion : Type 0 where
  pub id : String
  pub scenario : Option String
  pub observable : Option String
  pub evidence_logical_id : Option String
  pub status : CriterionStatus
  pub identical_failure_fingerprint : Option String
  pub identical_failure_count : ℕ
  pub evidence_ref : Option String
  pub capture_revision : Option ℕ
  pub capture_commit : Option String

pub data GoalStatus : Type 0 where
  pending in_progress complete failed blocked needs_user_decision review_blocked : GoalStatus

pub record Goal : Type 0 where
  pub id : String
  pub status : GoalStatus
  pub cycle_count : ℕ
  pub criteria : List Criterion

pub data UlwLoopStatus : Type 0 where
  active paused stuck completed cancelled failed : UlwLoopStatus
  blocked needs_user_decision review_blocked : UlwLoopStatus

pub record UlwLoopPayload : Type 0 where
  pub objective : Option String
  pub annotation : Option String
  pub status : UlwLoopStatus
  pub active_goal_id : Option String
  pub goals : List Goal

-- The payload, by its `kind`.
pub data Payload : Type 0 where
  start_work : StartWorkPayload → Payload
  ulw_loop : UlwLoopPayload → Payload

pub record Owner : Type 0 where
  pub session_id : String
  pub epoch : ℕ

pub record Continuation : Type 0 where
  pub last_processed_leaf_id : Option String
  pub progress_revision_seen : ℕ
  pub no_progress_attempts : ℕ
  pub stuck : Bool

-- `AnyRun`. Its `workflow` is the kind of its payload.
pub record Run : Type 0 where
  pub version : RunVersion
  pub run_id : String
  pub revision : ℕ
  pub transaction_revision : ℕ
  pub owner : Owner
  pub progress_revision : ℕ
  pub continuation : Continuation
  pub created_at : String
  pub updated_at : String
  pub payload : Payload

abbrev pub payload_kind : Payload → WorkflowKind
payload_kind (Payload.start_work p) = WorkflowKind.start_work
payload_kind (Payload.ulw_loop p) = WorkflowKind.ulw_loop

abbrev pub workflow : Run → WorkflowKind
workflow r = payload_kind r.payload

pub data Control : Type 0 where
  pause resume cancel : Control

pub record SteeredCriterion : Type 0 where
  pub id : String
  pub scenario : String
  pub observable : String
  pub evidence_logical_id : String

pub data TerminalStatus : Type 0 where
  completed failed : TerminalStatus

pub record SettledCriterion : Type 0 where
  pub goal_id : String
  pub criterion_id : String
  pub acceptance_id : Option String
  pub evidence_ref : String
  pub capture_revision : ℕ
  pub capture_commit : String

pub data StateMutation : Type 0 where
  run_created : Run → StateMutation
  workflow_controlled : Control → StateMutation
  owner_adopted : (session_id : String) → StateMutation
  plan_reconciled :
      (task_ids : List String) (remaining_task_ids : Option (List String))
      (task_fingerprint : String)
      → StateMutation
  workflow_steered : (criteria : List SteeredCriterion) (annotation : Option String) → StateMutation
  criterion_settled : SettledCriterion → StateMutation
  task_evidence_accepted : (task_id acceptance_id : String) → StateMutation
  workflow_terminal :
      (status : TerminalStatus) (acceptance_ids : Option (List String)) (task_id : Option String)
      → StateMutation
  continuation_attempted : (leaf_id : String) (progress_revision : ℕ) → StateMutation
  continuation_stuck : (leaf_id : String) → StateMutation
  goal_cycle_started : (goal_id : String) → StateMutation
  criterion_failure_recorded : (goal_id criterion_id fingerprint : String) → StateMutation

-- What only a version 2 event carries.
pub record ScopedEvent : Type 0 where
  pub expected_head : Option String
  pub task_generation : Option ℕ
  pub legacy_head_unbound : Bool

pub data EventVersion : Type 0 where
  v1 : EventVersion
  v2 : ScopedEvent → EventVersion

-- The `expected` part that both versions share.
pub record Expected : Type 0 where
  pub index_revision : ℕ
  pub run_revision : Option ℕ
  pub owner_session_id : Option String
  pub owner_epoch : Option ℕ

-- `PersistedStateEvent`. Its `kind` is the constructor of its mutation, as its schema demands.
pub record StateEvent : Type 0 where
  pub version : EventVersion
  pub event_id : String
  pub sequence : ℕ
  pub run_id : String
  pub workflow : WorkflowKind
  pub expected : Expected
  pub mutation : StateMutation
  pub at : String
