-- ===== src/State/Codec.antt =====
-- src/state/codec.ts and codec-schemas.ts: what a decoder demands of values beyond their shape,
-- which the types of Domain give: distinct identifiers, bounded counters, the active goal, the
-- plan's root; and the decoders, which trim the texts first.
pub mod Unique
use omp_lazy.Prelude.{
  ℕ, String, Bool, true, false, not, ◌&&◌, List, [], ◌∷◌, ◌++◌, Option, none, some, map, ◌==◌,
  string_eq, leb, ltb, all, any, filter, is_some, if◌then◌else◌,
}
use omp_lazy.Prelude.Result.{Result, ok, err, stop_if, ◌>>◌}
use omp_lazy.State.Domain.{
  Run, Payload, UlwLoopPayload, Goal, GoalStatus, Criterion, StateMutation, TerminalStatus,
  ActiveIndex, IndexVersion, EventVersion, StateEvent,
}
use omp_lazy.State.Texts.{Texts, trim_run, trim_index}
use omp_lazy.State.Texts.Forms.{run_texts, index_texts, event_texts}
use omp_lazy.State.Index.{IndexError, validate_active_index}

-- `new Set(values).size === values.length`
abbrev pub no_duplicates : List String → Bool
no_duplicates [] = true
no_duplicates (x ∷ xs) = not (any (λ y. y == x) xs) && no_duplicates xs

abbrev pub goal_id : Goal → String
goal_id goal = goal.id

abbrev pub criterion_id : Criterion → String
criterion_id criterion = criterion.id

abbrev pub criterion_schema : Criterion → Bool
criterion_schema c = leb c.identical_failure_count 3

abbrev pub goal_schema : Goal → Bool
goal_schema goal =
    leb goal.cycle_count 5
    && all criterion_schema goal.criteria
    && no_duplicates (map criterion_id goal.criteria)

-- The criteria of all goals, in order.
abbrev pub criterion_ids : List Goal → List String
criterion_ids [] = []
criterion_ids (g ∷ gs) = map criterion_id g.criteria ++ criterion_ids gs

abbrev in_progress : GoalStatus → Bool
in_progress GoalStatus.in_progress = true
in_progress _ = false

abbrev pub is_in_progress : Goal → Bool
is_in_progress goal = in_progress goal.status

-- The active goal is the one goal in progress, or there is neither.
abbrev pub active_matches : Option String → List Goal → Bool
active_matches none [] = true
active_matches (some id) (g ∷ []) = g.id == id
active_matches _ _ = false

abbrev pub refine_ulw_loop : UlwLoopPayload → Bool
refine_ulw_loop p =
    no_duplicates (map goal_id p.goals)
    && no_duplicates (criterion_ids p.goals)
    && active_matches p.active_goal_id (filter is_in_progress p.goals)

abbrev pub payload_schema : Payload → Bool
payload_schema (Payload.start_work p) = no_duplicates p.plan.task_ids
payload_schema (Payload.ulw_loop p) = all goal_schema p.goals && refine_ulw_loop p

abbrev pub run_schema : Run → Bool
run_schema run = payload_schema run.payload

-- The `superRefine` of `workflow_terminal`.
abbrev terminal_schema : TerminalStatus → Option (List String) → Option String → Bool
terminal_schema TerminalStatus.completed ids task_id = is_some ids && not (is_some task_id)
terminal_schema TerminalStatus.failed ids task_id = not (is_some ids) && is_some task_id

-- What `mutationSchema` demands of a mutation.
abbrev pub mutation_schema : StateMutation → Bool
mutation_schema (StateMutation.run_created run) = run_schema run
mutation_schema (StateMutation.plan_reconciled ids none print) = no_duplicates ids
mutation_schema (StateMutation.plan_reconciled ids (some remaining) print) =
    no_duplicates ids && no_duplicates remaining
mutation_schema (StateMutation.workflow_steered [] annotation) = false
mutation_schema (StateMutation.workflow_terminal status none task_id) =
    terminal_schema status none task_id
mutation_schema (StateMutation.workflow_terminal status (some ids) task_id) =
    terminal_schema status (some ids) task_id && no_duplicates ids
mutation_schema _ = true

pub data DecodeError : Type 0 where
  malformed_run malformed_index path_mismatch : DecodeError
  invalid_index : IndexError → DecodeError

-- `counter.positive().nullable()`
abbrev positive : Option ℕ → Bool
positive none = true
positive (some n) = ltb 0 n

-- `stateEventV2Schema`: a task generation is positive, and a legacy event binds no head.
abbrev scope_schema : EventVersion → Bool
scope_schema EventVersion.v1 = true
scope_schema (EventVersion.v2 scope) =
    positive scope.task_generation && not (scope.legacy_head_unbound && is_some scope.expected_head)

-- An event whose texts are trimmed.
abbrev pub event_schema : Texts → StateEvent → Bool
event_schema texts event =
    event_texts texts event && mutation_schema event.mutation && scope_schema event.version

-- The root of the state and the containment test of paths.ts.
pub record Root : Type 0 where
  pub texts : Texts
  pub canonical_path : String
  pub contains : String → String → Bool

abbrev path_matches : Root → Payload → Bool
path_matches root (Payload.ulw_loop p) = true
path_matches root (Payload.start_work p) =
    p.plan.allowed_root == root.canonical_path
    && root.contains p.plan.allowed_root p.plan.canonical_path

unfoldable pub decode_run : Root → Run → Result DecodeError Run
decode_run root run = do
  let trimmed = trim_run root.texts run
  stop_if (not (run_texts root.texts trimmed && run_schema trimmed)) malformed_run
  stop_if (not (path_matches root trimmed.payload)) path_mismatch
  ok trimmed

abbrev index_result : ActiveIndex → Result IndexError (Unit {0}) → Result DecodeError ActiveIndex
index_result index (ok done) = ok index
index_result index (err code) = err (invalid_index code)

-- `activeIndexSchema`: the migration of a version 2 index has a positive revision.
abbrev pub index_schema : IndexVersion → Bool
index_schema IndexVersion.v1 = true
index_schema (IndexVersion.v2 migration_revision) = ltb 0 migration_revision

unfoldable pub decode_active_index : Texts → ActiveIndex → Result DecodeError ActiveIndex
decode_active_index texts index = do
  let trimmed = trim_index texts index
  stop_if (not (index_texts texts trimmed && index_schema trimmed.version)) malformed_index
  index_result trimmed (validate_active_index trimmed)
