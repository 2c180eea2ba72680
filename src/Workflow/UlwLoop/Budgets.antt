-- ===== src/Workflow/UlwLoop/Budgets.antt =====
-- ulw-loop-contract.ts: the budgets of cycles and of identical failures, within the run schema.
use omp_lazy.Prelude.{
  ◌≡◌, refl, String, Bool, true, false, List, [], ◌∷◌, some, map, arith, string_eq, leb, all, find,
  All, Bool-cases, Option-cases, inl, inr, if◌then◌else◌,
}
use omp_lazy.Prelude.Result.{ok}
use omp_lazy.State.Domain.{Run, Payload, UlwLoopPayload, Goal, Criterion}
use omp_lazy.State.Codec.{
  payload_schema, run_schema, goal_schema, criterion_schema, goal_id, criterion_id, no_duplicates,
}
use omp_lazy.State.Codec.Unique.{
  KeepsShape, IsOnly, find-IsOnly, all-map, All-imp, map-eq, refine_ulw_loop-map,
}
use omp_lazy.Workflow.UlwLoop.{
  has_id, criterion_has_id, advance_cycle, start_goal_cycle, with_goals, max_cycles, fail_criterion,
  replace_criteria, is_repeated, record_criterion_failure, max_identical_failures,
}

-- Goals changed one by one, in keeping with their shape, stay within the schema.
pub with_goals-schema :
    (run : Run) (p : UlwLoopPayload) (f : Goal → Goal)
    → KeepsShape f
    → All (λ g. goal_schema g ≡ true → goal_schema (f g) ≡ true) p.goals
    → payload_schema (Payload.ulw_loop p) ≡ true
    → run_schema (with_goals run p (map f p.goals)) ≡ true
with_goals-schema run p f keeps each h =
    ground (arith, all-map {0} goal_schema goal_schema f p.goals each, refine_ulw_loop-map keeps p)

advance_cycle-KeepsShape : (id : String) → KeepsShape (advance_cycle id)
advance_cycle-KeepsShape id = record {
  id = λ g. ground arith;
  criteria = λ g. ground arith;
  progress = λ g. ground arith;
}

advance_cycle-schema :
    (id : String) (goal g : Goal)
    → leb max_cycles goal.cycle_count ≡ false
    → IsOnly goal_id id goal g
    → goal_schema g ≡ true
    → goal_schema (advance_cycle id g) ≡ true
advance_cycle-schema id goal g room only h = ground arith

start_goal_cycle-found :
    (run : Run) (p : UlwLoopPayload) (id : String) (next : Run)
    → start_goal_cycle run p id ≡ ok next
    → (goal : Goal) × (find (has_id id) p.goals ≡ some goal)
      × (leb max_cycles goal.cycle_count ≡ false)
      × (next ≡ with_goals run p (map (advance_cycle id) p.goals))
unfolding start_goal_cycle
start_goal_cycle-found run p id next e = elim (Option-cases (find (has_id id) p.goals)) [
  | inl missing ↦ absurd (ground arith)
  | inr (goal, found) ↦ (goal, found, ground arith, ground arith)
]

-- If a goal's next cycle is started on a loop within the schema, the new run is within it: no goal
-- has more than five cycles, and the identifiers and the active goal still agree.
pub start_goal_cycle-schema :
    (run : Run) (p : UlwLoopPayload) (id : String) (next : Run)
    → payload_schema (Payload.ulw_loop p) ≡ true
    → start_goal_cycle run p id ≡ ok next
    → run_schema next ≡ true
start_goal_cycle-schema run p id next h e =
    let (goal, found, room, made) = start_goal_cycle-found run p id next e in
    let only = find-IsOnly goal_id id goal p.goals (ground arith) found in
    let each = All-imp _ _ p.goals (λ g o. advance_cycle-schema id goal g room o) only in
    rw made (with_goals-schema run p (advance_cycle id) (advance_cycle-KeepsShape id) each h)

module _ (criterion_key fingerprint : String) (repeated : Bool) where
  map-fail_criterion-id :
      (cs : List Criterion)
      → map criterion_id (map (fail_criterion criterion_key fingerprint repeated) cs)
        ≡ map criterion_id cs
  map-fail_criterion-id [] = refl
  map-fail_criterion-id (c ∷ cs) = ground (arith, map-fail_criterion-id cs)

  fail_criterion-schema :
      (found c : Criterion)
      → (repeated ≡ true → leb max_identical_failures found.identical_failure_count ≡ false)
      → IsOnly criterion_id criterion_key found c
      → criterion_schema c ≡ true
      → criterion_schema (fail_criterion criterion_key fingerprint repeated c) ≡ true
  fail_criterion-schema found c room only h = ground (arith, room)

  -- The same change, of each goal's own criteria.
  abbrev fail_goal : String → Goal → Goal
  fail_goal goal_key g =
      if has_id goal_key g
      then record g {
        criteria = map (fail_criterion criterion_key fingerprint repeated) g.criteria;
      }
      else g

  fail_goal-KeepsShape : (goal_key : String) → KeepsShape (fail_goal goal_key)
  fail_goal-KeepsShape goal_key = record {
    id = λ g. ground arith;
    criteria = λ g. ground (arith, map-fail_criterion-id g.criteria);
    progress = λ g. ground arith;
  }

  fail_goal-schema :
      (goal_key : String) (goal g : Goal) (found : Criterion)
      → (repeated ≡ true → leb max_identical_failures found.identical_failure_count ≡ false)
      → find (criterion_has_id criterion_key) goal.criteria ≡ some found
      → IsOnly goal_id goal_key goal g
      → goal_schema g ≡ true
      → goal_schema (fail_goal goal_key g) ≡ true
  fail_goal-schema goal_key goal g found room hit only h = elim (Bool-cases (has_id goal_key g)) [
    | inl here ↦
        let same : g ≡ goal = only here in
        let distinct : no_duplicates (map criterion_id g.criteria) ≡ true = ground arith in
        let valid : all criterion_schema g.criteria ≡ true = ground arith in
        let alone =
          find-IsOnly criterion_id criterion_key found g.criteria distinct (rw same hit) in
        let each = All-imp _ _ g.criteria (λ c o. fail_criterion-schema found c room o) alone in
        ground (
          arith,
          here,
          all-map {0} criterion_schema criterion_schema
              (fail_criterion criterion_key fingerprint repeated) g.criteria each valid,
          map-fail_criterion-id g.criteria,
        )
    | inr there ↦ ground arith
  ]

  replace-eq-fail :
      (goal_key : String) (goal g : Goal)
      → IsOnly goal_id goal_key goal g
      → replace_criteria goal_key
          (map (fail_criterion criterion_key fingerprint repeated) goal.criteria)
          g
        ≡ fail_goal goal_key g
  replace-eq-fail goal_key goal g only = ground arith

pub record IsFailure (run : Run) (p : UlwLoopPayload) (goal_key criterion_key print : String)
    (next : Run) : Type 0 where
  pub goal : Goal
  pub found : find (has_id goal_key) p.goals ≡ some goal
  pub criterion : Criterion
  pub hit : find (criterion_has_id criterion_key) goal.criteria ≡ some criterion
  pub room :
      is_repeated print criterion ≡ true
      → leb max_identical_failures criterion.identical_failure_count ≡ false
  pub made :
      next
      ≡ with_goals run p (
          map
            (replace_criteria goal_key (
              map (fail_criterion criterion_key print (is_repeated print criterion)) goal.criteria))
            p.goals)

record_criterion_failure-IsFailure :
    (run : Run) (p : UlwLoopPayload) (goal_key criterion_key print : String) (next : Run)
    → record_criterion_failure run p goal_key criterion_key print ≡ ok next
    → IsFailure run p goal_key criterion_key print next
unfolding record_criterion_failure
record_criterion_failure-IsFailure run p goal_key criterion_key print next e =
    elim (Option-cases (find (has_id goal_key) p.goals)) [
      | inl missing ↦ absurd (ground arith)
      | inr (goal, found) ↦
          elim (Option-cases (find (criterion_has_id criterion_key) goal.criteria)) [
            | inl missing ↦ absurd (ground arith)
            | inr (criterion, hit) ↦ record {
              goal = goal;
              found = found;
              criterion = criterion;
              hit = hit;
              room = ground arith;
              made = ground arith;
            }
          ]
    ]

-- If a criterion's failure is recorded on a loop within the schema, the new run is within it: no
-- criterion counts more than three identical failures, and the identifiers still agree.
pub record_criterion_failure-schema :
    (run : Run) (p : UlwLoopPayload) (goal_key criterion_key print : String) (next : Run)
    → payload_schema (Payload.ulw_loop p) ≡ true
    → record_criterion_failure run p goal_key criterion_key print ≡ ok next
    → run_schema next ≡ true
record_criterion_failure-schema run p goal_key criterion_key print next h e =
    let f = record_criterion_failure-IsFailure run p goal_key criterion_key print next e in
    let repeated = is_repeated print f.criterion in
    let only = find-IsOnly goal_id goal_key f.goal p.goals (ground arith) f.found in
    let same = map-eq _ _ p.goals (
      All-imp _ _ p.goals (λ g o. replace-eq-fail criterion_key print repeated goal_key f.goal g o)
        only) in
    let each =
      All-imp _ _ p.goals
        (λ g o.
          fail_goal-schema criterion_key print repeated goal_key f.goal g f.criterion f.room f.hit
            o)
        only in
    rw (f.made, same)
      (with_goals-schema run p _ (fail_goal-KeepsShape criterion_key print repeated goal_key) each
        h)
