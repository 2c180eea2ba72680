-- ===== src/State/Transition/Reshaping.antt =====
-- state-transition.ts and runtime-progress-transition.ts against codec-schemas.ts: where a
-- steering or a settled criterion writes a run that its own decoder refuses.
use omp_lazy.Prelude.{
  ◌≡◌, refl, ap, String, true, false, List, [], ◌∷◌, ◌++◌, Option, some, map, arith, all, any, find,
  filter, All, Option-cases, Bool-cases, inl, inr, string_eq,
}
use omp_lazy.State.Domain.{
  Run, Payload, UlwLoopPayload, Goal, Criterion, SettledCriterion, SteeredCriterion, ScopedEvent,
}
use omp_lazy.State.Receipts.{ReceiptAuthority, current_acceptance}
use omp_lazy.State.Codec.{
  payload_schema, run_schema, goal_schema, no_duplicates, active_matches, is_in_progress,
  criterion_id,
}
use omp_lazy.State.Progress.{settle_bound, settle_goal, settled_payload}
use omp_lazy.State.Transition.{steered, add_criteria, steer_run}
use omp_lazy.Workflow.UlwLoop.{has_id, criteria_pass}

abbrev InProgressOnly : String → Goal → Type 0
InProgressOnly a g = is_in_progress g ≡ true → has_id a g ≡ true

filter-eq-nil :
    (a : String) (gs : List Goal) → filter is_in_progress gs ≡ [] → All (InProgressOnly a) gs
filter-eq-nil a [] h = tt
filter-eq-nil a (g ∷ gs) h = ((λ e. absurd (ground arith)), filter-eq-nil a gs (ground arith))

active_matches-cons :
    (a : String) (g : Goal) (gs : List Goal)
    → active_matches (some a) (g ∷ gs) ≡ true
    → (has_id a g ≡ true) × (gs ≡ [])
active_matches-cons a g [] h = (h, refl)
active_matches-cons a g (x ∷ gs) h = cc

-- The goal in progress is the active one.
active_matches-All :
    (a : String) (gs : List Goal)
    → active_matches (some a) (filter is_in_progress gs) ≡ true
    → All (InProgressOnly a) gs × (any (has_id a) gs ≡ true)
active_matches-All a [] h = cc
active_matches-All a (g ∷ gs) h = elim (Bool-cases (is_in_progress g)) [
  | inl busy ↦
      let (here, rest) = active_matches-cons a g (filter is_in_progress gs) (ground arith) in
      (((λ e. here), filter-eq-nil a gs rest), ground arith)
  | inr idle ↦
      let (each, found) = active_matches-All a gs (ground arith) in
      (((λ e. absurd (ground arith)), each), ground arith)
]

-- Settling closes every goal of the active identifier.
abbrev pub Closes : SettledCriterion → Goal → Type 0
Closes m g = has_id m.goal_id g ≡ true → criteria_pass (settle_goal m g) ≡ true

nothing_left :
    (m : SettledCriterion) (gs : List Goal)
    → All (InProgressOnly m.goal_id) gs
    → All (Closes m) gs
    → filter is_in_progress (map (settle_goal m) gs) ≡ []
nothing_left m [] o c = refl
nothing_left m (g ∷ gs) (og, os) (cg, cs) = ground (arith, og, cg, nothing_left m gs os cs)

settle_bound-goals :
    (run : Run) (p : UlwLoopPayload) (scope : ScopedEvent) (m : SettledCriterion)
    (authority : ReceiptAuthority) (next : Run)
    → settle_bound run p scope m authority ≡ some next
    → next.payload ≡ Payload.ulw_loop (settled_payload p (map (settle_goal m) p.goals))
unfolding settle_bound
settle_bound-goals run p scope m authority next e =
    elim (Option-cases (current_acceptance run authority m.criterion_id)) [
      | inl missing ↦ absurd (ground arith)
      | inr (accepted, found) ↦ elim (Option-cases (find (has_id m.goal_id) p.goals)) [
        | inl missing ↦ absurd (ground arith)
        | inr (goal, here) ↦ ground arith
      ]
    ]

-- If a loop within the schema settles a criterion that closes its active goal while some other
-- criterion of the loop is open, the run that is published violates the schema.
pub settle_last-malformed :
    (run : Run) (p : UlwLoopPayload) (scope : ScopedEvent) (m : SettledCriterion)
    (authority : ReceiptAuthority) (next : Run)
    → payload_schema (Payload.ulw_loop p) ≡ true
    → p.active_goal_id ≡ some m.goal_id
    → settle_bound run p scope m authority ≡ some next
    → All (Closes m) p.goals
    → all criteria_pass (map (settle_goal m) p.goals) ≡ false
    → run_schema next ≡ false
settle_last-malformed run p scope m authority next h active e closes unmet =
    let made = settle_bound-goals run p scope m authority next e in
    let (busy, found) = active_matches-All m.goal_id p.goals (rw (← active) (ground arith)) in
    let idle = nothing_left m p.goals busy closes in ground arith

no_duplicates-append :
    (xs ys : List String) → no_duplicates (xs ++ ys) ≡ true → no_duplicates ys ≡ true
no_duplicates-append [] ys h = h
no_duplicates-append (x ∷ xs) ys h = no_duplicates-append xs ys (ground arith)

criterion_ids-steered :
    (old : List Criterion) (new : List SteeredCriterion)
    → map criterion_id (old ++ map steered new)
      ≡ map criterion_id old ++ map (λ (c : SteeredCriterion). c.id) new
criterion_ids-steered [] [] = refl
criterion_ids-steered [] (c ∷ new) = ap (λ l. c.id ∷ l) (criterion_ids-steered [] new)
criterion_ids-steered (o ∷ old) new = ap (λ l. o.id ∷ l) (criterion_ids-steered old new)

add_criteria-malformed :
    (a : String) (new : List SteeredCriterion) (gs : List Goal)
    → any (has_id a) gs ≡ true
    → no_duplicates (map (λ (c : SteeredCriterion). c.id) new) ≡ false
    → all goal_schema (map (add_criteria a new) gs) ≡ false
add_criteria-malformed a new [] f d = cc
add_criteria-malformed a new (g ∷ gs) f d = elim (Bool-cases (has_id a g)) [
  | inl here ↦
      let ids = criterion_ids-steered g.criteria new in
      elim (Bool-cases (no_duplicates (map criterion_id (g.criteria ++ map steered new)))) [
        | inl fine ↦
            let alone = no_duplicates-append (map criterion_id g.criteria) _ (rw ids at fine) in
            absurd (ground arith)
        | inr repeats ↦ ground arith
      ]
  | inr there ↦ ground (arith, add_criteria-malformed a new gs)
]

-- If a loop within the schema accepts a steering whose new criteria repeat an identifier among
-- themselves, the run that is published violates the schema.
pub steer_repeated-malformed :
    (run : Run) (p : UlwLoopPayload) (new : List SteeredCriterion) (annotation : Option String)
    (next : Run)
    → payload_schema (Payload.ulw_loop p) ≡ true
    → no_duplicates (map (λ (c : SteeredCriterion). c.id) new) ≡ false
    → steer_run run (Payload.ulw_loop p) new annotation ≡ some next
    → run_schema next ≡ false
unfolding steer_run
steer_repeated-malformed run p new annotation next h d e = elim (Option-cases p.active_goal_id) [
  | inl missing ↦ absurd (ground arith)
  | inr (a, active) ↦
      let (busy, found) = active_matches-All a p.goals (rw (← active) (ground arith)) in
      ground (arith, add_criteria-malformed a new p.goals)
]
