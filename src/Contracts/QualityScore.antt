-- ===== src/Contracts/QualityScore.antt =====
-- src/contracts/quality-score.ts: the score of a task from its four predicates.
pub mod Bounds
use omp_lazy.Prelude.{
  ℕ, ◌+◌, Bool, true, false, not, ◌&&◌, ◌||◌, List, [], ◌∷◌, Option, some, ◌==◌, nat_eq, leb,
  length, all, any, null_if, ◌>>=◌, ◌>>◌, if◌then◌else◌,
}

pub data PredicateId : Type 0 where
  outcome scope_safety evidence_cleanup bounded_process : PredicateId

pub record QualityPredicate : Type 0 where
  pub id : PredicateId
  pub passed : Bool
  pub hard : Bool

abbrev pub same_id : PredicateId → PredicateId → Bool
same_id outcome outcome = true
same_id scope_safety scope_safety = true
same_id evidence_cleanup evidence_cleanup = true
same_id bounded_process bounded_process = true
same_id _ _ = false

-- `new Set(ids).size === ids.length`
abbrev pub unique_ids : List QualityPredicate → Bool
unique_ids [] = true
unique_ids (p ∷ ps) = not (any (λ q. same_id p.id q.id) ps) && unique_ids ps

abbrev pub is_hard : PredicateId → QualityPredicate → Bool
is_hard id p = same_id p.id id && p.hard

-- `qualityPredicatesSchema`
unfoldable pub predicates_schema : List QualityPredicate → Bool
predicates_schema ps =
    length ps == 4 && unique_ids ps && any (is_hard outcome) ps && any (is_hard scope_safety) ps

pub record QualityScore : Type 0 where
  pub score : ℕ
  pub hard_gate_passed : Bool

-- `QualityScoreSchema`
unfoldable pub quality_score_schema : QualityScore → Bool
quality_score_schema s = leb s.score 100 && (s.hard_gate_passed || s.score == 0)

abbrev pub weights : PredicateId → ℕ
weights outcome = 60
weights scope_safety = 20
weights evidence_cleanup = 10
weights bounded_process = 10

abbrev pub holds : QualityPredicate → Bool
holds p = not p.hard || p.passed

-- The sum that `reduce` adds up.
abbrev pub total : List QualityPredicate → ℕ
total [] = 0
total (p ∷ ps) = (if p.passed then weights p.id else 0) + total ps

abbrev score_of : List QualityPredicate → QualityScore
score_of ps =
    if not (all holds ps)
    then record { score = 0; hard_gate_passed = false }
    else record { score = total ps; hard_gate_passed = true }

-- `none` where `parse` throws
unfoldable pub calculate_quality_score : List QualityPredicate → Option QualityScore
calculate_quality_score ps = do null_if (not (predicates_schema ps)); some (score_of ps)
