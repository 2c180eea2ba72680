-- ===== src/Contracts/QualityScore/Bounds.antt =====
-- quality-score.ts: the range of the score.
use omp_lazy.Prelude.{
  ℕ, ◌+◌, ◌≤◌, ◌≡◌, ◌⊎◌, inl, inr, Bool-cases, Bool, true, false, List, [], ◌∷◌, some, arith, any,
  all, if◌then◌else◌,
}
use omp_lazy.Contracts.QualityScore.{
  PredicateId, outcome, scope_safety, evidence_cleanup, bounded_process, QualityPredicate, same_id,
  unique_ids, is_hard, predicates_schema, QualityScore, quality_score_schema, weights, holds, total,
  calculate_quality_score,
}

abbrev names : PredicateId → List QualityPredicate → Bool
names id ps = any (λ q. same_id id q.id) ps

-- The weight of a predicate that the list names.
abbrev share : PredicateId → List QualityPredicate → ℕ
share id ps = if names id ps then weights id else 0

abbrev all_shares : List QualityPredicate → ℕ
all_shares ps =
    share outcome ps + share scope_safety ps + share evidence_cleanup ps + share bounded_process ps

step_up :
    (id : PredicateId) (passed hard : Bool) (ps : List QualityPredicate)
    → names id ps ≡ false
    → all_shares (record { id = id; passed = passed; hard = hard } ∷ ps)
      ≡ weights id + all_shares ps
step_up outcome passed hard ps n = ground arith
step_up scope_safety passed hard ps n = ground arith
step_up evidence_cleanup passed hard ps n = ground arith
step_up bounded_process passed hard ps n = ground arith

total-bounded : (ps : List QualityPredicate) → unique_ids ps ≡ true → total ps ≤ all_shares ps
total-bounded [] u = omega arith
total-bounded (p ∷ ps) u = ground (arith, total-bounded ps, step_up p.id p.passed p.hard ps)

-- What the hard predicates add.
abbrev hard_share : PredicateId → List QualityPredicate → ℕ
hard_share id ps = if any (is_hard id) ps then weights id else 0

step_down :
    (id : PredicateId) (passed hard : Bool) (ps : List QualityPredicate)
    → holds (record { id = id; passed = passed; hard = hard }) ≡ true
    → hard_share outcome ps + hard_share scope_safety ps ≤ total ps
    → hard_share outcome (record { id = id; passed = passed; hard = hard } ∷ ps)
        + hard_share scope_safety (record { id = id; passed = passed; hard = hard } ∷ ps)
      ≤ (if passed then weights id else 0) + total ps
step_down outcome passed hard ps h b = ground arith
step_down scope_safety passed hard ps h b = ground arith
step_down evidence_cleanup passed hard ps h b = ground arith
step_down bounded_process passed hard ps h b = ground arith

hard-bounded :
    (ps : List QualityPredicate)
    → all holds ps ≡ true
    → hard_share outcome ps + hard_share scope_safety ps ≤ total ps
hard-bounded [] h = omega arith
hard-bounded (p ∷ ps) h =
    step_down p.id p.passed p.hard ps (ground arith) (hard-bounded ps (ground arith))

-- A score that is calculated fits its own schema (at most 100, and 0 when a hard predicate failed),
-- and is at least 80 when every hard predicate passed.
pub calculate_quality_score-range :
    (ps : List QualityPredicate) (s : QualityScore)
    → calculate_quality_score ps ≡ some s
    → (quality_score_schema s ≡ true)
      × (s.hard_gate_passed ≡ all holds ps)
      × ((s.hard_gate_passed ≡ false) ⊎ (80 ≤ s.score))
unfolding calculate_quality_score predicates_schema quality_score_schema
calculate_quality_score-range ps s e =
    let up = total-bounded ps in
    let down = hard-bounded ps in
    (
      ground (arith, up),
      ground arith,
      elim (Bool-cases s.hard_gate_passed) [
        | inl gate ↦ inr (ground (arith, down))
        | inr gate ↦ inl gate
      ],
    )
