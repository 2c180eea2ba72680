-- ===== src/Workflow/RiskClassifier/Tiers.antt =====
-- risk-classifier.ts and task-packet.ts: the two classifications of one piece of work.
use omp_lazy.Prelude.{
  ℕ, ◌≡◌, ◌≤◌, refl, sym, ap, subst, ◌∙◌, String, Bool, true, false, ◌&&◌, ◌||◌, not, List, [], ◌∷◌,
  length, any, filter, ltb, ◌==◌, nat_eq, nat_beq_iff, arith, ◌⊎◌, inl, inr, Bool-cases,
}
use omp_lazy.Contracts.TaskPacket.{
  TaskTier, fast, standard, deep, BoundaryTag, is_concrete, is_unknown, classify_task_tier,
}
use omp_lazy.Workflow.RiskClassifier.{
  ClassifierInput, classifier_input_schema, is_empty, unique_tags, insert_tag, sort_tags,
  ordered_unique, features_of, tier_of, pass, RiskReason, RiskFeatures, TierCeiling,
  classify_workflow_risk, tag_index, risk_tier_ceilings,
}

abbrev pub rank : TaskTier → ℕ
rank fast = 0
rank standard = 1
rank deep = 2

-- What only the classifier of workflows looks at
abbrev pub has_more_risk : ClassifierInput → Bool
has_more_risk input =
    input.explicit_review
    || ltb 1 (length input.module_roots)
    || input.mutating && is_empty input.allowed_paths

any-insert_tag :
    (le : BoundaryTag → BoundaryTag → Bool) (p : BoundaryTag → Bool) (t : BoundaryTag)
    (ts : List BoundaryTag)
    → any p (insert_tag le t ts) ≡ p t || any p ts
any-insert_tag le p t [] = refl
any-insert_tag le p t (u ∷ us) = ground (arith, any-insert_tag le p t us)

any-sort_tags :
    (le : BoundaryTag → BoundaryTag → Bool) (p : BoundaryTag → Bool) (ts : List BoundaryTag)
    → any p (sort_tags le ts) ≡ any p ts
any-sort_tags le p [] = refl
any-sort_tags le p (t ∷ ts) =
    any-insert_tag le p t (sort_tags le ts) ∙ ap (λ b. p t || b) (any-sort_tags le p ts)

unknown_index : (t : BoundaryTag) → (tag_index t == 1) ≡ is_unknown t
unknown_index BoundaryTag.none = refl
unknown_index BoundaryTag.unknown = refl
unknown_index BoundaryTag.authorization = refl
unknown_index BoundaryTag.containment = refl
unknown_index BoundaryTag.external_write = refl
unknown_index BoundaryTag.network = refl
unknown_index BoundaryTag.privacy = refl
unknown_index BoundaryTag.security = refl

any-filter_other :
    (t : BoundaryTag) (ts : List BoundaryTag)
    → is_unknown t ≡ false
    → any is_unknown (filter (λ u. not (tag_index u == tag_index t)) ts) ≡ any is_unknown ts
any-filter_other t [] n = refl
any-filter_other t (u ∷ us) n = ground (
  arith,
  any-filter_other t us n,
  unknown_index t,
  unknown_index u,
  nat_beq_iff (tag_index u) (tag_index t),
)

any-unique_tags : (ts : List BoundaryTag) → any is_unknown (unique_tags ts) ≡ any is_unknown ts
any-unique_tags [] = refl
any-unique_tags (t ∷ ts) = elim (Bool-cases (is_unknown t)) [
  | inl y ↦ ground (arith, y)
  | inr n ↦ ground (arith, n, any-filter_other t (unique_tags ts) n, any-unique_tags ts)
]

filter-is_empty :
    (ts : List BoundaryTag) → is_empty (filter is_concrete ts) ≡ not (any is_concrete ts)
filter-is_empty [] = refl
filter-is_empty (t ∷ ts) = ground (arith, filter-is_empty ts)

unknown_left :
    (le : BoundaryTag → BoundaryTag → Bool) (input : ClassifierInput)
    → any is_concrete input.boundary_tags ≡ false
    → any is_unknown (features_of le input).boundary_tags ≡ any is_unknown input.boundary_tags
unfolding ordered_unique
unknown_left le input n =
    let empty : is_empty (filter is_concrete input.boundary_tags) ≡ true =
      filter-is_empty input.boundary_tags ∙ ap not n in
    rw empty (
      any-sort_tags le is_unknown (unique_tags input.boundary_tags)
      ∙ any-unique_tags input.boundary_tags)

is_empty-length : (xs : List String) → is_empty xs ≡ (length xs == 0)
is_empty-length [] = refl
is_empty-length (x ∷ xs) = ground arith

abbrev pub task_tier : ClassifierInput → TaskTier
task_tier input = classify_task_tier input.allowed_paths input.boundary_tags input.public_behavior

tier_of-task_tier :
    (le : BoundaryTag → BoundaryTag → Bool) (input : ClassifierInput)
    → (rank (task_tier input) ≤ rank (tier_of le input).0)
      × (((tier_of le input).0 ≡ task_tier input) ⊎ (has_more_risk input ≡ true))
unfolding tier_of classify_task_tier
tier_of-task_tier le input = elim (Bool-cases (any is_concrete input.boundary_tags)) [
  | inl y ↦
      let some_left : is_empty (filter is_concrete input.boundary_tags) ≡ false =
        filter-is_empty input.boundary_tags ∙ ap not y in
      ground (arith, y, some_left)
  | inr n ↦
      let none_left : is_empty (filter is_concrete input.boundary_tags) ≡ true =
        filter-is_empty input.boundary_tags ∙ ap not n in
      let same = unknown_left le input n in
      let path_count = is_empty-length input.allowed_paths in
      ground (arith, n, none_left, same, path_count)
]

-- Work that is classified gets the ceilings of its tier, a tier not below that of a packet with its
-- paths, tags and public behaviour, and the same tier unless there is an explicit review, more than
-- one module root, or a mutation without paths.
pub classify_workflow_risk-task_tier :
    (locale_leb : BoundaryTag → BoundaryTag → Bool) (input : ClassifierInput) (tier : TaskTier)
    (reason : RiskReason) (features : RiskFeatures) (ceilings : TierCeiling)
    → classify_workflow_risk locale_leb input ≡ pass tier reason features ceilings
    → (ceilings ≡ risk_tier_ceilings tier)
      × (rank (task_tier input) ≤ rank tier)
      × ((tier ≡ task_tier input) ⊎ (has_more_risk input ≡ true))
unfolding classify_workflow_risk
classify_workflow_risk-task_tier le input tier reason features ceilings e =
    let (below, same) = tier_of-task_tier le input in
    elim (Bool-cases (classifier_input_schema input)) [
      | inl y ↦
          let t : (tier_of le input).0 ≡ tier = ground (arith, y) in
          let c : risk_tier_ceilings (tier_of le input).0 ≡ ceilings = ground (arith, y) in
          (
            sym c ∙ ap risk_tier_ceilings t,
            subst (λ x. rank (task_tier input) ≤ rank x) t below,
            subst (λ x. (x ≡ task_tier input) ⊎ (has_more_risk input ≡ true)) t same,
          )
      | inr n ↦ absurd (ground (arith, n))
    ]
