-- ===== src/Workflow/RiskClassifier.antt =====
-- src/workflows/risk-classifier.ts: the tier of a piece of work before it has a packet. The format
-- of single paths is left out; `localeCompare` of two tags is a parameter.
pub mod Tiers
use omp_lazy.Prelude.{
  ℕ, String, Bool, true, false, ◌&&◌, ◌||◌, not, List, [], ◌∷◌, length, any, filter, if◌then◌else◌,
  ltb, leb, ◌==◌, nat_eq,
}
use omp_lazy.State.Codec.{no_duplicates}
use omp_lazy.Contracts.TaskPacket.{
  TaskTier, fast, standard, deep, TierBudget, tier_budgets, BoundaryTag, is_concrete, is_unknown,
  is_none,
}

pub record ClassifierInput : Type 0 where
  pub allowed_paths : List String
  pub module_roots : List String
  pub boundary_tags : List BoundaryTag
  pub explicit_review : Bool
  pub mutating : Bool
  pub public_behavior : Bool

abbrev pub is_empty {ℓ} : {A : Type ℓ} → List A → Bool
is_empty [] = true
is_empty (x ∷ xs) = false

unfoldable pub classifier_input_schema : ClassifierInput → Bool
classifier_input_schema input =
    leb (length input.allowed_paths) 64
    && leb (length input.module_roots) 64
    && leb 1 (length input.boundary_tags)
    && leb (length input.boundary_tags) 8
    && no_duplicates input.allowed_paths
    && no_duplicates input.module_roots
    && not (is_empty input.allowed_paths && not (is_empty input.module_roots))
    && not (any is_none input.boundary_tags && not (length input.boundary_tags == 1))

pub data CriticPolicy : Type 0 where
  never after_deterministic_failure required : CriticPolicy

pub record TierCeiling : Type 0 where
  pub budget : TierBudget
  pub max_active_packets : ℕ
  pub max_semantic_roles_per_packet : ℕ
  pub critic_policy : CriticPolicy

unfoldable pub risk_tier_ceilings : TaskTier → TierCeiling
risk_tier_ceilings fast = record {
  budget = tier_budgets fast;
  max_active_packets = 1;
  max_semantic_roles_per_packet = 1;
  critic_policy = never;
}
risk_tier_ceilings standard = record {
  budget = tier_budgets standard;
  max_active_packets = 2;
  max_semantic_roles_per_packet = 2;
  critic_policy = after_deterministic_failure;
}
risk_tier_ceilings deep = record {
  budget = tier_budgets deep;
  max_active_packets = 4;
  max_semantic_roles_per_packet = 3;
  critic_policy = required;
}

pub data RiskReason : Type 0 where
  concrete_boundary explicit_review file_count unknown_boundary module_count : RiskReason
  public_behavior unknown_mutation_path bounded_local : RiskReason

pub record RiskFeatures : Type 0 where
  pub file_count : ℕ
  pub module_count : ℕ
  pub boundary_tags : List BoundaryTag
  pub explicit_review : Bool
  pub mutating : Bool
  pub public_behavior : Bool

pub data RiskClassificationReceipt : Type 0 where
  pass : TaskTier → RiskReason → RiskFeatures → TierCeiling → RiskClassificationReceipt
  blocked : RiskClassificationReceipt

abbrev pub tag_index : BoundaryTag → ℕ
tag_index BoundaryTag.none = 0
tag_index BoundaryTag.unknown = 1
tag_index BoundaryTag.authorization = 2
tag_index BoundaryTag.containment = 3
tag_index BoundaryTag.external_write = 4
tag_index BoundaryTag.network = 5
tag_index BoundaryTag.privacy = 6
tag_index BoundaryTag.security = 7

-- `[...new Set(values)]`, and the sort by `localeCompare`
abbrev pub unique_tags : List BoundaryTag → List BoundaryTag
unique_tags [] = []
unique_tags (t ∷ ts) = t ∷ filter (λ u. not (tag_index u == tag_index t)) (unique_tags ts)

module _ (locale_leb : BoundaryTag → BoundaryTag → Bool) where
  abbrev pub insert_tag : BoundaryTag → List BoundaryTag → List BoundaryTag
  insert_tag t [] = t ∷ []
  insert_tag t (u ∷ us) =
      let rest = insert_tag t us in if locale_leb t u then t ∷ u ∷ us else u ∷ rest

  abbrev pub sort_tags : List BoundaryTag → List BoundaryTag
  sort_tags [] = []
  sort_tags (t ∷ ts) = insert_tag t (sort_tags ts)

  unfoldable pub ordered_unique : List BoundaryTag → List BoundaryTag
  ordered_unique tags = sort_tags (unique_tags tags)

  abbrev pub features_of : ClassifierInput → RiskFeatures
  features_of input =
      let concrete_tags = filter is_concrete input.boundary_tags in
      record {
        file_count = length input.allowed_paths;
        module_count = length input.module_roots;
        boundary_tags =
            ordered_unique (if is_empty concrete_tags then input.boundary_tags else concrete_tags);
        explicit_review = input.explicit_review;
        mutating = input.mutating;
        public_behavior = input.public_behavior;
      }

  -- The tier and its reason
  unfoldable pub tier_of : ClassifierInput → TaskTier × RiskReason
  tier_of input =
      let features = features_of input in
      if not (is_empty (filter is_concrete input.boundary_tags))
      then (deep, concrete_boundary)
      else if input.explicit_review
      then (deep, explicit_review)
      else if ltb 8 features.file_count
      then (deep, file_count)
      else if any is_unknown features.boundary_tags
      then (standard, unknown_boundary)
      else if leb 3 features.file_count
      then (standard, file_count)
      else if ltb 1 features.module_count
      then (standard, module_count)
      else if features.public_behavior
      then (standard, public_behavior)
      else if features.mutating && features.file_count == 0
      then (standard, unknown_mutation_path)
      else (fast, bounded_local)

  unfoldable pub classify_workflow_risk : ClassifierInput → RiskClassificationReceipt
  classify_workflow_risk input =
      let (tier, reason) = tier_of input in
      if classifier_input_schema input
      then pass tier reason (features_of input) (risk_tier_ceilings tier)
      else blocked
