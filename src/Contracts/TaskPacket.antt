-- ===== src/Contracts/TaskPacket.antt =====
-- src/contracts/task-packet.ts: the tiers of a task, what each may use, and which a packet gets.
use omp_lazy.Prelude.{
  ℕ, String, Bool, true, false, ◌&&◌, ◌||◌, List, length, any, if◌then◌else◌, ltb, leb, ◌==◌,
  nat_eq,
}

pub data TaskTier : Type 0 where
  fast standard deep : TaskTier

pub record TierBudget : Type 0 where
  pub max_calls : ℕ
  pub max_packet_bytes : ℕ
  pub max_retrieval_calls : ℕ
  pub max_retrieval_bytes : ℕ

-- `TierBudgets`, the products of the source computed
abbrev pub tier_budgets : TaskTier → TierBudget
tier_budgets fast = record {
  max_calls = 3;
  max_packet_bytes = 4096;
  max_retrieval_calls = 4;
  max_retrieval_bytes = 16384;
}
tier_budgets standard = record {
  max_calls = 11;
  max_packet_bytes = 8192;
  max_retrieval_calls = 10;
  max_retrieval_bytes = 65536;
}
tier_budgets deep = record {
  max_calls = 28;
  max_packet_bytes = 12288;
  max_retrieval_calls = 20;
  max_retrieval_bytes = 163840;
}

pub data BoundaryTag : Type 0 where
  none unknown authorization containment external_write network privacy security : BoundaryTag

-- `tag !== "none" && tag !== "unknown"`
abbrev pub is_concrete : BoundaryTag → Bool
is_concrete BoundaryTag.none = false
is_concrete BoundaryTag.unknown = false
is_concrete _ = true

abbrev pub is_unknown : BoundaryTag → Bool
is_unknown BoundaryTag.unknown = true
is_unknown _ = false

abbrev pub is_none : BoundaryTag → Bool
is_none BoundaryTag.none = true
is_none _ = false

abbrev pub tier_matches_budget : TaskTier → TierBudget → Bool
tier_matches_budget tier budget =
    let expected = tier_budgets tier in
    budget.max_calls == expected.max_calls
    && budget.max_packet_bytes == expected.max_packet_bytes
    && budget.max_retrieval_calls == expected.max_retrieval_calls
    && budget.max_retrieval_bytes == expected.max_retrieval_bytes

-- `classifyTaskTier` of a packet's paths, boundary tags and public behaviour
unfoldable pub classify_task_tier : List String → List BoundaryTag → Bool → TaskTier
classify_task_tier allowed_paths boundary_tags public_behavior =
    if any is_concrete boundary_tags || ltb 8 (length allowed_paths)
    then deep
    else if any is_unknown boundary_tags || leb 3 (length allowed_paths) || public_behavior
    then standard
    else fast
