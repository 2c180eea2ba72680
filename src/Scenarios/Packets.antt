-- ===== src/Scenarios/Packets.antt =====
-- Work in two modules, classified, and the packet of a task, compiled.
use omp_lazy.Prelude.{
  some, ◌≡◌, ◌≤◌, ◌⊎◌, refl, Bool, true, false, List, String, [], ◌∷◌, leb, if◌then◌else◌, ◌==◌,
  string_eq,
}
use omp_lazy.Prelude.Result.{ok}
use omp_lazy.Contracts.TaskPacket.{standard, deep, BoundaryTag, tier_budgets, classify_task_tier}
use omp_lazy.Contracts.PacketCompiler.{
  PacketHost, PacketFields, TaskPacketInput, CompiledTaskPacket, test, compile_task_packet,
  canonical_packet, candidate_packet, normalize_tag, tag_name, task_packet_schema, refine_packet,
  fields_schema,
}
use omp_lazy.Contracts.PacketCompiler.Recompilation.{recompiled, compile_task_packet-again}
use omp_lazy.Contracts.PacketCompiler.Canonical.{IsCompiled, compile_task_packet-IsCompiled}
use omp_lazy.Workflow.RiskClassifier.{
  ClassifierInput, module_count, pass, features_of, ordered_unique, tier_of, tag_index,
  classifier_input_schema, risk_tier_ceilings, classify_workflow_risk,
}
use omp_lazy.Workflow.RiskClassifier.Tiers.{
  rank, task_tier, has_more_risk, classify_workflow_risk-task_tier,
}

abbrev by_index : BoundaryTag → BoundaryTag → Bool
by_index t u = leb (tag_index t) (tag_index u)

abbrev work : ClassifierInput
work = record {
  allowed_paths = "src/left" ∷ [];
  module_roots = "src" ∷ "test" ∷ [];
  boundary_tags = BoundaryTag.none ∷ [];
  explicit_review = false;
  mutating = true;
  public_behavior = false;
}

classified :
    classify_workflow_risk by_index work
    ≡ pass standard module_count (features_of by_index work) (risk_tier_ceilings standard)
unfolding classify_workflow_risk tier_of ordered_unique classifier_input_schema
classified = refl

classify_workflow_risk-task_tier_example :
    (risk_tier_ceilings standard ≡ risk_tier_ceilings standard)
    × (rank (task_tier work) ≤ rank standard)
    × ((standard ≡ task_tier work) ⊎ (has_more_risk work ≡ true))
classify_workflow_risk-task_tier_example =
    classify_workflow_risk-task_tier by_index work standard module_count (features_of by_index work)
      (risk_tier_ceilings standard) classified

abbrev host : PacketHost
host = record {
  trim = λ s. s;
  normalize_nfc = λ s. s;
  char_codes = λ s. if s == "a" then 97 ∷ [] else 98 ∷ [];
  lower_underscored = λ s. if s == "External-Write" then "external_write" else s;
  canonical_json = λ p. "json";
  byte_length = λ s. 4;
  sha256 = λ s. "hash";
}

abbrev fields_with : List String → PacketFields
fields_with paths = record {
  run_id = "r1";
  task_id = "t1";
  generation = 1;
  objective = "objective";
  deliverable = "deliverable";
  allowed_paths = paths;
  reference_ids = "plan:t1" ∷ [];
  dependency_ids = [];
  criteria =
      record {
        id = "acceptance";
        scenario = "scenario";
        observable = "observable";
        expected = "expected";
        evidence_logical_id = "t1.result";
      }
      ∷ [];
  public_behavior = false;
  tier = deep;
  budgets = tier_budgets deep;
  evidence_requirements = record { logical_id = "t1.result"; kind = test; required = true } ∷ [];
}

-- The paths are not sorted, and the tags are neither written as names nor all concrete.
abbrev packet_input : TaskPacketInput
packet_input = record {
  fields = fields_with ("b" ∷ "a" ∷ []);
  boundary_tags = "unknown" ∷ "External-Write" ∷ [];
}

abbrev compiled_packet : CompiledTaskPacket
compiled_packet = record {
  packet = record {
    fields = fields_with ("a" ∷ "b" ∷ []);
    boundary_tags = BoundaryTag.external_write ∷ [];
  };
  canonical_json = "json";
  packet_hash = "hash";
  packet_bytes = 4;
}

compiles : compile_task_packet host packet_input ≡ ok compiled_packet
unfolding compile_task_packet canonical_packet candidate_packet task_packet_schema refine_packet
    fields_schema classify_task_tier
compiles = refl

compile_task_packet-IsCompiled_example : IsCompiled host compiled_packet
compile_task_packet-IsCompiled_example =
    compile_task_packet-IsCompiled host packet_input compiled_packet compiles

names-normalize_tag : (b : BoundaryTag) → normalize_tag host (host.trim (tag_name b)) ≡ some b
names-normalize_tag BoundaryTag.none = refl
names-normalize_tag BoundaryTag.unknown = refl
names-normalize_tag BoundaryTag.authorization = refl
names-normalize_tag BoundaryTag.containment = refl
names-normalize_tag BoundaryTag.external_write = refl
names-normalize_tag BoundaryTag.network = refl
names-normalize_tag BoundaryTag.privacy = refl
names-normalize_tag BoundaryTag.security = refl

compile_task_packet-again_example :
    compile_task_packet host (recompiled compiled_packet.packet) ≡ ok compiled_packet
compile_task_packet-again_example =
    compile_task_packet-again host (λ s. refl) (λ s. refl) (λ s. refl) names-normalize_tag
      packet_input compiled_packet compiles
