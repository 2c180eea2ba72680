-- ===== src/Contracts/PacketCompiler.antt =====
-- src/contracts/task-packet.ts and task-packet-canonical.ts: the packet of a task and its compilation.
-- A PacketHost has the functions on texts that the source calls; the format of single texts is left
-- out.
pub mod Canonical
pub mod Sorting
pub mod Texts
pub mod Recompilation
use omp_lazy.Prelude.{
  ℕ, String, Bool, true, false, ◌&&◌, ◌||◌, not, List, [], ◌∷◌, Option, none, some, map, length,
  all, any, filter, if◌then◌else◌, ltb, leb, ◌==◌, string_eq, nat_eq, ◌>>=◌,
}
use omp_lazy.Prelude.Result.{Result, ok, err}
use omp_lazy.State.Codec.{no_duplicates}
use omp_lazy.Contracts.TaskPacket.{
  TaskTier, TierBudget, BoundaryTag, is_concrete, is_none, tier_matches_budget, classify_task_tier,
}

pub record PacketCriterion : Type 0 where
  pub id : String
  pub scenario : String
  pub observable : String
  pub expected : String
  pub evidence_logical_id : String

pub data EvidenceKind : Type 0 where
  artifact test cleanup citation : EvidenceKind

pub record EvidenceRequirement : Type 0 where
  pub logical_id : String
  pub kind : EvidenceKind
  pub required : Bool

-- The fields that a packet and its input share
pub record PacketFields : Type 0 where
  pub run_id : String
  pub task_id : String
  pub generation : ℕ
  pub objective : String
  pub deliverable : String
  pub allowed_paths : List String
  pub reference_ids : List String
  pub dependency_ids : List String
  pub criteria : List PacketCriterion
  pub public_behavior : Bool
  pub tier : TaskTier
  pub budgets : TierBudget
  pub evidence_requirements : List EvidenceRequirement

pub record TaskPacket : Type 0 where
  pub fields : PacketFields
  pub boundary_tags : List BoundaryTag

pub record TaskPacketInput : Type 0 where
  pub fields : PacketFields
  pub boundary_tags : List String

pub record CompiledTaskPacket : Type 0 where
  pub packet : TaskPacket
  pub canonical_json : String
  pub packet_hash : String
  pub packet_bytes : ℕ

pub data PacketError : Type 0 where
  malformed_packet packet_budget_exceeded : PacketError

-- `trim`, `normalize("NFC")`, the character codes of a text, `toLowerCase` with `-` replaced by `_`,
-- `canonicalJson` of a packet, the bytes of a text in UTF-8, and its SHA-256
pub record PacketHost : Type 0 where
  pub trim : String → String
  pub normalize_nfc : String → String
  pub char_codes : String → List ℕ
  pub lower_underscored : String → String
  pub canonical_json : TaskPacket → String
  pub byte_length : String → ℕ
  pub sha256 : String → String

abbrev pub tag_name : BoundaryTag → String
tag_name BoundaryTag.none = "none"
tag_name BoundaryTag.unknown = "unknown"
tag_name BoundaryTag.authorization = "authorization"
tag_name BoundaryTag.containment = "containment"
tag_name BoundaryTag.external_write = "external_write"
tag_name BoundaryTag.network = "network"
tag_name BoundaryTag.privacy = "privacy"
tag_name BoundaryTag.security = "security"

-- `BoundaryTagSchema.safeParse`
abbrev pub parse_tag : String → Option BoundaryTag
parse_tag name =
    if name == "none"
    then some BoundaryTag.none
    else if name == "unknown"
    then some BoundaryTag.unknown
    else if name == "authorization"
    then some BoundaryTag.authorization
    else if name == "containment"
    then some BoundaryTag.containment
    else if name == "external_write"
    then some BoundaryTag.external_write
    else if name == "network"
    then some BoundaryTag.network
    else if name == "privacy"
    then some BoundaryTag.privacy
    else if name == "security"
    then some BoundaryTag.security
    else none

-- `compareOrdinalStrings(left, right) < 0`, on the codes
abbrev pub codes_ltb : List ℕ → List ℕ → Bool
codes_ltb [] [] = false
codes_ltb [] (y ∷ ys) = true
codes_ltb (x ∷ xs) [] = false
codes_ltb (x ∷ xs) (y ∷ ys) = let rest = codes_ltb xs ys in if x == y then rest else ltb x y

abbrev pub logical_id_of : EvidenceRequirement → String
logical_id_of r = r.logical_id

abbrev pub criterion_id_of : PacketCriterion → String
criterion_id_of c = c.id

abbrev pub evidence_id_of : PacketCriterion → String
evidence_id_of c = c.evidence_logical_id

abbrev pub is_required : EvidenceRequirement → Bool
is_required r = r.required

abbrev pub positive_budget : TierBudget → Bool
positive_budget budget = ltb 0 budget.max_calls && ltb 0 budget.max_packet_bytes

abbrev pub sized {ℓ} : {A : Type ℓ} → ℕ → ℕ → List A → Bool
sized least most xs = leb least (length xs) && leb (length xs) most

-- `taskPacketBaseSchema`, without the tags
unfoldable pub fields_schema : PacketFields → Bool
fields_schema f =
    ltb 0 f.generation
    && sized 0 64 f.allowed_paths
    && sized 0 64 f.reference_ids
    && sized 0 32 f.dependency_ids
    && sized 1 6 f.criteria
    && positive_budget f.budgets
    && sized 1 12 f.evidence_requirements

-- `sameStringSet`
abbrev pub contains : List String → String → Bool
contains xs x = any (λ y. y == x) xs

abbrev pub same_string_set : List String → List String → Bool
same_string_set left right = all (contains right) left && all (contains left) right

abbrev pub same_tier : TaskTier → TaskTier → Bool
same_tier TaskTier.fast TaskTier.fast = true
same_tier TaskTier.standard TaskTier.standard = true
same_tier TaskTier.deep TaskTier.deep = true
same_tier _ _ = false

-- A function on each text of a packet but the paths, which have their own
abbrev pub on_criterion : (String → String) → PacketCriterion → PacketCriterion
on_criterion f c = record {
  id = f c.id;
  scenario = f c.scenario;
  observable = f c.observable;
  expected = f c.expected;
  evidence_logical_id = f c.evidence_logical_id;
}

abbrev pub on_requirement : (String → String) → EvidenceRequirement → EvidenceRequirement
on_requirement f r = record r { logical_id = f r.logical_id }

abbrev pub on_fields : (String → String) → (String → String) → PacketFields → PacketFields
on_fields f path x = record x {
  run_id = f x.run_id;
  task_id = f x.task_id;
  objective = f x.objective;
  deliverable = f x.deliverable;
  allowed_paths = map path x.allowed_paths;
  reference_ids = map f x.reference_ids;
  dependency_ids = map f x.dependency_ids;
  criteria = map (on_criterion f) x.criteria;
  evidence_requirements = map (on_requirement f) x.evidence_requirements;
}

module _ (host : PacketHost) where
  abbrev pub ordinal_ltb : String → String → Bool
  ordinal_ltb left right = codes_ltb (host.char_codes left) (host.char_codes right)

  -- `sortedUniqueStrings`
  abbrev pub sorted_unique_strings : List String → Bool
  sorted_unique_strings [] = true
  sorted_unique_strings (x ∷ []) = true
  sorted_unique_strings (x ∷ y ∷ zs) = ordinal_ltb x y && sorted_unique_strings (y ∷ zs)

  -- The sort by a text of each value
  abbrev pub insert_by {ℓ} : {A : Type ℓ} → (A → String) → A → List A → List A
  insert_by key x [] = x ∷ []
  insert_by key x (y ∷ ys) =
      let rest = insert_by key x ys in if ordinal_ltb (key y) (key x) then y ∷ rest else x ∷ y ∷ ys

  abbrev pub sort_by {ℓ} : {A : Type ℓ} → (A → String) → List A → List A
  sort_by key [] = []
  sort_by key (x ∷ xs) = insert_by key x (sort_by key xs)

  abbrev pub sorted_strings : List String → List String
  sorted_strings values = sort_by (λ s. s) values

  -- What a parse makes of the texts: it trims all but the paths.
  abbrev pub trimmed : PacketFields → PacketFields
  trimmed x = on_fields host.trim (λ path. path) x

  -- The refinement of `TaskPacketSchema`
  unfoldable pub refine_packet : TaskPacket → Bool
  refine_packet packet =
      let f = packet.fields in
      let tags = map tag_name packet.boundary_tags in
      no_duplicates f.allowed_paths
      && no_duplicates f.reference_ids
      && no_duplicates tags
      && sorted_unique_strings f.allowed_paths
      && sorted_unique_strings f.reference_ids
      && sorted_unique_strings tags
      && no_duplicates f.dependency_ids
      && no_duplicates (map criterion_id_of f.criteria)
      && no_duplicates (map logical_id_of f.evidence_requirements)
      && not (any is_none packet.boundary_tags && not (length packet.boundary_tags == 1))
      && same_string_set (map evidence_id_of f.criteria)
          (map logical_id_of (filter is_required f.evidence_requirements))
      && tier_matches_budget f.tier f.budgets
      && same_tier (classify_task_tier f.allowed_paths packet.boundary_tags f.public_behavior)
          f.tier

  unfoldable pub task_packet_schema : TaskPacket → Bool
  task_packet_schema packet =
      fields_schema packet.fields && sized 1 8 packet.boundary_tags && refine_packet packet

  abbrev pub normalize_tag : String → Option BoundaryTag
  normalize_tag value = parse_tag (host.lower_underscored (host.trim value))

  abbrev pub cons_tag : Option BoundaryTag → Option (List BoundaryTag) → Option (List BoundaryTag)
  cons_tag none rest = none
  cons_tag (some t) none = none
  cons_tag (some t) (some ts) = some (t ∷ ts)

  -- Every tag normalized, or nothing when one is no tag
  abbrev pub normalize_tags : List String → Option (List BoundaryTag)
  normalize_tags [] = some []
  normalize_tags (t ∷ ts) = cons_tag (normalize_tag t) (normalize_tags ts)

  abbrev pub canonical_tags : List BoundaryTag → List BoundaryTag
  canonical_tags tags =
      if any is_concrete tags
      then sort_by tag_name (filter is_concrete tags)
      else sort_by tag_name tags

  -- The candidate of `canonicalPacket`
  unfoldable pub candidate_packet : PacketFields → List BoundaryTag → TaskPacket
  candidate_packet fields tags =
      let normal = on_fields host.normalize_nfc host.normalize_nfc fields in
      record {
        fields = record normal {
          allowed_paths = sorted_strings normal.allowed_paths;
          reference_ids = sorted_strings normal.reference_ids;
          evidence_requirements = sort_by logical_id_of normal.evidence_requirements;
        };
        boundary_tags = canonical_tags tags;
      }

  -- `safeParse`: the packet with its texts trimmed, when it is within the schema
  abbrev pub parse_packet : TaskPacket → Option TaskPacket
  parse_packet candidate =
      let packet = record candidate { fields = trimmed candidate.fields } in
      if task_packet_schema packet then some packet else none

  unfoldable pub canonical_packet : TaskPacketInput → Option TaskPacket
  canonical_packet input = normalize_tags input.boundary_tags >>= λ tags.
      parse_packet (candidate_packet input.fields tags)

  abbrev pub compile_canonical : Option TaskPacket → Result PacketError CompiledTaskPacket
  compile_canonical none = err malformed_packet
  compile_canonical (some packet) =
      let json = host.canonical_json packet in
      if ltb packet.fields.budgets.max_packet_bytes (host.byte_length json)
      then err packet_budget_exceeded
      else ok (record {
        packet = packet;
        canonical_json = json;
        packet_hash = host.sha256 json;
        packet_bytes = host.byte_length json;
      })

  unfoldable pub compile_task_packet : TaskPacketInput → Result PacketError CompiledTaskPacket
  compile_task_packet input =
      let parsed = record input {
        fields = trimmed input.fields;
        boundary_tags = map host.trim input.boundary_tags;
      } in
      if fields_schema parsed.fields && sized 1 8 parsed.boundary_tags
      then compile_canonical (canonical_packet parsed)
      else err malformed_packet
