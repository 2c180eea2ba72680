-- ===== src/Contracts/PacketCompiler/Canonical.antt =====
-- task-packet.ts: what a compiled packet is.
use omp_lazy.Prelude.{
  ◌≡◌, ◌≤◌, refl, subst, true, ◌&&◌, Option, none, some, map, ltb, string_eq, nat_eq, nat_beq_iff,
  arith, inl, inr, Bool-cases, Option-cases,
}
use omp_lazy.Prelude.Result.{ok}
use omp_lazy.Contracts.TaskPacket.{TaskTier, tier_budgets, classify_task_tier}
use omp_lazy.Contracts.PacketCompiler.{
  PacketHost, TaskPacket, TaskPacketInput, CompiledTaskPacket, fields_schema, sized, same_tier,
  task_packet_schema, refine_packet, parse_packet, canonical_packet, compile_canonical,
  compile_task_packet, trimmed, normalize_tags, candidate_packet,
}

same_tier-eq : (s t : TaskTier) → same_tier s t ≡ true → s ≡ t
same_tier-eq TaskTier.fast TaskTier.fast e = refl
same_tier-eq TaskTier.standard TaskTier.standard e = refl
same_tier-eq TaskTier.deep TaskTier.deep e = refl
same_tier-eq TaskTier.fast TaskTier.standard e = cc
same_tier-eq TaskTier.fast TaskTier.deep e = cc
same_tier-eq TaskTier.standard TaskTier.fast e = cc
same_tier-eq TaskTier.standard TaskTier.deep e = cc
same_tier-eq TaskTier.deep TaskTier.fast e = cc
same_tier-eq TaskTier.deep TaskTier.standard e = cc

module _ (host : PacketHost) where
  -- A packet within its schema, of the tier that its own paths and tags give, whose JSON is what was
  -- hashed and fits the tier.
  pub record IsCompiled (c : CompiledTaskPacket) : Type 0 where
    pub schema : task_packet_schema host c.packet ≡ true
    pub json : c.canonical_json ≡ host.canonical_json c.packet
    pub hash : c.packet_hash ≡ host.sha256 c.canonical_json
    pub tier :
        classify_task_tier c.packet.fields.allowed_paths c.packet.boundary_tags
          c.packet.fields.public_behavior
        ≡ c.packet.fields.tier
    pub bytes : c.packet_bytes ≡ host.byte_length c.canonical_json
    pub fits : c.packet_bytes ≤ (tier_budgets c.packet.fields.tier).max_packet_bytes

  parse_packet-schema :
      (candidate p : TaskPacket)
      → parse_packet host candidate ≡ some p
      → task_packet_schema host p ≡ true
  parse_packet-schema candidate p e =
      let q : TaskPacket = record candidate { fields = trimmed host candidate.fields } in
      elim (Bool-cases (task_packet_schema host q)) [
        | inl y ↦
            let made : q ≡ p = ground (arith, y) in
            subst (λ x. task_packet_schema host x ≡ true) made y
        | inr n ↦ absurd (ground (arith, n))
      ]

  canonical_packet-schema :
      (input : TaskPacketInput) (p : TaskPacket)
      → canonical_packet host input ≡ some p
      → task_packet_schema host p ≡ true
  unfolding canonical_packet
  canonical_packet-schema input p e =
      elim (Option-cases (normalize_tags host input.boundary_tags)) [
        | inl absent ↦ absurd (ground (arith, absent))
        | inr (tags, f) ↦
            parse_packet-schema (candidate_packet host input.fields tags) p (ground (arith, f))
      ]

  schema-budget :
      (p : TaskPacket)
      → task_packet_schema host p ≡ true
      → (p.fields.budgets.max_packet_bytes ≡ (tier_budgets p.fields.tier).max_packet_bytes)
        × (classify_task_tier p.fields.allowed_paths p.boundary_tags p.fields.public_behavior
            ≡ p.fields.tier)
  unfolding task_packet_schema refine_packet
  schema-budget p s = (
    ground (
      arith,
      nat_beq_iff p.fields.budgets.max_packet_bytes (tier_budgets p.fields.tier).max_packet_bytes,
    ),
    same_tier-eq _ p.fields.tier (ground arith),
  )

  abbrev pub compiled : TaskPacket → CompiledTaskPacket
  compiled p =
      let json = host.canonical_json p in
      record {
        packet = p;
        canonical_json = json;
        packet_hash = host.sha256 json;
        packet_bytes = host.byte_length json;
      }

  compile_canonical-IsCompiled :
      (o : Option TaskPacket) (c : CompiledTaskPacket)
      → ((p : TaskPacket) → o ≡ some p → task_packet_schema host p ≡ true)
      → compile_canonical host o ≡ ok c
      → IsCompiled c
  compile_canonical-IsCompiled none c h e = absurd (ground arith)
  compile_canonical-IsCompiled (some p) c h e =
      let json = host.canonical_json p in
      let (budget, tier) = schema-budget p (h p refl) in
      elim (Bool-cases (ltb p.fields.budgets.max_packet_bytes (host.byte_length json))) [
        | inl over ↦ absurd (ground (arith, over))
        | inr within ↦
            let d : CompiledTaskPacket = compiled p in
            let made : d ≡ c = ground (arith, within) in
            subst IsCompiled made (record {
              schema = h p refl;
              json = refl;
              hash = refl;
              tier = tier;
              bytes = refl;
              fits = ground (arith, within, budget);
            })
      ]

  -- A packet that compiles is within its schema, sorted and without repetitions, has the tier that
  -- its own paths, tags and public behaviour give, and its canonical JSON, which is what the hash is
  -- of, has no more bytes than that tier allows.
  pub compile_task_packet-IsCompiled :
      (input : TaskPacketInput) (c : CompiledTaskPacket)
      → compile_task_packet host input ≡ ok c
      → IsCompiled c
  unfolding compile_task_packet
  compile_task_packet-IsCompiled input c e =
      let parsed : TaskPacketInput = record {
        fields = trimmed host input.fields;
        boundary_tags = map host.trim input.boundary_tags;
      } in
      elim (Bool-cases (fields_schema parsed.fields && sized 1 8 parsed.boundary_tags)) [
        | inl y ↦
            compile_canonical-IsCompiled (canonical_packet host parsed) c
              (canonical_packet-schema parsed) (ground (arith, y))
        | inr n ↦ absurd (ground (arith, n))
      ]
