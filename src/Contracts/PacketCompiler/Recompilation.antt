-- ===== src/Contracts/PacketCompiler/Recompilation.antt =====
-- task-packet.ts: a compiled packet, compiled again.
use omp_lazy.Prelude.{
  suc, ltb, length, String, ◌≡◌, refl, ap, subst, ◌∙◌, true, false, ◌&&◌, List, [], ◌∷◌, none, some,
  map, any, filter, All, if◌then◌else◌, arith, inl, inr, Bool-cases, Option-cases, ◌>>=◌,
}
use omp_lazy.Prelude.Result.{Result, ok, err}
use omp_lazy.Contracts.TaskPacket.{BoundaryTag, is_concrete}
use omp_lazy.Contracts.PacketCompiler.{
  PacketHost, PacketFields, TaskPacket, TaskPacketInput, CompiledTaskPacket, PacketError,
  malformed_packet, tag_name, sort_by, trimmed, task_packet_schema, fields_schema, sized,
  normalize_tag, normalize_tags, canonical_tags, candidate_packet, parse_packet, canonical_packet,
  compile_canonical, compile_task_packet,
}
use omp_lazy.Contracts.PacketCompiler.Canonical.{compiled}
use omp_lazy.Contracts.PacketCompiler.Sorting.{All-sort_by, sort_by-in_order, in_order-sort_by}
use omp_lazy.Contracts.PacketCompiler.Texts.{final, final_trimmed, final_again}

abbrev pub recompiled : TaskPacket → TaskPacketInput
recompiled p = record { fields = p.fields; boundary_tags = map tag_name p.boundary_tags }

module _ (host : PacketHost) (trim_twice : (s : String) → host.trim (host.trim s) ≡ host.trim s)
    (nfc_twice : (s : String) → host.normalize_nfc (host.normalize_nfc s) ≡ host.normalize_nfc s)
    (nfc_trimmed : (s : String)
      → host.trim (host.normalize_nfc (host.trim s)) ≡ host.normalize_nfc (host.trim s)) where
  concrete_each : (ts : List BoundaryTag) → All (λ x. is_concrete x ≡ true) (filter is_concrete ts)
  concrete_each [] = tt
  concrete_each (x ∷ ts) = elim (Bool-cases (is_concrete x)) [
    | inl y ↦ (let rest = concrete_each ts in rw y (y, rest))
    | inr y ↦ (let rest = concrete_each ts in rw y rest)
  ]

  filter_fixed :
      (ts : List BoundaryTag) → All (λ x. is_concrete x ≡ true) ts → filter is_concrete ts ≡ ts
  filter_fixed [] h = refl
  filter_fixed (x ∷ ts) (hx, h) = ground (arith, hx, filter_fixed ts h)

  none_concrete :
      (ts : List BoundaryTag) → any is_concrete ts ≡ false → All (λ x. is_concrete x ≡ false) ts
  none_concrete [] h = tt
  none_concrete (x ∷ ts) h = (ground (arith, h), none_concrete ts (ground (arith, h)))

  any_none :
      (ts : List BoundaryTag) → All (λ x. is_concrete x ≡ false) ts → any is_concrete ts ≡ false
  any_none [] h = refl
  any_none (x ∷ ts) (hx, h) = ground (arith, hx, any_none ts h)

  sort_tags_again :
      (ts : List BoundaryTag)
      → sort_by host tag_name (sort_by host tag_name ts) ≡ sort_by host tag_name ts
  sort_tags_again ts =
      sort_by-in_order host tag_name (sort_by host tag_name ts) (in_order-sort_by host tag_name ts)

  canonical_tags_again :
      (ts : List BoundaryTag)
      → canonical_tags host (canonical_tags host ts) ≡ canonical_tags host ts
  canonical_tags_again ts = elim (Bool-cases (any is_concrete ts)) [
    | inr no_one ↦
        let sorted = sort_by host tag_name ts in
        let still =
          any_none sorted
            (All-sort_by host tag_name (λ x. is_concrete x ≡ false) ts (none_concrete ts no_one)) in
        let again = sort_tags_again ts in rw (no_one, still) again
    | inl some_one ↦
        let kept = filter is_concrete ts in
        let sorted = sort_by host tag_name kept in
        let whole =
          filter_fixed sorted
            (All-sort_by host tag_name (λ x. is_concrete x ≡ true) kept (concrete_each ts)) in
        let again = sort_tags_again kept in
        elim (Bool-cases (any is_concrete sorted)) [
          | inl y ↦ rw (some_one, y, whole) again
          | inr y ↦ rw (some_one, y) again
        ]
  ]

  module _
      (tag_text : (b : BoundaryTag) → normalize_tag host (host.trim (tag_name b)) ≡ some b) where
    normalize_tags-names :
        (ts : List BoundaryTag) → normalize_tags host (map host.trim (map tag_name ts)) ≡ some ts
    normalize_tags-names [] = refl
    normalize_tags-names (b ∷ ts) =
        (let rest = normalize_tags-names ts in rw (tag_text b, rest) refl)

    length-names : (ts : List BoundaryTag) → length (map host.trim (map tag_name ts)) ≡ length ts
    length-names [] = refl
    length-names (b ∷ ts) = ap suc (length-names ts)

    abbrev packet_of : PacketFields → List BoundaryTag → TaskPacket
    packet_of x tags = record { fields = x; boundary_tags = tags }

    -- What the compilation makes of parsed fields and tags
    abbrev compile_parsed : PacketFields → List String → Result PacketError CompiledTaskPacket
    compile_parsed x names =
        if fields_schema x && sized 1 8 names
        then compile_canonical host
            (normalize_tags host names >>= λ tags. parse_packet host (candidate_packet host x tags))
        else err malformed_packet

    schema-parts :
        (p : TaskPacket)
        → task_packet_schema host p ≡ true
        → (fields_schema p.fields && sized 1 8 (map host.trim (map tag_name p.boundary_tags)))
          ≡ true
    unfolding task_packet_schema
    schema-parts p s = let k = length-names p.boundary_tags in rw k (ground (arith, s))

    parse_packet-final :
        (h : PacketFields) (tags : List BoundaryTag)
        → task_packet_schema host (packet_of (final host trim_twice nfc_twice nfc_trimmed h) tags)
          ≡ true
        → parse_packet host (packet_of (final host trim_twice nfc_twice nfc_trimmed h) tags)
          ≡ some (packet_of (final host trim_twice nfc_twice nfc_trimmed h) tags)
    parse_packet-final h tags s =
        let whole = some (packet_of (final host trim_twice nfc_twice nfc_trimmed h) tags) in
        ap
          (λ x.
            if task_packet_schema host (packet_of x tags) then some (packet_of x tags) else none)
          (final_trimmed host trim_twice nfc_twice nfc_trimmed h)
        ∙ rw s refl

    compile_parsed-final :
        (h : PacketFields) (tags : List BoundaryTag)
        → let ctags = canonical_tags host tags in
          task_packet_schema host (packet_of (final host trim_twice nfc_twice nfc_trimmed h) ctags)
            ≡ true
          → compile_parsed
              (trimmed host (final host trim_twice nfc_twice nfc_trimmed h))
              (map host.trim (map tag_name ctags))
            ≡ compile_canonical host
                (some (packet_of (final host trim_twice nfc_twice nfc_trimmed h) ctags))
    compile_parsed-final h tags s =
        let ctags = canonical_tags host tags in
        let names = map host.trim (map tag_name ctags) in
        let fits =
          schema-parts (packet_of (final host trim_twice nfc_twice nfc_trimmed h) ctags) s in
        let read = normalize_tags-names ctags in
        let made : candidate_packet host (final host trim_twice nfc_twice nfc_trimmed h) ctags
            ≡ packet_of (final host trim_twice nfc_twice nfc_trimmed h) ctags =
          final_again host trim_twice nfc_twice nfc_trimmed h ctags
          ∙ ap (packet_of (final host trim_twice nfc_twice nfc_trimmed h))
              (canonical_tags_again tags) in
        let opened : compile_parsed (final host trim_twice nfc_twice nfc_trimmed h) names
            ≡ compile_canonical host (
                parse_packet host
                  (candidate_packet host (final host trim_twice nfc_twice nfc_trimmed h) ctags)) =
          rw (fits, read) refl in
        ap (λ x. compile_parsed x names) (final_trimmed host trim_twice nfc_twice nfc_trimmed h)
        ∙ opened
        ∙ ap (λ q. compile_canonical host (parse_packet host q)) made
        ∙ ap (compile_canonical host) (parse_packet-final h ctags s)

    compile_canonical-packet :
        (p : TaskPacket) (c : CompiledTaskPacket)
        → compile_canonical host (some p) ≡ ok c
        → p ≡ c.packet
    compile_canonical-packet p c e =
        elim (Bool-cases
          (ltb p.fields.budgets.max_packet_bytes (host.byte_length (host.canonical_json p)))) [
            | inl over ↦ absurd (ground (arith, over))
            | inr within ↦
                let made : compiled host p ≡ c = ground (arith, within) in ap (λ x. x.packet) made
          ]

    -- The packet that a compilation gives compiles to itself, with the same JSON and hash, when a
    -- trim and a normalization done twice are done once, a trimmed text stays trimmed under
    -- normalization, and the trim and the lowering leave the names of the tags alone.
    pub compile_task_packet-again :
        (input : TaskPacketInput) (c : CompiledTaskPacket)
        → compile_task_packet host input ≡ ok c
        → compile_task_packet host (recompiled c.packet) ≡ ok c
    unfolding compile_task_packet canonical_packet candidate_packet
    compile_task_packet-again input c e =
        let names = map host.trim input.boundary_tags in
        elim (Bool-cases (fields_schema (trimmed host input.fields) && sized 1 8 names)) [
          | inr wrong ↦ absurd (ground (arith, wrong))
          | inl y ↦ elim (Option-cases (normalize_tags host names)) [
            | inl absent ↦ absurd (ground (arith, y, absent))
            | inr (tags, read) ↦
                let p =
                  packet_of (final host trim_twice nfc_twice nfc_trimmed input.fields)
                    (canonical_tags host tags) in
                elim (Bool-cases (task_packet_schema host p)) [
                  | inr unfit ↦ absurd (ground (arith, y, read, unfit))
                  | inl fit ↦
                      let compiles : compile_canonical host (some p) ≡ ok c =
                        ground (arith, y, read, fit) in
                      let same = compile_canonical-packet p c compiles in
                      subst (λ q. compile_task_packet host (recompiled q) ≡ ok c) same
                        (compile_parsed-final input.fields tags fit ∙ compiles)
                ]
          ]
        ]
