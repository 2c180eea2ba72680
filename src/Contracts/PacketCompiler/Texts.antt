-- ===== src/Contracts/PacketCompiler/Texts.antt =====
-- task-packet.ts: the texts of a compiled packet, which a second compilation leaves alone.
use omp_lazy.Prelude.{String, ◌≡◌, refl, sym, ap, ◌∙◌, List, [], map, All}
use omp_lazy.Contracts.TaskPacket.{BoundaryTag}
use omp_lazy.Contracts.PacketCompiler.{
  PacketHost, PacketFields, PacketCriterion, EvidenceRequirement, logical_id_of, sort_by,
  sorted_strings, on_criterion, on_requirement, on_fields, trimmed, canonical_tags,
  candidate_packet,
}
use omp_lazy.Contracts.PacketCompiler.Sorting.{
  map-fixed, All-map, All-map_from, All-sort_by, sort_by-in_order, in_order-sort_by,
}

on_fields-fixed :
    (f path : String → String) (x : PacketFields)
    → f x.run_id ≡ x.run_id
    → f x.task_id ≡ x.task_id
    → f x.objective ≡ x.objective
    → f x.deliverable ≡ x.deliverable
    → map path x.allowed_paths ≡ x.allowed_paths
    → map f x.reference_ids ≡ x.reference_ids
    → map f x.dependency_ids ≡ x.dependency_ids
    → map (on_criterion f) x.criteria ≡ x.criteria
    → map (on_requirement f) x.evidence_requirements ≡ x.evidence_requirements
    → on_fields f path x ≡ x
on_fields-fixed f path x a b c d e g h i j = rw (a, b, c, d, e, g, h, i, j) refl

-- Two functions like the trim and the normalization of a text
module _ {A : Type 0} (host : PacketHost) (t n : A → A) (twice : (x : A) → t (t x) ≡ t x)
    (again : (x : A) → n (n x) ≡ n x) (kept : (x : A) → t (n (t x)) ≡ n (t x)) where
  trims : (ys : List A) → map t (map t ys) ≡ map t ys
  trims ys = map-fixed t (map t ys) (All-map t (λ x. t x ≡ x) ys twice)

  -- A value of the form `n (t x)` stays as it is under both.
  n-kept : (xs : List A) → All (λ y. n (t y) ≡ t y) (map n (map t xs))
  n-kept xs =
      All-map_from n (λ y. n (t y) ≡ t y) (map t xs)
        (All-map t (λ y. n (t (n y)) ≡ t (n y)) xs
          (λ x. ap n (kept x) ∙ again (t x) ∙ sym (kept x)))

  t-kept : (xs : List A) → All (λ y. t y ≡ y) (map n (map t xs))
  t-kept xs = All-map_from n (λ y. t y ≡ y) (map t xs) (All-map t (λ y. t (n y) ≡ n y) xs kept)

  normal_each : (ys : List A) → All (λ y. n (t y) ≡ t y) ys → map n (map t ys) ≡ map t ys
  normal_each ys h = map-fixed n (map t ys) (All-map_from t (λ y. n y ≡ y) ys h)

  normal_plain : (xs : List A) → map n (map t (map n (map t xs))) ≡ map t (map n (map t xs))
  normal_plain xs = normal_each (map n (map t xs)) (n-kept xs)

  module _ (key : A → String) where
    normal_sorted :
        (xs : List A)
        → map n (map t (sort_by host key (map n (map t xs))))
          ≡ map t (sort_by host key (map n (map t xs)))
    normal_sorted xs =
        normal_each (sort_by host key (map n (map t xs)))
          (All-sort_by host key (λ y. n (t y) ≡ t y) (map n (map t xs)) (n-kept xs))

    sorted_again :
        (xs : List A)
        → sort_by host key (map t (sort_by host key (map n (map t xs))))
          ≡ map t (sort_by host key (map n (map t xs)))
    sorted_again xs =
        let sorted = sort_by host key (map n (map t xs)) in
        let plain : map t sorted ≡ sorted =
          map-fixed t sorted (All-sort_by host key (λ y. t y ≡ y) (map n (map t xs)) (t-kept xs)) in
        ap (sort_by host key) plain
        ∙ sort_by-in_order host key sorted (in_order-sort_by host key (map n (map t xs)))
        ∙ sym plain

abbrev sorted_fields : PacketHost → PacketFields → PacketFields
sorted_fields host x = record x {
  allowed_paths = sorted_strings host x.allowed_paths;
  reference_ids = sorted_strings host x.reference_ids;
  evidence_requirements = sort_by host logical_id_of x.evidence_requirements;
}

sorted_fields-fixed :
    (host : PacketHost) (x : PacketFields)
    → sorted_strings host x.allowed_paths ≡ x.allowed_paths
    → sorted_strings host x.reference_ids ≡ x.reference_ids
    → sort_by host logical_id_of x.evidence_requirements ≡ x.evidence_requirements
    → sorted_fields host x ≡ x
sorted_fields-fixed host x a b c = rw (a, b, c) refl

module _ (host : PacketHost) (trim_twice : (s : String) → host.trim (host.trim s) ≡ host.trim s)
    (nfc_twice : (s : String) → host.normalize_nfc (host.normalize_nfc s) ≡ host.normalize_nfc s)
    (nfc_trimmed : (s : String)
      → host.trim (host.normalize_nfc (host.trim s)) ≡ host.normalize_nfc (host.trim s)) where
  abbrev t : String → String
  t = host.trim

  abbrev n : String → String
  n = host.normalize_nfc

  criterion_twice : (c : PacketCriterion) → on_criterion t (on_criterion t c) ≡ on_criterion t c
  criterion_twice c =
      rw
        (
          trim_twice c.id,
          trim_twice c.scenario,
          trim_twice c.observable,
          trim_twice c.expected,
          trim_twice c.evidence_logical_id,
        )
        refl

  criterion_again : (c : PacketCriterion) → on_criterion n (on_criterion n c) ≡ on_criterion n c
  criterion_again c =
      rw
        (
          nfc_twice c.id,
          nfc_twice c.scenario,
          nfc_twice c.observable,
          nfc_twice c.expected,
          nfc_twice c.evidence_logical_id,
        )
        refl

  criterion_kept :
      (c : PacketCriterion)
      → on_criterion t (on_criterion n (on_criterion t c)) ≡ on_criterion n (on_criterion t c)
  criterion_kept c =
      rw
        (
          nfc_trimmed c.id,
          nfc_trimmed c.scenario,
          nfc_trimmed c.observable,
          nfc_trimmed c.expected,
          nfc_trimmed c.evidence_logical_id,
        )
        refl

  requirement_twice :
      (r : EvidenceRequirement) → on_requirement t (on_requirement t r) ≡ on_requirement t r
  requirement_twice r = rw (trim_twice r.logical_id) refl

  requirement_again :
      (r : EvidenceRequirement) → on_requirement n (on_requirement n r) ≡ on_requirement n r
  requirement_again r = rw (nfc_twice r.logical_id) refl

  requirement_kept :
      (r : EvidenceRequirement)
      → on_requirement t (on_requirement n (on_requirement t r))
        ≡ on_requirement n (on_requirement t r)
  requirement_kept r = rw (nfc_trimmed r.logical_id) refl

  text_normal : (s : String) → n (t (n (t s))) ≡ t (n (t s))
  text_normal s = ap n (nfc_trimmed s) ∙ nfc_twice (t s) ∙ sym (nfc_trimmed s)

  -- The fields that the compilation of the fields `h` parses
  abbrev pub final : PacketFields → PacketFields
  final h = trimmed host (candidate_packet host (trimmed host h) []).fields

  pub final_trimmed : (h : PacketFields) → on_fields t (λ path. path) (final h) ≡ final h
  unfolding candidate_packet
  final_trimmed h =
      on_fields-fixed t (λ path. path) (final h) (trim_twice _) (trim_twice _) (trim_twice _)
        (trim_twice _) (trims host (λ path. path) n (λ x. refl) nfc_twice (λ x. refl) _)
        (trims host t n trim_twice nfc_twice nfc_trimmed _)
        (trims host t n trim_twice nfc_twice nfc_trimmed _)
        (trims host (on_criterion t) (on_criterion n) criterion_twice criterion_again criterion_kept
          _)
        (trims host (on_requirement t) (on_requirement n) requirement_twice requirement_again
          requirement_kept _)

  final_normal : (h : PacketFields) → on_fields n n (final h) ≡ final h
  unfolding candidate_packet
  final_normal h =
      on_fields-fixed n n (final h) (text_normal h.run_id) (text_normal h.task_id)
        (text_normal h.objective) (text_normal h.deliverable)
        (normal_sorted host (λ path. path) n (λ x. refl) nfc_twice (λ x. refl) (λ s. s)
          h.allowed_paths)
        (normal_sorted host t n trim_twice nfc_twice nfc_trimmed (λ s. s) h.reference_ids)
        (normal_plain host t n trim_twice nfc_twice nfc_trimmed h.dependency_ids)
        (normal_plain host (on_criterion t) (on_criterion n) criterion_twice criterion_again
          criterion_kept h.criteria)
        (normal_sorted host (on_requirement t) (on_requirement n) requirement_twice
          requirement_again requirement_kept logical_id_of h.evidence_requirements)

  pub final_again :
      (h : PacketFields) (tags : List BoundaryTag)
      → candidate_packet host (final h) tags
        ≡ record { fields = final h; boundary_tags = canonical_tags host tags }
  unfolding candidate_packet
  final_again h tags =
      ap (λ x. record { fields = sorted_fields host x; boundary_tags = canonical_tags host tags })
        (final_normal h)
      ∙ ap (λ x. record { fields = x; boundary_tags = canonical_tags host tags })
          (sorted_fields-fixed host (final h)
            (sorted_again host (λ path. path) n (λ x. refl) nfc_twice (λ x. refl) (λ s. s)
              h.allowed_paths)
            (sorted_again host t n trim_twice nfc_twice nfc_trimmed (λ s. s) h.reference_ids)
            (sorted_again host (on_requirement t) (on_requirement n) requirement_twice
              requirement_again requirement_kept logical_id_of h.evidence_requirements))
