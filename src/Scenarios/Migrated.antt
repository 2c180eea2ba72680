-- ===== src/Scenarios/Migrated.antt =====
-- The same creation in a directory whose index is of version 2.
use omp_lazy.Prelude.{◌≡◌, ◌⊎◌, inl, inr, refl, ap, true, false, [], none, ◌==◌, string_eq, arith}
use omp_lazy.Prelude.Result.{ok}
use omp_lazy.State.Domain.{RunVersion, StartWorkStatus, ActiveIndex, IndexVersion, EventVersion}
use omp_lazy.State.Texts.{trim_event}
use omp_lazy.State.Codec.{decode_run, decode_active_index, event_schema}
use omp_lazy.State.Index.{validate_active_index, status_hint}
use omp_lazy.State.Events.{read_all}
use omp_lazy.State.Transition.{PreparedTransition, prepare_transition, prepared_run, derive_index}
use omp_lazy.State.Store.{
  calm, failure, idempotency_conflict, read_index, read_run, commit, commit_locked, commit_new,
  publish, find_event, persisted_event_for_index, authority_for,
}
use omp_lazy.State.Recovery.Pending.{IsHealthy, is_committed}
use omp_lazy.State.Recovery.Atomicity.{completed}
use omp_lazy.State.Recovery.Replay.{schema_version, ShowsVersion, commit_again_upgraded}
use omp_lazy.Scenarios.Records.{start_run}
use omp_lazy.Scenarios.Directory.{
  texts, host, version_text, creation, disk, Made, disk-IsHealthy, keeps_readable, healthy-index,
}

abbrev migrated : ActiveIndex
migrated = record { version = IndexVersion.v2 1; revision = 0; entries = [] }

version_text-cases :
    (a b : EventVersion)
    → (schema_version a ≡ schema_version b) ⊎ ((version_text a == version_text b) ≡ false)
version_text-cases EventVersion.v1 EventVersion.v1 = inl refl
version_text-cases EventVersion.v1 (EventVersion.v2 scope) = inr refl
version_text-cases (EventVersion.v2 scope) EventVersion.v1 = inr refl
version_text-cases (EventVersion.v2 left) (EventVersion.v2 right) = inl refl

migrated-decoded : decode_active_index texts migrated ≡ ok migrated
unfolding decode_active_index validate_active_index
migrated-decoded = refl

migrated_healthy : IsHealthy host (disk migrated)
migrated_healthy = disk-IsHealthy migrated migrated-decoded refl

-- What the version 1 creation publishes under a version 2 index.
abbrev migrated_prepared : PreparedTransition
migrated_prepared =
    let run = start_run (RunVersion.v2 none none) StartWorkStatus.active in
    record { run = run; index = derive_index migrated run 1 }

prepares_migrated : Made migrated migrated_prepared none
unfolding prepare_transition prepared_run persisted_event_for_index authority_for
prepares_migrated = refl

migrated-schema : event_schema texts (persisted_event_for_index migrated creation) ≡ true
unfolding persisted_event_for_index
migrated-schema = refl

migrated-kept :
    trim_event texts (persisted_event_for_index migrated creation)
    ≡ persisted_event_for_index migrated creation
unfolding persisted_event_for_index
migrated-kept = refl

migrated_run-decoded : decode_run host.root migrated_prepared.run ≡ ok migrated_prepared.run
unfolding decode_run
migrated_run-decoded = refl

migrated_index-decoded :
    decode_active_index texts migrated_prepared.index ≡ ok migrated_prepared.index
unfolding decode_active_index validate_active_index derive_index status_hint
migrated_index-decoded = refl

migrated_commits : is_committed (commit host calm creation (disk migrated)).1 ≡ true
unfolding commit commit_locked commit_new publish read_index read_run read_all find_event
    prepare_transition prepared_run persisted_event_for_index authority_for decode_active_index
    validate_active_index decode_run
migrated_commits = refl

shows_version : ShowsVersion host
shows_version replay event same = elim (version_text-cases replay.version event.version) [
  | inl agree ↦ agree
  | inr differ ↦ absurd (ground arith)
]

index-version : migrated_healthy.index.version ≡ IndexVersion.v2 1
index-version = ap (λ k. k.version) (healthy-index migrated migrated_healthy migrated-decoded)

commit_again_upgraded_example :
    commit host calm creation (completed host creation (disk migrated))
    ≡ (completed host creation (disk migrated), failure idempotency_conflict)
commit_again_upgraded_example =
    commit_again_upgraded host creation (disk migrated) migrated_healthy
      (keeps_readable migrated migrated_prepared migrated-decoded prepares_migrated migrated-schema
        migrated-kept migrated_run-decoded migrated_index-decoded migrated_healthy)
      1 migrated_commits index-version refl shows_version
