-- ===== src/State/Recovery/Replay.antt =====
-- transaction-store.ts: an event that was committed is recognised when it is submitted again.
use omp_lazy.Prelude.{
  ℕ, ◌≡◌, refl, sym, subst, ◌∙◌, Bool, true, false, String, List, [], ◌∷◌, ◌++◌, some, none, inl,
  inr, arith, ◌==◌, string_eq, eq_iff, Bool-cases, if◌then◌else◌,
}
use omp_lazy.Prelude.Result.{ok}
use omp_lazy.State.Domain.{StateEvent, EventVersion, IndexVersion}
use omp_lazy.State.Transition.{PreparedTransition}
use omp_lazy.State.Store.{
  Host, Disk, Outcome, success, failure, thrown, committed, replayed, idempotency_conflict, calm,
  publish, find_event, read_run, read_index, commit, commit_locked, commit_replay,
  persisted_event_for_index, SemanticEvent, semantic_part,
}
use omp_lazy.State.Recovery.Pending
use omp_lazy.State.Recovery.Pending.{IsHealthy, IsPending, IsReadable, is_committed}
use omp_lazy.State.Recovery.Repairs.{after_index-IsHealthy, read_run-after_run}
use omp_lazy.State.Recovery.Atomicity.{completed, KeepsReadable}

-- The outcome that reports a committed one a second time.
abbrev pub as_replayed : Outcome → Outcome
as_replayed (success code run index) = success replayed run index
as_replayed (failure code) = failure code
as_replayed thrown = thrown

-- Whether `commit` takes the event in the log for the one submitted.
abbrev pub is_same_text : Host → StateEvent → StateEvent → Bool
is_same_text host replay event =
    host.logged_text (semantic_part replay) == host.submitted_text (semantic_part event)

-- `schemaVersion`
abbrev pub schema_version : EventVersion → ℕ
schema_version EventVersion.v1 = 1
schema_version (EventVersion.v2 scope) = 2

-- Texts that agree show one schema version.
abbrev pub ShowsVersion : Host → Type 0
ShowsVersion host =
    (replay event : SemanticEvent)
    → (host.logged_text replay == host.submitted_text event) ≡ true
    → schema_version replay.version ≡ schema_version event.version

find_event-append :
    (events : List StateEvent) (e : StateEvent) (id : String)
    → find_event id events ≡ none
    → e.event_id ≡ id
    → find_event id (events ++ e ∷ []) ≡ some e
unfolding find_event
find_event-append [] e id h s = ground (arith, eq_iff e.event_id id)
find_event-append (x ∷ xs) e id h s = ground (arith, find_event-append xs e id)

module _ (host : Host) (event : StateEvent) (disk : Disk) (h : IsHealthy host disk)
    (keeps : KeepsReadable host event disk h) where
  -- The transition behind a committed outcome.
  committed-IsPending :
      is_committed (commit host calm event disk).1 ≡ true
      → (p : PreparedTransition) × IsPending host event disk h p
        × (commit host calm event disk
            ≡ (Pending.d3 host event disk h p, success committed p.run p.index))
  committed-IsPending c = elim (Pending.commit_cases host event disk h calm) [
    | inl (same, unmade) ↦ absurd (ground arith)
    | inr (p, pending, now, plain) ↦ (p, pending, plain ∙ unfold publish in refl)
  ]

  module _ (p : PreparedTransition) (pending : IsPending host event disk h p) where
    persisted-event_id : (Pending.persisted host event disk h).event_id ≡ event.event_id
    unfolding persisted_event_for_index
    persisted-event_id = ground arith

    -- What a second commit finds in the log.
    second_commit :
        commit host calm event (Pending.d3 host event disk h p)
        ≡ commit_replay host
            (Pending.persisted host event disk h)
            event
            p.index
            (Pending.d3 host event disk h p)
    unfolding commit commit_locked
    second_commit =
        let readable = keeps p pending in
        let healthy = after_index-IsHealthy host event disk h p pending readable in
        let read : read_index host (Pending.d3 host event disk h p) ≡ ok p.index =
          unfold read_index in readable.index_accepted in
        rw
          (
            read,
            Pending.log_read host event disk h p pending readable,
            find_event-append h.events (Pending.persisted host event disk h) event.event_id
                pending.fresh persisted-event_id,
          )
          refl

    abbrev after : Disk
    after = Pending.d3 host event disk h p

    stored_run : read_run host after event.run_id ≡ ok (some p.run)
    stored_run =
        let readable = keeps p pending in
        unfold read_run in read_run-after_run host event disk h p pending readable

    -- The text of the event as it stands in the log against that of the event as submitted.
    commit_compared : commit host calm event after ≡ (
      after,
      if is_same_text host (Pending.persisted host event disk h) event
          then success replayed p.run p.index
          else failure idempotency_conflict,
    )
    unfolding commit_replay
    commit_compared =
        elim (Bool-cases (is_same_text host (Pending.persisted host event disk h) event)) [
          | inl same ↦ second_commit ∙ rw (same, stored_run) refl
          | inr other ↦ second_commit ∙ rw other refl
        ]

  -- From a healthy directory, if what the event would publish can be read again: submitting a
  -- committed event again leaves the directory alone. The answer is a replay of the same run and
  -- index when the text of the event as the log has it is the text of the event as submitted, and an
  -- idempotency conflict when it is not.
  pub commit_again :
      is_committed (commit host calm event disk).1 ≡ true
      → commit host calm event (completed host event disk) ≡ (
        completed host event disk,
        if is_same_text host (persisted_event_for_index h.index event) event
            then as_replayed (commit host calm event disk).1
            else failure idempotency_conflict,
      )
  commit_again c =
      let (p, pending, plain) = committed-IsPending c in
      subst
        (λ (r : Disk × Outcome). commit host calm event r.0 ≡ (
          r.0,
          if is_same_text host (persisted_event_for_index h.index event) event
              then as_replayed r.1
              else failure idempotency_conflict,
        ))
        (sym plain) (commit_compared p pending)

  -- A version 1 event is in the log of a version 2 index as a version 2 event.
  upgraded-differs :
      (m : ℕ)
      → h.index.version ≡ IndexVersion.v2 m
      → event.version ≡ EventVersion.v1
      → ShowsVersion host
      → is_same_text host (persisted_event_for_index h.index event) event ≡ false
  unfolding persisted_event_for_index
  upgraded-differs m index_v2 event_v1 shows =
      elim (Bool-cases (is_same_text host (persisted_event_for_index h.index event) event)) [
        | inl same ↦ absurd (
            ground (
              arith,
              shows (semantic_part (persisted_event_for_index h.index event)) (semantic_part event)
                  same,
            ))
        | inr other ↦ other
      ]

  -- From a healthy directory, if what the event would publish can be read again: when the index is
  -- of version 2, the event of version 1, and texts that agree have one schema version, then
  -- submitting a committed event again leaves the directory alone and is an idempotency conflict.
  pub commit_again_upgraded :
      (m : ℕ)
      → is_committed (commit host calm event disk).1 ≡ true
      → h.index.version ≡ IndexVersion.v2 m
      → event.version ≡ EventVersion.v1
      → ShowsVersion host
      → commit host calm event (completed host event disk)
        ≡ (completed host event disk, failure idempotency_conflict)
  commit_again_upgraded m c index_v2 event_v1 shows =
      commit_again c ∙ rw (upgraded-differs m index_v2 event_v1 shows) refl
